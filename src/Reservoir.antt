-- ===== src/Reservoir.antt =====
-- lib/reservoir.js. An array is a list of options, in which `none` is a hole: the assignment to an
-- index past the end makes holes. `Math.floor(Math.random() * n)` is an argument, a function of n.
pub mod Full
pub mod Holes
use monis_agent.Common.{
  ℕ, zero, suc, ◌+◌, ◌-◌, List, [], ◌∷◌, ◌++◌, Option, none, some, Bool, ltb, leb, ◌==◌,
  if◌then◌else◌, length, take,
}

module _ {ℓ} (A : Type ℓ) where
  pub record Reservoir : Type ℓ where
    pub limit : ℕ
    pub seen : ℕ
    pub data_items : List (Option A)

  -- A limit that is missing or 0 is 10.
  unfoldable pub new : Option ℕ → Reservoir
  new limit = record {
    limit = elim limit [ none ↦ 10 | some n ↦ if n == 0 then 10 else n ];
    seen = 0;
    data_items = [];
  }

  -- `data[index] = item`
  unfoldable pub assign : List (Option A) → ℕ → A → List (Option A)
  assign [] zero item = some item ∷ []
  assign [] (suc index) item = none ∷ assign [] index item
  assign (x ∷ items) zero item = some item ∷ items
  assign (x ∷ items) (suc index) item = x ∷ assign items index item

  unfoldable pub overflow : Reservoir → ℕ
  overflow r = if leb r.limit r.seen then r.seen - r.limit else 0

  unfoldable pub add : (ℕ → ℕ) → A → Reservoir → Reservoir
  unfolding assign
  add random item r =
      let to_replace = random (r.seen + 2) in
      if ltb r.seen r.limit
      then (record r { data_items = r.data_items ++ some item ∷ []; seen = suc r.seen })
      else if ltb to_replace r.limit
      then (record r { data_items = assign r.data_items to_replace item; seen = suc r.seen })
      else (record r { seen = suc r.seen })

  -- `merge` of an array that is not the reservoir's own. Each addition draws anew.
  unfoldable pub merge : (ℕ → ℕ) → List A → Reservoir → Reservoir
  unfolding add
  merge random [] r = r
  merge random (item ∷ items) r = merge random items (add random item r)

  unfoldable pub set_limit : ℕ → Reservoir → Reservoir
  set_limit new_limit r =
      if ltb new_limit (length r.data_items)
      then (record r { limit = new_limit; data_items = take new_limit r.data_items })
      else (record r { limit = new_limit })
