-- ===== src/Reservoir/Holes.antt =====
-- A reservoir whose limit is raised after it turned items away.
use monis_agent.Common.{
  ℕ, zero, suc, ◌+◌, ◌≤◌, ◌<◌, List, [], ◌∷◌, Option, none, some, arith, length, lt→ltb, not_lt→ltb,
}
use monis_agent.Reservoir.{Reservoir, assign, add, set_limit}
use monis_agent.Reservoir.Full.{Solid}

module _ {ℓ} (A : Type ℓ) where
  assign-holes :
      (items : List (Option A)) (n : ℕ) (a : A) → length items < n → ¬ Solid A (assign A items n a)
  unfolding assign
  assign-holes [] zero a h s = ground (arith, h)
  assign-holes [] (suc n) a h s = s
  assign-holes (none ∷ items) zero a h s = ground (arith, h)
  assign-holes (none ∷ items) (suc n) a h s = s
  assign-holes (some x ∷ items) zero a h s = ground (arith, h)
  assign-holes (some x ∷ items) (suc n) a h s = assign-holes items n a (omega (arith, h)) s

  -- If the limit is raised, but not past the number of items seen, and the number drawn for the next
  -- item lies past the end of the array and below the limit, then adding the item makes a hole.
  pub add-holes :
      (random : ℕ → ℕ) (a : A) (r : Reservoir A) (new_limit : ℕ)
      → new_limit ≤ r.seen
      → length r.data_items < random (r.seen + 2)
      → random (r.seen + 2) < new_limit
      → ¬ Solid A (add A random a (set_limit A new_limit r)).data_items
  unfolding add set_limit
  add-holes random a r new_limit seen past below =
      let fits = not_lt→ltb new_limit (length r.data_items) (λ h. omega (arith, h, past, below)) in
      let full = not_lt→ltb r.seen new_limit (λ h. omega (arith, h, seen)) in
      let drawn = lt→ltb (random (r.seen + 2)) new_limit below in
      rw (fits, full, drawn) (assign-holes r.data_items (random (r.seen + 2)) a past)
