-- ===== src/MetricMapper.antt =====
-- lib/metrics/mapper.js: the ids that the collector gave to metric names. An id is a number, and 0 is
-- falsy. Logging is left out.
pub mod Latest
use monis_agent.Common.{
  ℕ, suc, List, [], ◌∷◌, Option, none, some, Bool, true, false, ◌==◌, if◌then◌else◌,
}
use monis_agent.Common.Text.{Text, text_eq}
use monis_agent.Common.Dict.{Dict, lookup, insert}

pub record MetricMapper : Type 0 where
  pub unscoped : Dict ℕ
  pub scoped : Dict (Dict ℕ)
  pub length : ℕ

-- An entry of a response of the collector: a specification and its id.
pub record Mapping : Type 0 where
  pub name : Text
  pub scope : Option Text
  pub id : ℕ

-- A scope that is missing or empty is falsy.
abbrev pub scoped_by : Option Text → Option Text
scoped_by none = none
scoped_by (some []) = none
scoped_by (some (c ∷ s)) = some (c ∷ s)

abbrev pub same_scope : Option Text → Option Text → Bool
same_scope none none = true
same_scope none (some t) = false
same_scope (some s) none = false
same_scope (some s) (some t) = text_eq s t

-- An id that is missing or 0 is falsy.
abbrev pub known : Option ℕ → Option ℕ
known none = none
known (some id) = if id == 0 then none else some id

abbrev pub or_empty : Option (Dict ℕ) → Dict ℕ
or_empty none = []
or_empty (some d) = d

abbrev counted : Option ℕ → ℕ → ℕ
counted none n = suc n
counted (some id) n = n

-- What a round of the loop of `load` does, by the scope.
unfoldable pub load_into : Option Text → Mapping → MetricMapper → MetricMapper
load_into none m mapper = record mapper {
  unscoped = insert m.name m.id mapper.unscoped;
  length = counted (known (lookup m.name mapper.unscoped)) mapper.length;
}
load_into (some scope) m mapper =
    let resolved = or_empty (lookup scope mapper.scoped) in
    record mapper {
      scoped = insert scope (insert m.name m.id resolved) mapper.scoped;
      length = counted (known (lookup m.name resolved)) mapper.length;
    }

unfoldable pub load_one : Mapping → MetricMapper → MetricMapper
unfolding load_into
load_one m mapper = load_into (scoped_by m.scope) m mapper

-- An empty list and a missing one change nothing.
unfoldable pub load : List Mapping → MetricMapper → MetricMapper
unfolding load_one
load [] mapper = mapper
load (m ∷ raw) mapper = load raw (load_one m mapper)

unfoldable pub new : List Mapping → MetricMapper
unfolding load
new raw = load raw (record { unscoped = []; scoped = []; length = 0 })

pub data Mapped : Type 0 where
  id : ℕ → Mapped
  spec : Text → Option Text → Mapped

abbrev pub or_spec : Option ℕ → Text → Option Text → Mapped
or_spec none name scope = spec name scope
or_spec (some n) name scope = id n

unfoldable pub map : Text → Option Text → MetricMapper → Mapped
map name scope mapper = elim (scoped_by scope) [
  | none ↦ or_spec (known (lookup name mapper.unscoped)) name none
  | some s ↦ or_spec (known (lookup name (or_empty (lookup s mapper.scoped)))) name (some s)
]
