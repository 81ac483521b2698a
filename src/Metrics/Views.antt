-- ===== src/Metrics/Views.antt =====
-- A collection as a function from scopes and names to metrics.
use monis_agent.Common.{
  ◌≡◌, refl, subst, [], ◌∷◌, Option, none, some, arith, Bool-cases, inl, inr, if◌then◌else◌,
}
use monis_agent.Common.Text.{Text, text_eq}
use monis_agent.Common.Dict.{Dict, lookup, insert, lookup-insert}
use monis_agent.Stats.{Stats}
use monis_agent.MetricMapper.{scoped_by, same_scope}
use monis_agent.Metrics.{Metric, timing, apdex, Metrics, or_empty, resolve, write_back}

-- The names under a scope.
abbrev pub names_of : Option Text → Metrics → Dict Metric
names_of none m = m.unscoped
names_of (some s) m = or_empty (lookup s m.scoped)

abbrev pub find : Text → Option Text → Metrics → Option Metric
find name scope m = lookup name (names_of (scoped_by scope) m)

pub resolve-names :
    (scope : Option Text) (m : Metrics) → (resolve scope m).0 ≡ names_of (scoped_by scope) m
unfolding resolve
resolve-names none m = refl
resolve-names (some []) m = refl
resolve-names (some (c ∷ s)) m = refl

names_of-insert :
    (s : Text) (scope : Option Text) (d : Dict Metric) (m : Metrics)
    → names_of scope (record m { scoped = insert s d m.scoped })
      ≡ (if same_scope (some s) scope then d else names_of scope m)
names_of-insert s none d m = refl
names_of-insert s (some t) d m = ground (arith, lookup-insert s t d m.scoped)

-- What was written to the names of one scope is found there, and the other scopes are as before.
pub names_of-write_back :
    (scope other : Option Text) (d : Dict Metric) (m : Metrics)
    → names_of other (write_back scope d (resolve scope m).1)
      ≡ (if same_scope (scoped_by scope) other then d else names_of other m)
unfolding write_back resolve
names_of-write_back none none d m = refl
names_of-write_back none (some t) d m = refl
names_of-write_back (some []) none d m = refl
names_of-write_back (some []) (some t) d m = refl
names_of-write_back (some (c ∷ s)) none d m = refl
names_of-write_back (some (c ∷ s)) (some t) d m = ground (
  arith,
  lookup-insert (c ∷ s) t d (insert (c ∷ s) (or_empty (lookup (c ∷ s) m.scoped)) m.scoped),
  lookup-insert (c ∷ s) t (or_empty (lookup (c ∷ s) m.scoped)) m.scoped,
)

-- Every metric is a timing one.
abbrev pub IsTiming : Metric → Type 0
IsTiming (timing s) = Unit
IsTiming (apdex s) = ⊥

abbrev pub AreTimings : Dict Metric → Type 0
AreTimings d = (name : Text) (metric : Metric) → lookup name d ≡ some metric → IsTiming metric

abbrev pub IsTimed : Metrics → Type 0
IsTimed m = (scope : Option Text) → AreTimings (names_of scope m)

pub insert-AreTimings :
    (name : Text) (s : Stats) (d : Dict Metric)
    → AreTimings d
    → AreTimings (insert name (timing s) d)
insert-AreTimings name s d h k metric e = elim (Bool-cases (text_eq name k)) [
  | inl same ↦
      let is : timing s ≡ metric = ground (arith, e, same, lookup-insert name k (timing s) d) in
      subst IsTiming is tt
  | inr other ↦ h k metric (ground (arith, e, other, lookup-insert name k (timing s) d))
]
