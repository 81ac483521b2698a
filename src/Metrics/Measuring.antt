-- ===== src/Metrics/Measuring.antt =====
-- What one measurement does to a collection of timing metrics.
use monis_agent.Common.{
  ℕ, ◌≡◌, refl, ap, sym, ◌∙◌, [], ◌∷◌, Option, none, some, Bool, true, false, arith, Bool-cases,
  inl, inr, if◌then◌else◌,
}
use monis_agent.Common.Text.{Text, text_eq_refl, text_eq→eq}
use monis_agent.Common.Dict.{Dict, lookup, insert, lookup-insert}
use monis_agent.Stats
use monis_agent.Stats.{Arithmetic, Stats}
use monis_agent.MetricMapper.{scoped_by, same_scope}
use monis_agent.Metrics.{
  Metric, timing, apdex, Metrics, or_empty, resolve, or_create, get_or_create_metric, record_into,
  update_metric, record_in_millis, measure_milliseconds,
}
use monis_agent.Metrics.Views.{names_of, resolve-names, names_of-write_back, IsTiming, IsTimed}

-- The statistics of a metric that may be missing.
abbrev pub stats_of : Option Metric → Stats
unfolding Stats.new
stats_of none = Stats.new
stats_of (some (timing s)) = s
stats_of (some (apdex s)) = Stats.new

module _ ⦃F : Arithmetic⦄ where
  abbrev pub recorded : Option ℕ → Option ℕ → Option Metric → Metric
  recorded duration exclusive before =
      timing (Stats.record_value_in_millis (stats_of before) duration exclusive)

  -- The names under the scope of a measurement.
  abbrev pub measured : Text → Option ℕ → Option ℕ → Dict Metric → Dict Metric
  measured name duration exclusive d = insert name (recorded duration exclusive (lookup name d)) d

  -- A measurement succeeds and changes the names under its scope only, in which it changes its own.
  abbrev pub Measures : Text → Option Text → Option ℕ → Option ℕ → Metrics → Metrics → Type 0
  Measures name scope duration exclusive m m' =
      (other : Option Text)
      → (k : Text)
      → lookup k (names_of other m') ≡ (
          if same_scope (scoped_by scope) other
          then lookup k (measured name duration exclusive (names_of (scoped_by scope) m))
          else lookup k (names_of other m))

-- What updating the metric of a collection does.
update_metric-names :
    (name : Text) (scope other : Option Text) (stats : Metric) (m : Metrics)
    → names_of other (update_metric name scope stats m) ≡ (
        if same_scope (scoped_by scope) other
        then insert name stats (names_of (scoped_by scope) m)
        else names_of other m)
unfolding update_metric
update_metric-names name scope other stats m =
    names_of-write_back scope other (insert name stats (resolve scope m).0) m
    ∙ ap (λ d. if same_scope (scoped_by scope) other then insert name stats d else names_of other m)
        (resolve-names scope m)

insert-twice :
    (name k : Text) (a b : Metric) (d : Dict Metric)
    → lookup k (insert name a (insert name b d)) ≡ lookup k (insert name a d)
insert-twice name k a b d = ground (
  arith,
  lookup-insert name k a (insert name b d),
  lookup-insert name k b d,
  lookup-insert name k a d,
)

same_scope_refl : (s : Option Text) → same_scope s s ≡ true
same_scope_refl none = refl
same_scope_refl (some s) = text_eq_refl s

names_of-empty :
    (other : Option Text) (b : Bool) (m : Metrics)
    → names_of other (record m { empty = b }) ≡ names_of other m
names_of-empty none b m = refl
names_of-empty (some s) b m = refl

-- Resolving a scope leaves what is found as it was.
pub resolved-names :
    (scope other : Option Text) (m : Metrics)
    → names_of other (resolve scope m).1 ≡ names_of other m
unfolding resolve
resolved-names none other m = refl
resolved-names (some []) other m = refl
resolved-names (some (c ∷ s)) none m = refl
resolved-names (some (c ∷ s)) (some t) m = ground (
  arith,
  lookup-insert (c ∷ s) t (or_empty (lookup (c ∷ s) m.scoped)) m.scoped,
  text_eq→eq (c ∷ s) t,
)

module _ ⦃F : Arithmetic⦄ (name : Text) (scope : Option Text) (duration exclusive : Option ℕ)
    (m : Metrics) where
  names : Dict Metric
  names = names_of (scoped_by scope) m

  -- The collection with a new metric in it.
  created : Metrics
  unfolding or_create
  created = (or_create name scope (resolve scope m) none).1

  created-names :
      (other : Option Text)
      → names_of other created ≡ (
          if same_scope (scoped_by scope) other
          then insert name (timing Stats.new) names
          else names_of other m)
  unfolding created or_create names
  created-names other =
      names_of-empty other false _
      ∙ names_of-write_back scope other (insert name (timing Stats.new) (resolve scope m).0) m
      ∙ ap
          (λ d.
            if same_scope (scoped_by scope) other
            then insert name (timing Stats.new) d
            else names_of other m)
          (resolve-names scope m)

  or_create-Measures :
      (o : Option Metric)
      → lookup name (resolve scope m).0 ≡ o
      → ((metric : Metric) → o ≡ some metric → IsTiming metric)
      → (m' : Metrics) × (record_into name scope duration exclusive
            (or_create name scope (resolve scope m) o)
          ≡ some m')
        × Measures name scope duration exclusive m m'
  unfolding record_into or_create record_in_millis created names
  or_create-Measures none e h =
      let stats = recorded duration exclusive none in
      let here : lookup name names ≡ none = ap (lookup name) (sym (resolve-names scope m)) ∙ e in
      (
        update_metric name scope stats created,
        refl,
        λ other k.
            ap (lookup k) (update_metric-names name scope other stats created)
            ∙ rw
                (
                  created-names other,
                  created-names (scoped_by scope),
                  same_scope_refl (scoped_by scope),
                  here,
                )
                (elim (Bool-cases (same_scope (scoped_by scope) other)) [
                  | inl same ↦ rw same (insert-twice name k stats (timing Stats.new) names)
                  | inr differs ↦ rw differs refl
                ]),
      )
  or_create-Measures (some (timing s)) e h =
      let stats = recorded duration exclusive (some (timing s)) in
      let here : lookup name names ≡ some (timing s) =
        ap (lookup name) (sym (resolve-names scope m)) ∙ e in
      (
        update_metric name scope stats (resolve scope m).1,
        refl,
        λ other k.
            ap (lookup k) (update_metric-names name scope other stats (resolve scope m).1)
            ∙ rw (resolved-names scope other m, resolved-names scope (scoped_by scope) m, here)
                (elim (Bool-cases (same_scope (scoped_by scope) other)) [
                  | inl same ↦ rw same refl
                  | inr differs ↦ rw differs refl
                ]),
      )
  or_create-Measures (some (apdex s)) e h = absurd (h (apdex s) refl)

  -- A measurement on timing metrics succeeds.
  pub measure_milliseconds-Measures :
      IsTimed m
      → (m' : Metrics) × (measure_milliseconds name scope duration exclusive m ≡ some m')
        × Measures name scope duration exclusive m m'
  unfolding measure_milliseconds get_or_create_metric
  measure_milliseconds-Measures timed =
      or_create-Measures (lookup name (resolve scope m).0) refl (λ metric e.
        timed (scoped_by scope) name metric (ap (lookup name) (sym (resolve-names scope m)) ∙ e))
