-- ===== src/Metrics/Collecting.antt =====
-- A collection that is merged into another, against one that was measured into.
use monis_agent.Common.{
  ℕ, ◌≡◌, refl, ap, sym, subst, ◌∙◌, List, [], ◌∷◌, Option, none, some, Bool, true, arith,
  Bool-cases, inl, inr,
}
use monis_agent.Common.Text.{Text, text_eq, text_eq→eq}
use monis_agent.Common.Dict.{Dict, lookup, lookup-insert}
use monis_agent.Stats.{Arithmetic}
use monis_agent.MetricMapper.{scoped_by, same_scope}
use monis_agent.Metrics
use monis_agent.Metrics.{Metric, timing, apdex, Metrics, merge_metric, merge, measure_milliseconds}
use monis_agent.Metrics.Views.{names_of, find, AreTimings, IsTimed, insert-AreTimings}
use monis_agent.Metrics.Measuring.{recorded, measured, Measures, measure_milliseconds-Measures}
use monis_agent.Metrics.Alike.{AlikeFound, recorded-merge_found, found_alike}
use monis_agent.Metrics.Proper.{IsProper, measure_milliseconds-IsProper}
use monis_agent.Metrics.Merging.{merge_found}
use monis_agent.Metrics.Scopes.{merge-found}

pub record Measurement : Type 0 where
  pub name : Text
  pub scope : Option Text
  pub duration : Option ℕ
  pub exclusive : Option ℕ

module _ ⦃F : Arithmetic⦄ where
  -- Measuring one after the other.
  unfoldable pub measure_all : List Measurement → Metrics → Option Metrics
  measure_all [] m = some m
  measure_all (x ∷ xs) m = elim (measure_milliseconds x.name x.scope x.duration x.exclusive m) [
    | none ↦ none
    | some m' ↦ measure_all xs m'
  ]

  AreTimings-subst :
      (d d' : Dict Metric) → ((k : Text) → lookup k d' ≡ lookup k d) → AreTimings d → AreTimings d'
  AreTimings-subst d d' same h k metric e = h k metric (sym (same k) ∙ e)

  -- A measurement keeps the metrics timing ones.
  Measures-IsTimed :
      (name : Text) (scope : Option Text) (x e : Option ℕ) (m m' : Metrics)
      → Measures name scope x e m m'
      → IsTimed m
      → IsTimed m'
  Measures-IsTimed name scope x e m m' h timed other =
      elim (Bool-cases (same_scope (scoped_by scope) other)) [
        | inl same ↦
            AreTimings-subst (measured name x e (names_of (scoped_by scope) m)) (names_of other m')
              (λ k. h other k ∙ rw same refl)
              (insert-AreTimings name _ (names_of (scoped_by scope) m) (timed (scoped_by scope)))
        | inr differs ↦
            AreTimings-subst (names_of other m) (names_of other m')
              (λ k. h other k ∙ rw differs refl) (timed other)
      ]

  -- What is found in one collection is like what merging another into a third gives.
  abbrev IsMerge : Metrics → Metrics → Metrics → Type 0
  IsMerge m t both =
      (other : Option Text)
      → (k : Text)
      → AlikeFound (merge_found (lookup k (names_of other m)) (lookup k (names_of other t)))
          (lookup k (names_of other both))

  measured-merge_found :
      (name k : Text) (x e : Option ℕ) (a b c : Dict Metric)
      → AreTimings a
      → AreTimings b
      → ((j : Text) → AlikeFound (merge_found (lookup j a) (lookup j b)) (lookup j c))
      → AlikeFound
          (merge_found (lookup k a) (lookup k (measured name x e b)))
          (lookup k (measured name x e c))
  measured-merge_found name k x e a b c ha hb h = elim (Bool-cases (text_eq name k)) [
    | inl same ↦
        rw (lookup-insert name k _ c, lookup-insert name k _ b, same)
          (subst
            (λ j.
              AlikeFound (merge_found (lookup j a) (some (recorded x e (lookup name b))))
                (some (recorded x e (lookup name c))))
            (text_eq→eq name k same)
            (recorded-merge_found x e (lookup name a) (lookup name b) (lookup name c) (ha name)
              (hb name) (h name)))
    | inr other ↦ rw (lookup-insert name k _ c, lookup-insert name k _ b, other) (h k)
  ]

  same_scope→eq : (s t : Option Text) → same_scope s t ≡ true → s ≡ t
  same_scope→eq none none e = refl
  same_scope→eq none (some t) e = cc
  same_scope→eq (some s) none e = cc
  same_scope→eq (some s) (some t) e = ap some (text_eq→eq s t e)

  -- One measurement in both collections keeps that.
  Measures-IsMerge :
      (name : Text) (scope : Option Text) (x e : Option ℕ) (m t t' both both' : Metrics)
      → IsTimed m
      → IsTimed t
      → Measures name scope x e t t'
      → Measures name scope x e both both'
      → IsMerge m t both
      → IsMerge m t' both'
  Measures-IsMerge name scope x e m t t' both both' timed theirs ht hb h other k =
      elim (Bool-cases (same_scope (scoped_by scope) other)) [
        | inl same ↦
            rw (ht other k, hb other k, same)
              (subst
                (λ o.
                  AlikeFound
                    (merge_found (lookup k (names_of o m))
                      (lookup k (measured name x e (names_of (scoped_by scope) t))))
                    (lookup k (measured name x e (names_of (scoped_by scope) both))))
                (same_scope→eq (scoped_by scope) other same)
                (measured-merge_found name k x e (names_of (scoped_by scope) m)
                  (names_of (scoped_by scope) t) (names_of (scoped_by scope) both)
                  (timed (scoped_by scope)) (theirs (scoped_by scope)) (h (scoped_by scope))))
        | inr differs ↦ rw (ht other k, hb other k, differs) (h other k)
      ]

  -- Measuring in both collections succeeds, and keeps that.
  abbrev Together : List Measurement → Metrics → Metrics → Metrics → Type 0
  Together xs m t both =
      (t' both' : Metrics) × (measure_all xs t ≡ some t')
      × (measure_all xs both ≡ some both')
      × IsTimed t'
      × IsProper t'
      × IsMerge m t' both'

  measure_all-Together :
      (xs : List Measurement) (m t both : Metrics)
      → IsTimed m
      → IsTimed t
      → IsProper t
      → IsTimed both
      → IsMerge m t both
      → Together xs m t both
  unfolding measure_all
  measure_all-Together [] m t both timed ht proper hb h = (t, both, refl, refl, ht, proper, h)
  measure_all-Together (x ∷ xs) m t both timed ht proper hb h =
      let one = measure_milliseconds-Measures x.name x.scope x.duration x.exclusive t ht in
      let two = measure_milliseconds-Measures x.name x.scope x.duration x.exclusive both hb in
      let rest =
        measure_all-Together xs m one.0 two.0 timed
          (Measures-IsTimed x.name x.scope x.duration x.exclusive t one.0 one.2 ht)
          (measure_milliseconds-IsProper x.name x.scope x.duration x.exclusive t one.0 proper one.1)
          (Measures-IsTimed x.name x.scope x.duration x.exclusive both two.0 two.2 hb)
          (Measures-IsMerge x.name x.scope x.duration x.exclusive m t one.0 both two.0 timed ht
            one.2 two.2 h) in
      (
        rest.0,
        rest.1,
        rw (one.1, measure_all) rest.2,
        rw (two.1, measure_all) rest.3,
        rest.4,
        rest.5,
        rest.6,
      )

  -- Whatever the host's arithmetic: measuring in a fresh collection and merging that into any collection
  -- without Apdex metrics succeeds, and so does measuring one by one in that collection. For every name
  -- in every scope the two then find no metric, or timing metrics of the same count, minimum and
  -- maximum.
  pub merge-measure_all :
      (xs : List Measurement) (m : Metrics) (started apdex_t : ℕ) (adjust : Bool)
      → IsTimed m
      → (fresh collected merged direct : Metrics) × (Metrics.new started (some apdex_t)
          ≡ some fresh)
        × (measure_all xs fresh ≡ some collected)
        × (merge collected adjust m ≡ some merged)
        × (measure_all xs m ≡ some direct)
        × ((name : Text)
            → (scope : Option Text) → AlikeFound (find name scope merged) (find name scope direct))
  unfolding Metrics.new lookup
  merge-measure_all xs m started apdex_t adjust timed =
      let fresh : Metrics = record {
        empty = true;
        started = started;
        apdex_t = apdex_t;
        unscoped = [];
        scoped = [];
      } in
      let nothing : (o : Option Text) → names_of o fresh ≡ [] =
        λ o. elim o as (λ s. names_of s fresh ≡ []) [ none ↦ refl | some s ↦ refl ] in
      let ht : IsTimed fresh = λ o. rw (nothing o) (λ name metric e. ground (arith, e)) in
      let proper : IsProper fresh = record {
        scopes_once = tt;
        scopes_named = refl;
        names_once = λ o. rw (nothing o) tt;
      } in
      let both =
        measure_all-Together xs m fresh m timed ht proper timed
          (λ o k. rw (nothing o) (found_alike (lookup k (names_of o m)) (timed o k))) in
      let merged = merge-found both.0 m adjust timed both.4 both.5 in
      (
        fresh,
        both.0,
        merged.0,
        both.1,
        refl,
        both.2,
        merged.1,
        both.3,
        λ name scope.
            subst (λ o. AlikeFound o (find name scope both.1))
              (sym (merged.2 (scoped_by scope) name)) (both.6 (scoped_by scope) name),
      )
