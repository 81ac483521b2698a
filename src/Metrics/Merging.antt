-- ===== src/Metrics/Merging.antt =====
-- Merging two collections of timing metrics.
use monis_agent.Common.{
  ◌≡◌, refl, ap, sym, ◌∙◌, [], ◌∷◌, Option, none, some, arith, Bool-cases, Option-cases, inl, inr,
}
use monis_agent.Common.Text.{Text, text_eq, text_eq_refl, text_eq→eq}
use monis_agent.Common.Dict.{Dict, lookup, insert, lookup-insert, IsDistinct}
use monis_agent.Stats
use monis_agent.Stats.{Arithmetic, Stats, summary}
use monis_agent.Metrics.{Metric, timing, apdex, merge_metric, merge_names}
use monis_agent.Metrics.Views.{IsTiming, AreTimings, insert-AreTimings}

module _ ⦃F : Arithmetic⦄ where
  -- What is found after merging, of what was found in each.
  abbrev pub merge_found : Option Metric → Option Metric → Option Metric
  merge_found ours none = ours
  merge_found none (some theirs) = some theirs
  merge_found (some ours) (some theirs) = merge_metric ours theirs

  pub merge_timings :
      (s t : Stats)
      → (u : Stats) × (Stats.merge s (summary t) ≡ some u)
        × (merge_metric (timing s) (timing t) ≡ some (timing u))
  unfolding merge_metric Stats.merge
  merge_timings s t = (_, refl, refl)

  -- One entry is merged under its name.
  merge_names-found :
      (name : Text) (ours theirs both : Metric) (a b : Dict Metric)
      → lookup name a ≡ some ours
      → merge_metric ours theirs ≡ some both
      → merge_names a ((name, theirs) ∷ b) ≡ merge_names (insert name both a) b
  unfolding merge_names
  merge_names-found name ours theirs both a b found e = rw (found, merge_names, e) refl

  merge_names-missing :
      (name : Text) (theirs : Metric) (a b : Dict Metric)
      → lookup name a ≡ none
      → merge_names a ((name, theirs) ∷ b) ≡ merge_names (insert name theirs a) b
  unfolding merge_names
  merge_names-missing name theirs a b missing = rw (merge_names, missing) refl

  AreTimings-rest :
      (name : Text) (theirs : Metric) (b : Dict Metric)
      → lookup name b ≡ none
      → AreTimings ((name, theirs) ∷ b)
      → AreTimings b
  unfolding lookup
  AreTimings-rest name theirs b once h k metric e = elim (Bool-cases (text_eq name k)) [
    | inl same ↦ ground (arith, e, once, text_eq→eq name k same)
    | inr other ↦ h k metric (rw other e)
  ]

  head-IsTiming :
      (name : Text) (theirs : Metric) (b : Dict Metric)
      → AreTimings ((name, theirs) ∷ b)
      → IsTiming theirs
  unfolding lookup
  head-IsTiming name theirs b h = h name theirs (rw (text_eq_refl name) refl)

  -- After one entry, what is found is what merging the entry gives.
  entry_merged :
      (name k : Text) (theirs both : Metric) (a b : Dict Metric)
      → lookup name b ≡ none
      → merge_found (lookup name a) (some theirs) ≡ some both
      → merge_found (lookup k (insert name both a)) (lookup k b)
        ≡ merge_found (lookup k a) (lookup k ((name, theirs) ∷ b))
  unfolding lookup
  entry_merged name k theirs both a b once e = elim (Bool-cases (text_eq name k)) [
    | inl same ↦
        let here : name ≡ k = text_eq→eq name k same in
        rw (same, lookup-insert name k both a, same) (rw (← here) (rw once (sym e)))
    | inr other ↦ rw (other, lookup-insert name k both a, other) refl
  ]

  timing_of : (metric : Metric) → IsTiming metric → (s : Stats) × (metric ≡ timing s)
  timing_of (timing s) h = (s, refl)
  timing_of (apdex s) h = absurd h

  -- The result of merging names, and what is found in it.
  abbrev pub Merged : Dict Metric → Dict Metric → Option (Dict Metric) → Type 0
  Merged a b result =
      (c : Dict Metric) × (result ≡ some c)
      × AreTimings c
      × ((k : Text) → lookup k c ≡ merge_found (lookup k a) (lookup k b))

  pub merge_names-Merged :
      (b a : Dict Metric)
      → AreTimings a
      → AreTimings b
      → IsDistinct b
      → Merged a b (merge_names a b)
  unfolding merge_names lookup
  merge_names-Merged [] a ha hb distinct = (a, refl, ha, λ k. refl)
  merge_names-Merged ((name, apdex s) ∷ b) a ha hb distinct =
      absurd (head-IsTiming name (apdex s) b hb)
  merge_names-Merged ((name, timing t) ∷ b) a ha hb distinct = elim (Option-cases (lookup name a)) [
    | inl missing ↦
        let rest =
          merge_names-Merged b (insert name (timing t) a) (insert-AreTimings name t a ha)
            (AreTimings-rest name (timing t) b distinct.0 hb) distinct.1 in
        (
          rest.0,
          merge_names-missing name (timing t) a b missing ∙ rest.1,
          rest.2,
          λ k.
              rest.3 k ∙ entry_merged name k (timing t) (timing t) a b distinct.0 (rw missing refl),
        )
    | inr found ↦
        let ours = timing_of found.0 (ha name found.0 found.1) in
        let here : lookup name a ≡ some (timing ours.0) = found.1 ∙ ap some ours.1 in
        let both = merge_timings ours.0 t in
        let rest =
          merge_names-Merged b (insert name (timing both.0) a) (insert-AreTimings name both.0 a ha)
            (AreTimings-rest name (timing t) b distinct.0 hb) distinct.1 in
        (
          rest.0,
          merge_names-found name (timing ours.0) (timing t) (timing both.0) a b here both.2
              ∙ rest.1,
          rest.2,
          λ k.
              rest.3 k
              ∙ entry_merged name k (timing t) (timing both.0) a b distinct.0 (rw here both.2),
        )
  ]
