-- ===== src/Metrics/Scopes.antt =====
-- Merging two collections of timing metrics, scope by scope.
use monis_agent.Common.{
  ℕ, min, ◌≡◌, refl, ap, sym, subst, ◌∙◌, [], ◌∷◌, Option, none, some, Bool, ◌&&◌, arith,
  Bool-cases, inl, inr, if◌then◌else◌,
}
use monis_agent.Common.Text.{Text, text_eq, text_eq_refl, text_eq→eq}
use monis_agent.Common.Dict.{Dict, lookup, IsDistinct}
use monis_agent.Stats.{Arithmetic}
use monis_agent.MetricMapper.{same_scope}
use monis_agent.Metrics.{Metric, Metrics, or_empty, resolve, write_back, merge_scopes, merge}
use monis_agent.Metrics.Views.{names_of, resolve-names, names_of-write_back, AreTimings, IsTimed}
use monis_agent.Metrics.Proper.{IsProper}
use monis_agent.Metrics.Merging.{merge_found, merge_names-Merged}

abbrev Scopes : Type 0
Scopes = Dict (Dict Metric)

module _ ⦃F : Arithmetic⦄ where
  abbrev scope_names : Option Text → Scopes → Dict Metric
  scope_names none scopes = []
  scope_names (some s) scopes = or_empty (lookup s scopes)

  -- In every scope, what is found after the merge is what merging gives.
  abbrev AreMerged : Scopes → Metrics → Metrics → Type 0
  AreMerged scopes m c =
      (other : Option Text)
      → (k : Text)
      → lookup k (names_of other c)
        ≡ merge_found (lookup k (names_of other m)) (lookup k (scope_names other scopes))

  abbrev AreTimedScopes : Scopes → Type 0
  AreTimedScopes scopes =
      (s : Text) → AreTimings (or_empty (lookup s scopes)) × IsDistinct (or_empty (lookup s scopes))

  -- What the entry of one scope adds to what the rest of the scopes do.
  scope_merged :
      (c : ℕ) (s k : Text) (names merged : Dict Metric) (scopes : Scopes) (m : Metrics)
      (other : Option Text)
      → lookup (c ∷ s) scopes ≡ none
      → lookup k merged ≡ merge_found (lookup k (names_of (some (c ∷ s)) m)) (lookup k names)
      → merge_found
          (lookup k (if same_scope (some (c ∷ s)) other then merged else names_of other m))
          (lookup k (scope_names other scopes))
        ≡ merge_found
            (lookup k (names_of other m))
            (lookup k (scope_names other ((c ∷ s, names) ∷ scopes)))
  unfolding lookup
  scope_merged c s k names merged scopes m none once e = refl
  scope_merged c s k names merged scopes m (some t) once e = elim (Bool-cases (text_eq (c ∷ s) t)) [
    | inl same ↦ rw (same, ← (text_eq→eq (c ∷ s) t same), once, e) refl
    | inr differs ↦ rw (differs) refl
  ]

  names_of-IsTimed :
      (c : ℕ) (s : Text) (merged : Dict Metric) (m : Metrics)
      → AreTimings merged
      → IsTimed m
      → IsTimed (write_back (some (c ∷ s)) merged (resolve (some (c ∷ s)) m).1)
  names_of-IsTimed c s merged m h timed other =
      subst AreTimings (sym (names_of-write_back (some (c ∷ s)) other merged m))
        (elim (Bool-cases (same_scope (some (c ∷ s)) other)) [
          | inl same ↦ rw same h
          | inr differs ↦ rw differs (timed other)
        ])

  rest-AreTimedScopes :
      (s : Text) (names : Dict Metric) (scopes : Scopes)
      → lookup s scopes ≡ none
      → AreTimedScopes ((s, names) ∷ scopes)
      → AreTimedScopes scopes
  unfolding lookup
  rest-AreTimedScopes s names scopes once h t = elim (Bool-cases (text_eq s t)) [
    | inl same ↦ rw (← (text_eq→eq s t same), once) (λ name metric e. ground (arith, e), tt)
    | inr differs ↦
        subst (λ d. AreTimings (or_empty d) × IsDistinct (or_empty d))
          {x = lookup t ((s, names) ∷ scopes)} {y = lookup t scopes} (rw differs refl) (h t)
  ]

  head-AreTimedScopes :
      (s : Text) (names : Dict Metric) (scopes : Scopes)
      → AreTimedScopes ((s, names) ∷ scopes)
      → AreTimings names × IsDistinct names
  unfolding lookup
  head-AreTimedScopes s names scopes h =
      subst (λ d. AreTimings (or_empty d) × IsDistinct (or_empty d))
        {x = lookup s ((s, names) ∷ scopes)} {y = some names} (rw (text_eq_refl s) refl) (h s)

  pub merge_scopes-AreMerged :
      (scopes : Scopes) (m : Metrics)
      → IsTimed m
      → IsDistinct scopes
      → lookup [] scopes ≡ none
      → AreTimedScopes scopes
      → (c : Metrics) × (merge_scopes scopes m ≡ some c) × AreMerged scopes m c
  unfolding merge_scopes lookup text_eq
  merge_scopes-AreMerged [] m timed distinct named h = (
    m,
    refl,
    λ other k.
        elim other
          as (λ o.
            lookup k (names_of o m)
            ≡ merge_found (lookup k (names_of o m)) (lookup k (scope_names o []))) [
              | none ↦ refl
              | some s ↦ refl
            ],
  )
  merge_scopes-AreMerged (([], names) ∷ scopes) m timed distinct named h = ground (arith, named)
  merge_scopes-AreMerged ((c ∷ s, names) ∷ scopes) m timed distinct named h =
      let scope : Option Text = some (c ∷ s) in
      let theirs = head-AreTimedScopes (c ∷ s) names scopes h in
      let here =
        merge_names-Merged names (resolve scope m).0
          (subst AreTimings (sym (resolve-names scope m)) (timed scope)) theirs.0 theirs.1 in
      let m' = write_back scope here.0 (resolve scope m).1 in
      let rest =
        merge_scopes-AreMerged scopes m' (names_of-IsTimed c s here.0 m here.2 timed) distinct.1
          named (rest-AreTimedScopes (c ∷ s) names scopes distinct.0 h) in
      (
        rest.0,
        rw (here.1, merge_scopes) rest.1,
        λ other k.
            rest.2 other k
            ∙ ap (λ d. merge_found (lookup k d) (lookup k (scope_names other scopes)))
                (names_of-write_back scope other here.0 m)
            ∙ scope_merged c s k names here.0 scopes m other distinct.0 (
                here.3 k
                ∙ ap (λ d. merge_found (lookup k d) (lookup k names)) (resolve-names scope m)),
      )

  -- Merging timing metrics succeeds, and finds in every scope what merging what was found gives.
  pub merge-found :
      (t m : Metrics) (adjust : Bool)
      → IsTimed m
      → IsTimed t
      → IsProper t
      → (c : Metrics) × (merge t adjust m ≡ some c)
        × ((other : Option Text)
            → (k : Text)
            → lookup k (names_of other c)
              ≡ merge_found (lookup k (names_of other m)) (lookup k (names_of other t)))
  unfolding merge lookup
  merge-found t m adjust timed theirs proper =
      let here =
        merge_names-Merged t.unscoped m.unscoped (timed none) (theirs none)
          (proper.names_once none) in
      let m' : Metrics = record m {
        empty = m.empty && t.empty;
        started = if adjust then min m.started t.started else m.started;
        unscoped = here.0;
      } in
      let timed' : IsTimed m' = λ o. elim o as (λ o'. AreTimings (names_of o' m')) [
        | none ↦ here.2
        | some s ↦ timed (some s)
      ] in
      let rest =
        merge_scopes-AreMerged t.scoped m' timed' proper.scopes_once proper.scopes_named
          (λ s. (theirs (some s), proper.names_once (some s))) in
      (
        rest.0,
        rw (here.1, merge) rest.1,
        λ other k.
            elim other
              as (λ o.
                lookup k (names_of o rest.0)
                ≡ merge_found (lookup k (names_of o m)) (lookup k (names_of o t))) [
                  | none ↦ rest.2 none k ∙ here.3 k
                  | some s ↦ rest.2 (some s) k
                ],
      )
