-- ===== src/AttributeFilter/Queries.antt =====
-- Queries and updates of a filter, in any order.
use monis_agent.Common.{
  ℕ, ◌≡◌, refl, ap, sym, subst, ◌∙◌, List, [], ◌∷◌, Option, none, some, Bool, true, false, not,
  ◌||◌, Bool-cases, inl, inr, arith, if◌then◌else◌,
}
use monis_agent.Common.Text.{Text}
use monis_agent.AttributeFilter.{
  Destination, Verdict, Mask, put, Config, Settings, Filter, update_destinations, verdict_on,
  filter_loop, filter, imported, blank, update, new,
}
use monis_agent.AttributeFilter.Coherent.{
  IsCoherent, verdict_of, decide, uncached_loop, uncached, verdict_on-Yields,
}

module _ (exact_test : List Text → Text → Bool) (wildcard_test : List Text → Text → Option ℕ) where
  -- A filter answers with the mask, and is coherent afterwards, under the same settings.
  abbrev Answers : Option (Mask × Filter) → Settings → Mask → Type 0
  Answers answer s mask =
      (g : Filter) × (answer ≡ some (mask, g))
      × (g.settings ≡ s)
      × IsCoherent exact_test wildcard_test g

  -- One round of the loop and of the description, for each value of the test.
  module _ (d : Destination) (scope : List Destination) (mask : Mask) (f : Filter)
      (key : Text) where
    go : Option (Verdict × Filter) → Option (Mask × Filter)
    go o = elim o [
      | none ↦ none
      | some a ↦ filter_loop exact_test wildcard_test scope (update_destinations mask d a.0) a.1 key
    ]

    loop_round : filter_loop exact_test wildcard_test (d ∷ scope) mask f key ≡ (
        if not (f.settings.enabled_destinations d)
        then filter_loop exact_test wildcard_test scope (put d false mask) f key
        else go (verdict_on exact_test wildcard_test f d key))
    unfolding filter_loop go
    loop_round = refl

    chosen : Bool → Option (Mask × Filter)
    chosen b =
        if not b
        then filter_loop exact_test wildcard_test scope (put d false mask) f key
        else go (verdict_on exact_test wildcard_test f d key)

    loop-enabled :
        (v : Verdict) (g : Filter)
        → f.settings.enabled_destinations d ≡ true
        → verdict_on exact_test wildcard_test f d key ≡ some (v, g)
        → filter_loop exact_test wildcard_test (d ∷ scope) mask f key
          ≡ filter_loop exact_test wildcard_test scope (update_destinations mask d v) g key
    unfolding go chosen
    loop-enabled v g enabled answer = loop_round ∙ ap chosen enabled ∙ ap go answer

    loop-disabled :
        f.settings.enabled_destinations d ≡ false
        → filter_loop exact_test wildcard_test (d ∷ scope) mask f key
          ≡ filter_loop exact_test wildcard_test scope (put d false mask) f key
    unfolding chosen
    loop-disabled disabled = loop_round ∙ ap chosen disabled

  module _ (s : Settings) (d : Destination) (mask : Mask) (key : Text) where
    applied : Option Verdict → Mask
    applied o = elim o [ none ↦ mask | some v ↦ update_destinations mask d v ]

    decided_as : Bool → Mask
    decided_as b =
        if not b then put d false mask else applied (verdict_of exact_test wildcard_test s d key)

    decide-enabled :
        (v : Verdict)
        → s.enabled_destinations d ≡ true
        → verdict_of exact_test wildcard_test s d key ≡ some v
        → decide exact_test wildcard_test s d mask key ≡ update_destinations mask d v
    unfolding decided_as applied
    decide-enabled v enabled says = ap decided_as enabled ∙ ap applied says

    decide-disabled :
        s.enabled_destinations d ≡ false
        → decide exact_test wildcard_test s d mask key ≡ put d false mask
    unfolding decided_as applied
    decide-disabled disabled = ap decided_as disabled

  -- Answers carried along equations.
  moved :
      (one two : Option (Mask × Filter)) (s t : Settings) (m n : Mask)
      → one ≡ two
      → s ≡ t
      → m ≡ n
      → Answers two s m
      → Answers one t n
  moved one two s t m n e settings same a =
      (a.0, e ∙ a.1 ∙ ap (λ (k : Mask). some (k, a.0)) same, a.2 ∙ settings, a.3)

  filter_loop-Answers :
      (scope : List Destination) (mask : Mask) (f : Filter) (key : Text)
      → IsCoherent exact_test wildcard_test f
      → Answers
          (filter_loop exact_test wildcard_test scope mask f key)
          f.settings
          (uncached_loop exact_test wildcard_test f.settings scope mask key)
  unfolding filter_loop
  filter_loop-Answers [] mask f key coherent = (f, refl, refl, coherent)
  filter_loop-Answers (d ∷ scope) mask f key coherent =
      elim (Bool-cases (f.settings.enabled_destinations d)) [
        | inl enabled ↦
            let step = verdict_on-Yields exact_test wildcard_test f d key coherent enabled in
            let next = update_destinations mask d step.0 in
            moved _ _ step.2.0.settings f.settings _ _
              (loop-enabled d scope mask f key step.0 step.2.0 enabled step.2.1) step.2.2
              (ap (λ s. uncached_loop exact_test wildcard_test s scope next key) step.2.2
                ∙ ap (λ m. uncached_loop exact_test wildcard_test f.settings scope m key)
                    (sym (decide-enabled f.settings d mask key step.0 enabled step.1)))
              (filter_loop-Answers scope next step.2.0 key step.2.3)
        | inr disabled ↦
            moved _ _ f.settings f.settings _ _ (loop-disabled d scope mask f key disabled) refl
              (ap (λ m. uncached_loop exact_test wildcard_test f.settings scope m key)
                (sym (decide-disabled f.settings d mask key disabled)))
              (filter_loop-Answers scope (put d false mask) f key coherent)
      ]

  filter-Answers :
      (scope : List Destination) (mask : Mask) (key : Text) (f : Filter)
      → IsCoherent exact_test wildcard_test f
      → Answers
          (filter exact_test wildcard_test scope mask key f)
          f.settings
          (uncached exact_test wildcard_test f.settings scope mask key)
  unfolding filter
  filter-Answers scope mask key f coherent =
      let off : Mask = λ d. false in
      let loop = filter_loop exact_test wildcard_test scope mask f key in
      let rest = uncached_loop exact_test wildcard_test f.settings scope mask key in
      elim (Bool-cases f.settings.config.enabled) [
        | inl e ↦
            moved _ loop f.settings f.settings rest _
              (ap (λ b. if not b then some (off, f) else loop) e) refl
              (ap (λ b. if not b then off else rest) (sym e))
              (filter_loop-Answers scope mask f key coherent)
        | inr e ↦
            moved _ (some (off, f)) f.settings f.settings off _
              (ap (λ b. if not b then some (off, f) else loop) e) refl
              (ap (λ b. if not b then off else rest) (sym e)) (f, refl, refl, coherent)
      ]

  update-IsCoherent :
      (config : Config) (f : Filter)
      → ((d : Destination)
          → f.settings.enabled_destinations d ≡ true
          → (config.destination d).enabled ≡ true)
      → IsCoherent exact_test wildcard_test (update config f)
  unfolding update
  update-IsCoherent config f kept d enabled =
      let on : (config.destination d).enabled ≡ true =
        elim (Bool-cases (config.destination d).enabled) [
          | inl e ↦ e
          | inr e ↦ kept d (sym (ap (λ b. b || f.settings.enabled_destinations d) e) ∙ enabled)
        ] in
      (
        (
          imported config d,
          ap (λ b. if b then some (imported config d) else f.settings.rules d) on,
        ),
        ([], ap (λ b. if b then some [] else none) on, λ key v hit. ground (arith, hit)),
      )

  -- A query, or an update to a configuration.
  pub data Call : Type 0 where
    querying : List Destination → Mask → Text → Call
    updating : Config → Call

  unfoldable pub run : List Call → Filter → Option Filter
  run [] f = some f
  run (querying scope mask key ∷ cs) f = elim (filter exact_test wildcard_test scope mask key f) [
    | none ↦ none
    | some answer ↦ run cs answer.1
  ]
  run (updating config ∷ cs) f = run cs (update config f)

  -- No update disables a destination that is enabled.
  abbrev pub NeverDisables : Mask → List Call → Type 0
  NeverDisables enabled [] = Unit
  NeverDisables enabled (querying scope mask key ∷ cs) = NeverDisables enabled cs
  NeverDisables enabled (updating config ∷ cs) =
      ((d : Destination) → enabled d ≡ true → (config.destination d).enabled ≡ true)
      × NeverDisables (λ d. (config.destination d).enabled || enabled d) cs

  -- The filter that calls lead to exists, and is coherent.
  abbrev Reaches : Option Filter → Type 0
  Reaches o = (g : Filter) × (o ≡ some g) × IsCoherent exact_test wildcard_test g

  run-Reaches :
      (cs : List Call) (f : Filter)
      → IsCoherent exact_test wildcard_test f
      → NeverDisables f.settings.enabled_destinations cs
      → Reaches (run cs f)
  unfolding run update
  run-Reaches [] f coherent kept = (f, refl, coherent)
  run-Reaches (querying scope mask key ∷ cs) f coherent kept =
      let answer = filter-Answers scope mask key f coherent in
      let rest =
        run-Reaches cs answer.0 answer.3
          (subst (λ (s : Settings). NeverDisables s.enabled_destinations cs) (sym answer.2) kept) in
      (
        rest.0,
        ap (λ (o : Option (Mask × Filter)). elim o [ none ↦ none | some a ↦ run cs a.1 ]) answer.1
            ∙ rest.1,
        rest.2,
      )
  run-Reaches (updating config ∷ cs) f coherent kept =
      run-Reaches cs (update config f) (update-IsCoherent config f kept.0) kept.1

  -- After any calls on a new filter of which no update disables a destination, every query answers,
  -- and with what the rules in force say, whatever is in the cache.
  pub filter-uncached :
      (cs : List Call) (config : Config) (scope : List Destination) (mask : Mask) (key : Text)
      → NeverDisables (new config).settings.enabled_destinations cs
      → (g h : Filter) × (run cs (new config) ≡ some g)
        × (filter exact_test wildcard_test scope mask key g
            ≡ some (uncached exact_test wildcard_test g.settings scope mask key, h))
  unfolding new
  filter-uncached cs config scope mask key kept =
      let reached =
        run-Reaches cs (new config) (update-IsCoherent config (blank config) (λ d e. cc)) kept in
      let answer = filter-Answers scope mask key reached.0 reached.2 in
      (reached.0, answer.0, reached.1, answer.1)
