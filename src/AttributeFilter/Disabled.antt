-- ===== src/AttributeFilter/Disabled.antt =====
-- An update that disables a destination which was enabled before.
use monis_agent.Common.{
  ℕ, ◌≡◌, refl, ap, sym, subst, ◌∙◌, List, [], ◌∷◌, ◌++◌, Option, none, some, Bool, true, false,
  not, ltb, ◌||◌, ◌==◌, Bool-cases, Option-cases, none-some, some_inj, inl, inr, if◌then◌else◌,
}
use monis_agent.Common.Text.{Text}
use monis_agent.AttributeFilter.{
  Destination, bit, put, Mask, Verdict, Config, Filter, lookup, calculate, remember,
  update_destinations, update, verdict_on, filter_loop, filter,
}
use monis_agent.AttributeFilter.Coherent.{same_bit}

module _ (exact_test : List Text → Text → Bool) (wildcard_test : List Text → Text → Option ℕ) where
  -- An enabled destination without a cache.
  record IsBroken (d : Destination) (f : Filter) : Type 0 where
    enabled : f.settings.enabled_destinations d ≡ true
    missing : f.cache d ≡ none

  remember-IsBroken :
      (d e : Destination) (f : Filter) (entries old : List (Text × Verdict)) (key : Text)
      (v : Verdict)
      → IsBroken d f
      → f.cache e ≡ some old
      → IsBroken d (remember exact_test wildcard_test f e entries key v)
  remember-IsBroken d e f entries old key v broken cached =
      elim (Bool-cases (ltb f.cached_count f.settings.config.filter_cache_limit)) [
        | inl room ↦ rw room (elim (Bool-cases (bit d == bit e)) [
          | inl same ↦
              elim (none-some (sym broken.missing ∙ ap f.cache (same_bit d e same) ∙ cached)) [ ]
          | inr other ↦ record {
            enabled = broken.enabled;
            missing =
                ap (λ b. if b then some ((key, v) ∷ entries) else f.cache d) other ∙ broken.missing;
          }
        ])
        | inr full ↦ rw full broken
      ]

  from-says :
      (d e : Destination) (f g : Filter) (key : Text) (v : Verdict) (answer : Verdict × Filter)
      → IsBroken d g
      → verdict_on exact_test wildcard_test f e key ≡ some (v, g)
      → verdict_on exact_test wildcard_test f e key ≡ some answer
      → IsBroken d answer.1
  from-says d e f g key v answer broken gives says =
      subst (λ (a : Verdict × Filter). IsBroken d a.1) (some_inj (sym gives ∙ says)) broken

  -- The verdict on another destination leaves it so.
  verdict_on-IsBroken :
      (d e : Destination) (f : Filter) (key : Text) (answer : Verdict × Filter)
      → IsBroken d f
      → verdict_on exact_test wildcard_test f e key ≡ some answer
      → IsBroken d answer.1
  unfolding verdict_on
  verdict_on-IsBroken d e f key answer broken says = elim (Option-cases (f.cache e)) [
    | inl missing ↦ elim (none-some (sym (rw (verdict_on, missing) refl) ∙ says)) [ ]
    | inr (entries, cached) ↦ elim (Option-cases (lookup key entries)) [
      | inr (v, hit) ↦
          from-says d e f f key v answer broken (rw (verdict_on, cached, hit) refl) says
      | inl miss ↦ elim (Option-cases (f.settings.rules e)) [
        | inl ruleless ↦
            elim (none-some (sym (rw (verdict_on, cached, miss, ruleless) refl) ∙ says)) [ ]
        | inr (rules, has) ↦
            let v = calculate exact_test wildcard_test f.settings rules key in
            let g = remember exact_test wildcard_test f e entries key v in
            from-says d e f g key v answer
              (remember-IsBroken d e f entries entries key v broken cached)
              (rw (verdict_on, cached, miss, has) refl) says
      ]
    ]
  ]

  -- The loop fails when it comes to it, or before.
  loop-fails :
      (before after : List Destination) (d : Destination) (mask : Mask) (f : Filter) (key : Text)
      → IsBroken d f
      → filter_loop exact_test wildcard_test (before ++ d ∷ after) mask f key ≡ none
  unfolding filter_loop verdict_on
  loop-fails [] after d mask f key broken =
      rw (filter_loop, broken.enabled, verdict_on, broken.missing) refl
  loop-fails (e ∷ before) after d mask f key broken =
      elim (Bool-cases (f.settings.enabled_destinations e)) [
        | inl enabled ↦ elim (Option-cases (verdict_on exact_test wildcard_test f e key)) [
          | inl fails ↦ rw (filter_loop, enabled, fails) refl
          | inr (answer, says) ↦
              rw (filter_loop, enabled, says)
                (loop-fails before after d (update_destinations mask e answer.0) answer.1 key
                  (verdict_on-IsBroken d e f key answer broken says))
        ]
        | inr disabled ↦
            rw (filter_loop, disabled) (loop-fails before after d (put e false mask) f key broken)
      ]

  -- After an update to a configuration that disables a destination which the filter had enabled, and
  -- leaves attributes enabled, every query fails whose scope holds the destination.
  pub filter-disabled :
      (config : Config) (f : Filter) (d : Destination) (before after : List Destination)
      (mask : Mask) (key : Text)
      → config.enabled ≡ true
      → f.settings.enabled_destinations d ≡ true
      → (config.destination d).enabled ≡ false
      → filter exact_test wildcard_test (before ++ d ∷ after) mask key (update config f) ≡ none
  unfolding filter update
  filter-disabled config f d before after mask key on was now =
      ap
        (λ b.
          if not b
          then some ((λ e. false), update config f)
          else filter_loop exact_test wildcard_test (before ++ d ∷ after) mask (update config f)
              key)
        on
      ∙ loop-fails before after d mask (update config f) key (record {
        enabled = ap (λ b. b || f.settings.enabled_destinations d) now ∙ was;
        missing = ap (λ b. if b then some [] else none) now;
      })
