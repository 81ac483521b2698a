-- ===== src/Normalizer/Ordered.antt =====
-- The rules stay in order, whatever is loaded, configured or added.
use monis_agent.Common.{
  ◌≡◌, refl, ap, sym, subst, ◌∙◌, List, [], ◌∷◌, Bool, false, ◌&&◌, Option, none, some, Bool-cases,
  Option-cases, inl, inr,
}
use monis_agent.Common.Int.{ℤ, pos, ◌≤ℤ◌}
use monis_agent.Common.Text.{Text}
use monis_agent.NormalizerRule.{
  Engine, Expression, Rule, RuleJson, map_segments, after_segment, get_segments, apply,
  apply_ignore, apply_replace, apply-ignores, apply-replaces,
}
use monis_agent.Normalizer
use monis_agent.Normalizer.{
  NameRule, Config, Normalizer, insert_before, comes_later, process_name_rule, process_name_rules,
  add_simple, add_ignores, load_from_config, present, named, load, add_rules, Progress, advance,
  normalize_loop, normalize, initial, name_json, is_among,
}
use monis_agent.Normalizer.Sorting.{From, IsSorted, sort_rules-IsSorted, sort_rules-From}
use monis_agent.Normalizer.Placed.{
  IsOrdered, RuleAtLeastZero, JsonAtLeastZero, process_name_rules-IsOrdered, add_simple-IsOrdered,
  add_ignores-IsOrdered, add_rules-From,
}

module _ (E : Engine) where
  -- Applying a rule does not change its precedence.
  map_segments-precedence :
      (segments : List Text) (r : Rule E) → (map_segments E r segments).1.precedence ≡ r.precedence
  unfolding map_segments
  map_segments-precedence [] r = refl
  map_segments-precedence (s ∷ ss) r = map_segments-precedence ss (after_segment E r s)

  apply-precedence : (r : Rule E) (input : Text) → (apply E r input).1.precedence ≡ r.precedence
  unfolding apply apply_ignore apply_replace
  apply-precedence r input = elim (Bool-cases r.ignore) [
    | inl ignores ↦ ap (λ a. a.1.precedence) (apply-ignores E r input ignores)
    | inr replaces ↦
        ap (λ a. a.1.precedence) (apply-replaces E r input replaces)
        ∙ map_segments-precedence (get_segments E r input) (record r { matched = false })
  ]

  normalize_loop-From :
      (n : ℤ) (rules : List (Rule E)) (p : Progress E)
      → From E n rules
      → From E n (normalize_loop E rules p).0
  unfolding normalize_loop
  normalize_loop-From n [] p h = tt
  normalize_loop-From n (r ∷ rules) p h =
      let answer = apply E r p.last in
      let le = subst (λ q. n ≤ℤ q) (sym (apply-precedence r p.last)) h.0 in
      elim (Bool-cases (answer.1.matched && answer.1.is_terminal)) [
        | inl stop ↦ rw stop (le, h.1)
        | inr go ↦ rw go (le, normalize_loop-From n rules (advance E answer.1 answer.0 p) h.1)
      ]

  normalize_loop-IsSorted :
      (rules : List (Rule E)) (p : Progress E)
      → IsSorted E rules
      → IsSorted E (normalize_loop E rules p).0
  unfolding normalize_loop
  normalize_loop-IsSorted [] p h = tt
  normalize_loop-IsSorted (r ∷ rules) p h =
      let answer = apply E r p.last in
      let same = apply-precedence r p.last in
      let next = advance E answer.1 answer.0 p in
      elim (Bool-cases (answer.1.matched && answer.1.is_terminal)) [
        | inl stop ↦ rw stop (rw same h.0, h.1)
        | inr go ↦ rw go (
          rw same (normalize_loop-From r.precedence rules next h.0),
          normalize_loop-IsSorted rules next h.1,
        )
      ]

  -- A call that changes the rules.
  pub data Call : Type 0 where
    loading : (Rule E → Rule E → Bool) → Option (List (Option (RuleJson E))) → Call
    configuring : Call
    adding : Option (Expression E) → Option Text → Call
    normalizing : Text → Call

  unfoldable pub step : Call → Normalizer E → Normalizer E
  step (loading deep_equal json) m = load E deep_equal json m
  step configuring m = load_from_config E m
  step (adding pattern name) m = add_simple E pattern name m
  step (normalizing path) m = (normalize E m path).1

  unfoldable pub run : List Call → Normalizer E → Normalizer E
  unfolding step
  run [] m = m
  run (c ∷ cs) m = run cs (step c m)

  -- No rule that a call loads has a negative precedence.
  abbrev pub LoadsAtLeastZero : List Call → Type 0
  LoadsAtLeastZero [] = Unit
  LoadsAtLeastZero (loading deep_equal (some jsons) ∷ cs) =
      JsonAtLeastZero E jsons × LoadsAtLeastZero cs
  LoadsAtLeastZero (c ∷ cs) = LoadsAtLeastZero cs

  -- No call changes the configuration.
  process_name_rule-config :
      (m : Normalizer E) (rule : NameRule E) → (process_name_rule E m rule).config ≡ m.config
  unfolding process_name_rule
  process_name_rule-config m rule = elim (Option-cases (present E rule.rule_pattern)) [
    | inl missing ↦ rw (missing, process_name_rule) refl
    | inr pattern ↦ elim (Option-cases (named rule.name)) [
      | inl missing ↦ rw (pattern.1, missing, process_name_rule) refl
      | inr name ↦ rw (pattern.1, name.1, process_name_rule) refl
    ]
  ]

  process_name_rules-config :
      (rules : List (NameRule E)) (m : Normalizer E)
      → (process_name_rules E rules m).config ≡ m.config
  unfolding process_name_rules
  process_name_rules-config [] m = refl
  process_name_rules-config (r ∷ rules) m =
      process_name_rules-config rules (process_name_rule E m r) ∙ process_name_rule-config m r

  add_simple-config :
      (pattern : Option (Expression E)) (name : Option Text) (m : Normalizer E)
      → (add_simple E pattern name m).config ≡ m.config
  unfolding add_simple
  add_simple-config pattern name m = elim (Option-cases (present E pattern)) [
    | inl missing ↦ rw (missing, add_simple) refl
    | inr found ↦ rw (found.1, add_simple) refl
  ]

  add_ignores-config :
      (patterns : List (Option (Expression E))) (m : Normalizer E)
      → (add_ignores E patterns m).config ≡ m.config
  unfolding add_ignores
  add_ignores-config [] m = refl
  add_ignores-config (p ∷ patterns) m =
      add_ignores-config patterns (add_simple E p none m) ∙ add_simple-config p none m

  step-config : (c : Call) (m : Normalizer E) → (step c m).config ≡ m.config
  unfolding step load load_from_config normalize
  step-config (loading deep_equal none) m = refl
  step-config (loading deep_equal (some json)) m = refl
  step-config configuring m =
      add_ignores-config m.config.ignore_rules (process_name_rules E m.config.name_rules m)
      ∙ process_name_rules-config m.config.name_rules m
  step-config (adding pattern name) m = add_simple-config pattern name m
  step-config (normalizing path) m = refl

  step-IsOrdered :
      (c : Call) (cs : List Call) (m : Normalizer E)
      → LoadsAtLeastZero (c ∷ cs)
      → RuleAtLeastZero E m.config.name_rules
      → IsOrdered E m.rules
      → IsOrdered E (step c m).rules × LoadsAtLeastZero cs
  unfolding step load load_from_config normalize
  step-IsOrdered (loading deep_equal none) cs m ok config h = (h, ok)
  step-IsOrdered (loading deep_equal (some json)) cs m ok config h =
      let rules = add_rules E deep_equal json [] in
      (
        (
          sort_rules-From E (pos 0) rules (add_rules-From E deep_equal json [] ok.0 tt),
          sort_rules-IsSorted E rules,
        ),
        ok.1,
      )
  step-IsOrdered configuring cs m ok config h = (
    add_ignores-IsOrdered E m.config.ignore_rules (process_name_rules E m.config.name_rules m)
        (process_name_rules-IsOrdered E m.config.name_rules m config h),
    ok,
  )
  step-IsOrdered (adding pattern name) cs m ok config h =
      (add_simple-IsOrdered E pattern name m h, ok)
  step-IsOrdered (normalizing path) cs m ok config h = (
    (
      normalize_loop-From (pos 0) m.rules (initial E path) h.0,
      normalize_loop-IsSorted m.rules (initial E path) h.1,
    ),
    ok,
  )

  run-IsOrdered :
      (cs : List Call) (m : Normalizer E)
      → LoadsAtLeastZero cs
      → RuleAtLeastZero E m.config.name_rules
      → IsOrdered E m.rules
      → IsOrdered E (run cs m).rules
  unfolding run
  run-IsOrdered [] m ok config h = h
  run-IsOrdered (c ∷ cs) m ok config h =
      let (ordered, ok') = step-IsOrdered c cs m ok config h in
      run-IsOrdered cs (step c m) ok'
        (subst (λ (u : Config E). RuleAtLeastZero E u.name_rules) (sym (step-config c m)) config)
        ordered

  -- After any sequence of calls on a new normalizer, its rules are in the order of their precedence,
  -- if no rule that is loaded and no naming rule of the configuration has a negative precedence.
  pub rules-IsSorted :
      (cs : List Call) (config : Config E) (is_url : Bool)
      → LoadsAtLeastZero cs
      → RuleAtLeastZero E config.name_rules
      → IsSorted E (run cs (Normalizer.new E config is_url)).rules
  unfolding Normalizer.new
  rules-IsSorted cs config is_url ok configured =
      (run-IsOrdered cs (Normalizer.new E config is_url) ok configured (tt, tt)).1
