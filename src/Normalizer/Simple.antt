-- ===== src/Normalizer/Simple.antt =====
-- What `normalize` answers where the first rule ends it, and where no rule matches.
use monis_agent.Common.{◌≡◌, refl, ap, ◌∙◌, List, [], ◌∷◌, true, false, Option, none, some}
use monis_agent.Common.Text.{Text}
use monis_agent.NormalizerRule
use monis_agent.NormalizerRule.{
  Engine, Expression, regexp, text, Rule, apply, apply_ignore, matches, test, compile_pattern,
  apply-ignores,
}
use monis_agent.Normalizer
use monis_agent.Normalizer.{
  Config, Normalizer, Progress, Results, initial, advance, normalize_loop, normalize, formatter,
  add_simple, present,
}

module _ (E : Engine) where
  -- No rule matches the path.
  abbrev pub NoneMatches : Text → List (Rule E) → Type 0
  NoneMatches path [] = Unit
  NoneMatches path (r ∷ rules) = ((apply E r path).1.matched ≡ false) × NoneMatches path rules

  advance-unmatched :
      (r : Rule E) (applied : Option Text) (p : Progress E)
      → r.matched ≡ false
      → advance E r applied p ≡ p
  unfolding advance
  advance-unmatched r none p e = rw e refl
  advance-unmatched r (some s) p e = rw e refl

  loop-unmatched :
      (path : Text) (rules : List (Rule E)) (p : Progress E)
      → p.last ≡ path
      → NoneMatches path rules
      → (normalize_loop E rules p).1 ≡ p
  unfolding normalize_loop
  loop-unmatched path [] p e h = refl
  loop-unmatched path (r ∷ rules) p e h =
      let same : (apply E r p.last).1.matched ≡ false = ap (λ s. (apply E r s).1.matched) e ∙ h.0 in
      rw (same, advance-unmatched (apply E r p.last).1 (apply E r p.last).0 p same)
        (loop-unmatched path rules p e h.1)

  -- Where no rule matches the path, the answer says so, and its value is the formatted path.
  pub normalize-unmatched :
      (m : Normalizer E) (path : Text)
      → NoneMatches path m.rules
      → (normalize E m path).0
        ≡ record { matched = false; ignore = false; value = formatter E m none path }
  unfolding normalize
  normalize-unmatched m path h =
      ap
        (λ (p : Progress E). record {
          matched = p.matched;
          ignore = p.ignored;
          value = formatter E m p.normalized path;
        })
        (loop-unmatched path m.rules (initial E path) refl h)

  ignored_by : Rule E → Text → Rule E
  ignored_by r path = record r { matched = true; pattern = (matches E r path).1 }

  -- An ignore rule that matches and is terminal ends the loop.
  loop-ignored :
      (r : Rule E) (rules : List (Rule E)) (p : Progress E)
      → r.ignore ≡ true
      → r.is_terminal ≡ true
      → (matches E r p.last).0 ≡ true
      → normalize_loop E (r ∷ rules) p ≡ (ignored_by r p.last ∷ rules, record p { ignored = true })
  unfolding normalize_loop apply_ignore ignored_by advance
  loop-ignored r rules p ignores terminal found =
      let answer : apply E r p.last
          ≡ (none, record r { matched = true; pattern = (matches E r p.last).1 }) =
        apply-ignores E r p.last ignores ∙ rw found refl in
      rw (answer, terminal, ignores) refl

  simple_rule : Expression E → Rule E
  simple_rule expression = NormalizerRule.new E (some (Normalizer.simple_json E expression none))

  add_simple-given :
      (m : Normalizer E) (expression : Expression E)
      → present E (some expression) ≡ some expression
      → add_simple E (some expression) none m
        ≡ record m { rules = simple_rule expression ∷ m.rules }
  unfolding add_simple simple_rule
  add_simple-given m expression given = rw (given, add_simple) refl

  simple_rule-matches :
      (expression : Expression E) (path : Text)
      → (test E (compile_pattern E expression false) path).0 ≡ true
      → (matches E (simple_rule expression) path).0 ≡ true
  unfolding matches simple_rule NormalizerRule.new NormalizerRule.any_matches
      NormalizerRule.get_segments
  simple_rule-matches expression path found = rw found refl

  normalize-done :
      (m : Normalizer E) (path : Text) (done : List (Rule E) × Progress E)
      → normalize_loop E m.rules (initial E path) ≡ done
      → normalize E m path ≡ (
        record {
          matched = done.1.matched;
          ignore = done.1.ignored;
          value = formatter E m done.1.normalized path;
        },
        record m { rules = done.0 },
        done.1.applied,
      )
  unfolding normalize
  normalize-done m path done e =
      ap
        (λ (d : List (Rule E) × Progress E). (
          record {
            matched = d.1.matched;
            ignore = d.1.ignored;
            value = formatter E m d.1.normalized path;
          },
          record m { rules = d.0 },
          d.1.applied,
        ))
        e

  -- After a rule for ignoring is added, with a pattern that is not missing or empty, and that matches
  -- the path: the path is ignored, no event is emitted, and the rules that were there before are not
  -- consulted.
  pub normalize-add_simple :
      (m : Normalizer E) (expression : Expression E) (path : Text)
      → present E (some expression) ≡ some expression
      → (test E (compile_pattern E expression false) path).0 ≡ true
      → ((normalize E (add_simple E (some expression) none m) path).0
          ≡ record { matched = false; ignore = true; value = formatter E m none path })
        × ((normalize E (add_simple E (some expression) none m) path).2 ≡ [])
        × ((r : Rule E) × ((normalize E (add_simple E (some expression) none m) path).1.rules
              ≡ r ∷ m.rules))
  unfolding simple_rule NormalizerRule.new formatter
  normalize-add_simple m expression path given found =
      let loop =
        loop-ignored (simple_rule expression) m.rules (initial E path) refl refl
          (simple_rule-matches expression path found) in
      let with_rule = record m { rules = simple_rule expression ∷ m.rules } in
      let answer =
        ap (λ (n : Normalizer E). normalize E n path) (add_simple-given m expression given)
        ∙ normalize-done with_rule path _ loop in
      (
        ap (λ a. a.0) answer,
        ap (λ a. a.2) answer,
        (ignored_by (simple_rule expression) path, ap (λ a. a.1.rules) answer),
      )
