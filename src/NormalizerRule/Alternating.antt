-- ===== src/NormalizerRule/Alternating.antt =====
-- An ignore rule whose pattern has the flag g remembers where its last match ended.
use monis_agent.Common.{
  ℕ, ◌≡◌, refl, ap, ◌∙◌, [], ◌∷◌, Bool, true, false, Option, none, some, if◌then◌else◌,
}
use monis_agent.Common.Text.{Text}
use monis_agent.NormalizerRule
use monis_agent.NormalizerRule.{
  Engine, Pattern, Rule, is_global, test, any_matches, matches, get_segments, apply, apply_ignore,
  apply-ignores,
}

module _ (E : Engine) where
  -- The pattern moved to an index.
  abbrev pub at_index : ℕ → Rule E → Rule E
  at_index n r = record r { pattern = record r.pattern { last_index = n } }

  matches-whole :
      (r : Rule E) (input : Text)
      → r.each_segment ≡ false
      → matches E r input ≡ any_matches E r.pattern (input ∷ [])
  unfolding matches get_segments
  matches-whole r input whole =
      ap (λ b. any_matches E r.pattern (if b then NormalizerRule.split_slash input else input ∷ []))
        whole

  test_found :
      (p : Pattern E) (input : Text) (n : ℕ)
      → is_global E p ≡ true
      → E.find_from p.program input p.last_index ≡ some n
      → any_matches E p (input ∷ []) ≡ (true, record p { last_index = n })
  unfolding any_matches test
  test_found p input n global found = rw (test, global, found, global) refl

  test_missed :
      (p : Pattern E) (input : Text)
      → is_global E p ≡ true
      → E.find_from p.program input p.last_index ≡ none
      → any_matches E p (input ∷ []) ≡ (false, record p { last_index = 0 })
  unfolding any_matches test
  test_missed p input global missed = rw (test, global, missed, global) refl

  apply-found :
      (r : Rule E) (input : Text) (p : Pattern E) (found : Bool)
      → r.ignore ≡ true
      → matches E r input ≡ (found, p)
      → apply E r input
        ≡ ((if found then none else some input), record r { matched = found; pattern = p })
  unfolding apply_ignore
  apply-found r input p found ignores e =
      apply-ignores E r input ignores
      ∙ ap
          (λ (a : Bool × Pattern E).
            ((if a.0 then none else some input), record r { matched = a.0; pattern = a.1 }))
          e

  -- If the pattern of such a rule matches a path once, and nothing after that match, then of two
  -- requests in a row for that path the rule ignores the first and not the second.
  pub apply-alternates :
      (r : Rule E) (input : Text) (match_end : ℕ)
      → r.ignore ≡ true
      → r.each_segment ≡ false
      → is_global E r.pattern ≡ true
      → E.find_from r.pattern.program input 0 ≡ some match_end
      → E.find_from r.pattern.program input match_end ≡ none
      → ((apply E (at_index 0 r) input).0 ≡ none)
        × ((apply E (apply E (at_index 0 r) input).1 input).0 ≡ some input)
        × ((apply E (apply E (apply E (at_index 0 r) input).1 input).1 input).0 ≡ none)
  apply-alternates r input match_end ignores whole global found missed =
      let start = at_index 0 r in
      let first =
        apply-found start input (record r.pattern { last_index = match_end }) true ignores
          (matches-whole start input whole
            ∙ test_found start.pattern input match_end global found) in
      let moved = record (at_index match_end r) { matched = true } in
      let second =
        apply-found moved input (record r.pattern { last_index = 0 }) false ignores
          (matches-whole moved input whole ∙ test_missed moved.pattern input global missed) in
      let back = record (at_index 0 r) { matched = false } in
      let third =
        apply-found back input (record r.pattern { last_index = match_end }) true ignores
          (matches-whole back input whole ∙ test_found back.pattern input match_end global found) in
      let after_first = ap (λ (a : Option Text × Rule E). apply E a.1 input) first ∙ second in
      let after_second = ap (λ (a : Option Text × Rule E). apply E a.1 input) after_first ∙ third in
      (ap (λ a. a.0) first, ap (λ a. a.0) after_first, ap (λ a. a.0) after_second)
