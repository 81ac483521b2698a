-- ===== src/Normalizer/Placed.antt =====
-- Where the rules that are loaded, configured or added come to stand.
use monis_agent.Common.{
  ◌≡◌, List, [], ◌∷◌, ◌++◌, Bool, true, false, Option, none, some, Bool-cases, Option-cases, either,
  inl, inr, arith,
}
use monis_agent.Common.Int.{ℤ, pos, ◌≤ℤ◌}
use monis_agent.Common.Text.{Text}
use monis_agent.NormalizerRule.{
  Engine, Expression, Rule, RuleJson, map_segments, after_segment, get_segments, apply,
  apply_ignore, apply_replace, apply-ignores, apply-replaces,
}
use monis_agent.NormalizerRule
use monis_agent.Normalizer.{
  NameRule, Normalizer, insert_before, comes_later, process_name_rule, process_name_rules,
  add_simple, add_ignores, present, named, add_rules, name_json, default_precedence, is_among,
}
use monis_agent.Normalizer.Sorting.{From, From-lower, IsSorted}

module _ (E : Engine) where
  module _ (reverse : Bool) (r : Rule E) where
    passed :
        (s : Rule E) → comes_later E reverse r.precedence s ≡ false → s.precedence ≤ℤ r.precedence
    passed s e = ground (arith, e)

    reached :
        (s : Rule E) → comes_later E reverse r.precedence s ≡ true → r.precedence ≤ℤ s.precedence
    reached s e = ground (arith, e)

    insert_before-From :
        (n : ℤ) (rules : List (Rule E))
        → n ≤ℤ r.precedence
        → From E n rules
        → From E n (insert_before E (comes_later E reverse r.precedence) r rules)
    unfolding insert_before
    insert_before-From n [] le h = (le, tt)
    insert_before-From n (s ∷ rules) le h =
        elim (Bool-cases (comes_later E reverse r.precedence s)) [
          | inl here ↦ rw here (le, h)
          | inr later ↦ rw later (h.0, insert_before-From n rules le h.1)
        ]

    pub insert_before-IsSorted :
        (rules : List (Rule E))
        → IsSorted E rules
        → IsSorted E (insert_before E (comes_later E reverse r.precedence) r rules)
    unfolding insert_before
    insert_before-IsSorted [] h = (tt, tt)
    insert_before-IsSorted (s ∷ rules) h =
        elim (Bool-cases (comes_later E reverse r.precedence s)) [
          | inl here ↦
              let le = reached s here in
              rw here ((le, From-lower E r.precedence s.precedence rules le h.0), h)
          | inr later ↦ rw later (
            insert_before-From s.precedence rules (passed s later) h.0,
            insert_before-IsSorted rules h.1,
          )
        ]

  -- In order, and none before the rules that `add_simple` puts first.
  abbrev pub IsOrdered : List (Rule E) → Type 0
  IsOrdered rules = From E (pos 0) rules × IsSorted E rules

  -- No precedence that is given is negative.
  abbrev pub AtLeastZero : Option ℤ → Type 0
  AtLeastZero none = Unit
  AtLeastZero (some precedence) = pos 0 ≤ℤ precedence

  abbrev pub RuleAtLeastZero : List (NameRule E) → Type 0
  RuleAtLeastZero [] = Unit
  RuleAtLeastZero (rule ∷ rules) = AtLeastZero rule.rule_precedence × RuleAtLeastZero rules

  abbrev pub JsonAtLeastZero : List (Option (RuleJson E)) → Type 0
  JsonAtLeastZero [] = Unit
  JsonAtLeastZero (none ∷ jsons) = JsonAtLeastZero jsons
  JsonAtLeastZero (some json ∷ jsons) = (pos 0 ≤ℤ json.eval_order) × JsonAtLeastZero jsons

  default_given : pos 0 ≤ℤ default_precedence
  unfolding default_precedence
  default_given = omega arith

  order_given :
      (rule : NameRule E) (expression : Expression E) (name : Text)
      → AtLeastZero rule.rule_precedence
      → pos 0 ≤ℤ (name_json E rule expression name).eval_order
  order_given rule expression name h = elim (Option-cases rule.rule_precedence) [
    | inl missing ↦ rw missing default_given
    | inr (precedence, given) ↦ rw given (rw given at h)
  ]

  process_name_rule-IsOrdered :
      (m : Normalizer E) (rule : NameRule E)
      → AtLeastZero rule.rule_precedence
      → IsOrdered m.rules
      → IsOrdered (process_name_rule E m rule).rules
  unfolding process_name_rule NormalizerRule.new
  process_name_rule-IsOrdered m rule ok h = elim (Option-cases (present E rule.rule_pattern)) [
    | inl missing ↦ rw (missing, process_name_rule) h
    | inr pattern ↦ elim (Option-cases (named rule.name)) [
      | inl missing ↦ rw (pattern.1, missing, process_name_rule) h
      | inr name ↦
          let reverse = m.config.reverse_naming_rules in
          rw (pattern.1, name.1, process_name_rule)
            (
              insert_before-From reverse _ (pos 0) m.rules (order_given rule pattern.0 name.0 ok)
                  h.0,
              insert_before-IsSorted reverse _ m.rules h.1,
            )
    ]
  ]

  pub process_name_rules-IsOrdered :
      (rules : List (NameRule E)) (m : Normalizer E)
      → RuleAtLeastZero rules
      → IsOrdered m.rules
      → IsOrdered (process_name_rules E rules m).rules
  unfolding process_name_rules
  process_name_rules-IsOrdered [] m ok h = h
  process_name_rules-IsOrdered (r ∷ rules) m ok h =
      process_name_rules-IsOrdered rules (process_name_rule E m r) ok.1
        (process_name_rule-IsOrdered m r ok.0 h)

  pub add_simple-IsOrdered :
      (pattern : Option (Expression E)) (name : Option Text) (m : Normalizer E)
      → IsOrdered m.rules
      → IsOrdered (add_simple E pattern name m).rules
  unfolding add_simple NormalizerRule.new
  add_simple-IsOrdered pattern name m h = elim (Option-cases (present E pattern)) [
    | inl missing ↦ rw (missing, add_simple) h
    | inr found ↦ rw (found.1, add_simple) ((omega arith, h.0), h)
  ]

  pub add_ignores-IsOrdered :
      (patterns : List (Option (Expression E))) (m : Normalizer E)
      → IsOrdered m.rules
      → IsOrdered (add_ignores E patterns m).rules
  unfolding add_ignores
  add_ignores-IsOrdered [] m h = h
  add_ignores-IsOrdered (p ∷ patterns) m h =
      add_ignores-IsOrdered patterns (add_simple E p none m) (add_simple-IsOrdered p none m h)

  append-From :
      (n : ℤ) (rules : List (Rule E)) (r : Rule E)
      → From E n rules
      → n ≤ℤ r.precedence
      → From E n (rules ++ r ∷ [])
  append-From n [] r h le = (le, tt)
  append-From n (s ∷ rules) r h le = (h.0, append-From n rules r h.1 le)

  new-precedence :
      (json : Option (RuleJson E)) (jsons : List (Option (RuleJson E)))
      → JsonAtLeastZero (json ∷ jsons)
      → (pos 0 ≤ℤ (NormalizerRule.new E json).precedence) × JsonAtLeastZero jsons
  unfolding NormalizerRule.new
  new-precedence none jsons ok = (omega arith, ok)
  new-precedence (some json) jsons ok = ok

  pub add_rules-From :
      (deep_equal : Rule E → Rule E → Bool) (jsons : List (Option (RuleJson E)))
      (kept : List (Rule E))
      → JsonAtLeastZero jsons
      → From E (pos 0) kept
      → From E (pos 0) (add_rules E deep_equal jsons kept)
  unfolding add_rules
  add_rules-From deep_equal [] kept ok h = h
  add_rules-From deep_equal (json ∷ jsons) kept ok h =
      let r = NormalizerRule.new E json in
      let given = new-precedence json jsons ok in
      add_rules-From deep_equal jsons _ given.1 (
        either (From E (pos 0)) (is_among E deep_equal r kept) (λ e. h)
          (λ e. append-From (pos 0) kept r h given.0))
