-- ===== src/Normalizer.antt =====
-- lib/metrics/normalizer.js: the rules by which metric names are rewritten. The rules of the answer to
-- a connect call and those of the configuration are data of the model; `deepEqual`, the host's
-- structural equality, is an argument, and `Array.prototype.sort` is the stable sort that the language
-- specifies. The precedences of rules are in the unit of NormalizerRule. The events that `normalize`
-- emits are returned as a list. Logging is left out.
pub mod Sorting
pub mod Placed
pub mod Ordered
pub mod Simple
use monis_agent.Common.{
  ◌*◌, ◌^◌, List, [], ◌∷◌, ◌++◌, Option, none, some, Bool, true, false, ◌&&◌, ◌||◌, if◌then◌else◌,
}
use monis_agent.Common.Int.{ℤ, pos, leb_ℤ, ltb_ℤ}
use monis_agent.Common.Text.{Text, codes}
use monis_agent.NormalizerRule
use monis_agent.NormalizerRule.{Engine, Expression, regexp, text, RuleJson, Rule, apply}

-- A name that is missing or empty is falsy.
abbrev pub named : Option Text → Option Text
named none = none
named (some []) = none
named (some (c ∷ s)) = some (c ∷ s)

-- 500
unfoldable pub default_precedence : ℤ
default_precedence = pos (500 * 2 ^ 1074)

module _ (E : Engine) where
  -- A naming rule of the configuration; properties may be missing.
  pub record NameRule : Type 0 where
    pub rule_pattern : Option (Expression E)
    pub name : Option Text
    pub rule_precedence : Option ℤ
    pub terminate_chain : Option Bool
    pub replace_all : Bool

  pub record Config : Type 0 where
    pub enforce_backstop : Bool
    pub reverse_naming_rules : Bool
    pub name_rules : List NameRule
    pub ignore_rules : List (Option (Expression E))

  pub record Normalizer : Type 0 where
    pub is_url : Bool
    pub config : Config
    pub rules : List (Rule E)

  unfoldable pub new : Config → Bool → Normalizer
  new config is_url = record { is_url = is_url; config = config; rules = [] }

  abbrev url : Option Text → Text → Config → Text
  url (some s) path config = codes "NormalizedUri" ++ s
  url none path config =
      if config.enforce_backstop then codes "NormalizedUri" ++ codes "/*" else codes "Uri" ++ path

  abbrev plain : Option Text → Text → Text
  plain (some s) path = s
  plain none path = path

  unfoldable pub formatter : Normalizer → Option Text → Text → Text
  formatter m normalized path =
      if m.is_url then url (named normalized) path m.config else plain (named normalized) path

  -- The stable sort by precedence.
  unfoldable pub insert_sorted : Rule E → List (Rule E) → List (Rule E)
  insert_sorted r [] = r ∷ []
  insert_sorted r (s ∷ rules) =
      let rest = insert_sorted r rules in
      if leb_ℤ r.precedence s.precedence then r ∷ s ∷ rules else s ∷ rest

  unfoldable pub sort_rules : List (Rule E) → List (Rule E)
  unfolding insert_sorted
  sort_rules [] = []
  sort_rules (r ∷ rules) = insert_sorted r (sort_rules rules)

  unfoldable pub is_among : (Rule E → Rule E → Bool) → Rule E → List (Rule E) → Bool
  is_among deep_equal r [] = false
  is_among deep_equal r (s ∷ rules) = deep_equal r s || is_among deep_equal r rules

  -- The loop of `load`, over the rules kept so far.
  unfoldable pub add_rules :
      (Rule E → Rule E → Bool) → List (Option (RuleJson E)) → List (Rule E) → List (Rule E)
  unfolding is_among
  add_rules deep_equal [] kept = kept
  add_rules deep_equal (json ∷ jsons) kept =
      let r = NormalizerRule.new E json in
      add_rules deep_equal jsons (if is_among deep_equal r kept then kept else kept ++ r ∷ [])

  unfoldable pub load :
      (Rule E → Rule E → Bool) → Option (List (Option (RuleJson E))) → Normalizer → Normalizer
  unfolding sort_rules add_rules
  load deep_equal none m = m
  load deep_equal (some json) m = record m { rules = sort_rules (add_rules deep_equal json []) }

  -- The place before the first rule that passes the test, or the end: `findIndex`, `push`, `splice`.
  unfoldable pub insert_before : (Rule E → Bool) → Rule E → List (Rule E) → List (Rule E)
  insert_before find_rule r [] = r ∷ []
  insert_before find_rule r (s ∷ rules) =
      let rest = insert_before find_rule r rules in if find_rule s then r ∷ s ∷ rules else s ∷ rest

  -- `!pattern`
  abbrev pub present : Option (Expression E) → Option (Expression E)
  present none = none
  present (some (regexp re)) = some (regexp re)
  present (some (text [])) = none
  present (some (text (c ∷ s))) = some (text (c ∷ s))

  abbrev name_json : NameRule → Expression E → Text → RuleJson E
  name_json rule expression name = record {
    each_segment = false;
    eval_order = elim rule.rule_precedence [
      | none ↦ default_precedence
      | some precedence ↦ precedence
    ];
    terminate_chain = elim rule.terminate_chain [ none ↦ true | some terminal ↦ terminal ];
    replacement = name;
    replace_all = rule.replace_all;
    ignore = false;
    match_expression = expression;
  }

  abbrev pub comes_later : Bool → ℤ → Rule E → Bool
  comes_later reverse eval_order r =
      if reverse then leb_ℤ eval_order r.precedence else ltb_ℤ eval_order r.precedence

  unfoldable pub process_name_rule : Normalizer → NameRule → Normalizer
  unfolding insert_before
  process_name_rule m rule = elim (present rule.rule_pattern) [
    | none ↦ m
    | some expression ↦ elim (named rule.name) [
      | none ↦ m
      | some name ↦
          let json = name_json rule expression name in
          record m {
            rules =
                insert_before (comes_later m.config.reverse_naming_rules json.eval_order)
                  (NormalizerRule.new E (some json)) m.rules;
          }
    ]
  ]

  abbrev pub simple_json : Expression E → Option Text → RuleJson E
  simple_json expression name = record {
    each_segment = false;
    eval_order = pos 0;
    terminate_chain = true;
    replacement = elim (named name) [ none ↦ [] | some s ↦ s ];
    replace_all = false;
    ignore = elim (named name) [ none ↦ true | some s ↦ false ];
    match_expression = expression;
  }

  unfoldable pub add_simple : Option (Expression E) → Option Text → Normalizer → Normalizer
  add_simple pattern name m = elim (present pattern) [
    | none ↦ m
    | some expression ↦ record m {
      rules = NormalizerRule.new E (some (simple_json expression name)) ∷ m.rules;
    }
  ]

  unfoldable pub process_name_rules : List NameRule → Normalizer → Normalizer
  unfolding process_name_rule
  process_name_rules [] m = m
  process_name_rules (rule ∷ rules) m = process_name_rules rules (process_name_rule m rule)

  unfoldable pub add_ignores : List (Option (Expression E)) → Normalizer → Normalizer
  unfolding add_simple
  add_ignores [] m = m
  add_ignores (pattern ∷ patterns) m = add_ignores patterns (add_simple pattern none m)

  unfoldable pub load_from_config : Normalizer → Normalizer
  unfolding process_name_rules add_ignores
  load_from_config m = add_ignores m.config.ignore_rules (process_name_rules m.config.name_rules m)

  -- The variables of the loop of `normalize`, and the events emitted.
  pub record Progress : Type 0 where
    pub last : Text
    pub normalized : Option Text
    pub matched : Bool
    pub ignored : Bool
    pub applied : List (Rule E × Text × Text)

  -- One round, after the rule was applied. A rule that does not ignore never answers null.
  unfoldable pub advance : Rule E → Option Text → Progress → Progress
  advance r none p = if r.matched && r.ignore then (record p { ignored = true }) else p
  advance r (some s) p =
      if r.matched
      then (if r.ignore then (record p { ignored = true }) else (record p {
        last = s;
        normalized = some s;
        matched = true;
        applied = p.applied ++ (r, s, p.last) ∷ [];
      }))
      else p

  -- The rules after the loop, and its variables.
  unfoldable pub normalize_loop : List (Rule E) → Progress → List (Rule E) × Progress
  unfolding advance
  normalize_loop [] p = ([], p)
  normalize_loop (r ∷ rules) p =
      let answer = apply E r p.last in
      let next = advance answer.1 answer.0 p in
      let rest = normalize_loop rules next in
      if answer.1.matched && answer.1.is_terminal
      then (answer.1 ∷ rules, next)
      else (answer.1 ∷ rest.0, rest.1)

  pub record Results : Type 0 where
    pub matched : Bool
    pub ignore : Bool
    pub value : Text

  abbrev pub initial : Text → Progress
  initial path = record {
    last = path;
    normalized = none;
    matched = false;
    ignored = false;
    applied = [];
  }

  unfoldable pub normalize : Normalizer → Text → Results × Normalizer × List (Rule E × Text × Text)
  unfolding normalize_loop formatter
  normalize m path =
      let done = normalize_loop m.rules (initial path) in
      (
        record {
          matched = done.1.matched;
          ignore = done.1.ignored;
          value = formatter m done.1.normalized path;
        },
        record m { rules = done.0 },
        done.1.applied,
      )
