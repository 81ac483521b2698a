-- ===== src/Examples/Rules.antt =====
-- Rules over expressions that match a text at the start.
use monis_agent.Common.{
  ℕ, zero, suc, ◌≡◌, refl, List, [], ◌∷◌, ◌++◌, Bool, true, false, ◌&&◌, none, some, length, ◌==◌,
  arith, if◌then◌else◌,
}
use monis_agent.Common.Int.{ℤ, pos, negsuc}
use monis_agent.Common.Text.{Text, codes}
use monis_agent.NormalizerRule
use monis_agent.NormalizerRule.{
  Engine, Expression, regexp, text, Rule, RuleJson, apply, test, compile_pattern,
}
use monis_agent.NormalizerRule.Unmatched.{apply-unmatched}
use monis_agent.NormalizerRule.Alternating.{apply-alternates, at_index}
use monis_agent.Normalizer
use monis_agent.Normalizer.{Normalizer, Config, NameRule, normalize, formatter, add_simple}
use monis_agent.Normalizer.Sorting.{IsSorted}
use monis_agent.Normalizer.Ordered.{
  Call, loading, configuring, adding, normalizing, step, run, rules-IsSorted,
}
use monis_agent.Normalizer.Simple.{normalize-unmatched, normalize-add_simple}

abbrev starts_with : Text → Text → Bool
starts_with [] s = true
starts_with (c ∷ p) [] = false
starts_with (c ∷ p) (d ∷ s) = (c == d) && starts_with p s

abbrev drop : ℕ → Text → Text
drop zero s = s
drop (suc n) [] = []
drop (suc n) (c ∷ s) = drop n s

abbrev prefixes : Engine
prefixes = record {
  Program = Text;
  compile = λ source flags. some source;
  with_flags = λ p flags. p;
  only_empty = [];
  find_from = λ p s n. if (n == 0) && starts_with p s then some (length p) else none;
  replace = λ p s r. r ++ drop (length p) s;
}

abbrev rule_json : ℤ → Text → Text → Bool → Bool → RuleJson prefixes
rule_json precedence expression replacement ignore replace_all = record {
  each_segment = false;
  eval_order = precedence;
  terminate_chain = true;
  replacement = replacement;
  replace_all = replace_all;
  ignore = ignore;
  match_expression = text expression;
}

abbrev health : Rule prefixes
unfolding NormalizerRule.new
health = NormalizerRule.new prefixes (some (rule_json (pos 3) (codes "/health") [] true true))

abbrev users : Rule prefixes
unfolding NormalizerRule.new
users =
    NormalizerRule.new prefixes (some (rule_json (pos 1) (codes "/user") (codes "/u") false false))

apply-unmatched_test : (apply prefixes users (codes "/health")).0 ≡ some (codes "/health")
unfolding NormalizerRule.new apply NormalizerRule.apply_replace NormalizerRule.map_segments
    NormalizerRule.get_segments NormalizerRule.apply_map test
apply-unmatched_test = apply-unmatched prefixes users (codes "/health") refl

apply-alternates_example :
    ((apply prefixes (at_index prefixes 0 health) (codes "/health")).0 ≡ none)
    × ((apply prefixes
          (apply prefixes (at_index prefixes 0 health) (codes "/health")).1
          (codes "/health")).0
        ≡ some (codes "/health"))
    × ((apply prefixes
          (apply prefixes
            (apply prefixes (at_index prefixes 0 health) (codes "/health")).1
            (codes "/health")).1
          (codes "/health")).0
        ≡ none)
unfolding NormalizerRule.new
apply-alternates_example =
    apply-alternates prefixes health (codes "/health") 7 refl refl refl refl refl

abbrev config : Config prefixes
config = record {
  enforce_backstop = true;
  reverse_naming_rules = false;
  name_rules =
      record {
        rule_pattern = some (text (codes "/a"));
        name = some (codes "b");
        rule_precedence = none;
        terminate_chain = none;
        replace_all = false;
      }
      ∷ [];
  ignore_rules = some (text (codes "/c")) ∷ [];
}

-- Loaded out of order, configured, added to and applied.
abbrev calls : List (Call prefixes)
calls =
    loading (λ a b. false)
      (some (
        some (rule_json (pos 3) (codes "/health") [] true true)
        ∷ some (rule_json (pos 1) (codes "/user") (codes "/u") false false)
        ∷ []))
    ∷ configuring
    ∷ adding (some (text (codes "/x"))) none
    ∷ normalizing (codes "/a/1")
    ∷ []

rules-IsSorted_example :
    IsSorted prefixes (run prefixes calls (Normalizer.new prefixes config true)).rules
rules-IsSorted_example = rules-IsSorted prefixes calls config true (omega arith) (omega arith)

abbrev precedences : List (Rule prefixes) → List ℤ
precedences [] = []
precedences (r ∷ rules) = r.precedence ∷ precedences rules

-- A rule of negative precedence stays behind the one that is added in front of it.
negative_test :
    precedences
      (run prefixes
        (loading
            (λ a b. false)
            (some (some (rule_json (negsuc 0) (codes "/health") [] true true) ∷ []))
          ∷ adding (some (text (codes "/x"))) none
          ∷ [])
        (Normalizer.new prefixes config true)).rules
    ≡ pos 0 ∷ negsuc 0 ∷ []
unfolding run step Normalizer.load Normalizer.sort_rules Normalizer.add_rules Normalizer.new
    NormalizerRule.new add_simple
negative_test = refl

abbrev two_rules : Normalizer prefixes
unfolding NormalizerRule.new
two_rules = record { is_url = true; config = config; rules = users ∷ health ∷ [] }

normalize-unmatched_test : (normalize prefixes two_rules (codes "/other")).0 ≡ record {
  matched = false;
  ignore = false;
  value = formatter prefixes two_rules none (codes "/other");
}
unfolding NormalizerRule.new apply NormalizerRule.apply_replace NormalizerRule.apply_ignore
    NormalizerRule.matches NormalizerRule.any_matches NormalizerRule.map_segments
    NormalizerRule.get_segments NormalizerRule.apply_map test
normalize-unmatched_test =
    normalize-unmatched prefixes two_rules (codes "/other") (refl, (refl, tt))

normalize_test :
    (normalize prefixes two_rules (codes "/user/1")).0.value ≡ codes "NormalizedUri/u/1"
unfolding normalize NormalizerRule.new apply NormalizerRule.apply_replace formatter
    NormalizerRule.map_segments NormalizerRule.get_segments NormalizerRule.apply_map test
normalize_test = refl

normalize-add_simple_test :
    ((normalize prefixes
        (add_simple prefixes (some (text (codes "/user"))) none two_rules)
        (codes "/user/1")).0
      ≡ record {
        matched = false;
        ignore = true;
        value = formatter prefixes two_rules none (codes "/user/1");
      })
    × ((normalize prefixes
          (add_simple prefixes (some (text (codes "/user"))) none two_rules)
          (codes "/user/1")).2
        ≡ [])
    × ((r : Rule prefixes) × ((normalize prefixes
            (add_simple prefixes (some (text (codes "/user"))) none two_rules)
            (codes "/user/1")).1.rules
          ≡ r ∷ two_rules.rules))
unfolding compile_pattern test
normalize-add_simple_test =
    normalize-add_simple prefixes two_rules (text (codes "/user")) (codes "/user/1") refl refl
