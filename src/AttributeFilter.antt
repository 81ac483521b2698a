-- ===== src/AttributeFilter.antt =====
-- lib/config/attribute-filter.js. A mask of destinations is a Boolean for each of its bits. What the
-- regular expressions that are made of a list of rules answer is an argument; so `_importRules` is
-- modelled up to the lists that it makes them of, and `_convertRulesToRegex` is not. The lazily
-- computed global results are computed where they are used.
pub mod Coherent
pub mod Queries
pub mod Disabled
use monis_agent.Common.{
  ℕ, suc, List, [], ◌∷◌, Option, none, some, Bool, true, false, not, ◌&&◌, ◌||◌, ltb, leb, ◌==◌,
  if◌then◌else◌,
}
use monis_agent.Common.Text.{Text, text_eq, last?}

pub data Destination : Type 0 where
  trans_event : Destination
  trans_trace : Destination
  error_event : Destination
  browser_event : Destination
  span_event : Destination
  trans_segment : Destination

-- The numbers of the bits.
abbrev pub bit : Destination → ℕ
bit trans_event = 0
bit trans_trace = 1
bit error_event = 2
bit browser_event = 3
bit span_event = 4
bit trans_segment = 5

abbrev pub trans_scope : List Destination
trans_scope = trans_event ∷ trans_trace ∷ error_event ∷ browser_event ∷ []

abbrev pub segment_scope : List Destination
segment_scope = span_event ∷ trans_segment ∷ []

abbrev pub all_scope : List Destination
all_scope =
    trans_event ∷ trans_trace ∷ error_event ∷ browser_event ∷ span_event ∷ trans_segment ∷ []

abbrev pub Mask : Type 0
Mask = Destination → Bool

-- `destinations | id` and `destinations & ~id`
abbrev pub put : Destination → Bool → Mask → Mask
put d value mask e = if bit e == bit d then value else mask e

-- How well rules match a key: -Infinity, the length of the match and 1 more, or Infinity.
pub data Strength : Type 0 where
  no_match : Strength
  wildcard_match : ℕ → Strength
  exact_match : Strength

-- `a > b` and `a >= b`
unfoldable pub stronger : Strength → Strength → Bool
stronger no_match b = false
stronger (wildcard_match n) no_match = true
stronger (wildcard_match n) (wildcard_match k) = ltb k n
stronger (wildcard_match n) exact_match = false
stronger exact_match exact_match = false
stronger exact_match _ = true

abbrev pub as_strong : Strength → Strength → Bool
as_strong a b = not (stronger b a)

-- What `_doTest` answers: a Boolean, or that no rule matches.
pub data Verdict : Type 0 where
  undecided : Verdict
  decided : Bool → Verdict

-- What `_importRules` makes the two expressions of; none is made of an empty list.
pub record Rules : Type 0 where
  pub exact : List Text
  pub wildcard : List Text

unfoldable pub import_rules : List Text → Rules
import_rules [] = record { exact = []; wildcard = [] }
import_rules (rule ∷ rules) =
    let rest = import_rules rules in
    elim (last? rule) [
      | none ↦ record rest { exact = rule ∷ rest.exact }
      | some c ↦
          if c == b'*'
          then (record rest { wildcard = rule ∷ rest.wildcard })
          else (record rest { exact = rule ∷ rest.exact })
    ]

pub record DestinationConfig : Type 0 where
  pub enabled : Bool
  pub include : List Text
  pub exclude : List Text

pub record Config : Type 0 where
  pub enabled : Bool
  pub include_enabled : Bool
  pub filter_cache_limit : ℕ
  pub include : List Text
  pub exclude : List Text
  pub destination : Destination → DestinationConfig

pub record RulePair : Type 0 where
  pub include : Rules
  pub exclude : Rules

-- What only `update` changes: the rules, and the enabled destinations. A destination that was never
-- enabled has no rules.
pub record Settings : Type 0 where
  pub config : Config
  pub global : RulePair
  pub rules : Destination → Option RulePair
  pub enabled_destinations : Mask

pub record Filter : Type 0 where
  pub settings : Settings
  pub cache : Destination → Option (List (Text × Verdict))
  pub cached_count : ℕ

abbrev pub lookup : Text → List (Text × Verdict) → Option Verdict
lookup key [] = none
lookup key (entry ∷ entries) =
    let rest = lookup key entries in if text_eq key entry.0 then some entry.1 else rest

abbrev included : Config → List Text → List Text
included config include = if config.include_enabled then include else []

-- The rules of a destination.
abbrev pub imported : Config → Destination → RulePair
imported config d = record {
  include = import_rules (included config (config.destination d).include);
  exclude = import_rules (config.destination d).exclude;
}

unfoldable pub update : Config → Filter → Filter
update config f = record {
  settings = record {
    config = config;
    global = record {
      include = import_rules (included config config.include);
      exclude = import_rules config.exclude;
    };
    rules = λ d.
        if (config.destination d).enabled then some (imported config d) else f.settings.rules d;
    enabled_destinations = λ d. (config.destination d).enabled || f.settings.enabled_destinations d;
  };
  cache = λ d. if (config.destination d).enabled then some [] else none;
  cached_count = 0;
}

-- The filter before its rules are pulled in.
abbrev pub blank : Config → Filter
blank config = record {
  settings = record {
    config = config;
    global = record {
      include = record { exact = []; wildcard = [] };
      exclude = record { exact = []; wildcard = [] };
    };
    rules = λ d. none;
    enabled_destinations = λ d. false;
  };
  cache = λ d. none;
  cached_count = 0;
}

-- The constructor. Its subscriptions call `update` with the configuration of the time.
unfoldable pub new : Config → Filter
new config = update config (blank config)

unfoldable pub update_destinations : Mask → Destination → Verdict → Mask
update_destinations mask d undecided = mask
update_destinations mask d (decided value) = put d value mask

-- The answers of the expressions made of a list of rules: whether one matches the key as a whole, and
-- the length of the match at the start of it.
module _ (exact_test : List Text → Text → Bool) (wildcard_test : List Text → Text → Option ℕ) where
  abbrev wildcard_strength : Option ℕ → Strength
  wildcard_strength none = no_match
  wildcard_strength (some last_index) = wildcard_match (suc last_index)

  abbrev is_empty : List Text → Bool
  is_empty [] = true
  is_empty (s ∷ ss) = false

  unfoldable pub match_rules : Rules → Text → Strength
  match_rules rules key =
      if not (is_empty rules.exact) && exact_test rules.exact key
      then exact_match
      else if is_empty rules.wildcard
      then no_match
      else wildcard_strength (wildcard_test rules.wildcard key)

  abbrev is_exact : Strength → Bool
  is_exact exact_match = true
  is_exact _ = false

  abbrev is_none : Strength → Bool
  is_none no_match = true
  is_none _ = false

  unfoldable pub do_test : Strength → Strength → Strength → Strength → Verdict
  unfolding stronger
  do_test global_include global_exclude include exclude =
      if is_exact global_exclude
      then decided false
      else if is_exact exclude
      then decided false
      else if is_exact global_include
      then decided true
      else if is_exact include
      then decided true
      else if is_none global_exclude && is_none global_include && is_none exclude && is_none include
      then undecided
      else decided (
          (stronger include exclude && as_strong include global_exclude)
          || (stronger global_include exclude && stronger global_include global_exclude))

  unfoldable pub calculate : Settings → RulePair → Text → Verdict
  calculate s rules key =
      do_test (match_rules s.global.include key) (match_rules s.global.exclude key)
        (match_rules rules.include key) (match_rules rules.exclude key)

  abbrev pub remember : Filter → Destination → List (Text × Verdict) → Text → Verdict → Filter
  remember f d entries key verdict =
      if ltb f.cached_count f.settings.config.filter_cache_limit
      then (record f {
        cache = λ e. if bit e == bit d then some ((key, verdict) ∷ entries) else f.cache e;
        cached_count = suc f.cached_count;
      })
      else f

  -- The verdict on a destination that is enabled; it fails if the destination has no cache or no rules.
  unfoldable pub verdict_on : Filter → Destination → Text → Option (Verdict × Filter)
  verdict_on f d key = elim (f.cache d) [
    | none ↦ none
    | some entries ↦ elim (lookup key entries) [
      | some verdict ↦ some (verdict, f)
      | none ↦ elim (f.settings.rules d) [
        | none ↦ none
        | some rules ↦
            let verdict = calculate f.settings rules key in
            some (verdict, remember f d entries key verdict)
      ]
    ]
  ]

  -- The loop of `_filter`.
  unfoldable pub filter_loop : List Destination → Mask → Filter → Text → Option (Mask × Filter)
  filter_loop [] mask f key = some (mask, f)
  filter_loop (d ∷ scope) mask f key =
      if not (f.settings.enabled_destinations d)
      then filter_loop scope (put d false mask) f key
      else elim (verdict_on f d key) [
        | none ↦ none
        | some answer ↦ filter_loop scope (update_destinations mask d answer.0) answer.1 key
      ]

  unfoldable pub filter : List Destination → Mask → Text → Filter → Option (Mask × Filter)
  unfolding filter_loop
  filter scope mask key f =
      if not f.settings.config.enabled then some ((λ d. false), f) else filter_loop scope mask f key

  abbrev pub filter_transaction : Mask → Text → Filter → Option (Mask × Filter)
  filter_transaction mask key f = filter trans_scope mask key f

  abbrev pub filter_segment : Mask → Text → Filter → Option (Mask × Filter)
  filter_segment mask key f = filter segment_scope mask key f

  abbrev pub filter_all : Mask → Text → Filter → Option (Mask × Filter)
  filter_all mask key f = filter all_scope mask key f
