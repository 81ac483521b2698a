-- ===== src/Examples/Filters.antt =====
-- The attribute filter at concrete configurations.
use monis_agent.Common.{
  ℕ, zero, suc, ◌≡◌, refl, List, [], ◌∷◌, Option, none, some, Bool, true, false, ◌&&◌, ◌||◌, ◌==◌,
  if◌then◌else◌,
}
use monis_agent.Common.Text.{Text, codes, text_eq}
use monis_agent.AttributeFilter
use monis_agent.AttributeFilter.{
  Destination, trans_event, trans_trace, error_event, browser_event, span_event, trans_segment,
  Mask, Config, Filter, filter, update, new, segment_scope, all_scope,
}
use monis_agent.AttributeFilter.Coherent.{uncached}
use monis_agent.AttributeFilter.Queries.{Call, querying, updating, run, filter-uncached}
use monis_agent.AttributeFilter.Disabled.{filter-disabled}

abbrev exact_test : List Text → Text → Bool
exact_test [] key = false
exact_test (rule ∷ rules) key = text_eq rule key || exact_test rules key

-- How much of the key the rule matches, up to its star.
abbrev prefix_length : Text → Text → Option ℕ
prefix_length [] key = some 0
prefix_length (c ∷ rule) [] = if c == b'*' then some 0 else none
prefix_length (c ∷ rule) (d ∷ key) =
    let rest = prefix_length rule key in
    if c == b'*'
    then some 0
    else if c == d
    then elim rest [ none ↦ none | some n ↦ some (suc n) ]
    else none

abbrev wildcard_test : List Text → Text → Option ℕ
wildcard_test [] key = none
wildcard_test (rule ∷ rules) key =
    let rest = wildcard_test rules key in
    elim (prefix_length rule key) [ none ↦ rest | some n ↦ some n ]

-- Spans take what starts with a; the other destinations have no rules of their own.
abbrev config : Bool → Config
config spans = record {
  enabled = true;
  include_enabled = true;
  filter_cache_limit = 1;
  include = [];
  exclude = codes "b*" ∷ [];
  destination = λ d. elim d [
    | span_event ↦ record { enabled = spans; include = codes "a*" ∷ []; exclude = [] }
    | _ ↦ record { enabled = true; include = []; exclude = [] }
  ];
}

abbrev nothing : Mask
nothing = λ d. false

abbrev queries : List (Call exact_test wildcard_test)
queries = querying segment_scope nothing (codes "ab") ∷ updating (config true) ∷ []

all_enabled :
    (d : Destination)
    → (new (config true)).settings.enabled_destinations d ≡ true
    → ((config true).destination d).enabled ≡ true
all_enabled trans_event e = refl
all_enabled trans_trace e = refl
all_enabled error_event e = refl
all_enabled browser_event e = refl
all_enabled span_event e = refl
all_enabled trans_segment e = refl

abbrev bits : Option (Mask × Filter) → Option (Bool × Bool)
bits none = none
bits (some answer) = some (answer.0 span_event, answer.0 trans_segment)

filter_test :
    bits (filter exact_test wildcard_test segment_scope nothing (codes "ab") (new (config true)))
    ≡ some (true, false)
unfolding new update filter AttributeFilter.verdict_on AttributeFilter.update_destinations
    AttributeFilter.calculate AttributeFilter.do_test AttributeFilter.match_rules
    AttributeFilter.import_rules monis_agent.Common.Text.last?
filter_test = refl

filter-uncached_example :
    (g h : Filter) × (run exact_test wildcard_test queries (new (config true)) ≡ some g)
    × (filter exact_test wildcard_test segment_scope nothing (codes "ab") g
        ≡ some (uncached exact_test wildcard_test g.settings segment_scope nothing (codes "ab"), h))
filter-uncached_example =
    filter-uncached exact_test wildcard_test queries (config true) segment_scope nothing
      (codes "ab") (all_enabled, tt)

-- Segments are disabled, and are the last destination of all.
abbrev segmentless : Config
segmentless = record (config true) {
  destination = λ d. elim d [
    | trans_segment ↦ record { enabled = false; include = []; exclude = [] }
    | _ ↦ record { enabled = true; include = []; exclude = [] }
  ];
}

filter-disabled_example :
    filter exact_test wildcard_test all_scope nothing
      (codes "ab")
      (update segmentless (new (config true)))
    ≡ none
unfolding new update
filter-disabled_example =
    filter-disabled exact_test wildcard_test segmentless (new (config true)) trans_segment
      (trans_event ∷ trans_trace ∷ error_event ∷ browser_event ∷ span_event ∷ []) [] nothing
      (codes "ab") refl refl refl
