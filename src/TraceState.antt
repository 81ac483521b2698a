-- ===== src/TraceState.antt =====
-- lib/transaction/tracecontext.js: the header tracestate. The time and the priority are given as the text
-- that the host prints them as; a header in a buffer is its text. An empty text stands for a missing
-- one wherever the code tests for truth. The conversion of the intrinsics to numbers and their
-- validation are not modelled; logging and supportability metrics are left out.
pub mod Members
pub mod Entry
pub mod Propagation
use monis_agent.Common.{
  ℕ, zero, suc, List, [], ◌∷◌, ◌++◌, Option, none, some, Bool, true, false, ◌&&◌, if◌then◌else◌,
}
use monis_agent.Common.Text.{Text, codes, text_eq}
use monis_agent.Common.Split.{split, join, trim}
use monis_agent.Common.Dict.{Dict, insert}
use monis_agent.TraceParent.{dash}

abbrev pub comma : ℕ
comma = b','

abbrev pub equals : ℕ
equals = b'='

pub record ListMembers : Type 0 where
  pub final_list_members : List Text
  pub vendors : List Text
  pub nr_value : Text

-- `nrTraceStateValue || vendorValue`
abbrev pub first_of : Text → Text → Text
first_of [] v = v
first_of (c ∷ s) v = c ∷ s

abbrev pub nr_key : Text → Text
nr_key trusted_key = trusted_key ++ codes "@nr"

abbrev pub is_present : Text → Bool
is_present [] = false
is_present (c ∷ s) = true

unfoldable pub add_parts :
    (trusted_key list_member : Text) → List Text → ListMembers → Option ListMembers
add_parts trusted_key list_member (vendor_key ∷ vendor_value ∷ []) m = some (
    if is_present trusted_key && text_eq vendor_key (nr_key trusted_key)
    then (record m { nr_value = first_of m.nr_value vendor_value })
    else (record m {
      final_list_members = m.final_list_members ++ list_member ∷ [];
      vendors = m.vendors ++ vendor_key ∷ [];
    }))
add_parts trusted_key list_member _ m = none

-- A member is split unless it is empty.
unfoldable pub add_member : Text → Text → ListMembers → Option ListMembers
unfolding add_parts
add_member trusted_key [] m = some m
add_member trusted_key (c ∷ s) m = add_parts trusted_key (c ∷ s) (split equals (c ∷ s)) m

unfoldable pub add_members : Text → List Text → ListMembers → Option ListMembers
unfolding add_member
add_members trusted_key [] m = some m
add_members trusted_key (x ∷ xs) m = elim (add_member trusted_key (trim x) m) [
  | none ↦ none
  | some m' ↦ add_members trusted_key xs m'
]

abbrev pub no_members : ListMembers
no_members = record { final_list_members = []; vendors = []; nr_value = [] }

-- `_parseTraceState`; `none` is a header that is not valid.
unfoldable pub parse_trace_state : Text → Text → Option ListMembers
unfolding add_members
parse_trace_state trusted_key tracestate =
    add_members trusted_key (split comma tracestate) no_members

pub record Intrinsics : Type 0 where
  pub version : Option Text
  pub parent_type : Option Text
  pub account_id : Option Text
  pub app_id : Option Text
  pub span_id : Option Text
  pub transaction_id : Option Text
  pub sampled : Option Text
  pub priority : Option Text
  pub timestamp : Option Text

abbrev pub or_null : Text → Option Text
or_null [] = none
or_null (c ∷ s) = some (c ∷ s)

-- A part by its index; one that is empty or missing is null or undefined.
abbrev pub part : ℕ → List Text → Option Text
part n [] = none
part zero (p ∷ ps) = or_null p
part (suc n) (p ∷ ps) = part n ps

unfoldable pub extract_intrinsics : Text → Intrinsics
extract_intrinsics nr_tracestate =
    let parts = split dash nr_tracestate in
    record {
      version = part 0 parts;
      parent_type = part 1 parts;
      account_id = part 2 parts;
      app_id = part 3 parts;
      span_id = part 4 parts;
      transaction_id = part 5 parts;
      sampled = part 6 parts;
      priority = part 7 parts;
      timestamp = part 8 parts;
    }

-- What `createTracestate` reads of the configuration, the transaction and the clock.
pub record Context : Type 0 where
  pub trusted_account_key : Text
  pub account_id : Text
  pub primary_application_id : Text
  pub span_events_enabled : Bool
  pub transaction_events_enabled : Bool
  pub segment_id : Text
  pub transaction_id : Text
  pub sampled : Bool
  pub priority : Text
  pub timestamp : Text

abbrev pub sent_parts : Context → List Text
sent_parts x =
    codes "0"
    ∷ codes "0"
    ∷ x.account_id
    ∷ x.primary_application_id
    ∷ (if x.span_events_enabled then x.segment_id else [])
    ∷ (if x.transaction_events_enabled then x.transaction_id else [])
    ∷ (if x.sampled then codes "1" else codes "0")
    ∷ x.priority
    ∷ x.timestamp
    ∷ []

unfoldable pub nr_trace_state : Context → Text
unfolding join
nr_trace_state x = nr_key x.trusted_account_key ++ equals ∷ join dash (sent_parts x)

-- The header, without or with the members that were received.
abbrev pub with_raw : Text → Text → Text
with_raw entry [] = entry
with_raw entry (c ∷ raw) = entry ++ comma ∷ c ∷ raw

unfoldable pub create_tracestate : Context → (trace_state_raw : Text) → Text
unfolding nr_trace_state
create_tracestate x raw =
    if is_present x.account_id
      && is_present x.primary_application_id
      && is_present x.trusted_account_key
    then with_raw (nr_trace_state x) raw
    else raw

-- What `_validateAndParseTraceStateHeader` finds in a header that is valid, with the intrinsics as
-- text, before they are validated.
pub record TraceStateData : Type 0 where
  pub entry_found : Bool
  pub intrinsics : Option Intrinsics
  pub new_trace_state : Text
  pub vendors : Option Text

unfoldable pub state_data : (trusted_key : Text) → ListMembers → TraceStateData
unfolding join extract_intrinsics
state_data trusted_key m =
    let found = is_present trusted_key && is_present m.nr_value in
    record {
      entry_found = found;
      intrinsics = if found then some (extract_intrinsics m.nr_value) else none;
      new_trace_state = join comma m.final_list_members;
      vendors = elim m.vendors [ [] ↦ none | v ∷ vs ↦ some (join comma (v ∷ vs)) ];
    }

unfoldable pub validate_and_parse_state : Text → Text → Option TraceStateData
unfolding parse_trace_state state_data
validate_and_parse_state trusted_key tracestate = elim (parse_trace_state trusted_key tracestate) [
  | none ↦ none
  | some m ↦ some (state_data trusted_key m)
]

-- `addTraceContextHeaders`, of headers that are there, with the headers that were created.
unfoldable pub add_trace_context_headers : (traceparent tracestate : Text) → Dict Text → Dict Text
unfolding insert
add_trace_context_headers traceparent tracestate headers =
    let added = insert (codes "traceparent") traceparent headers in
    if is_present tracestate then insert (codes "tracestate") tracestate added else added
