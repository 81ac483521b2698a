-- ===== src/Examples/Headers.antt =====
-- Headers of distributed traces at concrete inputs.
use monis_agent.Common.{◌≡◌, refl, [], ◌∷◌, none, some, true, false}
use monis_agent.Common.Text.{Text, codes, text_eq, to_lower_case}
use monis_agent.Common.Split.{split, join, trim, is_space}
use monis_agent.TraceParent.{
  dash, is_hex_text, trace_id_valid, parent_id_valid, version_valid, flags_valid, checked,
  parse_parts, w3c_version, validate_and_parse, pad_start, outgoing_trace_id, or_generated,
  create_flags_hex, create_traceparent,
}
use monis_agent.TraceParent.RoundTrip.{
  AreValid, validate_and_parse-create_traceparent, validate_and_parse-printed,
}
use monis_agent.TraceState.{
  comma, ListMembers, Context, sent_parts, parse_trace_state, create_tracestate, extract_intrinsics,
  add_parts, add_member, add_members,
}
use monis_agent.TraceState.Entry.{IsPlain}
use monis_agent.TraceState.Propagation.{create_tracestate-propagates}

-- The code of the module, for evaluation.
program : Unit {0}
unfolding text_eq to_lower_case split join trim is_space is_hex_text trace_id_valid parent_id_valid
    version_valid flags_valid checked parse_parts validate_and_parse pad_start outgoing_trace_id
    create_flags_hex create_traceparent parse_trace_state add_parts add_member add_members
program = tt

abbrev trace_id : Text
trace_id = codes "ABC123"

abbrev span_id : Text
span_id = codes "00f067aa0ba902b7"

sent_valid : trace_id_valid (outgoing_trace_id trace_id) ≡ true
unfolding program
sent_valid = refl

parent_valid : parent_id_valid (or_generated [] (some span_id)) ≡ true
unfolding program
parent_valid = refl

validate_and_parse-create_traceparent_example :
    validate_and_parse (create_traceparent [] trace_id (some span_id) true)
    ≡ some (record {
      version = w3c_version;
      trace_id = outgoing_trace_id trace_id;
      parent_id = or_generated [] (some span_id);
      flags = create_flags_hex true;
    })
validate_and_parse-create_traceparent_example =
    validate_and_parse-create_traceparent [] trace_id (some span_id) true sent_valid parent_valid

abbrev header : Text
header = codes " 00-4bf92f3577b34da6a3ce929d0e0e4736-00f067aa0ba902b7-01 "

header_read :
    validate_and_parse header
    ≡ some (record {
      version = w3c_version;
      trace_id = codes "4bf92f3577b34da6a3ce929d0e0e4736";
      parent_id = span_id;
      flags = codes "01";
    })
unfolding program
header_read = refl

validate_and_parse-printed_example :
    (join dash (w3c_version ∷ codes "4bf92f3577b34da6a3ce929d0e0e4736" ∷ span_id ∷ codes "01" ∷ [])
      ≡ trim header)
    × AreValid w3c_version (codes "4bf92f3577b34da6a3ce929d0e0e4736") span_id (codes "01")
validate_and_parse-printed_example =
    validate_and_parse-printed header
      (record {
        version = w3c_version;
        trace_id = codes "4bf92f3577b34da6a3ce929d0e0e4736";
        parent_id = span_id;
        flags = codes "01";
      })
      header_read refl

-- An id of full length in capitals is sent as it is, and refused.
capitals_test :
    validate_and_parse
      (create_traceparent [] (codes "4BF92F3577B34DA6A3CE929D0E0E4736") (some span_id) true)
    ≡ none
unfolding program
capitals_test = refl

abbrev context : Context
context = record {
  trusted_account_key = codes "190";
  account_id = codes "33";
  primary_application_id = codes "2827902";
  span_events_enabled = true;
  transaction_events_enabled = false;
  segment_id = codes "7d3efb1b173fecfa";
  transaction_id = codes "e8b91a159289ff74";
  sampled = true;
  priority = codes "1.234567";
  timestamp = codes "1518469636035";
}

context-IsPlain : IsPlain context
unfolding is_space
context-IsPlain = record {
  plain_key = refl;
  plain_account = refl;
  plain_application = refl;
  plain_segment = refl;
  plain_transaction = refl;
  plain_priority = refl;
  plain_timestamp = refl;
  is_complete = refl;
}

abbrev others : ListMembers
others = record {
  final_list_members = codes "foo=1" ∷ codes "bar=2" ∷ [];
  vendors = codes "foo" ∷ codes "bar" ∷ [];
  nr_value = codes "old";
}

received_test : parse_trace_state (codes "190") (codes "foo=1, 190@nr=old,,bar=2") ≡ some others
unfolding program
received_test = refl

create_tracestate-propagates_example :
    (parse_trace_state
        (codes "190")
        (create_tracestate context (join comma (codes "foo=1" ∷ codes "bar=2" ∷ [])))
      ≡ some (record others { nr_value = join dash (sent_parts context) }))
    × (extract_intrinsics (join dash (sent_parts context)) ≡ record {
      version = some (codes "0");
      parent_type = some (codes "0");
      account_id = some (codes "33");
      app_id = some (codes "2827902");
      span_id = some (codes "7d3efb1b173fecfa");
      transaction_id = none;
      sampled = some (codes "1");
      priority = some (codes "1.234567");
      timestamp = some (codes "1518469636035");
    })
create_tracestate-propagates_example =
    create_tracestate-propagates context (codes "foo=1, 190@nr=old,,bar=2") others context-IsPlain
      received_test
