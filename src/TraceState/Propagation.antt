-- ===== src/TraceState/Propagation.antt =====
-- A header that is created after another was received.
use monis_agent.Common.{
  ◌≡◌, refl, ap, sym, ◌∙◌, List, [], ◌∷◌, ◌++◌, none, some, true, ◌&&◌, if◌then◌else◌, arith,
  false-true,
}
use monis_agent.Common.Text.{Text, codes, text_eq, text_eq_refl}
use monis_agent.Common.Split.{split, join, trim, trim_solid, AllLack, split-join, split-AllLack}
use monis_agent.TraceParent.{dash}
use monis_agent.TraceState.{
  comma, equals, ListMembers, nr_key, is_present, add_parts, add_member, add_members, no_members,
  parse_trace_state, or_null, part, extract_intrinsics, Context, sent_parts, nr_trace_state,
  with_raw, create_tracestate,
}
use monis_agent.TraceState.Members.{IsProper, AreKept, add_members-IsProper, add_members-kept}
use monis_agent.TraceState.Entry.{IsPlain, entry-solid, entry-lacks, entry-split, sent_split}

-- The header is the entry and the members, joined.
with_raw-join :
    (k entry : Text) (members : List Text)
    → AreKept k members
    → with_raw entry (join comma members) ≡ join comma (entry ∷ members)
unfolding join
with_raw-join k entry [] h = refl
with_raw-join k entry ([] ∷ ms) h = absurd (false-true h.0.is_not_empty)
with_raw-join k entry ((c ∷ s) ∷ []) h = refl
with_raw-join k entry ((c ∷ s) ∷ m ∷ ms) h = refl

AreKept-AllLack : (k : Text) (xs : List Text) → AreKept k xs → AllLack comma xs
AreKept-AllLack k [] h = tt
AreKept-AllLack k (x ∷ xs) h = (h.0.has_no_comma, AreKept-AllLack k xs h.1)

key_present : (x : Context) → IsPlain x → is_present x.trusted_account_key ≡ true
key_present x h = ground (arith, h.is_complete)

add_member-present :
    (k x : Text) (m : ListMembers)
    → is_present x ≡ true
    → add_member k x m ≡ add_parts k x (split equals x) m
unfolding add_member
add_member-present k [] m h = cc
add_member-present k (c ∷ s) m h = refl

present_append : (k s t : Text) → is_present ((k ++ s) ++ equals ∷ t) ≡ true
present_append [] [] t = refl
present_append [] (c ∷ s) t = refl
present_append (c ∷ k) s t = refl

entry-present : (x : Context) → is_present (nr_trace_state x) ≡ true
unfolding nr_trace_state
entry-present x = present_append x.trusted_account_key _ (join dash (sent_parts x))

-- A receiver with the same key takes the entry for its own.
entry_added :
    (x : Context)
    → IsPlain x
    → add_member x.trusted_account_key (trim (nr_trace_state x)) no_members
      ≡ some (record no_members { nr_value = join dash (sent_parts x) })
unfolding add_parts
entry_added x h =
    let key = x.trusted_account_key in
    let ours : (is_present key && text_eq (nr_key key) (nr_key key)) ≡ true =
      rw (key_present x h, text_eq_refl (nr_key key)) refl in
    ap (λ t. add_member key t no_members) (trim_solid (nr_trace_state x) (entry-solid x h))
    ∙ add_member-present key (nr_trace_state x) no_members (entry-present x)
    ∙ ap (λ ps. add_parts key (nr_trace_state x) ps no_members) (entry-split x h)
    ∙ ap
        (λ b. some (
          if b
          then (record no_members { nr_value = join dash (sent_parts x) })
          else (record no_members {
            final_list_members = nr_trace_state x ∷ [];
            vendors = nr_key key ∷ [];
          })))
        ours

created-joined :
    (x : Context) (members : List Text)
    → IsPlain x
    → AreKept x.trusted_account_key members
    → create_tracestate x (join comma members) ≡ join comma (nr_trace_state x ∷ members)
unfolding create_tracestate
created-joined x members h kept =
    ap (λ b. if b then with_raw (nr_trace_state x) (join comma members) else join comma members)
      h.is_complete
    ∙ with_raw-join x.trusted_account_key (nr_trace_state x) members kept

created-split :
    (x : Context) (members : List Text)
    → IsPlain x
    → AreKept x.trusted_account_key members
    → split comma (create_tracestate x (join comma members)) ≡ nr_trace_state x ∷ members
created-split x members h kept =
    ap (split comma) (created-joined x members h kept)
    ∙ split-join comma (nr_trace_state x) members
        (entry-lacks x h, AreKept-AllLack x.trusted_account_key members kept)

parsed-IsProper :
    (k received : Text) (m : ListMembers) → parse_trace_state k received ≡ some m → IsProper k m
unfolding parse_trace_state
parsed-IsProper k received m e =
    add_members-IsProper k (split comma received) no_members m (split-AllLack comma received)
      (record { kept = tt; same_vendors = refl }) e

-- A service that received a header, of which it keeps the members of other vendors, sends a header in
-- which a receiver with the same trusted key finds the same members and vendors, in their order, and
-- as the value of its own entry the parts that were sent, each of which it reads back, an empty one
-- as missing; the text of the service's ids, priority and time has no white space, dash, comma or
-- equals sign, and its account, application and key are there.
pub create_tracestate-propagates :
    (x : Context) (received : Text) (m : ListMembers)
    → IsPlain x
    → parse_trace_state x.trusted_account_key received ≡ some m
    → (parse_trace_state x.trusted_account_key
          (create_tracestate x (join comma m.final_list_members))
        ≡ some (record m { nr_value = join dash (sent_parts x) }))
      × (extract_intrinsics (join dash (sent_parts x)) ≡ record {
        version = some (codes "0");
        parent_type = some (codes "0");
        account_id = or_null x.account_id;
        app_id = or_null x.primary_application_id;
        span_id = or_null (if x.span_events_enabled then x.segment_id else []);
        transaction_id = or_null (if x.transaction_events_enabled then x.transaction_id else []);
        sampled = or_null (if x.sampled then codes "1" else codes "0");
        priority = or_null x.priority;
        timestamp = or_null x.timestamp;
      })
unfolding parse_trace_state add_members extract_intrinsics
create_tracestate-propagates x received m h e =
    let key = x.trusted_account_key in
    let proper = parsed-IsProper key received m e in
    let value = join dash (sent_parts x) in
    (
      ap (λ l. add_members key l no_members) (created-split x m.final_list_members h proper.kept)
          ∙ ap (λ o. elim o [ none ↦ none | some n ↦ add_members key m.final_list_members n ])
              (entry_added x h)
          ∙ add_members-kept key m.final_list_members (record no_members { nr_value = value })
              proper.kept
          ∙ ap (λ vs. some (record m { vendors = vs; nr_value = value })) (sym proper.same_vendors),
      ap
          (λ parts. record {
            version = part 0 parts;
            parent_type = part 1 parts;
            account_id = part 2 parts;
            app_id = part 3 parts;
            span_id = part 4 parts;
            transaction_id = part 5 parts;
            sampled = part 6 parts;
            priority = part 7 parts;
            timestamp = part 8 parts;
          })
          (sent_split x h),
    )
