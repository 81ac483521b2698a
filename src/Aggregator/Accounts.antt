-- ===== src/Aggregator/Accounts.antt =====
-- What becomes of the data that an aggregator collects, whatever its subclass is.
use monis_agent.Common.{
  ℕ, suc, ◌+◌, ◌≡◌, refl, ap, sym, ◌∙◌, List, [], ◌∷◌, ◌++◌, Option, none, some, Bool, true, false,
  if◌then◌else◌, arith, false-true, ◌||◌, Bool-cases, inl, inr, length,
}
use monis_agent.Collector.{is_among, failure_save_data}
use monis_agent.Collector.Codes.{retains, success-retains, save-retains}
use monis_agent.Aggregator.{
  Collection, Aggregator, take_out, run_send, clear, send, respond, answer_taken, on_answer,
}
use monis_agent.Aggregator.Sizes.{total, weight_of, total-append, total-take_out, length-total}
use monis_agent.Aggregator.Ledger.{
  Event, adds, sends, answers, Ledger, succeeds, merged_in, sent_weight, step, run, replay, fresh,
}

module _ {S D P X : Type 0} (C : Collection S D P) (add : X → S → S) (weight : D → ℕ) where
  -- The data of requests is accounted for, no request is without an end, and what is held is what the
  -- changes since the last clearing make.
  pub record IsAccounted (l : Ledger S D P X) : Type 0 where
    pub balanced :
        l.taken ≡ total weight l.aggregator.in_flight + l.delivered + l.merged_back + l.discarded
    pub awaited : l.aggregator.started ≡ l.aggregator.finished + length l.aggregator.in_flight
    pub made : l.aggregator.contents ≡ replay C add weight l.base l.changes

  -- Sending, by the payload.
  sent-IsAccounted :
      (o : Option P) (d : D) (l : Ledger S D P X)
      → IsAccounted l
      → IsAccounted (record l {
        aggregator =
            clear C
              (run_send C false d o (record l.aggregator { started = suc l.aggregator.started }));
        taken = sent_weight C add weight o d + l.taken;
        base = C.cleared l.aggregator.contents;
        changes = [];
      })
  unfolding clear run_send
  sent-IsAccounted none d l h = record {
    balanced = omega (arith, h.balanced);
    awaited = omega (arith, h.awaited);
    made = refl;
  }
  sent-IsAccounted (some payload) d l h =
      let a = l.aggregator in
      record {
        balanced = omega (arith, h.balanced, total-append weight a.in_flight d);
        awaited = omega (
          arith,
          h.awaited,
          length-total a.in_flight,
          length-total (a.in_flight ++ d ∷ []),
          total-append (λ e. 1) a.in_flight d,
        );
        made = refl;
      }

  -- An answer, by whether it is a success and whether it retains.
  answered-IsAccounted :
      (success retain : Bool) (n : ℕ) (o : Option (D × List D)) (l : Ledger S D P X)
      → (success ≡ true → retain ≡ false)
      → take_out n l.aggregator.in_flight ≡ o
      → IsAccounted l
      → IsAccounted (record l {
        aggregator = answer_taken C retain o l.aggregator;
        delivered = if success then weight_of weight o + l.delivered else l.delivered;
        merged_back = if retain then weight_of weight o + l.merged_back else l.merged_back;
        discarded = if success || retain then l.discarded else weight_of weight o + l.discarded;
        changes = merged_in retain o l.changes;
      })
  unfolding answer_taken respond
  answered-IsAccounted true true n o l ex e h = absurd (false-true (sym (ex refl)))
  answered-IsAccounted true false n none l ex e h = record {
    balanced = omega (arith, h.balanced);
    awaited = h.awaited;
    made = h.made;
  }
  answered-IsAccounted false true n none l ex e h = record {
    balanced = omega (arith, h.balanced);
    awaited = h.awaited;
    made = h.made;
  }
  answered-IsAccounted false false n none l ex e h = record {
    balanced = omega (arith, h.balanced);
    awaited = h.awaited;
    made = h.made;
  }
  answered-IsAccounted true false n (some r) l ex e h =
      let fs = l.aggregator.in_flight in
      record {
        balanced = omega (arith, h.balanced, total-take_out weight n fs r e);
        awaited =
            omega (
              arith,
              h.awaited,
              length-total fs,
              length-total r.1,
              total-take_out (λ d. 1) n fs r e,
            );
        made = h.made;
      }
  answered-IsAccounted false true n (some r) l ex e h =
      let fs = l.aggregator.in_flight in
      record {
        balanced = omega (arith, h.balanced, total-take_out weight n fs r e);
        awaited =
            omega (
              arith,
              h.awaited,
              length-total fs,
              length-total r.1,
              total-take_out (λ d. 1) n fs r e,
            );
        made = ap (C.merge r.0) h.made;
      }
  answered-IsAccounted false false n (some r) l ex e h =
      let fs = l.aggregator.in_flight in
      record {
        balanced = omega (arith, h.balanced, total-take_out weight n fs r e);
        awaited =
            omega (
              arith,
              h.awaited,
              length-total fs,
              length-total r.1,
              total-take_out (λ d. 1) n fs r e,
            );
        made = h.made;
      }

  step-IsAccounted :
      (e : Event X) (l : Ledger S D P X) → IsAccounted l → IsAccounted (step C add weight e l)
  unfolding step send on_answer
  step-IsAccounted (adds x) l h = record {
    balanced = h.balanced;
    awaited = h.awaited;
    made = ap (add x) h.made;
  }
  step-IsAccounted sends l h =
      let s = l.aggregator.contents in sent-IsAccounted (C.to_payload s) (C.get_merge_data s) l h
  step-IsAccounted (answers n code) l h =
      answered-IsAccounted (succeeds code) (retains code) n (take_out n l.aggregator.in_flight) l
        (success-retains code) refl h

  run-IsAccounted :
      (es : List (Event X)) (l : Ledger S D P X)
      → IsAccounted l
      → IsAccounted (run C add weight es l)
  unfolding run
  run-IsAccounted [] l h = h
  run-IsAccounted (e ∷ es) l h = run-IsAccounted es (step C add weight e l) (step-IsAccounted e l h)

  -- Answers by which no data is lost: successes and the failures after which data is saved.
  abbrev pub AreSaving : List (Event X) → Type 0
  AreSaving [] = Unit
  AreSaving (adds x ∷ es) = AreSaving es
  AreSaving (sends ∷ es) = AreSaving es
  AreSaving (answers n code ∷ es) =
      ((succeeds code || is_among code failure_save_data) ≡ true) × AreSaving es

  saved-retained :
      (code : ℕ)
      → (succeeds code || is_among code failure_save_data) ≡ true
      → (succeeds code || retains code) ≡ true
  saved-retained code e = elim (Bool-cases (succeeds code)) [
    | inl done ↦ rw done refl
    | inr failed ↦
        rw
          (
            failed,
            save-retains code (ap (λ b. b || is_among code failure_save_data) (sym failed) ∙ e),
          )
          refl
  ]

  run-saved :
      (es : List (Event X)) (l : Ledger S D P X)
      → AreSaving es
      → (run C add weight es l).discarded ≡ l.discarded
  unfolding run step
  run-saved [] l h = refl
  run-saved (adds x ∷ es) l h = run-saved es _ h
  run-saved (sends ∷ es) l h = run-saved es _ h
  run-saved (answers n code ∷ es) l h = run-saved es _ h.1 ∙ rw (saved-retained code h.0) refl

  -- For any subclass and any weight of its data: after items, sends and answers of the collector in any
  -- order, from an aggregator that has sent nothing, where every answer is a success or one of the
  -- failures after which data is saved. The data that sends put into requests is, by weight, waiting
  -- for an answer, delivered or merged back, each counted once; the sends that have not finished are
  -- the requests that wait; and what is held is what the items added and the data merged back since
  -- the last send make of what that send cleared.
  pub run-saves :
      (es : List (Event X)) (a : Aggregator S D P)
      → a.in_flight ≡ []
      → a.started ≡ a.finished
      → AreSaving es
      → IsAccounted (run C add weight es (fresh C add weight a))
        × ((run C add weight es (fresh C add weight a)).discarded ≡ 0)
  run-saves es a idle ended saving = (
    run-IsAccounted es (fresh C add weight a) (record {
      balanced = omega (arith, ap (total weight) idle);
      awaited = omega (arith, ended, ap length idle);
      made = refl;
    }),
    run-saved es (fresh C add weight a) saving,
  )
