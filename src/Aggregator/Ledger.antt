-- ===== src/Aggregator/Ledger.antt =====
-- An aggregator with accounts of the data that it collects, whatever its subclass is.
use monis_agent.Common.{
  ℕ, ◌+◌, List, [], ◌∷◌, Option, none, some, Bool, true, false, if◌then◌else◌, ◌||◌,
}
use monis_agent.Collector.{is_among, success_codes}
use monis_agent.Collector.Codes.{retains}
use monis_agent.Aggregator.{Collection, Aggregator, take_out, send, on_answer}
use monis_agent.Aggregator.Sizes.{weight_of}

-- An item is collected, the data is sent, or a request is answered by a status code.
pub data Event (X : Type 0) : Type 0 where
  adds : X → Event X
  sends : Event X
  answers : (n code : ℕ) → Event X

-- A change of what is collected.
pub data Change (X D : Type 0) : Type 0 where
  added : X → Change X D
  merged : D → Change X D

-- An aggregator, with the weights of the data that was put into requests, and of what was delivered,
-- merged back or released without either; and with what was left by the last clearing and the changes
-- since then, the latest first.
pub record Ledger (S D P X : Type 0) : Type 0 where
  pub aggregator : Aggregator S D P
  pub taken : ℕ
  pub delivered : ℕ
  pub merged_back : ℕ
  pub discarded : ℕ
  pub base : S
  pub changes : List (Change X D)

abbrev pub succeeds : ℕ → Bool
succeeds code = is_among code success_codes

-- The data that an answer releases is merged back.
abbrev pub merged_in :
    {X D : Type 0} → Bool → Option (D × List D) → List (Change X D) → List (Change X D)
merged_in true (some r) changes = merged r.0 ∷ changes
merged_in true none changes = changes
merged_in false o changes = changes

module _ {S D P X : Type 0} (C : Collection S D P) (add : X → S → S) (weight : D → ℕ) where
  -- The weight that a request with the payload has.
  abbrev pub sent_weight : Option P → D → ℕ
  sent_weight none d = 0
  sent_weight (some payload) d = weight d

  unfoldable pub step : Event X → Ledger S D P X → Ledger S D P X
  step (adds x) l =
      let a = l.aggregator in
      record l {
        aggregator = record a { contents = add x a.contents };
        changes = added x ∷ l.changes;
      }
  step sends l =
      let s = l.aggregator.contents in
      record l {
        aggregator = send C false l.aggregator;
        taken = sent_weight (C.to_payload s) (C.get_merge_data s) + l.taken;
        base = C.cleared s;
        changes = [];
      }
  step (answers n code) l =
      let released = take_out n l.aggregator.in_flight in
      let w = weight_of weight released in
      record l {
        aggregator = on_answer C n (retains code) l.aggregator;
        delivered = if succeeds code then w + l.delivered else l.delivered;
        merged_back = if retains code then w + l.merged_back else l.merged_back;
        discarded = if succeeds code || retains code then l.discarded else w + l.discarded;
        changes = merged_in (retains code) released l.changes;
      }

  unfoldable pub run : List (Event X) → Ledger S D P X → Ledger S D P X
  unfolding step
  run [] l = l
  run (e ∷ es) l = run es (step e l)

  -- What the changes make of a collection.
  abbrev pub replay : S → List (Change X D) → S
  replay base [] = base
  replay base (added x ∷ changes) = add x (replay base changes)
  replay base (merged d ∷ changes) = C.merge d (replay base changes)

  -- An aggregator of which nothing was sent yet.
  abbrev pub fresh : Aggregator S D P → Ledger S D P X
  fresh a = record {
    aggregator = a;
    taken = 0;
    delivered = 0;
    merged_back = 0;
    discarded = 0;
    base = a.contents;
    changes = [];
  }
