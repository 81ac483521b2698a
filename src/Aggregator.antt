-- ===== src/Aggregator.antt =====
-- lib/aggregators/base-aggregator.js and lib/harvester.js: what collects data and sends it in cycles. What a
-- subclass collects and how is an interface (`Collection`), for which no laws are assumed and which
-- the aggregator of events implements (EventAggregator.Subclass); the collector answers a request later, or
-- at once, as the serverless one does, which retains nothing. The period's timer calls `send`; events
-- are counted. Logging is left out.
pub mod Sizes
pub mod Ledger
pub mod Accounts
use monis_agent.Common.{
  ℕ, zero, suc, List, [], ◌∷◌, ◌++◌, map, Option, none, some, Bool, true, false, if◌then◌else◌,
}
use monis_agent.Common.Text.{Text}

-- The methods that a subclass has: `S` is what it holds, `D` the data to merge, `P` a payload.
pub record Collection (S D P : Type 0) : Type 0 where
  pub get_merge_data : S → D
  pub to_payload : S → Option P
  pub merge : D → S → S
  pub cleared : S → S

pub record Aggregator (S D P : Type 0) : Type 0 where
  pub contents : S
  pub limit : ℕ
  pub period_ms : ℕ
  pub run_id : Option Text
  pub enabled : Bool
  -- Whether the period's timer is set.
  pub send_timer : Bool
  -- The requests without an answer, by their data.
  pub in_flight : List D
  pub payloads : List P
  pub started : ℕ
  pub finished : ℕ
  -- What the hook `_afterSend` was called with.
  pub after_sends : List Bool

-- A position in a list and what is beside it.
abbrev pub take_out {ℓ} : {A : Type ℓ} → ℕ → List A → Option (A × List A)
take_out n [] = none
take_out zero (x ∷ xs) = some (x, xs)
take_out (suc n) (x ∷ xs) = elim (take_out n xs) [ none ↦ none | some r ↦ some (r.0, x ∷ r.1) ]

module _ {S D P : Type 0} (C : Collection S D P) where
  unfoldable pub new : S → (limit period_ms : ℕ) → Option Text → (enabled : Bool) → Aggregator S D P
  new contents limit period_ms run_id enabled = record {
    contents = contents;
    limit = limit;
    period_ms = period_ms;
    run_id = run_id;
    enabled = enabled;
    send_timer = false;
    in_flight = [];
    payloads = [];
    started = 0;
    finished = 0;
    after_sends = [];
  }

  unfoldable pub start : Aggregator S D P → Aggregator S D P
  start a = record a { send_timer = true }

  unfoldable pub stop : Aggregator S D P → Aggregator S D P
  stop a = record a { send_timer = false }

  -- The callback of a request: data is merged back if the answer says to retain it.
  unfoldable pub respond : (retain : Bool) → D → Aggregator S D P → Aggregator S D P
  respond retain merge_data a = record a {
    contents = if retain then C.merge merge_data a.contents else a.contents;
    after_sends = a.after_sends ++ true ∷ [];
    finished = suc a.finished;
  }

  -- `_runSend`; the Boolean says that the collector calls back at once.
  unfoldable pub run_send : (at_once : Bool) → D → Option P → Aggregator S D P → Aggregator S D P
  unfolding respond
  run_send at_once merge_data none a = record a {
    after_sends = a.after_sends ++ false ∷ [];
    finished = suc a.finished;
  }
  run_send true merge_data (some payload) a =
      respond false merge_data (record a { payloads = a.payloads ++ payload ∷ [] })
  run_send false merge_data (some payload) a = record a {
    payloads = a.payloads ++ payload ∷ [];
    in_flight = a.in_flight ++ merge_data ∷ [];
  }

  unfoldable pub clear : Aggregator S D P → Aggregator S D P
  clear a = record a { contents = C.cleared a.contents }

  -- The base class builds the payload at once in either mode.
  unfoldable pub send : (at_once : Bool) → Aggregator S D P → Aggregator S D P
  unfolding run_send clear
  send at_once a = clear (
      run_send at_once (C.get_merge_data a.contents) (C.to_payload a.contents)
        (record a { started = suc a.started }))

  unfoldable pub answer_taken :
      (retain : Bool) → Option (D × List D) → Aggregator S D P → Aggregator S D P
  unfolding respond
  answer_taken retain none a = a
  answer_taken retain (some r) a = respond retain r.0 (record a { in_flight = r.1 })

  -- An answer of the collector to one of the requests without one.
  unfoldable pub on_answer : ℕ → (retain : Bool) → Aggregator S D P → Aggregator S D P
  unfolding answer_taken
  on_answer n retain a = answer_taken retain (take_out n a.in_flight) a

  -- `reconfigure`; the second argument is what `isEnabled` says of the configuration.
  unfoldable pub reconfigure : Option Text → Bool → Aggregator S D P → Aggregator S D P
  reconfigure run_id enabled a = record a { run_id = run_id; enabled = enabled }

  -- The harvester, of aggregators of one kind.
  unfoldable pub harvester_start : List (Aggregator S D P) → List (Aggregator S D P)
  unfolding start
  harvester_start = map (λ a. if a.enabled then start a else a)

  unfoldable pub harvester_stop : List (Aggregator S D P) → List (Aggregator S D P)
  unfolding stop
  harvester_stop = map stop

  unfoldable pub harvester_clear :
      (at_once : Bool) → List (Aggregator S D P) → List (Aggregator S D P)
  unfolding send
  harvester_clear at_once = map (λ a. if a.enabled then send at_once a else a)

  unfoldable pub harvester_update :
      Option Text → Bool → List (Aggregator S D P) → List (Aggregator S D P)
  unfolding reconfigure
  harvester_update run_id enabled = map (reconfigure run_id enabled)

  unfoldable pub harvester_add :
      Aggregator S D P → List (Aggregator S D P) → List (Aggregator S D P)
  harvester_add a aggregators = aggregators ++ a ∷ []
