-- ===== src/Examples/Harvests.antt =====
-- Cycles of sending, and attempts to connect, at concrete inputs.
use monis_agent.Common.{
  ℕ, ◌≡◌, refl, List, [], ◌∷◌, Option, none, some, true, false, length, ◌==◌, if◌then◌else◌,
}
use monis_agent.Common.Int.{pos}
use monis_agent.CollectorResponse
use monis_agent.Collector.{Answer, connect, attempt_all}
use monis_agent.Collector.Retrying.{connect-attempts}
use monis_agent.Aggregator as Base
use monis_agent.Aggregator.{Collection}
use monis_agent.Aggregator.Ledger.{Event, adds, sends, answers, run, fresh}
use monis_agent.Aggregator.Accounts.{IsAccounted, run-saves}
use monis_agent.PriorityQueue.{Queue}
use monis_agent.EventAggregator.{Aggregator}
use monis_agent.EventAggregator.Subclass.{methods, collect}
use monis_agent.Examples.ListHeap.{list_heap}

abbrev half : ℕ → ℕ
half n = 5

abbrev kept_queue : Queue (list_heap {V = ℕ})
kept_queue = record { limit = 2; seen = 0; heap = [] }

-- Two events at most.
abbrev none_seen : Aggregator (list_heap {V = ℕ})
none_seen = record {
  default_period = 60;
  period_ms = 60;
  default_limit = 2;
  limit = 2;
  items = kept_queue;
  seen_count = pos 0;
  sent_count = pos 0;
  dropped_count = pos 0;
}

abbrev to_payload : Queue (list_heap {V = ℕ}) → Option ℕ
to_payload q = if length q.heap == 0 then none else some (length q.heap)

abbrev Held : Type 0
Held = Option (Aggregator (list_heap {V = ℕ}))

abbrev Data : Type 0
Data = Option (Queue (list_heap {V = ℕ}))

abbrev list_methods : Collection Held Data ℕ
list_methods = methods list_heap half to_payload

abbrev offer : ℕ × ℕ → Held → Held
offer = collect list_heap half to_payload

abbrev weight : Data → ℕ
weight none = 0
weight (some q) = length q.heap

abbrev idle : Base.Aggregator Held Data ℕ
unfolding Base.new
idle = Base.new list_methods (some none_seen) 100 60000 none true

-- Of three events two are sent and delivered; the next request is answered by the code for too many
-- requests, and its events are merged back into what was collected since.
abbrev events : List (Event (ℕ × ℕ))
events =
    adds (10, 1)
    ∷ adds (20, 2)
    ∷ adds (30, 3)
    ∷ sends
    ∷ adds (40, 4)
    ∷ sends
    ∷ answers 0 200
    ∷ adds (50, 5)
    ∷ answers 0 429
    ∷ []

run-saves_example :
    IsAccounted list_methods offer weight
      (run list_methods offer weight events (fresh list_methods offer weight idle))
    × ((run list_methods offer weight events (fresh list_methods offer weight idle)).discarded ≡ 0)
unfolding idle
run-saves_example = run-saves list_methods offer weight events idle refl refl (refl, (refl, tt))

abbrev failure : Answer (Unit {0})
failure = record {
  is_error = false;
  has_response = true;
  status = some 503;
  shuts_down = false;
  payload = none;
}

abbrev accepted : Answer (Unit {0})
accepted = record {
  is_error = false;
  has_response = true;
  status = some 200;
  shuts_down = false;
  payload = none;
}

connect-attempts_example :
    attempt_all connect (failure ∷ failure ∷ failure ∷ accepted ∷ [])
    ≡ (15 ∷ 15 ∷ 30 ∷ [], some (CollectorResponse.success none))
connect-attempts_example =
    connect-attempts (failure ∷ failure ∷ failure ∷ []) [] accepted
      (refl, refl, (refl, refl, (refl, refl, tt))) refl
