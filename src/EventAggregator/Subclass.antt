-- ===== src/EventAggregator/Subclass.antt =====
-- The aggregator of events as what the base aggregator collects: the methods of
-- lib/aggregators/event-aggregator.js that override those of the base class. The payload is made by the
-- subclasses of it; `none` is an aggregator one of whose methods threw.
use monis_agent.Common.{ℕ, Option, none, some}
use monis_agent.FibonacciHeap.{FibonacciHeap}
use monis_agent.PriorityQueue.{Queue, ◌>>=◌}
use monis_agent.EventAggregator
use monis_agent.EventAggregator.{Aggregator}
use monis_agent.Aggregator.{Collection}

module _ {V P : Type 0} (h : FibonacciHeap V) (random : ℕ → ℕ)
    (to_payload : Queue h → Option P) where
  abbrev get_merge_data : Option (Aggregator h) → Option (Queue h)
  get_merge_data none = none
  get_merge_data (some a) = some a.items

  abbrev to_payload_sync : Option (Aggregator h) → Option P
  to_payload_sync none = none
  to_payload_sync (some a) = to_payload a.items

  abbrev merge : Option (Queue h) → Option (Aggregator h) → Option (Aggregator h)
  merge events s = s >>= λ a. EventAggregator.merge_events h random a events >>= λ r. some r.0

  abbrev clear : Option (Aggregator h) → Option (Aggregator h)
  clear s = s >>= λ a. some (EventAggregator.clear_events h a)

  -- An event with its priority.
  abbrev pub collect : V × ℕ → Option (Aggregator h) → Option (Aggregator h)
  collect e s = s >>= λ a. EventAggregator.add h random a e.0 e.1 >>= λ r. some r.0

  abbrev pub methods : Collection (Option (Aggregator h)) (Option (Queue h)) P
  methods = record {
    get_merge_data = get_merge_data;
    to_payload = to_payload_sync;
    merge = merge;
    cleared = clear;
  }
