-- ===== src/EventAggregator.antt =====
-- lib/aggregators/event-aggregator.js: a priority queue of events, and the call counts of the three
-- metrics (`SEEN`, `SENT`, `DROPPED`) that `add` and `mergeEvents` increment.
pub mod Tally
pub mod Subclass
use monis_agent.Common.{
  ℕ, zero, suc, ◌+◌, ◌-◌, min, List, Option, none, some, Bool, true, false, ◌&&◌, leb, ltb, ◌==◌,
  if◌then◌else◌,
}
use monis_agent.Common.Int.{ℤ, pos, negsuc, sub_ℕ, ◌+ℤ◌, ◌-ℤ◌, ◌≤ℤ◌, pos_part, neg_part}
use monis_agent.FibonacciHeap.{FibonacciHeap}
use monis_agent.PriorityQueue
use monis_agent.PriorityQueue.{Queue, ◌>>=◌}

-- `Math.min` on integers.
unfoldable pub min_ℤ : ℤ → ℤ → ℤ
min_ℤ a b = if leb (pos_part a + neg_part b) (pos_part b + neg_part a) then a else b

-- The settings of an aggregator in the configuration (`getAggregatorConfig`).
pub record Settings : Type 0 where
  pub period_ms : ℕ
  pub limit : ℕ

module _ {ℓ} {V : Type ℓ} (h : FibonacciHeap V) where
  pub record Aggregator : Type ℓ where
    pub default_period : ℕ
    pub period_ms : ℕ
    pub default_limit : ℕ
    pub limit : ℕ
    pub items : Queue h
    pub seen_count : ℤ
    pub sent_count : ℤ
    pub dropped_count : ℤ

  unfoldable pub add_event : (ℕ → ℕ) → Aggregator → V → ℕ → Option (Aggregator × Bool)
  add_event random a event priority = PriorityQueue.add h random a.items event priority >>= λ r.
      some (record a { items = r.0 }, r.1)

  unfoldable pub add : (ℕ → ℕ) → Aggregator → V → ℕ → Option (Aggregator × Bool)
  unfolding add_event
  add random a event priority =
      add_event random (record a { seen_count = a.seen_count +ℤ pos 1 }) event priority >>= λ r.
      let a' = r.0 in
      if r.1 && (PriorityQueue.overflow h a'.items == 0)
      then some (record a' { sent_count = a'.sent_count +ℤ pos 1 }, r.1)
      else some (record a' { dropped_count = a'.dropped_count +ℤ pos 1 }, r.1)

  unfoldable pub clear_events : Aggregator → Aggregator
  clear_events a = record a { items = PriorityQueue.new h (some a.items.limit) }

  -- `reconfigure`, after the base class's part.
  unfoldable pub reconfigure : Aggregator → Option Settings → Aggregator
  reconfigure a (some s) = record a {
    period_ms = s.period_ms;
    limit = s.limit;
    items = PriorityQueue.set_limit h a.items s.limit;
  }
  reconfigure a none = record a { period_ms = a.default_period; limit = a.default_limit }

  -- The number that `mergeEvents` takes to be merged; it is negative above the limit.
  unfoldable pub to_merge : Aggregator → ℕ → ℤ
  unfolding min_ℤ
  to_merge a count = min_ℤ (pos count) (pos a.limit -ℤ pos (PriorityQueue.length h a.items))

  -- `mergeEvents` returns at once on no queue; the queue that is merged is emptied.
  unfoldable pub merge_events :
      (ℕ → ℕ) → Aggregator → Option (Queue h) → Option (Aggregator × Option (Queue h))
  merge_events random a none = some (a, none)
  merge_events random a (some events) =
      let seen = PriorityQueue.length h events in
      let sent = to_merge a seen in
      let dropped = pos seen -ℤ sent in
      let counted : Aggregator = record a {
        seen_count = a.seen_count +ℤ pos seen;
        sent_count = a.sent_count +ℤ sent;
        dropped_count =
            if leb (pos_part dropped) 0 then a.dropped_count else a.dropped_count +ℤ dropped;
      } in
      PriorityQueue.merge_queue h random a.items events >>= λ r.
      some (record counted { items = r.0 }, some r.1)
