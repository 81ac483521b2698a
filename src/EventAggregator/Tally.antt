-- ===== src/EventAggregator/Tally.antt =====
-- What the three metrics of an event aggregator count.
use monis_agent.Common.{
  ℕ, suc, ◌-◌, ◌≤◌, ◌<◌, min, ◌≡◌, sym, ap, inl, inr, List, [], ◌∷◌, ◌++◌, some, Bool, true, false,
  Bool-cases, length, length-append, ◌==◌, arith, ◌∙◌, ◌&&◌, leb, if◌then◌else◌,
}
use monis_agent.Common.Int.{ℤ, pos, ◌+ℤ◌, ◌-ℤ◌, int_laws, pos_part}
use monis_agent.FibonacciHeap.{FibonacciHeap, IsMinHeap}
use monis_agent.PriorityQueue
use monis_agent.PriorityQueue.{Queue, effective}
use monis_agent.PriorityQueue.Perms.{length-Perm}
use monis_agent.PriorityQueue.Selection.{Holds, add-Offered, Selects-size}
use monis_agent.PriorityQueue.Drain.{merge_queue-Drained, HasPriorities}
use monis_agent.EventAggregator
use native.Mathlib.Decide.{dec_lt}
use mathlib.Core.List.{Perm}
use monis_agent.EventAggregator.{Aggregator, min_ℤ}

module _ {ℓ} {V : Type ℓ} {h : FibonacciHeap V} (laws : IsMinHeap h) (random : ℕ → ℕ) where
  open h use {Heap, nodes}

  -- From one state to a later one, `SEEN` has grown as the queue's own count of offers has, `SENT`
  -- as the number of events held has, and `SENT` and `DROPPED` together as `SEEN`.
  pub record Tally (a a' : Aggregator h) : Type 0 where
    pub seen_grows : a'.seen_count +ℤ pos a.items.seen ≡ a.seen_count +ℤ pos a'.items.seen
    pub sent_grows :
        a'.sent_count +ℤ pos (length (nodes a.items.heap))
        ≡ a.sent_count +ℤ pos (length (nodes a'.items.heap))
    pub all_counted :
        a'.sent_count +ℤ a'.dropped_count +ℤ a.seen_count
        ≡ a.sent_count +ℤ a.dropped_count +ℤ a'.seen_count

  -- `add` counts an event as sent exactly while everything that was offered fits the queue.
  sent_lem :
      (kept : Bool) (q : Queue h) (n size : ℕ)
      → q.seen ≡ suc n
      → size ≡ min q.limit n
      → (size < q.limit → kept ≡ true)
      → (kept && (PriorityQueue.overflow h q == 0)) ≡ true
      → n < q.limit
  unfolding PriorityQueue.overflow
  sent_lem kept q n size seen bound room e = ground arith

  lost_lem :
      (kept : Bool) (q : Queue h) (n size : ℕ)
      → q.seen ≡ suc n
      → size ≡ min q.limit n
      → (size < q.limit → kept ≡ true)
      → (kept && (PriorityQueue.overflow h q == 0)) ≡ false
      → q.limit ≤ n
  unfolding PriorityQueue.overflow
  lost_lem true q n size seen bound room e = ground arith
  lost_lem false q n size seen bound room e = elim (dec_lt size q.limit) [
    | yes small ↦ cc (room small)
    | no large ↦ omega arith
  ]

  -- Adding an event to an aggregator never fails, and keeps the metrics in step with the queue.
  pub add-Tally :
      (a : Aggregator h) (event : V) (priority : ℕ) {offered dropped : List (ℕ × V)}
      → Holds laws random a.items offered dropped
      → (a' : Aggregator h) × (kept : Bool) × (dropped' : List (ℕ × V)) × (EventAggregator.add h
            random a event priority
          ≡ some (a', kept))
        × Tally a a'
        × Holds laws random a'.items
            ((effective random a.items.seen priority, event) ∷ offered)
            dropped'
  unfolding EventAggregator.add
  add-Tally a event priority {offered} {dropped} held =
      let o = add-Offered laws random a.items event priority held in
      let size = Selects-size held.selects in
      let size' = Selects-size o.holds.selects in
      let size_after = size ∙ ap (λ n. min n (length offered)) (sym o.same_limit) in
      let room = λ (small : length (nodes a.items.heap) < o.after.limit).
        o.kept_room (omega (arith, o.same_limit)) in
      let counted : Aggregator h = record a {
        seen_count = a.seen_count +ℤ pos 1;
        items = o.after;
      } in
      elim (Bool-cases (o.kept && (PriorityQueue.overflow h o.after == 0))) [
        | inl sent ↦
            let fits =
              sent_lem o.kept o.after (length offered) _ o.holds.counted size_after room sent in
            (
              record counted { sent_count = a.sent_count +ℤ pos 1 },
              o.kept,
              o.dropped',
              rw (o.returns, sent),
              record {
                seen_grows = omega (int_laws, o.holds.counted, held.counted);
                sent_grows = omega (int_laws, o.same_limit);
                all_counted = omega int_laws;
              },
              o.holds,
            )
        | inr lost ↦
            let over =
              lost_lem o.kept o.after (length offered) _ o.holds.counted size_after room lost in
            (
              record counted { dropped_count = a.dropped_count +ℤ pos 1 },
              o.kept,
              o.dropped',
              rw (o.returns, lost),
              record {
                seen_grows = omega (int_laws, o.holds.counted, held.counted);
                sent_grows = omega (int_laws, o.same_limit);
                all_counted = omega int_laws;
              },
              o.holds,
            )
      ]

  to_merge_lem :
      (a : Aggregator h) (n : ℕ)
      → PriorityQueue.length h a.items ≤ a.limit
      → EventAggregator.to_merge h a n ≡ pos (min n (a.limit - PriorityQueue.length h a.items))
  unfolding EventAggregator.to_merge ◌-ℤ◌
  to_merge_lem a n within = ground arith

  sub_lem : (m n : ℕ) → n ≤ m → pos m -ℤ pos n ≡ pos (m - n)
  unfolding ◌-ℤ◌
  sub_lem m n le = ground arith

  drops_lem :
      (d x : ℤ) (n : ℕ) → d ≡ pos n → (if leb (pos_part d) 0 then x else x +ℤ d) ≡ x +ℤ pos n
  unfolding ◌+ℤ◌
  drops_lem d x n e = ground arith

  -- Merging a queue of events that all have a priority into an aggregator whose own limit is its
  -- queue's never fails, empties that queue, and keeps the metrics in step with the queue.
  pub merge_events-Tally :
      (a : Aggregator h) (events : Queue h) {offered dropped : List (ℕ × V)}
      → a.limit ≡ a.items.limit
      → HasPriorities laws random (nodes events.heap)
      → Holds laws random a.items offered dropped
      → (a' : Aggregator h) × (emptied : Queue h) × (offered' dropped' : List (ℕ × V))
        × (EventAggregator.merge_events h random a (some events) ≡ some (a', some emptied))
        × (nodes emptied.heap ≡ [])
        × Tally a a'
        × Perm offered' (nodes events.heap ++ offered)
        × Holds laws random a'.items offered' dropped'
  unfolding EventAggregator.merge_events PriorityQueue.length
  merge_events-Tally a events {offered} {dropped} limits named held =
      let d = merge_queue-Drained laws random a.items events named held in
      let size = Selects-size held.selects in
      let size' = Selects-size d.holds.selects in
      let own = laws.node_count-nodes a.items.heap in
      let theirs = laws.node_count-nodes events.heap in
      let n = PriorityQueue.length h events in
      let all = length-Perm d.all_offered ∙ length-append (nodes events.heap) offered in
      let merged = min n (a.limit - PriorityQueue.length h a.items) in
      let to = to_merge_lem a n (omega (arith, held.selects.within)) in
      let drops =
        drops_lem (pos n -ℤ pos merged) a.dropped_count (n - merged)
          (sub_lem n merged (omega arith)) in
      (
        record a {
          items = d.after;
          seen_count = a.seen_count +ℤ pos n;
          sent_count = a.sent_count +ℤ pos merged;
          dropped_count = a.dropped_count +ℤ pos (n - merged);
        },
        d.emptied,
        d.offered',
        d.dropped',
        rw (d.returns, to, drops),
        d.nothing_left,
        record {
          seen_grows = omega (int_laws, d.holds.counted, held.counted);
          sent_grows = omega (int_laws, d.same_limit);
          all_counted = omega int_laws;
        },
        d.all_offered,
        d.holds,
      )
