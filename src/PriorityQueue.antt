-- ===== src/PriorityQueue.antt =====
-- lib/priority-queue.js over the heap package's interface. A method returns the new queue beside
-- its result; `none` stands for the TypeError of reading `.key` or `.value` of the `null` that an
-- empty heap returns. Priorities are numbers in a fixed unit. `random` gives what `Math.random()`
-- returns in the call of `add` that finds `seen` at that value: an `add` draws at most once.
pub mod Perms
pub mod Selection
pub mod Bounded
pub mod Drain
use monis_agent.Common.{
  ℕ, zero, suc, ◌+◌, ◌-◌, List, [], ◌∷◌, Option, none, some, Bool, true, false, map, leb, ltb, ◌==◌,
  if◌then◌else◌,
}
use monis_agent.FibonacciHeap.{FibonacciHeap}

infixl 5 ◌>>=◌
abbrev pub ◌>>=◌ {ℓ κ} : {A : Type ℓ} {B : Type κ} → Option A → (A → Option B) → Option B
none >>= f = none
some a >>= f = f a

-- `priority = priority || Math.random()`
abbrev pub effective : (ℕ → ℕ) → ℕ → ℕ → ℕ
effective random seen priority = if priority == 0 then random seen else priority

module _ {ℓ} {V : Type ℓ} (h : FibonacciHeap V) where
  open h use {Heap, empty, insert, find_minimum, extract_minimum, node_count, nodes}

  pub record Queue : Type ℓ where
    pub limit : ℕ
    pub seen : ℕ
    pub heap : Heap

  -- `limit == null ? 10 : limit`
  unfoldable pub new : Option ℕ → Queue
  new none = record { limit = 10; seen = 0; heap = empty }
  new (some n) = record { limit = n; seen = 0; heap = empty }

  unfoldable pub length : Queue → ℕ
  length q = node_count q.heap

  unfoldable pub overflow : Queue → ℕ
  overflow q = if leb q.limit q.seen then q.seen - q.limit else 0

  unfoldable pub get_minimum_priority : Queue → Option ℕ
  unfolding length
  get_minimum_priority q =
      if ltb (length q) q.limit then some 0 else (find_minimum q.heap >>= λ m. some m.0)

  unfoldable pub replace : Queue → V → ℕ → Option (Queue × Bool)
  replace q value priority = find_minimum q.heap >>= λ m.
      if ltb m.0 priority
      then (extract_minimum (insert priority value q.heap) >>= λ r.
          some (record q { heap = r.1 }, true))
      else some (q, false)

  unfoldable pub add : (ℕ → ℕ) → Queue → V → ℕ → Option (Queue × Bool)
  unfolding replace length
  add random q value priority =
      let p = effective random q.seen priority in
      let counted : Queue = record q { seen = suc q.seen } in
      if leb q.limit 0
      then some (counted, false)
      else if length q == q.limit
      then replace counted value p
      else some (record counted { heap = insert p value q.heap }, true)

  unfoldable pub get_raw_events : Queue → List (ℕ × V)
  get_raw_events q = nodes q.heap

  unfoldable pub to_array : Queue → List V
  to_array q = map (λ e. e.1) (nodes q.heap)

  -- The loop of `setLimit`. `extractMinimum` of an empty heap changes nothing.
  unfoldable pub shrink : ℕ → ℕ → Heap → Heap
  shrink zero limit t = t
  shrink (suc fuel) limit t =
      if ltb limit (node_count t)
      then elim (extract_minimum t) [ none ↦ t | some r ↦ shrink fuel limit r.1 ]
      else t

  unfoldable pub set_limit : Queue → ℕ → Queue
  unfolding shrink
  set_limit q limit = record q {
    limit = limit;
    heap = shrink (suc (node_count q.heap)) limit q.heap;
  }

  -- The branch of `merge` for an array of `{ priority, value }`.
  unfoldable pub merge_array : (ℕ → ℕ) → Queue → List (ℕ × V) → Option Queue
  unfolding add
  merge_array random q [] = some q
  merge_array random q (e ∷ events) = add random q e.1 e.0 >>= λ r. merge_array random r.0 events

  -- The branch of `merge` for another queue, which it empties: the two queues after it. The loop
  -- ends once the other queue is empty; `none` is also returned if the fuel runs out.
  unfoldable pub drain : (ℕ → ℕ) → ℕ → Queue → Queue → Option (Queue × Queue)
  unfolding add length
  drain random zero q events = none
  drain random (suc fuel) q events =
      let rest : Option (Queue × Queue) =
        (extract_minimum events.heap >>= λ r.
        add random q r.0.1 r.0.0 >>= λ a. drain random fuel a.0 (record events { heap = r.1 })) in
      if length events == 0 then some (q, events) else rest

  unfoldable pub merge_queue : (ℕ → ℕ) → Queue → Queue → Option (Queue × Queue)
  unfolding drain
  merge_queue random q events = drain random (suc (length events)) q events
