-- ===== src/PriorityQueue/Drain.antt =====
-- Merging one queue into another (`merge` on a `PriorityQueue`).
use monis_agent.Common.{
  ℕ, zero, suc, ◌<◌, ◌≡◌, ◌≢◌, refl, sym, inl, inr, List, [], ◌∷◌, ◌++◌, Option, some, Bool-cases,
  length, ==_iff, ==-false, ◌==◌, arith, ◌∙◌,
}
use monis_agent.FibonacciHeap.{FibonacciHeap, IsMinHeap}
use monis_agent.PriorityQueue
use monis_agent.PriorityQueue.{Queue, effective}
use monis_agent.PriorityQueue.Perms.{length-Perm, mem-Perm}
use monis_agent.PriorityQueue.Selection.{Holds, add-Offered, extract_minimum-some}
use mathlib.Core.List.{Perm, Mem, mem-cons_self, mem-cons_of_mem, perm_middle}
use mathlib.Core.List.Perm

nil_of_length {ℓ} : {A : Type ℓ} (xs : List A) → length xs ≡ 0 → xs ≡ []
nil_of_length [] e = refl
nil_of_length (x ∷ xs) e = absurd (omega arith)

module _ {ℓ} {V : Type ℓ} {h : FibonacciHeap V} (laws : IsMinHeap h) (random : ℕ → ℕ) where
  open h use {Heap, extract_minimum, node_count, nodes}

  -- The two queues after a merge: one holds a selection of what both had, the other is empty.
  pub record Drained (q events : Queue h) (offered : List (ℕ × V))
      (result : Option (Queue h × Queue h)) : Type ℓ where
    pub after : Queue h
    pub emptied : Queue h
    pub offered' : List (ℕ × V)
    pub dropped' : List (ℕ × V)
    pub returns : result ≡ some (after, emptied)
    pub all_offered : Perm offered' (nodes events.heap ++ offered)
    pub holds : Holds laws random after offered' dropped'
    pub same_limit : after.limit ≡ q.limit
    pub nothing_left : nodes emptied.heap ≡ []

  -- No entry stands under priority 0, so that `add` draws no new priority for it.
  abbrev pub HasPriorities : List (ℕ × V) → Type ℓ
  HasPriorities es = (e : ℕ × V) → Mem e es → e.0 ≢ 0

  keeps_priority : (n p : ℕ) → p ≢ 0 → effective random n p ≡ p
  keeps_priority n p named = ground arith

  drain-Drained :
      (fuel : ℕ) (q events : Queue h) {offered dropped : List (ℕ × V)}
      → length (nodes events.heap) < fuel
      → HasPriorities (nodes events.heap)
      → Holds laws random q offered dropped
      → Drained q events offered (PriorityQueue.drain h random fuel q events)
  unfolding PriorityQueue.drain
  drain-Drained zero q events enough named held = absurd (omega arith)
  drain-Drained (suc fuel) q events {offered} {dropped} enough named held =
      let count = laws.node_count-nodes events.heap in
      elim (Bool-cases (node_count events.heap == 0)) [
        | inl done ↦
            let nothing = nil_of_length (nodes events.heap) (sym count ∙ (==_iff _ _).0 done) in
            rw done (record {
              after = q;
              emptied = events;
              offered' = offered;
              dropped' = dropped;
              returns = refl;
              all_offered = rw nothing (Perm.refl offered);
              holds = held;
              same_limit = refl;
              nothing_left = nothing;
            })
        | inr more ↦
            let (r, taken) =
              extract_minimum-some laws random events.heap (omega (arith, ==-false _ _ more)) in
            let out = laws.extract_minimum-nodes events.heap r.1 r.0 taken in
            let o = add-Offered laws random q r.0.1 r.0.0 held in
            let d =
              drain-Drained fuel o.after (record events { heap = r.1 })
                (omega (arith, length-Perm out))
                (λ e m. named e (mem-Perm (Perm.symm out) (mem-cons_of_mem r.0 m))) o.holds in
            rw (more, taken, o.returns)
              (record {
                after = d.after;
                emptied = d.emptied;
                offered' = d.offered';
                dropped' = d.dropped';
                returns = d.returns;
                all_offered = Perm.trans d.all_offered (
                    rw
                      (keeps_priority q.seen r.0.0
                        (named r.0 (mem-Perm (Perm.symm out) mem-cons_self)))
                      (Perm.trans (perm_middle (nodes r.1) offered)
                        (Perm.append_right offered (Perm.symm out))));
                holds = d.holds;
                same_limit = d.same_limit ∙ o.same_limit;
                nothing_left = d.nothing_left;
              })
      ]

  -- Merging a queue into another always ends, and leaves it empty: where all its entries have a
  -- priority, the other queue then holds the entries of the highest priorities of all that both
  -- were offered or held.
  pub merge_queue-Drained :
      (q events : Queue h) {offered dropped : List (ℕ × V)}
      → HasPriorities (nodes events.heap)
      → Holds laws random q offered dropped
      → Drained q events offered (PriorityQueue.merge_queue h random q events)
  unfolding PriorityQueue.merge_queue
  merge_queue-Drained q events named held =
      drain-Drained (suc (node_count events.heap)) q events
        (omega (arith, laws.node_count-nodes events.heap)) named held
