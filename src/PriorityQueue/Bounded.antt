-- ===== src/PriorityQueue/Bounded.antt =====
-- Lowering the limit of a queue (`setLimit`).
use monis_agent.Common.{
  ℕ, zero, suc, ◌+◌, ◌≤◌, ◌<◌, ◌≡◌, sym, inl, inr, List, ◌∷◌, ◌++◌, some, Bool-cases, length, min,
  length-append, zero_or_pos, ltb, ltb→lt, ltb-false, arith, ◌∙◌,
}
use monis_agent.FibonacciHeap.{FibonacciHeap, IsMinHeap}
use monis_agent.PriorityQueue
use monis_agent.PriorityQueue.{Queue}
use monis_agent.PriorityQueue.Perms.{length-Perm, mem-Perm}
use monis_agent.PriorityQueue.Selection.{Holds, extract_minimum-some}
use mathlib.Core.List.{Perm, Mem, mem-cons, mem-cons_of_mem, perm_middle}
use mathlib.Core.List.Perm
use mathlib.Core.Logic.Or
use native.Mathlib.Bridge.{le_prop}

module _ {ℓ} {V : Type ℓ} {h : FibonacciHeap V} (laws : IsMinHeap h) (random : ℕ → ℕ) where
  open h use {Heap, extract_minimum, node_count, nodes}

  -- Kept and dropped are together what was offered, and none dropped is above one that is kept.
  record Splits (offered kept dropped : List (ℕ × V)) : Type ℓ where
    together : Perm (kept ++ dropped) offered
    least_dropped : (e d : ℕ × V) → Mem e kept → Mem d dropped → d.0 ≤ e.0

  drop_least :
      {offered dropped : List (ℕ × V)} (t t' : Heap) (m : ℕ × V)
      → extract_minimum t ≡ some (m, t')
      → Splits offered (nodes t) dropped
      → Splits offered (nodes t') (m ∷ dropped)
  drop_least {offered} {dropped} t t' m taken s = record {
    together =
        Perm.trans (perm_middle (nodes t') dropped)
          (Perm.trans (Perm.append_right dropped (Perm.symm out)) s.together);
    least_dropped = λ e d me md.
        Or.elim le_prop (mem-cons.0 md)
          (λ same. let low = laws.extract_minimum-le t t' m e taken me in rw same low)
          (λ old. s.least_dropped e d (mem-Perm (Perm.symm out) (mem-cons_of_mem m me)) old);
  }
    where
      out : Perm (nodes t) (m ∷ nodes t')
      out = laws.extract_minimum-nodes t t' m taken

  -- The loop ends within its fuel with `limit` nodes, or with all where there are fewer.
  shrink-Splits :
      (fuel limit : ℕ) (t : Heap) {offered dropped : List (ℕ × V)}
      → length (nodes t) < fuel + limit
      → Splits offered (nodes t) dropped
      → (dropped' : List (ℕ × V)) × Splits offered
          (nodes (PriorityQueue.shrink h fuel limit t))
          dropped'
        × (length (nodes (PriorityQueue.shrink h fuel limit t)) ≡ min limit (length (nodes t)))
  unfolding PriorityQueue.shrink
  shrink-Splits zero limit t {dropped = dropped} enough s = (dropped, s, omega arith)
  shrink-Splits (suc fuel) limit t {dropped = dropped} enough s =
      let count = laws.node_count-nodes t in
      elim (Bool-cases (ltb limit (node_count t))) [
        | inr fits ↦ rw fits (dropped, s, omega (arith, ltb-false limit (node_count t) fits))
        | inl over ↦
            let above = ltb→lt limit (node_count t) over in
            let (r, taken) = extract_minimum-some laws random t (omega arith) in
            let fewer = length-Perm (laws.extract_minimum-nodes t r.1 r.0 taken) in
            let (dropped', s', len) =
              shrink-Splits fuel limit r.1 (omega arith) (drop_least t r.1 r.0 taken s) in
            rw (over, taken) (dropped', s', omega arith)
      ]

  -- Lowering the limit keeps the entries of the highest priorities, as many as the new limit: the
  -- queue still holds a selection of all it was ever offered.
  pub set_limit-Holds :
      (q : Queue h) (limit : ℕ) {offered dropped : List (ℕ × V)}
      → limit ≤ q.limit
      → Holds laws random q offered dropped
      → (dropped' : List (ℕ × V)) × Holds laws random
          (PriorityQueue.set_limit h q limit)
          offered
          dropped'
  unfolding PriorityQueue.set_limit
  set_limit-Holds q limit {offered} {dropped} lower held =
      let s = held.selects in
      let (dropped', s', len) =
        shrink-Splits (suc (node_count q.heap)) limit q.heap
          (omega (arith, laws.node_count-nodes q.heap))
          (record { together = s.together; least_dropped = s.least_dropped }) in
      let sizes : length (nodes q.heap) + length dropped
          ≡ length (nodes (PriorityQueue.shrink h (suc (node_count q.heap)) limit q.heap))
            + length dropped' =
        (sym (length-append _ dropped)
          ∙ length-Perm s.together
          ∙ sym (length-Perm s'.together)
          ∙ length-append _ dropped') in
      (
        dropped',
        record {
          selects = record {
            together = s'.together;
            least_dropped = s'.least_dropped;
            within = omega arith;
            full = λ some_dropped. elim (zero_or_pos (length dropped)) [
              | inl nothing ↦ omega arith
              | inr something ↦ omega (arith, s.full something)
            ];
          };
          counted = held.counted;
        },
      )
