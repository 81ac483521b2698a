-- ===== src/Exclusive/Stack.antt =====
-- The parent stack of `process` computes the assignments of the tree.
use monis_agent.Common.{ℕ, suc, ◌+◌, ◌≡◌, refl, ap, ◌∙◌, List, [], ◌∷◌, ◌++◌, arith}
use monis_agent.Exclusive
use monis_agent.Exclusive.{
  Range, Segment, to_range, exclusive_duration, Frame, Assigned, finish_leaf, Node, node, Nodes,
  nil, cons, count, process, process_all,
}
use monis_agent.Exclusive.Tree.{ranges, child_ranges, assignments, child_assignments}
use mathlib.Core.List.{append_assoc, append-nil}

-- A frame that waits for `left` children.
abbrev waiting : ℕ → Segment → List Range → Frame
waiting left s pairs = record { children_left = left; segment = s; child_pairs = pairs }

finish_leaf-waiting :
    (rs pairs : List Range) (k : ℕ) (s : Segment) (stack : List Frame) (out : Assigned)
    → finish_leaf rs (waiting (suc (suc k)) s pairs ∷ stack) out
      ≡ (waiting (suc k) s (Exclusive.merge pairs rs) ∷ stack, out)
unfolding finish_leaf
finish_leaf-waiting rs pairs k s stack out = ground arith

finish_leaf-last :
    (rs pairs : List Range) (s : Segment) (stack : List Frame) (out : Assigned)
    → finish_leaf rs (waiting 1 s pairs ∷ stack) out
      ≡ finish_leaf
          (Exclusive.merge (Exclusive.merge pairs rs) (to_range s ∷ []))
          stack
          (out ++ (s.id, exclusive_duration s (Exclusive.merge pairs rs)) ∷ [])
unfolding finish_leaf
finish_leaf-last rs pairs s stack out = refl

mutual
  unfolding process process_all ranges child_ranges assignments child_assignments Exclusive.merge
      exclusive_duration Exclusive.subtract

  pub process_lem :
      (t : Node) (stack : List Frame) (out : Assigned)
      → process t (stack, out) ≡ finish_leaf (ranges t) stack (out ++ assignments t)
  process_lem (node s nil) stack out = refl
  process_lem (node s (cons c cs)) stack out =
      let rest : process_all cs (waiting (suc (count cs)) s [] ∷ stack, out)
          ≡ (waiting 1 s (child_ranges cs) ∷ stack, out ++ child_assignments cs) =
        ap (λ n. process_all cs (waiting n s [] ∷ stack, out)) (omega arith)
        ∙ process_all_lem cs 0 s stack out in
      let last : Assigned =
        (s.id, exclusive_duration s (Exclusive.merge (child_ranges cs) (ranges c))) ∷ [] in
      rw
        (
          rest,
          process_lem c (waiting 1 s (child_ranges cs) ∷ stack) (out ++ child_assignments cs),
          finish_leaf-last (ranges c) (child_ranges cs) s stack
              ((out ++ child_assignments cs) ++ assignments c),
        )
        (ap
          (finish_leaf
            (Exclusive.merge (Exclusive.merge (child_ranges cs) (ranges c)) (to_range s ∷ []))
            stack)
          (ap (λ o. o ++ last) (append_assoc out (child_assignments cs) (assignments c))
            ∙ append_assoc out (child_assignments cs ++ assignments c) last))

  process_all_lem :
      (cs : Nodes) (k : ℕ) (s : Segment) (stack : List Frame) (out : Assigned)
      → process_all cs (waiting (count cs + suc k) s [] ∷ stack, out)
        ≡ (waiting (suc k) s (child_ranges cs) ∷ stack, out ++ child_assignments cs)
  process_all_lem nil k s stack out = ground (arith, append-nil out)
  process_all_lem (cons c cs) k s stack out =
      let rest : process_all cs (waiting (suc (count cs) + suc k) s [] ∷ stack, out)
          ≡ (waiting (suc (suc k)) s (child_ranges cs) ∷ stack, out ++ child_assignments cs) =
        ap (λ n. process_all cs (waiting n s [] ∷ stack, out)) (omega arith)
        ∙ process_all_lem cs (suc k) s stack out in
      rw
        (
          rest,
          process_lem c (waiting (suc (suc k)) s (child_ranges cs) ∷ stack)
              (out ++ child_assignments cs),
          finish_leaf-waiting (ranges c) (child_ranges cs) k s stack
              ((out ++ child_assignments cs) ++ assignments c),
          append_assoc out (child_assignments cs) (assignments c),
        )
        refl
