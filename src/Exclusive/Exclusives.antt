-- ===== src/Exclusive/Exclusives.antt =====
-- What `process` assigns to the segments of a trace.
use monis_agent.Common.{ℕ, ◌≡◌, refl, ap, ◌∙◌, [], ◌∷◌, ◌++◌}
use monis_agent.Common.Int.{pos}
use monis_agent.Exclusive.{
  Segment, exclusive_duration, Assigned, finish_leaf, Node, node, Nodes, nil, cons, process,
}
use monis_agent.Exclusive.Ranges.{covers}
use monis_agent.Exclusive.Counting.{free, free-congr, exclusive_duration-free}
use monis_agent.Exclusive.Tree.{
  ranges, child_ranges, assignments, child_assignments, any_active, IsNested, AreNested,
  child_ranges-Represents,
}
use monis_agent.Exclusive.Stack.{process_lem}

-- The milliseconds of a segment in which none of its descendants is active.
abbrev pub own_time : Segment → Nodes → ℕ
own_time s cs = free s.start s.duration (any_active cs)

-- Each segment with its own time, children from the last to the first and before their parent.
unfoldable mutual
  pub own_times : Node → Assigned
  own_times (node s cs) = child_own_times cs ++ (s.id, pos (own_time s cs)) ∷ []

  pub child_own_times : Nodes → Assigned
  child_own_times nil = []
  child_own_times (cons c cs) = child_own_times cs ++ own_times c

exclusive_duration-own_time :
    (s : Segment) (cs : Nodes)
    → AreNested s.start cs
    → exclusive_duration s (child_ranges cs) ≡ pos (own_time s cs)
exclusive_duration-own_time s cs nested =
    let represents = child_ranges-Represents s.start cs nested in
    exclusive_duration-free s (child_ranges cs) represents.0
    ∙ ap pos (
        free-congr s.start s.duration (covers (child_ranges cs)) (any_active cs)
          (λ t after before. represents.1 t))

mutual
  unfolding assignments child_assignments own_times child_own_times IsNested AreNested

  assignments-own_times : (bound : ℕ) (t : Node) → IsNested bound t → assignments t ≡ own_times t
  assignments-own_times bound (node s cs) nested =
      rw
        (child_assignments-own_times s.start cs nested.1, exclusive_duration-own_time s cs nested.1)
        refl

  child_assignments-own_times :
      (bound : ℕ) (cs : Nodes) → AreNested bound cs → child_assignments cs ≡ child_own_times cs
  child_assignments-own_times bound nil nested = refl
  child_assignments-own_times bound (cons c cs) nested =
      rw (child_assignments-own_times bound cs nested.1, assignments-own_times bound c nested.0)
        refl

finish_leaf-root : (t : Node) (out : Assigned) → finish_leaf (ranges t) [] out ≡ ([], out)
unfolding finish_leaf
finish_leaf-root t out = refl

-- In a trace where no segment starts before its parent, `process` ends with an empty parent stack, and
-- has assigned to every segment, once and in post-order from the last child, the number of its
-- milliseconds in which none of its descendants was active.
pub process-own_times :
    (bound : ℕ) (root : Node) → IsNested bound root → process root ([], []) ≡ ([], own_times root)
process-own_times bound root nested =
    process_lem root [] []
    ∙ finish_leaf-root root (assignments root)
    ∙ ap (λ (out : Assigned). ([], out)) (assignments-own_times bound root nested)
