-- ===== src/Exclusive.antt =====
-- lib/transaction/trace/exclusive-time-calculator.js. Times are natural numbers of milliseconds. A
-- segment is read through its timer, whose range and duration do not change during the calculation;
-- what the calculator assigns to `_exclusiveDuration` is returned as a list, in order. The range
-- arrays that `merge` changes in place are read by nobody else, so a value stands for them.
pub mod Ranges
pub mod Counting
pub mod Tree
pub mod Stack
pub mod Exclusives
use monis_agent.Common.{
  ℕ, zero, suc, ◌+◌, ◌-◌, min, max, List, [], ◌∷◌, ◌++◌, Bool, true, false, ltb, leb, ◌==◌,
  if◌then◌else◌,
}
use monis_agent.Common.Int.{ℤ, pos, ◌-ℤ◌, sub_ℕ}

-- A range's start and end.
abbrev pub Range : Type 0
Range = ℕ × ℕ

-- The last part of `merge`: the ranges that are left of one list, from the present range on.
unfoldable pub finish : List Range → Range → List Range
finish [] current = current ∷ []
finish (r ∷ remainder) current = elim (leb r.0 current.1) [
  | true ↦ finish remainder (current.0, max r.1 current.1)
  | false ↦ current ∷ r ∷ remainder
]

-- The loop of `merge` over what is left of both lists.
unfoldable pub merge_loop : List Range → List Range → Range → List Range
unfolding finish
merge_loop [] second current = finish second current
merge_loop (x ∷ first) [] current = finish (x ∷ first) current
merge_loop (x ∷ first) (y ∷ second) current = elim (ltb x.0 y.0) [
  | true ↦ elim (leb x.0 current.1) [
    | true ↦ merge_loop first (y ∷ second) (current.0, max x.1 current.1)
    | false ↦ current ∷ merge_loop first (y ∷ second) x
  ]
  | false ↦ elim (leb y.0 current.1) [
    | true ↦ merge_loop (x ∷ first) second (current.0, max y.1 current.1)
    | false ↦ current ∷ merge_loop (x ∷ first) second y
  ]
]

unfoldable pub merge : List Range → List Range → List Range
unfolding merge_loop
merge [] second = second
merge (x ∷ first) [] = x ∷ first
merge (x ∷ first) (y ∷ second) =
    if ltb x.0 y.0 then merge_loop first (y ∷ second) x else merge_loop (x ∷ first) second y

pub record Segment : Type 0 where
  pub id : ℕ
  pub start : ℕ
  pub duration : ℕ

-- `timer.toRange()`
abbrev pub to_range : Segment → Range
to_range s = (s.start, s.start + s.duration)

-- The loop of `finishLeaf` over the ranges of the children: what is left of `duration`.
unfoldable pub subtract : ℕ → ℤ → List Range → ℤ
subtract finished_end duration [] = duration
subtract finished_end duration (pair ∷ pairs) =
    let rest = subtract finished_end (duration -ℤ sub_ℕ (min pair.1 finished_end) pair.0) pairs in
    if leb finished_end pair.0 then duration else rest

unfoldable pub exclusive_duration : Segment → List Range → ℤ
unfolding subtract
exclusive_duration s child_pairs = subtract (s.duration + s.start) (pos s.duration) child_pairs

pub record Frame : Type 0 where
  pub children_left : ℕ
  pub segment : Segment
  pub child_pairs : List Range

-- The assignments made so far: a segment's id and its exclusive duration.
abbrev pub Assigned : Type 0
Assigned = List (ℕ × ℤ)

-- `finishLeaf`: ranges are merged into the top of the parent stack; a parent whose children are all
-- finished is popped, and its ranges go on to the next one.
unfoldable pub finish_leaf : List Range → List Frame → Assigned → List Frame × Assigned
unfolding merge exclusive_duration
finish_leaf ranges [] assigned = ([], assigned)
finish_leaf ranges (parent ∷ stack) assigned =
    let pairs = merge parent.child_pairs ranges in
    let duration = exclusive_duration parent.segment pairs in
    let popped : List Frame × Assigned =
      finish_leaf (merge pairs (to_range parent.segment ∷ [])) stack
        (assigned ++ (parent.segment.id, duration) ∷ []) in
    if parent.children_left - 1 == 0 then popped else (
      record parent { children_left = parent.children_left - 1; child_pairs = pairs } ∷ stack,
      assigned,
    )

mutual
  pub data Node : Type 0 where
    node : Segment → Nodes → Node

  pub data Nodes : Type 0 where
    nil : Nodes
    cons : Node → Nodes → Nodes

abbrev pub count : Nodes → ℕ
count nil = 0
count (cons c cs) = suc (count cs)

-- `process`, and its loop over the children, from the last one to the first.
unfoldable mutual
  unfolding finish_leaf

  pub process : Node → List Frame × Assigned → List Frame × Assigned
  process (node s nil) (stack, assigned) =
      finish_leaf (to_range s ∷ []) stack (assigned ++ (s.id, pos s.duration) ∷ [])
  process (node s (cons c cs)) (stack, assigned) =
      process_all (cons c cs)
        (record { children_left = suc (count cs); segment = s; child_pairs = [] } ∷ stack, assigned)

  pub process_all : Nodes → List Frame × Assigned → List Frame × Assigned
  process_all nil state = state
  process_all (cons c cs) state = process c (process_all cs state)
