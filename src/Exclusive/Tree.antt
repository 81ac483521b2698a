-- ===== src/Exclusive/Tree.antt =====
-- The ranges and the assignments of a tree, without the stack.
use monis_agent.Common.{ℕ, ◌≤◌, ◌≡◌, refl, List, [], ◌∷◌, ◌++◌, Bool, false, ◌||◌, arith}
use monis_agent.Exclusive
use monis_agent.Exclusive.{
  Range, Segment, to_range, exclusive_duration, Assigned, Node, node, Nodes, nil, cons,
}
use monis_agent.Exclusive.Ranges.{covers, covers_one, IsSeparated, IsSeparated-lower, merge_lem}

-- The merged ranges of a tree, and those of the children of a node.
unfoldable mutual
  pub ranges : Node → List Range
  ranges (node s cs) = Exclusive.merge (child_ranges cs) (to_range s ∷ [])

  pub child_ranges : Nodes → List Range
  child_ranges nil = []
  child_ranges (cons c cs) = Exclusive.merge (child_ranges cs) (ranges c)

-- The assignments of a tree: the children from the last to the first, then the node itself.
unfoldable mutual
  pub assignments : Node → Assigned
  assignments (node s cs) =
      child_assignments cs ++ (s.id, exclusive_duration s (child_ranges cs)) ∷ []

  pub child_assignments : Nodes → Assigned
  child_assignments nil = []
  child_assignments (cons c cs) = child_assignments cs ++ assignments c

-- Whether a segment of the tree is active in a millisecond.
unfoldable mutual
  pub active : Node → ℕ → Bool
  active (node s cs) t = any_active cs t || covers_one (to_range s) t

  pub any_active : Nodes → ℕ → Bool
  any_active nil t = false
  any_active (cons c cs) t = any_active cs t || active c t

-- No segment starts before the bound, or before its parent.
unfoldable mutual
  pub IsNested : ℕ → Node → Type 0
  IsNested bound (node s cs) = (bound ≤ s.start) × AreNested s.start cs

  pub AreNested : ℕ → Nodes → Type 0
  AreNested bound nil = Unit
  AreNested bound (cons c cs) = IsNested bound c × AreNested bound cs

-- The merged ranges are separated, and cover the milliseconds in which some segment is active.
abbrev pub Represents : ℕ → List Range → (ℕ → Bool) → Type 0
Represents bound rs is_active = IsSeparated bound rs × ((t : ℕ) → covers rs t ≡ is_active t)

mutual
  unfolding ranges child_ranges active any_active IsNested AreNested

  pub ranges-Represents :
      (bound : ℕ) (t : Node) → IsNested bound t → Represents bound (ranges t) (active t)
  ranges-Represents bound (node s cs) nested =
      let below = child_ranges-Represents s.start cs nested.1 in
      let both =
        merge_lem (child_ranges cs) (to_range s ∷ []) bound
          (IsSeparated-lower bound s.start (child_ranges cs) nested.0 below.0)
          (nested.0, omega arith, tt) in
      (both.0, λ t. ground (arith, both.1 t, below.1 t))

  pub child_ranges-Represents :
      (bound : ℕ) (cs : Nodes)
      → AreNested bound cs
      → Represents bound (child_ranges cs) (any_active cs)
  child_ranges-Represents bound nil nested = (tt, λ t. refl)
  child_ranges-Represents bound (cons c cs) nested =
      let rest = child_ranges-Represents bound cs nested.1 in
      let here = ranges-Represents bound c nested.0 in
      let both = merge_lem (child_ranges cs) (ranges c) bound rest.0 here.0 in
      (both.0, λ t. ground (arith, both.1 t, rest.1 t, here.1 t))
