-- ===== src/Normalizer/Sorting.antt =====
-- The order of the rules, and the sort of `load`.
use monis_agent.Common.{List, [], ◌∷◌, Bool-cases, inl, inr, arith, leb→le, leb-false}
use monis_agent.Common.Int.{ℤ, ◌≤ℤ◌, leb_ℤ}
use monis_agent.NormalizerRule.{Engine, Rule}
use monis_agent.Normalizer.{insert_sorted, sort_rules}

module _ (E : Engine) where
  -- All the rules have at least the precedence.
  abbrev pub From : ℤ → List (Rule E) → Type 0
  From n [] = Unit
  From n (r ∷ rules) = (n ≤ℤ r.precedence) × From n rules

  abbrev pub IsSorted : List (Rule E) → Type 0
  IsSorted [] = Unit
  IsSorted (r ∷ rules) = From r.precedence rules × IsSorted rules

  pub From-lower : (a b : ℤ) (rules : List (Rule E)) → a ≤ℤ b → From b rules → From a rules
  From-lower a b [] le h = tt
  From-lower a b (r ∷ rules) le h = (omega (arith, h.0), From-lower a b rules le h.1)

  insert_sorted-From :
      (n : ℤ) (r : Rule E) (rules : List (Rule E))
      → n ≤ℤ r.precedence
      → From n rules
      → From n (insert_sorted E r rules)
  unfolding insert_sorted
  insert_sorted-From n r [] le h = (le, tt)
  insert_sorted-From n r (s ∷ rules) le h = elim (Bool-cases (leb_ℤ r.precedence s.precedence)) [
    | inl first ↦ rw first (le, h)
    | inr second ↦ rw second (h.0, insert_sorted-From n r rules le h.1)
  ]

  insert_sorted-IsSorted :
      (r : Rule E) (rules : List (Rule E)) → IsSorted rules → IsSorted (insert_sorted E r rules)
  unfolding insert_sorted
  insert_sorted-IsSorted r [] h = (tt, tt)
  insert_sorted-IsSorted r (s ∷ rules) h = elim (Bool-cases (leb_ℤ r.precedence s.precedence)) [
    | inl first ↦
        let le : r.precedence ≤ℤ s.precedence = leb→le _ _ first in
        rw first ((le, From-lower r.precedence s.precedence rules le h.0), h)
    | inr second ↦
        let lt = leb-false _ _ second in
        rw second (
          insert_sorted-From s.precedence r rules (omega (arith, lt)) h.0,
          insert_sorted-IsSorted r rules h.1,
        )
  ]

  -- Sorting orders the rules by precedence, and keeps a lower bound of the precedences.
  pub sort_rules-IsSorted : (rules : List (Rule E)) → IsSorted (sort_rules E rules)
  unfolding sort_rules
  sort_rules-IsSorted [] = tt
  sort_rules-IsSorted (r ∷ rules) =
      insert_sorted-IsSorted r (sort_rules E rules) (sort_rules-IsSorted rules)

  pub sort_rules-From : (n : ℤ) (rules : List (Rule E)) → From n rules → From n (sort_rules E rules)
  unfolding sort_rules
  sort_rules-From n [] h = tt
  sort_rules-From n (r ∷ rules) h =
      insert_sorted-From n r (sort_rules E rules) h.0 (sort_rules-From n rules h.1)
