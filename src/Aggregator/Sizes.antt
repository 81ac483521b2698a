-- ===== src/Aggregator/Sizes.antt =====
-- The weight of lists of data, of which one is taken out.
use monis_agent.Common.{
  ℕ, zero, suc, ◌+◌, ◌≡◌, refl, ap, sym, ◌∙◌, List, [], ◌∷◌, ◌++◌, Option, none, some, arith,
  length, some_inj, none-some, Option-cases, inl, inr,
}
use monis_agent.Aggregator.{take_out}

abbrev pub total {ℓ} : {A : Type ℓ} → (A → ℕ) → List A → ℕ
total weight [] = 0
total weight (x ∷ xs) = weight x + total weight xs

-- The size of what was taken out.
abbrev pub weight_of : {D : Type 0} → (D → ℕ) → Option (D × List D) → ℕ
weight_of weight none = 0
weight_of weight (some r) = weight r.0

module _ {D : Type 0} (weight : D → ℕ) where
  pub total-append :
      (xs : List D) (x : D) → total weight (xs ++ x ∷ []) ≡ weight x + total weight xs
  total-append [] x = refl
  total-append (y ∷ xs) x = omega (arith, total-append xs x)

  pub total-take_out :
      (n : ℕ) (ds : List D) (r : D × List D)
      → take_out n ds ≡ some r
      → total weight ds ≡ weight r.0 + total weight r.1
  total-take_out n [] r e = absurd (none-some e)
  total-take_out zero (x ∷ xs) r e = ap (λ s. weight s.0 + total weight s.1) (some_inj e)
  total-take_out (suc n) (x ∷ xs) r e = elim (Option-cases (take_out n xs)) [
    | inl lost ↦
        absurd (
          none-some
            (ap (λ o. elim o [ none ↦ none | some s ↦ some (s.0, x ∷ s.1) ]) (sym lost) ∙ e))
    | inr found ↦
        let whole = total-take_out n xs found.0 found.1 in
        let same : (found.0.0, x ∷ found.0.1) ≡ r =
          some_inj
            (ap (λ o. elim o [ none ↦ none | some s ↦ some (s.0, x ∷ s.1) ]) (sym found.1) ∙ e) in
        omega (arith, whole) ∙ ap (λ s. weight s.0 + total weight s.1) same
  ]

pub length-total : {D : Type 0} (xs : List D) → length xs ≡ total (λ d. 1) xs
length-total [] = refl
length-total (x ∷ xs) = omega (arith, length-total xs)
