-- ===== src/NormalizerRule/Slashes.antt =====
-- Splitting a path at its slashes and joining it again.
use monis_agent.Common.{
  ℕ, ◌≡◌, refl, ap, sym, ◌∙◌, List, [], ◌∷◌, ◌==◌, ==_iff, Bool-cases, inl, inr,
}
use monis_agent.Common.Text.{Text}
use monis_agent.NormalizerRule.{split_slash, join_slash}

-- The pieces of a path are a first one and more.
split_slash-cons : (s : Text) → (first : Text) × (more : List Text) × (split_slash s ≡ first ∷ more)
unfolding split_slash
split_slash-cons [] = ([], [], refl)
split_slash-cons (c ∷ s) =
    let rest = split_slash-cons s in
    elim (Bool-cases (c == b'/')) [
      | inl at_slash ↦ rw at_slash ([], split_slash s, refl)
      | inr other ↦ rw (other, rest.2) (c ∷ rest.0, rest.1, refl)
    ]

join_slash-cons :
    (c : ℕ) (t : Text) (ts : List Text) → join_slash ((c ∷ t) ∷ ts) ≡ c ∷ join_slash (t ∷ ts)
unfolding join_slash
join_slash-cons c t [] = refl
join_slash-cons c t (u ∷ ts) = refl

pub join_slash-split_slash : (s : Text) → join_slash (split_slash s) ≡ s
unfolding split_slash join_slash
join_slash-split_slash [] = refl
join_slash-split_slash (c ∷ s) =
    let rest = split_slash-cons s in
    let ih = join_slash-split_slash s in
    elim (Bool-cases (c == b'/')) [
      | inl at_slash ↦
          rw (at_slash, (==_iff c 47).0 at_slash, rest.2)
            (ap (λ t. 47 ∷ t) (ap join_slash (sym rest.2) ∙ ih))
      | inr other ↦
          rw (other, rest.2)
            (join_slash-cons c rest.0 rest.1 ∙ ap (λ t. c ∷ t) (ap join_slash (sym rest.2) ∙ ih))
    ]
