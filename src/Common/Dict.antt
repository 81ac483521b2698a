-- ===== src/Common/Dict.antt =====
-- Objects without a prototype as association lists from texts, in the order of insertion.
use monis_agent.Common.{
  ◌≡◌, refl, ◌∙◌, false, List, [], ◌∷◌, Option, none, some, arith, Bool-cases, inl, inr,
  if◌then◌else◌,
}
use monis_agent.Common.Text.{Text, text_eq, text_eq_refl, text_eq→eq}

abbrev pub Dict {ℓ} : Type ℓ → Type ℓ
Dict V = List (Text × V)

pub text_eq-sym_false : (s t : Text) → text_eq s t ≡ false → text_eq t s ≡ false
text_eq-sym_false s t e = elim (Bool-cases (text_eq t s)) [
  | inl same ↦ ground (arith, e, text_eq→eq t s same, text_eq_refl s)
  | inr other ↦ other
]

module _ {ℓ} {V : Type ℓ} where
  unfoldable pub lookup : Text → Dict V → Option V
  lookup k [] = none
  lookup k ((j, v) ∷ d) = if text_eq j k then some v else lookup k d

  -- A new key stands last.
  unfoldable pub insert : Text → V → Dict V → Dict V
  insert k v [] = (k, v) ∷ []
  insert k v ((j, w) ∷ d) = if text_eq j k then (j, v) ∷ d else (j, w) ∷ insert k v d

  pub lookup-insert :
      (k j : Text) (v : V) (d : Dict V)
      → lookup j (insert k v d) ≡ (if text_eq k j then some v else lookup j d)
  unfolding lookup insert
  lookup-insert k j v [] = refl
  lookup-insert k j v ((i, w) ∷ d) = ground (
    arith,
    text_eq→eq k j,
    text_eq→eq i k,
    text_eq→eq i j,
    text_eq_refl k,
    text_eq_refl j,
    text_eq_refl i,
    lookup-insert k j v d,
  )

  pub lookup-insert_self : (k : Text) (v : V) (d : Dict V) → lookup k (insert k v d) ≡ some v
  lookup-insert_self k v d = rw (lookup-insert k k v d, text_eq_refl k) refl

  -- Each key stands once.
  abbrev pub IsDistinct : Dict V → Type ℓ
  IsDistinct [] = Unit
  IsDistinct ((k, v) ∷ d) = (lookup k d ≡ none) × IsDistinct d

  lookup-insert_other :
      (k j : Text) (v : V) (d : Dict V) → text_eq k j ≡ false → lookup j (insert k v d) ≡ lookup j d
  lookup-insert_other k j v d e = rw (lookup-insert k j v d, e) refl

  pub insert-IsDistinct : (k : Text) (v : V) (d : Dict V) → IsDistinct d → IsDistinct (insert k v d)
  unfolding insert lookup
  insert-IsDistinct k v [] h = (refl, tt)
  insert-IsDistinct k v ((j, w) ∷ d) h = elim (Bool-cases (text_eq j k)) [
    | inl same ↦ rw same h
    | inr other ↦ rw other (
      lookup-insert_other k j v d (text_eq-sym_false j k other) ∙ h.0,
      insert-IsDistinct k v d h.1,
    )
  ]
