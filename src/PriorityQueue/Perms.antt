-- ===== src/PriorityQueue/Perms.antt =====
-- Rearrangements of lists, for the contents of the queue's heap.
use monis_agent.Common.{suc, ◌≡◌, refl, ap, ◌∙◌, List, ◌∷◌, ◌++◌, length}
use mathlib.Core.List.{Perm, Permᴰ, Mem, perm_middle}
use mathlib.Core.List.Perm
use mathlib.Core.Logic.{∥∥₁_elim}
use native.Mathlib.Nat.{ℕ_set}

module _ {ℓ} {A : Type ℓ} where
  lengthᴰ : {xs ys : List A} → Permᴰ xs ys → length xs ≡ length ys
  lengthᴰ Permᴰ.nil = refl
  lengthᴰ (Permᴰ.cons e p) = ap suc (lengthᴰ p)
  lengthᴰ (Permᴰ.swap e f) = refl
  lengthᴰ (Permᴰ.trans p q) = lengthᴰ p ∙ lengthᴰ q

  pub length-Perm : {xs ys : List A} → Perm xs ys → length xs ≡ length ys
  length-Perm p = ∥∥₁_elim p (ℕ_set _ _) lengthᴰ

  pub mem-Perm : {x : A} {xs ys : List A} → Perm xs ys → Mem x xs → Mem x ys
  mem-Perm p = (Perm.mem_iff p).0

  -- An element put in front of the first part of `xs ++ ys`.
  pub perm-cons_left :
      (x : A) {xs xs' : List A} (ys : List A) {zs : List A}
      → Perm xs' (x ∷ xs)
      → Perm (xs ++ ys) zs
      → Perm (xs' ++ ys) (x ∷ zs)
  perm-cons_left x ys p q = Perm.trans (Perm.append_right ys p) (Perm.cons x q)

  -- An element put in front of the second part.
  pub perm-cons_right :
      (x : A) (xs ys : List A) {zs : List A} → Perm (xs ++ ys) zs → Perm (xs ++ x ∷ ys) (x ∷ zs)
  perm-cons_right x xs ys q = Perm.trans (perm_middle xs ys) (Perm.cons x q)
