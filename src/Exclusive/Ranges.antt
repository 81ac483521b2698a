-- ===== src/Exclusive/Ranges.antt =====
-- Ordered lists of ranges that do not meet, and what they cover.
use monis_agent.Common.{
  ℕ, suc, ◌≤◌, max, ◌≡◌, refl, List, [], ◌∷◌, Bool, true, false, ◌&&◌, ◌||◌, ltb, leb, arith,
  Bool-cases, inl, inr, ltb→lt, ltb-false, leb→le, leb-false,
}
use monis_agent.Exclusive
use monis_agent.Exclusive.{Range, merge_loop}

-- A range covers the milliseconds from its start up to its end, without that.
abbrev pub covers_one : Range → ℕ → Bool
covers_one r t = leb r.0 t && ltb t r.1

abbrev pub covers : List Range → ℕ → Bool
covers [] t = false
covers (r ∷ rs) t = covers_one r t || covers rs t

-- The ranges start at the bound or later, end where they start or later, and each starts after the end
-- of the one before.
abbrev pub IsSeparated : ℕ → List Range → Type 0
IsSeparated bound [] = Unit
IsSeparated bound (r ∷ rs) = (bound ≤ r.0) × (r.0 ≤ r.1) × IsSeparated (suc r.1) rs

pub IsSeparated-lower : (a b : ℕ) (rs : List Range) → a ≤ b → IsSeparated b rs → IsSeparated a rs
IsSeparated-lower a b [] le h = tt
IsSeparated-lower a b (r ∷ rs) le h = (omega arith, h.1, h.2)

-- The steps of the two loops, one for each outcome of their tests.
module _ (x : Range) (xs : List Range) (c : Range) where
  finish-meets :
      leb x.0 c.1 ≡ true → Exclusive.finish (x ∷ xs) c ≡ Exclusive.finish xs (c.0, max x.1 c.1)
  unfolding Exclusive.finish
  finish-meets e = ground arith

  finish-apart : leb x.0 c.1 ≡ false → Exclusive.finish (x ∷ xs) c ≡ c ∷ x ∷ xs
  unfolding Exclusive.finish
  finish-apart e = ground arith

module _ (x y : Range) (xs ys : List Range) (c : Range) where
  first-meets :
      ltb x.0 y.0 ≡ true
      → leb x.0 c.1 ≡ true
      → merge_loop (x ∷ xs) (y ∷ ys) c ≡ merge_loop xs (y ∷ ys) (c.0, max x.1 c.1)
  unfolding merge_loop
  first-meets e f = ground arith

  first-apart :
      ltb x.0 y.0 ≡ true
      → leb x.0 c.1 ≡ false
      → merge_loop (x ∷ xs) (y ∷ ys) c ≡ c ∷ merge_loop xs (y ∷ ys) x
  unfolding merge_loop
  first-apart e f = ground arith

  second-meets :
      ltb x.0 y.0 ≡ false
      → leb y.0 c.1 ≡ true
      → merge_loop (x ∷ xs) (y ∷ ys) c ≡ merge_loop (x ∷ xs) ys (c.0, max y.1 c.1)
  unfolding merge_loop
  second-meets e f = ground arith

  second-apart :
      ltb x.0 y.0 ≡ false
      → leb y.0 c.1 ≡ false
      → merge_loop (x ∷ xs) (y ∷ ys) c ≡ c ∷ merge_loop (x ∷ xs) ys y
  unfolding merge_loop
  second-apart e f = ground arith

finish-IsSeparated :
    (rs : List Range) (c : Range) (bound : ℕ)
    → bound ≤ c.0
    → c.0 ≤ c.1
    → IsSeparated c.0 rs
    → IsSeparated bound (Exclusive.finish rs c)
unfolding Exclusive.finish
finish-IsSeparated [] c bound b v h = (b, v, tt)
finish-IsSeparated (r ∷ rs) c bound b v h = elim (Bool-cases (leb r.0 c.1)) [
  | inl meets ↦ rw (finish-meets r rs c meets) (
      finish-IsSeparated rs (c.0, max r.1 c.1) bound b (omega arith)
        (IsSeparated-lower c.0 (suc r.1) rs (omega arith) h.2))
  | inr apart ↦
      rw (finish-apart r rs c apart) (b, v, (omega (arith, leb-false r.0 c.1 apart), h.1, h.2))
]

finish-covers :
    (rs : List Range) (c : Range) (t : ℕ)
    → c.0 ≤ c.1
    → IsSeparated c.0 rs
    → covers (Exclusive.finish rs c) t ≡ (covers_one c t || covers rs t)
unfolding Exclusive.finish
finish-covers [] c t v h = refl
finish-covers (r ∷ rs) c t v h = ground (
  arith,
  finish-covers rs (c.0, max r.1 c.1) t (omega arith)
      (IsSeparated-lower c.0 (suc r.1) rs (omega arith) h.2),
)

merge_loop-IsSeparated :
    (xs ys : List Range) (c : Range) (bound : ℕ)
    → bound ≤ c.0
    → c.0 ≤ c.1
    → IsSeparated c.0 xs
    → IsSeparated c.0 ys
    → IsSeparated bound (merge_loop xs ys c)
unfolding merge_loop
merge_loop-IsSeparated [] ys c bound b v h k = finish-IsSeparated ys c bound b v k
merge_loop-IsSeparated (x ∷ xs) [] c bound b v h k = finish-IsSeparated (x ∷ xs) c bound b v h
merge_loop-IsSeparated (x ∷ xs) (y ∷ ys) c bound b v h k = elim (Bool-cases (ltb x.0 y.0)) [
  | inl x_first ↦
      let before = ltb→lt x.0 y.0 x_first in
      elim (Bool-cases (leb x.0 c.1)) [
        | inl meets ↦ rw (first-meets x y xs ys c x_first meets) (
            merge_loop-IsSeparated xs (y ∷ ys) (c.0, max x.1 c.1) bound b (omega arith)
              (IsSeparated-lower c.0 (suc x.1) xs (omega arith) h.2) k)
        | inr apart ↦ rw (first-apart x y xs ys c x_first apart) (
          b,
          v,
          merge_loop-IsSeparated xs (y ∷ ys) x (suc c.1) (leb-false x.0 c.1 apart) h.1
              (IsSeparated-lower x.0 (suc x.1) xs (omega arith) h.2) (omega arith, k.1, k.2),
        )
      ]
  | inr y_first ↦
      let before = ltb-false x.0 y.0 y_first in
      elim (Bool-cases (leb y.0 c.1)) [
        | inl meets ↦ rw (second-meets x y xs ys c y_first meets) (
            merge_loop-IsSeparated (x ∷ xs) ys (c.0, max y.1 c.1) bound b (omega arith) h
              (IsSeparated-lower c.0 (suc y.1) ys (omega arith) k.2))
        | inr apart ↦ rw (second-apart x y xs ys c y_first apart) (
          b,
          v,
          merge_loop-IsSeparated (x ∷ xs) ys y (suc c.1) (leb-false y.0 c.1 apart) k.1
              (omega arith, h.1, h.2) (IsSeparated-lower y.0 (suc y.1) ys (omega arith) k.2),
        )
      ]
]

-- A range that meets the present one widens it.
covers_one-max :
    (x c : Range) (t : ℕ)
    → c.0 ≤ x.0
    → x.0 ≤ x.1
    → x.0 ≤ c.1
    → covers_one (c.0, max x.1 c.1) t ≡ (covers_one c t || covers_one x t)
covers_one-max x c t after v meets = ground arith

or_first : (a b c d : Bool) → ((a || b) || c || d) ≡ (a || (b || c) || d)
or_first a b c d = ground arith

or_second : (a b c d : Bool) → ((a || c) || b || d) ≡ (a || b || (c || d))
or_second a b c d = ground arith

or_swap : (a b c d : Bool) → (a || (c || b || d)) ≡ (a || b || (c || d))
or_swap a b c d = ground arith

or_group : (a b c d : Bool) → (a || (b || c || d)) ≡ (a || (b || c) || d)
or_group a b c d = ground arith

merge_loop-covers :
    (xs ys : List Range) (c : Range) (t : ℕ)
    → c.0 ≤ c.1
    → IsSeparated c.0 xs
    → IsSeparated c.0 ys
    → covers (merge_loop xs ys c) t ≡ (covers_one c t || covers xs t || covers ys t)
unfolding merge_loop
merge_loop-covers [] ys c t v h k = ground (arith, finish-covers ys c t v k)
merge_loop-covers (x ∷ xs) [] c t v h k = ground (arith, finish-covers (x ∷ xs) c t v h)
merge_loop-covers (x ∷ xs) (y ∷ ys) c t v h k = elim (Bool-cases (ltb x.0 y.0)) [
  | inl x_first ↦
      let before = ltb→lt x.0 y.0 x_first in
      elim (Bool-cases (leb x.0 c.1)) [
        | inl meets ↦
            rw
              (
                first-meets x y xs ys c x_first meets,
                merge_loop-covers xs (y ∷ ys) (c.0, max x.1 c.1) t (omega arith)
                    (IsSeparated-lower c.0 (suc x.1) xs (omega arith) h.2) k,
                covers_one-max x c t h.0 h.1 (leb→le x.0 c.1 meets),
              )
              (or_first (covers_one c t) (covers_one x t) (covers xs t) (covers (y ∷ ys) t))
        | inr apart ↦
            rw
              (
                first-apart x y xs ys c x_first apart,
                merge_loop-covers xs (y ∷ ys) x t h.1
                    (IsSeparated-lower x.0 (suc x.1) xs (omega arith) h.2) (omega arith, k.1, k.2),
              )
              (or_group (covers_one c t) (covers_one x t) (covers xs t) (covers (y ∷ ys) t))
      ]
  | inr y_first ↦
      let before = ltb-false x.0 y.0 y_first in
      elim (Bool-cases (leb y.0 c.1)) [
        | inl meets ↦
            rw
              (
                second-meets x y xs ys c y_first meets,
                merge_loop-covers (x ∷ xs) ys (c.0, max y.1 c.1) t (omega arith) h
                    (IsSeparated-lower c.0 (suc y.1) ys (omega arith) k.2),
                covers_one-max y c t k.0 k.1 (leb→le y.0 c.1 meets),
              )
              (or_second (covers_one c t) (covers (x ∷ xs) t) (covers_one y t) (covers ys t))
        | inr apart ↦
            rw
              (
                second-apart x y xs ys c y_first apart,
                merge_loop-covers (x ∷ xs) ys y t k.1 (omega arith, h.1, h.2)
                    (IsSeparated-lower y.0 (suc y.1) ys (omega arith) k.2),
              )
              (or_swap (covers_one c t) (covers (x ∷ xs) t) (covers_one y t) (covers ys t))
      ]
]

-- Merging two separated lists gives a separated list, which covers exactly what either of them covers.
pub merge_lem :
    (first second : List Range) (bound : ℕ)
    → IsSeparated bound first
    → IsSeparated bound second
    → IsSeparated bound (Exclusive.merge first second)
      × ((t : ℕ) → covers (Exclusive.merge first second) t ≡ (covers first t || covers second t))
unfolding Exclusive.merge
merge_lem [] second bound h k = (k, λ t. refl)
merge_lem (x ∷ first) [] bound h k = (h, λ t. ground arith)
merge_lem (x ∷ first) (y ∷ second) bound h k = elim (Bool-cases (ltb x.0 y.0)) [
  | inl x_first ↦
      let rest = IsSeparated-lower x.0 (suc x.1) first (omega arith) h.2 in
      let before = ltb→lt x.0 y.0 x_first in
      rw x_first (
        merge_loop-IsSeparated first (y ∷ second) x bound h.0 h.1 rest (omega arith, k.1, k.2),
        λ t.
            ground
              (arith, merge_loop-covers first (y ∷ second) x t h.1 rest (omega arith, k.1, k.2)),
      )
  | inr y_first ↦
      let rest = IsSeparated-lower y.0 (suc y.1) second (omega arith) k.2 in
      let before = ltb-false x.0 y.0 y_first in
      rw y_first (
        merge_loop-IsSeparated (x ∷ first) second y bound k.0 k.1 (omega arith, h.1, h.2) rest,
        λ t.
            ground
              (arith, merge_loop-covers (x ∷ first) second y t k.1 (omega arith, h.1, h.2) rest),
      )
]
