-- ===== src/Exclusive/Counting.antt =====
-- How many milliseconds of a segment the ranges of its descendants leave free.
use monis_agent.Common.{
  ℕ, zero, suc, ◌+◌, ◌-◌, ◌≤◌, ◌<◌, min, ◌≡◌, refl, sym, ap, ◌∙◌, List, [], ◌∷◌, Bool, true, false,
  arith, Bool-cases, inl, inr, leb, leb→le, leb-false, if◌then◌else◌,
}
use monis_agent.Common.Int.{ℤ, pos, ◌-ℤ◌, sub_ℕ}
use monis_agent.Exclusive.{Range, Segment, subtract, exclusive_duration}
use monis_agent.Exclusive.Ranges.{covers, IsSeparated, IsSeparated-lower}

-- The number of the n milliseconds from s on for which the test is false.
abbrev pub free : ℕ → ℕ → (ℕ → Bool) → ℕ
free s zero covered = 0
free s (suc n) covered = (if covered s then 0 else 1) + free (suc s) n covered

free-append :
    (s i j : ℕ) (covered : ℕ → Bool)
    → free s (i + j) covered ≡ free s i covered + free (s + i) j covered
free-append s zero j covered = grind arith
free-append s (suc i) j covered =
    let moved : suc i + j ≡ suc (i + j) = omega arith in
    let next : suc s + i ≡ s + suc i = omega arith in
    let rest = free-append (suc s) i j covered in
    rw moved (omega (arith, rest, ap (λ n. free n j covered) next))

pub free-congr :
    (s n : ℕ) (p q : ℕ → Bool) → ((t : ℕ) → s ≤ t → t < s + n → p t ≡ q t) → free s n p ≡ free s n q
free-congr s zero p q same = refl
free-congr s (suc n) p q same =
    rw
      (
        same s (omega arith) (omega arith),
        free-congr (suc s) n p q (λ t after before. same t (omega arith) (omega arith)),
      )
      refl

free_of_none :
    (s n : ℕ) (covered : ℕ → Bool)
    → ((t : ℕ) → s ≤ t → t < s + n → covered t ≡ false)
    → free s n covered ≡ n
free_of_none s zero covered none_of = refl
free_of_none s (suc n) covered none_of =
    rw
      (
        none_of s (omega arith) (omega arith),
        free_of_none (suc s) n covered (λ t after before. none_of t (omega arith) (omega arith)),
      )
      (omega arith)

free_of_all :
    (s n : ℕ) (covered : ℕ → Bool)
    → ((t : ℕ) → s ≤ t → t < s + n → covered t ≡ true)
    → free s n covered ≡ 0
free_of_all s zero covered all_of = refl
free_of_all s (suc n) covered all_of =
    rw
      (
        all_of s (omega arith) (omega arith),
        free_of_all (suc s) n covered (λ t after before. all_of t (omega arith) (omega arith)),
      )
      refl

covers-before :
    (rs : List Range) (bound t : ℕ) → IsSeparated bound rs → t < bound → covers rs t ≡ false
covers-before [] bound t h before = refl
covers-before (r ∷ rs) bound t h before =
    ground (arith, covers-before rs (suc r.1) t h.2 (omega arith))

covered_within :
    (r : Range) (rs : List Range) (t : ℕ) → r.0 ≤ t → t < r.1 → covers (r ∷ rs) t ≡ true
covered_within r rs t after before = ground arith

covered_after : (r : Range) (rs : List Range) (t : ℕ) → r.1 ≤ t → covers (r ∷ rs) t ≡ covers rs t
covered_after r rs t after = ground arith

-- The first range takes away its part of the interval from s to finished_end.
module _ (r : Range) (rs : List Range) (s finished_end : ℕ) (h : IsSeparated s (r ∷ rs))
    (starts : r.0 < finished_end) where
  free-lead : free s (r.0 - s) (covers (r ∷ rs)) ≡ r.0 - s
  free-lead =
      free_of_none s (r.0 - s) (covers (r ∷ rs)) (λ t after before.
        covers-before (r ∷ rs) r.0 t (omega arith, h.1, h.2) (omega (arith, h.0)))

  free-taken : free r.0 (min r.1 finished_end - r.0) (covers (r ∷ rs)) ≡ 0
  free-taken =
      free_of_all r.0 (min r.1 finished_end - r.0) (covers (r ∷ rs))
        (λ t after before. covered_within r rs t after (omega (arith, h.1)))

  free-rest :
      free (min r.1 finished_end) (finished_end - min r.1 finished_end) (covers (r ∷ rs))
      ≡ free (min r.1 finished_end) (finished_end - min r.1 finished_end) (covers rs)
  free-rest =
      free-congr (min r.1 finished_end) (finished_end - min r.1 finished_end) (covers (r ∷ rs))
        (covers rs) (λ t after before. covered_after r rs t (omega arith))

  free-first :
      free s (finished_end - s) (covers (r ∷ rs))
      ≡ (r.0 - s) + free (min r.1 finished_end) (finished_end - min r.1 finished_end) (covers rs)
  free-first =
      let e = min r.1 finished_end in
      let all = covers (r ∷ rs) in
      let parts : finished_end - s ≡ (r.0 - s) + ((e - r.0) + (finished_end - e)) =
        omega (arith, h.0, h.1) in
      let to_start : s + (r.0 - s) ≡ r.0 = omega (arith, h.0) in
      let to_end : r.0 + (e - r.0) ≡ e = omega (arith, h.1) in
      rw
        (
          parts,
          free-append s (r.0 - s) ((e - r.0) + (finished_end - e)) all,
          to_start,
          free-append r.0 (e - r.0) (finished_end - e) all,
          to_end,
          free-lead,
          free-taken,
          free-rest,
        )
        (omega arith)

-- The steps of the loop of `finishLeaf`.
subtract-none : (finished_end : ℕ) (d : ℤ) → subtract finished_end d [] ≡ d
unfolding subtract
subtract-none finished_end d = refl

subtract-past :
    (r : Range) (rs : List Range) (finished_end : ℕ) (d : ℤ)
    → leb finished_end r.0 ≡ true
    → subtract finished_end d (r ∷ rs) ≡ d
unfolding subtract
subtract-past r rs finished_end d e = ground arith

subtract-within :
    (r : Range) (rs : List Range) (finished_end : ℕ) (d : ℤ)
    → leb finished_end r.0 ≡ false
    → subtract finished_end d (r ∷ rs)
      ≡ subtract finished_end (d -ℤ sub_ℕ (min r.1 finished_end) r.0) rs
unfolding subtract
subtract-within r rs finished_end d e = ground arith

-- What is left when a part of a duration is taken away.
taken_away :
    (k s a e finished_end : ℕ)
    → s ≤ a
    → a ≤ e
    → e ≤ finished_end
    → pos (k + (finished_end - s)) -ℤ sub_ℕ e a ≡ pos ((k + (a - s)) + (finished_end - e))
unfolding ◌-ℤ◌
taken_away k s a e finished_end after valid within = ground arith

subtract-free :
    (rs : List Range) (k s finished_end : ℕ)
    → s ≤ finished_end
    → IsSeparated s rs
    → subtract finished_end (pos (k + (finished_end - s))) rs
      ≡ pos (k + free s (finished_end - s) (covers rs))
subtract-free [] k s finished_end le h =
    subtract-none finished_end (pos (k + (finished_end - s)))
    ∙ ap (λ n. pos (k + n))
        (sym (free_of_none s (finished_end - s) (covers []) (λ t after before. refl)))
subtract-free (r ∷ rs) k s finished_end le h = elim (Bool-cases (leb finished_end r.0)) [
  | inl past ↦
      rw
        (
          subtract-past r rs finished_end (pos (k + (finished_end - s))) past,
          free_of_none s (finished_end - s) (covers (r ∷ rs)) (λ t after before.
              covers-before (r ∷ rs) r.0 t (omega arith, h.1, h.2)
                (omega (arith, leb→le finished_end r.0 past))),
        )
        refl
  | inr within ↦
      let starts = leb-false finished_end r.0 within in
      let e = min r.1 finished_end in
      rw
        (
          subtract-within r rs finished_end (pos (k + (finished_end - s))) within,
          taken_away k s r.0 e finished_end h.0 (omega (arith, h.1)) (omega arith),
          subtract-free rs (k + (r.0 - s)) e finished_end (omega arith)
              (IsSeparated-lower e (suc r.1) rs (omega arith) h.2),
          free-first r rs s finished_end h starts,
        )
        (ap pos (omega arith))
]

-- Of separated ranges that start no earlier than the segment, the exclusive duration is the number of
-- its milliseconds that none of them covers.
pub exclusive_duration-free :
    (s : Segment) (rs : List Range)
    → IsSeparated s.start rs
    → exclusive_duration s rs ≡ pos (free s.start s.duration (covers rs))
unfolding exclusive_duration
exclusive_duration-free s rs h =
    let total : (s.duration + s.start) - s.start ≡ s.duration = omega arith in
    let left = subtract-free rs 0 s.start (s.duration + s.start) (omega arith) h in
    ap (λ n. subtract (s.duration + s.start) (pos n) rs) (omega arith)
    ∙ left
    ∙ ap (λ n. pos n) (omega (arith, ap (λ n. free s.start n (covers rs)) total))
