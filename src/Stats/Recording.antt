-- ===== src/Stats/Recording.antt =====
-- What a summary says of the measurements recorded in it.
use monis_agent.Common.{ℕ, ◌+◌, ◌≤◌, ◌<◌, ◌≡◌, refl, ◌⊎◌, List, [], ◌∷◌, Option, length, arith}
use monis_agent.Stats
use monis_agent.Stats.{Arithmetic, Stats, or_else}

abbrev pub Measurement : Type 0
Measurement = Option ℕ × Option ℕ

-- What a measurement counts as, in total and exclusively.
abbrev pub value : Measurement → ℕ
value m = or_else m.0 0

abbrev pub exclusive : Measurement → ℕ
exclusive m = or_else m.1 (value m)

abbrev pub All : (ℕ → Type 0) → List Measurement → Type 0
All P [] = Unit
All P (m ∷ ms) = P (value m) × All P ms

abbrev pub Any : (ℕ → Type 0) → List Measurement → Type 0
Any P [] = ⊥
Any P (m ∷ ms) = P (value m) ⊎ Any P ms

-- The extremes of a summary that was not empty bound the earlier ones and every new measurement.
pub record Bounds (s s' : Stats) (ms : List Measurement) : Type 0 where
  pub min_before : 0 < s.call_count → s'.min_value ≤ s.min_value
  pub max_before : s.max_value ≤ s'.max_value
  pub min-le : All (λ v. s'.min_value ≤ v) ms
  pub le-max : All (λ v. v ≤ s'.max_value) ms
  pub min_attained :
      0 < s'.call_count
      → (0 < s.call_count × (s'.min_value ≡ s.min_value)) ⊎ Any (λ v. s'.min_value ≡ v) ms
  pub max_attained : (s'.max_value ≡ s.max_value) ⊎ Any (λ v. s'.max_value ≡ v) ms

Bounds-refl : (s : Stats) → Bounds s s []
Bounds-refl s = ground arith

Bounds-cons :
    (s t u : Stats) (m : Measurement) (ms : List Measurement)
    → 0 < t.call_count
    → Bounds s t (m ∷ [])
    → Bounds t u ms
    → Bounds s u (m ∷ ms)
Bounds-cons s t u m ms counted b c = record {
  min_before = λ h. omega (arith, b.min_before h, c.min_before counted);
  max_before = omega (arith, b.max_before, c.max_before);
  min-le = (omega (arith, b.min-le.0, c.min_before counted), c.min-le);
  le-max = (omega (arith, b.le-max.0, c.max_before), c.le-max);
  min_attained = λ h. ground (arith, b.min_attained counted, c.min_attained h);
  max_attained = ground (arith, b.max_attained, c.max_attained);
}

module _ ⦃F : Arithmetic⦄ where
  -- The values of the measurements added to a sum, one after the other.
  abbrev pub sum : (Measurement → ℕ) → ℕ → List Measurement → ℕ
  sum f start [] = start
  sum f start (m ∷ ms) = sum f (F.add start (f m)) ms

  -- The counts and sums.
  pub record Sums (s s' : Stats) (ms : List Measurement) : Type 0 where
    pub call_count : s'.call_count ≡ s.call_count + length ms
    pub total : s'.total ≡ sum value s.total ms
    pub total_exclusive : s'.total_exclusive ≡ sum exclusive s.total_exclusive ms
    pub sum_of_squares : s'.sum_of_squares ≡ sum (λ m. F.square (value m)) s.sum_of_squares ms

  pub record_all-Sums : (ms : List Measurement) (s : Stats) → Sums s (Stats.record_all s ms) ms
  unfolding Stats.record_all
  record_all-Sums [] s = record {
    call_count = omega arith;
    total = refl;
    total_exclusive = refl;
    sum_of_squares = refl;
  }
  record_all-Sums (m ∷ ms) s =
      let next = record_all-Sums ms (Stats.record_value s m.0 m.1) in
      record {
        call_count = omega (arith, next.call_count);
        total = next.total;
        total_exclusive = next.total_exclusive;
        sum_of_squares = next.sum_of_squares;
      }

  record_value-Bounds :
      (s : Stats) (m : Measurement) → Bounds s (Stats.record_value s m.0 m.1) (m ∷ [])
  unfolding Stats.record_value
  record_value-Bounds s m = ground arith

  call_count_pos : (s : Stats) (x e : Option ℕ) → 0 < (Stats.record_value s x e).call_count
  unfolding Stats.record_value
  call_count_pos s x e = omega arith

  record_all-Bounds : (ms : List Measurement) (s : Stats) → Bounds s (Stats.record_all s ms) ms
  unfolding Stats.record_all
  record_all-Bounds [] s = Bounds-refl s
  record_all-Bounds (m ∷ ms) s =
      Bounds-cons s (Stats.record_value s m.0 m.1)
        (Stats.record_all (Stats.record_value s m.0 m.1) ms) m ms (call_count_pos s m.0 m.1)
        (record_value-Bounds s m) (record_all-Bounds ms (Stats.record_value s m.0 m.1))

  -- Recording measurements in any summary adds their number to its count, and their values, one after
  -- the other, to its sums; its maximum is then
  -- the greatest of the old one and theirs, and its minimum the least of theirs and, if the summary
  -- was not empty, the old one.
  pub record_all_lem :
      (s : Stats) (ms : List Measurement)
      → Sums s (Stats.record_all s ms) ms × Bounds s (Stats.record_all s ms) ms
  record_all_lem s ms = (record_all-Sums ms s, record_all-Bounds ms s)
