-- ===== src/Examples/Sampling.antt =====
-- The adaptive sampler over numbers in steps of a half, kept as natural numbers.
use monis_agent.Common.{
  ℕ, ◌+◌, ◌-◌, ◌*◌, ◌/◌, ◌≡◌, refl, List, [], ◌∷◌, length, true, false, leb, min, arith,
}
use monis_agent.Sampler
use monis_agent.Sampler.{Number, IsNumber}
use monis_agent.Sampler.FirstWindow.{first_window}
use monis_agent.Sampler.Windows.{Divided, AreSpaced, opened_at, windows_spaced}

-- `2 * k` halves stand for `k`.
abbrev halves : Number
halves = record {
  Carrier = ℕ;
  of_ℕ = λ k. 2 * k;
  div = λ a b. 2 * a / b;
  sub = λ a b. a - b;
  pow = λ a b. a;
  min = λ a b. min a b;
  ge = λ a b. leb b a;
}

halves-IsNumber : IsNumber halves
halves-IsNumber = record { zero-div = λ k. omega arith; min-zero-one = refl; one-sub-zero = refl }

first_window_example :
    ((Sampler.sample_all halves (Sampler.new halves false 2 60000) (1 ∷ 0 ∷ 1 ∷ [])).1
      ≡ true ∷ true ∷ false ∷ [])
    × ((Sampler.sample_all halves (Sampler.new halves false 2 60000) (1 ∷ 0 ∷ 1 ∷ [])).0.sampled
        ≡ 2)
first_window_example = first_window halves-IsNumber false 2 60000 (1 ∷ 0 ∷ 1 ∷ []) (omega arith) (
  record { ge-zero = refl; lt-one = refl },
  (record { ge-zero = refl; lt-one = refl }, (record { ge-zero = refl; lt-one = refl }, tt)),
)

windows_spaced_example :
    (later : List ℕ) × (opened_at halves
        (Sampler.new halves true 10 60)
        (100 ∷ 130 ∷ 290 ∷ 291 ∷ 350 ∷ [])
      ≡ 100 ∷ later)
    × Divided 60 100 (130 ∷ 290 ∷ 291 ∷ 350 ∷ []) later
    × AreSpaced 60 100 later
    × ((Sampler.windows halves
          (Sampler.new halves true 10 60)
          (100 ∷ 130 ∷ 290 ∷ 291 ∷ 350 ∷ [])).reset_count
        ≡ (Sampler.new halves true 10 60).reset_count + 1 + length later)
unfolding Sampler.new
windows_spaced_example =
    windows_spaced halves (Sampler.new halves true 10 60) 100 (130 ∷ 290 ∷ 291 ∷ 350 ∷ []) refl
      (omega arith)

opened_test :
    opened_at halves (Sampler.new halves true 10 60) (100 ∷ 130 ∷ 290 ∷ 291 ∷ 350 ∷ [])
    ≡ 100 ∷ 290 ∷ 350 ∷ []
unfolding Sampler.new opened_at
opened_test = refl
