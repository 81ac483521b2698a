-- ===== src/Sampler/FirstWindow.antt =====
-- The first window: exactly the first transactions are sampled, up to the target.
use monis_agent.Common.{
  ℕ, suc, ◌+◌, ◌-◌, ◌≤◌, ◌<◌, min, replicate, lt→ltb, not_lt→ltb, ◌≡◌, refl, ap, ◌∙◌, List, [], ◌∷◌,
  ◌++◌, Bool, true, false, ltb, length, arith,
}
use monis_agent.Sampler
use native.Mathlib.Nat.{add-zero}
use native.Mathlib.Decide.{dec_lt}
use monis_agent.Sampler.{Number, IsNumber, Sampler}

module _ {n : Number} (laws : IsNumber n) where
  open n use {Carrier, of_ℕ, ge}

  -- A roll in [0, 1).
  pub record IsRoll (r : Carrier) : Type 0 where
    pub ge-zero : ge r (of_ℕ 0) ≡ true
    pub lt-one : ge r (of_ℕ 1) ≡ false

  abbrev pub AllRolls : List Carrier → Type 0
  AllRolls [] = Unit {0}
  AllRolls (r ∷ rolls) = IsRoll r × AllRolls rolls

  -- The sampler in its first window after `k` rolls: the threshold is 0 while the target is not
  -- reached, and 1 from then on.
  pub record InFirstWindow (s : Sampler n) (k : ℕ) : Type 0 where
    pub not_reset : s.reset_count ≡ 0
    pub has_target : 0 < s.sampling_target
    pub seen_all : s.seen ≡ k
    pub sampled_first : s.sampled ≡ min k s.sampling_target
    pub open_below : k < s.sampling_target → s.sampling_threshold ≡ of_ℕ 0
    pub closed_from : s.sampling_target ≤ k → s.sampling_threshold ≡ of_ℕ 1

  pub new-InFirstWindow :
      (serverless : Bool) (target period : ℕ)
      → 0 < target
      → InFirstWindow (Sampler.new n serverless target period) 0
  unfolding Sampler.new
  new-InFirstWindow serverless target period pos = ground arith

  module _ (s : Sampler n) (k : ℕ) (r : Carrier) (roll : IsRoll r) (w : InFirstWindow s k) where
    abbrev Steps : Type 0
    Steps =
        InFirstWindow (Sampler.should_sample n s r).0 (suc k)
        × ((Sampler.should_sample n s r).0.sampling_target ≡ s.sampling_target)
        × ((Sampler.should_sample n s r).1 ≡ ltb k s.sampling_target)

    step_below : suc k < s.sampling_target → Steps
    unfolding Sampler.should_sample
    step_below h = ground (arith, w.open_below (omega arith), roll.ge-zero)

    step_reaches : suc k ≡ s.sampling_target → Steps
    unfolding Sampler.should_sample
    step_reaches h = ground (
      arith,
      w.open_below (omega arith),
      roll.ge-zero,
      laws.zero-div k,
      laws.min-zero-one,
      laws.one-sub-zero,
    )

    step_beyond : s.sampling_target ≤ k → Steps
    unfolding Sampler.should_sample
    step_beyond h = ground (arith, w.closed_from h, roll.lt-one)

  should_sample-InFirstWindow :
      (s : Sampler n) (k : ℕ) (r : Carrier) (roll : IsRoll r) (w : InFirstWindow s k)
      → Steps s k r roll w
  should_sample-InFirstWindow s k r roll w = elim (dec_lt k s.sampling_target) [
    | no full ↦ step_beyond s k r roll w (omega arith)
    | yes room ↦ elim (dec_lt (suc k) s.sampling_target) [
      | yes more ↦ step_below s k r roll w more
      | no last ↦ step_reaches s k r roll w (omega arith)
    ]
  ]

  -- The decisions of a window of which `room` places are left: so many are taken, the rest not.
  abbrev pub first_taken : ℕ → List Carrier → List Bool
  first_taken room rolls =
      replicate (min (length rolls) room) true ++ replicate (length rolls - room) false

  first_taken-cons :
      (k target : ℕ) (r : Carrier) (rolls : List Carrier)
      → ltb k target ∷ first_taken (target - suc k) rolls ≡ first_taken (target - k) (r ∷ rolls)
  first_taken-cons k target r rolls = elim (dec_lt k target) [
    | yes room ↦ rw (lt→ltb k target room) (
        let a : min (suc (length rolls)) (target - k) ≡ suc (min (length rolls) (target - suc k)) =
          omega arith in
        let b : suc (length rolls) - (target - k) ≡ length rolls - (target - suc k) = omega arith in
        rw (a, b))
    | no full ↦ rw (not_lt→ltb k target full) (
        let a : target - k ≡ 0 = omega arith in
        let b : target - suc k ≡ 0 = omega arith in
        let c : min (length rolls) 0 ≡ 0 = omega arith in
        let d : min (suc (length rolls)) 0 ≡ 0 = omega arith in
        let e : length rolls - 0 ≡ length rolls = omega arith in
        let f : suc (length rolls) - 0 ≡ suc (length rolls) = omega arith in rw (a, b, c, d, e, f))
  ]

  sample_all-InFirstWindow :
      (rolls : List Carrier) (s : Sampler n) (k : ℕ)
      → AllRolls rolls
      → InFirstWindow s k
      → InFirstWindow (Sampler.sample_all n s rolls).0 (k + length rolls)
        × ((Sampler.sample_all n s rolls).0.sampling_target ≡ s.sampling_target)
        × ((Sampler.sample_all n s rolls).1 ≡ first_taken (s.sampling_target - k) rolls)
  unfolding Sampler.sample_all
  sample_all-InFirstWindow [] s k _ w =
      let m = s.sampling_target - k in
      let a : min 0 m ≡ 0 = omega arith in
      let b : 0 - m ≡ 0 = omega arith in (rw add-zero w, refl, rw (a, b))
  sample_all-InFirstWindow (r ∷ rolls) s k (roll, more) w =
      let (w₁, target₁, taken) = should_sample-InFirstWindow s k r roll w in
      let (w₂, target₂, rest) =
        sample_all-InFirstWindow rolls (Sampler.should_sample n s r).0 (suc k) more w₁ in
      (
        (let e : k + suc (length rolls) ≡ suc k + length rolls = omega arith in rw e w₂),
        target₂ ∙ target₁,
        (λ i. taken i ∷ (rest ∙ ap (λ t. first_taken (t - suc k) rolls) target₁) i)
            ∙ first_taken-cons k s.sampling_target r rolls,
      )

  -- In the first window of a sampler with a positive target, exactly the first transactions are
  -- sampled, as many as the target, whatever rolls in [0, 1) they draw, and no later one.
  pub first_window :
      (serverless : Bool) (target period : ℕ) (rolls : List Carrier)
      → 0 < target
      → AllRolls rolls
      → ((Sampler.sample_all n (Sampler.new n serverless target period) rolls).1
          ≡ first_taken target rolls)
        × ((Sampler.sample_all n (Sampler.new n serverless target period) rolls).0.sampled
            ≡ min (length rolls) target)
  unfolding Sampler.new
  first_window serverless target period rolls pos drawn =
      let (w, same, taken) =
        sample_all-InFirstWindow rolls (Sampler.new n serverless target period) 0 drawn
          (new-InFirstWindow serverless target period pos) in
      let e : target - 0 ≡ target = omega arith in
      (taken ∙ ap (λ t. first_taken t rolls) e, omega (arith, w.sampled_first, same))
