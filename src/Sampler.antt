-- ===== src/Sampler.antt =====
-- lib/adaptive-sampler.js. JavaScript's floating-point numbers are the interface `Number`, with the
-- facts about them that the first sampling window rests on. Counts and times are natural numbers. The
-- timer of `setInterval` is the environment's: it calls `reset`.
pub mod FirstWindow
pub mod Windows
use monis_agent.Common.{
  ℕ, zero, suc, ◌+◌, ◌*◌, ◌-◌, ◌≡◌, ◌<◌, List, [], ◌∷◌, Option, none, some, Bool, true, false, ltb,
  leb, ◌==◌, if◌then◌else◌,
}

pub record Number : Type 1 where
  pub Carrier : Type 0
  pub of_ℕ : ℕ → Carrier
  pub div : Carrier → Carrier → Carrier
  pub sub : Carrier → Carrier → Carrier
  pub pow : Carrier → Carrier → Carrier
  pub min : Carrier → Carrier → Carrier
  pub ge : Carrier → Carrier → Bool

-- What IEEE arithmetic gives at 0 and 1.
pub record IsNumber (n : Number) : Type 0 where
  pub zero-div : (k : ℕ) → n.div (n.of_ℕ 0) (n.of_ℕ (suc k)) ≡ n.of_ℕ 0
  pub min-zero-one : n.min (n.of_ℕ 0) (n.of_ℕ 1) ≡ n.of_ℕ 0
  pub one-sub-zero : n.sub (n.of_ℕ 1) (n.of_ℕ 0) ≡ n.of_ℕ 1

module _ (n : Number) where
  open n use {Carrier, of_ℕ, div, sub, pow, min, ge}

  pub record Sampler : Type 0 where
    pub serverless : Bool
    pub seen : ℕ
    pub sampled : ℕ
    pub sampling_period : ℕ
    pub sampling_target : ℕ
    pub max_samples : ℕ
    pub sampling_threshold : Carrier
    pub reset_count : ℕ
    pub window_start : Option ℕ

  -- The constructor; the subscription and the interval timer are the environment's.
  unfoldable pub new : Bool → ℕ → ℕ → Sampler
  new serverless target period = record {
    serverless = serverless;
    seen = 0;
    sampled = 0;
    sampling_period = period;
    sampling_target = target;
    max_samples = 2 * target;
    sampling_threshold = of_ℕ 0;
    reset_count = 0;
    window_start = none;
  }

  unfoldable pub adjust_stats : Sampler → Carrier → Sampler
  adjust_stats s target =
      if s.seen == 0
      then s
      else record s { sampling_threshold = sub (of_ℕ 1) (min (div target (of_ℕ s.seen)) (of_ℕ 1)) }

  unfoldable pub set_sampling_target : Sampler → ℕ → Sampler
  unfolding adjust_stats
  set_sampling_target s target =
      adjust_stats (record s { sampling_target = target; max_samples = 2 * target }) (of_ℕ target)

  unfoldable pub reset : Sampler → Sampler
  unfolding adjust_stats
  reset s =
      record (adjust_stats (record s { reset_count = suc s.reset_count })
        (of_ℕ s.sampling_target)) { seen = 0; sampled = 0 }

  -- `!this._windowStart || timestamp - this._windowStart >= this._samplingPeriod`
  abbrev pub is_over : Option ℕ → ℕ → ℕ → Bool
  is_over none period timestamp = true
  is_over (some start) period timestamp =
      if start == 0 then true else leb (start + period) timestamp

  unfoldable pub maybe_update_window : Sampler → ℕ → Sampler
  unfolding reset
  maybe_update_window s timestamp =
      if is_over s.window_start s.sampling_period timestamp
      then reset (record s { window_start = some timestamp })
      else s

  -- The target to which a full window is adjusted.
  unfoldable pub adjusted_target : Sampler → Carrier
  adjusted_target s =
      if s.reset_count == 0
      then of_ℕ 0
      else (let target = of_ℕ s.sampling_target in
          sub (pow target (div target (of_ℕ s.sampled)))
            (pow target (div target (of_ℕ s.max_samples))))

  unfoldable pub increment_sampled : Sampler → Sampler
  unfolding adjust_stats adjusted_target
  increment_sampled s =
      let s' : Sampler = record s { sampled = suc s.sampled } in
      if leb s.sampling_target s'.sampled then adjust_stats s' (adjusted_target s') else s'

  unfoldable pub should_sample : Sampler → Carrier → Sampler × Bool
  unfolding increment_sampled
  should_sample s roll =
      let s' : Sampler = record s { seen = suc s.seen } in
      if ge roll s.sampling_threshold then (increment_sampled s', true) else (s', false)

  -- Rolls one after the other, with the decisions in order.
  unfoldable pub sample_all : Sampler → List Carrier → Sampler × List Bool
  unfolding should_sample
  sample_all s [] = (s, [])
  sample_all s (r ∷ rolls) =
      let (s₁, taken) = should_sample s r in
      let (s₂, rest) = sample_all s₁ rolls in (s₂, taken ∷ rest)

  -- The starts of transactions one after the other, in a serverless agent.
  unfoldable pub windows : Sampler → List ℕ → Sampler
  unfolding maybe_update_window
  windows s [] = s
  windows s (t ∷ times) = windows (maybe_update_window s t) times
