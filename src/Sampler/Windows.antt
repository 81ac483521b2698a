-- ===== src/Sampler/Windows.antt =====
-- The windows of a serverless agent, which the starts of transactions open.
use monis_agent.Common.{
  ℕ, suc, ◌+◌, ◌≤◌, ◌<◌, ◌≡◌, ap, sym, subst, ◌∙◌, ◌⊎◌, inl, inr, List, [], ◌∷◌, some, none, false,
  ◌==◌, ==_iff, Bool-cases, length, arith, if◌then◌else◌,
}
use native.Mathlib.Decide.{dec_lt}
use monis_agent.Sampler
use monis_agent.Sampler.{Number, Sampler, is_over}

-- How transactions that start at `times` divide into windows, after one that opened at `start`: those
-- that start before its end fall in it, and the next one opens a window at its own start.
pub data Divided (period : ℕ) : ℕ → List ℕ → List ℕ → Type 0 where
  over : (start : ℕ) → Divided period start [] []
  within :
      {start t : ℕ} {times windows : List ℕ}
      → t < start + period
      → Divided period start times windows
      → Divided period start (t ∷ times) windows
  after :
      {start t : ℕ} {times windows : List ℕ}
      → start + period ≤ t
      → Divided period t times windows
      → Divided period start (t ∷ times) (t ∷ windows)

-- Each window opens a period or more after the one before.
abbrev pub AreSpaced : ℕ → ℕ → List ℕ → Type 0
AreSpaced period start [] = Unit {0}
AreSpaced period start (next ∷ windows) = (start + period ≤ next) × AreSpaced period next windows

Divided-AreSpaced :
    {period start : ℕ} {times windows : List ℕ}
    → Divided period start times windows
    → AreSpaced period start windows
Divided-AreSpaced (over start) = tt
Divided-AreSpaced (within early d) = Divided-AreSpaced d
Divided-AreSpaced (after late d) = (late, Divided-AreSpaced d)

suc-not_same : (a b : ℕ) → a ≡ suc b → (a == b) ≡ false
suc-not_same a b e = ground arith

module _ (n : Number) where
  -- The times at which the transactions reset the sampler.
  unfoldable pub opened_at : Sampler n → List ℕ → List ℕ
  unfolding Sampler.maybe_update_window
  opened_at s [] = []
  opened_at s (t ∷ times) =
      let s' = Sampler.maybe_update_window n s t in
      let rest = opened_at s' times in if s'.reset_count == s.reset_count then rest else t ∷ rest

  stays :
      (s : Sampler n) (t start : ℕ)
      → s.window_start ≡ some start
      → 0 < start
      → t < start + s.sampling_period
      → Sampler.maybe_update_window n s t ≡ s
  unfolding Sampler.maybe_update_window
  stays s t start opened pos early = ground arith

  moves :
      (s : Sampler n) (t start : ℕ)
      → s.window_start ≡ some start
      → start + s.sampling_period ≤ t
      → ((Sampler.maybe_update_window n s t).window_start ≡ some t)
        × ((Sampler.maybe_update_window n s t).sampling_period ≡ s.sampling_period)
        × ((Sampler.maybe_update_window n s t).reset_count ≡ suc s.reset_count)
  unfolding Sampler.maybe_update_window
  moves s t start opened late = ground arith

  opens :
      (s : Sampler n) (t : ℕ)
      → s.window_start ≡ none
      → ((Sampler.maybe_update_window n s t).window_start ≡ some t)
        × ((Sampler.maybe_update_window n s t).sampling_period ≡ s.sampling_period)
        × ((Sampler.maybe_update_window n s t).reset_count ≡ suc s.reset_count)
  unfolding Sampler.maybe_update_window
  opens s t opened = ground arith

  step-cases :
      (s : Sampler n) (t : ℕ)
      → (Sampler.maybe_update_window n s t ≡ s)
        ⊎ ((Sampler.maybe_update_window n s t).reset_count ≡ suc s.reset_count)
  unfolding Sampler.maybe_update_window
  step-cases s t = elim (Bool-cases (is_over n s.window_start s.sampling_period t)) [
    | inl due ↦ inr (ground (arith, due))
    | inr open_still ↦ inl (ground (arith, open_still))
  ]

  keeps :
      (s : Sampler n) (t : ℕ) (times : List ℕ)
      → Sampler.maybe_update_window n s t ≡ s
      → opened_at s (t ∷ times) ≡ opened_at s times
  unfolding opened_at
  keeps s t times same =
      let rest = opened_at (Sampler.maybe_update_window n s t) times in
      ap (λ b. if b then rest else t ∷ rest) ((==_iff _ _).1 (ap (λ u. u.reset_count) same))
      ∙ ap (λ u. opened_at u times) same

  resets :
      (s : Sampler n) (t : ℕ) (times : List ℕ)
      → (Sampler.maybe_update_window n s t).reset_count ≡ suc s.reset_count
      → opened_at s (t ∷ times) ≡ t ∷ opened_at (Sampler.maybe_update_window n s t) times
  unfolding opened_at
  resets s t times grown =
      let rest = opened_at (Sampler.maybe_update_window n s t) times in
      ap (λ b. if b then rest else t ∷ rest) (suc-not_same _ s.reset_count grown)

  windows-Divided :
      (times : List ℕ) (s : Sampler n) (start : ℕ)
      → s.window_start ≡ some start
      → 0 < start
      → Divided s.sampling_period start times (opened_at s times)
  unfolding opened_at
  windows-Divided [] s start opened pos = over start
  windows-Divided (t ∷ times) s start opened pos = elim (dec_lt t (start + s.sampling_period)) [
    | yes early ↦
        subst (Divided s.sampling_period start (t ∷ times))
          (sym (keeps s t times (stays s t start opened pos early)))
          (within early (windows-Divided times s start opened pos))
    | no late ↦
        let (opened', period', grown) = moves s t start opened (omega arith) in
        let rest =
          windows-Divided times (Sampler.maybe_update_window n s t) t opened' (omega arith) in
        subst (Divided s.sampling_period start (t ∷ times)) (sym (resets s t times grown)) (
          after (omega arith) (
            subst
              (λ period.
                Divided period t times (opened_at (Sampler.maybe_update_window n s t) times))
              period' rest))
  ]

  windows-counted :
      (times : List ℕ) (s : Sampler n)
      → (Sampler.windows n s times).reset_count ≡ s.reset_count + length (opened_at s times)
  unfolding Sampler.windows opened_at
  windows-counted [] s = omega arith
  windows-counted (t ∷ times) s =
      let rest = windows-counted times (Sampler.maybe_update_window n s t) in
      elim (step-cases s t) [
        | inl same ↦
            rest
            ∙ ap (λ u. u.reset_count + length (opened_at u times)) same
            ∙ ap (λ ws. s.reset_count + length ws) (sym (keeps s t times same))
        | inr grown ↦
            subst
              (λ ws.
                (Sampler.windows n (Sampler.maybe_update_window n s t) times).reset_count
                ≡ s.reset_count + length ws)
              (sym (resets s t times grown)) (omega (arith, rest, grown))
      ]

  -- The first transaction that starts, at a positive time, opens a window at its start. From there on
  -- a transaction opens a window exactly if it starts a period or more after the present window
  -- opened; so successive windows open a period or more apart, and the sampler was reset as often.
  pub windows_spaced :
      (s : Sampler n) (first : ℕ) (times : List ℕ)
      → s.window_start ≡ none
      → 0 < first
      → (later : List ℕ) × (opened_at s (first ∷ times) ≡ first ∷ later)
        × Divided s.sampling_period first times later
        × AreSpaced s.sampling_period first later
        × ((Sampler.windows n s (first ∷ times)).reset_count ≡ s.reset_count + 1 + length later)
  windows_spaced s first times unopened pos =
      let s' = Sampler.maybe_update_window n s first in
      let (opened, period', grown) = opens s first unopened in
      let divided : Divided s.sampling_period first times (opened_at s' times) =
        subst (λ period. Divided period first times (opened_at s' times)) period'
          (windows-Divided times s' first opened pos) in
      let all = resets s first times grown in
      let counted = windows-counted (first ∷ times) s in
      (
        opened_at s' times,
        all,
        divided,
        Divided-AreSpaced divided,
        omega (arith, counted ∙ ap (λ ws. s.reset_count + length ws) all),
      )
