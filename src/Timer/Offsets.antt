-- ===== src/Timer/Offsets.antt =====
-- Timers whose start and duration a caller sets.
use monis_agent.Common.{ℕ, ◌≡◌, some}
use monis_agent.Timer.{stopped, Timer, hrstart_of}

-- What the timer is once its duration and start are set.
abbrev HasTimes : ℕ → ℕ → Timer → Type 0
HasTimes duration start t =
    (t.state ≡ stopped)
    × (t.duration_in_millis ≡ some duration)
    × (t.start ≡ some start)
    × (t.hrstart ≡ hrstart_of (some start))
