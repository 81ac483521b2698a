-- ===== src/Timer/Ended.antt =====
-- How a timer ends: by `end`, by `softEnd`, or by a duration that is set.
use monis_agent.Common.{List, ◌≡◌, refl, true, false, some}
use monis_agent.Timer
use monis_agent.Timer.{
  HrTime, Clock, State, pending, running, stopped, new, HrStart, never, at, Timer, hr_to_millis,
  get_duration_in_millis, soft_end, is_active,
}
use monis_agent.Timer.Settled.{Call, run, IsTimer, by_state, reached-IsTimer}

-- What a touch decides, and what `softEnd` and `end` make of it.
abbrev pub TouchDecides : Clock → Clock → Clock → Timer → Type 0
TouchDecides a b d t =
    (start : HrTime) × ((Timer.touch a t).hrstart ≡ at start)
    × ((soft_end b (Timer.touch a t)).0 ≡ false)
    × (get_duration_in_millis d (soft_end b (Timer.touch a t)).1
        ≡ some (hr_to_millis (a.hrtime_since start)))
    × (get_duration_in_millis d (Timer.end b (Timer.touch a t))
        ≡ some (hr_to_millis (b.hrtime_since start)))

touch-decides : (a b d : Clock) (t : Timer) → IsTimer t → is_active t ≡ true → TouchDecides a b d t
unfolding Timer.touch soft_end Timer.end Timer.begin get_duration_in_millis IsTimer is_active
touch-decides a b d t =
    by_state (λ (t : Timer). IsTimer t → is_active t ≡ true → TouchDecides a b d t) t
      (λ h e. (a.hrtime, refl, refl, rw h.2 refl, rw h.2 refl))
      (λ h e. (h.0.0, h.0.1, refl, rw (h.1, h.0.1) refl, rw (h.1, h.0.1) refl)) (λ h e. cc)

-- On a timer that calls on a new one leave alive, a touch fixes the time that `softEnd` keeps, which
-- then reports no change; `end` measures again.
pub soft_end-touch :
    (cs : List Call) (a b d : Clock)
    → is_active (run cs new) ≡ true
    → TouchDecides a b d (run cs new)
soft_end-touch cs a b d alive = touch-decides a b d (run cs new) (reached-IsTimer cs) alive
