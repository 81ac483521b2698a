-- ===== src/Timer/Settled.antt =====
-- Sequences of calls on a timer: its state only advances, and what it measured stays.
use monis_agent.Common.{
  ℕ, ◌≡◌, ◌⊎◌, inl, inr, refl, ap, Bool-cases, Option-cases, ◌∙◌, List, [], ◌∷◌, true, false,
  Option, none, some, arith,
}
use monis_agent.Timer
use monis_agent.Timer.{
  HrTime, Clock, State, rank, pending, running, stopped, HrStart, never, at, not_numbers, Timer,
  new, overwrite_duration_in_millis, get_duration_in_millis, hr_to_millis,
}

-- A call that changes the timer, with what the clock answers during it.
pub data Call : Type 0 where
  begin : Clock → Call
  end : Clock → Call
  touch : Clock → Call
  soft_end : Clock → Call
  set_duration_in_millis : Clock → ℕ → Option ℕ → Call

unfoldable pub step : Call → Timer → Timer
step (begin c) t = Timer.begin c t
step (end c) t = Timer.end c t
step (touch c) t = Timer.touch c t
step (soft_end c) t = (Timer.soft_end c t).1
step (set_duration_in_millis c duration start) t = Timer.set_duration_in_millis c duration start t

unfoldable pub run : List Call → Timer → Timer
unfolding step
run [] t = t
run (c ∷ cs) t = run cs (step c t)

-- What holds of a timer in each of its states.
abbrev Measured : Timer → Type 0
Measured t =
    ((hr : HrTime) × (t.hr_duration ≡ some hr)) ⊎ ((d : ℕ) × (t.duration_in_millis ≡ some d))

abbrev Started : Timer → Type 0
Started t = (start : HrTime) × (t.hrstart ≡ at start)

abbrev InState : State → Timer → Type 0
InState pending t = (t.touched ≡ false) × (t.hr_duration ≡ none) × (t.duration_in_millis ≡ none)
InState running t =
    Started t
    × (t.duration_in_millis ≡ none)
    × ((t.touched ≡ true) → (hr : HrTime) × (t.hr_duration ≡ some hr))
InState stopped t = Measured t

unfoldable pub IsTimer : Timer → Type 0
IsTimer t = InState t.state t

new-IsTimer : IsTimer new
unfolding IsTimer new
new-IsTimer = (refl, refl, refl)

-- To prove a statement on timers, prove it in each state.
pub by_state :
    (P : Timer → Type 0) (t : Timer)
    → P (record t { state = pending })
    → P (record t { state = running })
    → P (record t { state = stopped })
    → P t
by_state P t p r s = elim t.state as (λ s. P (record t { state = s })) [
  | pending ↦ p
  | running ↦ r
  | stopped ↦ s
]

abbrev Kept : Call → Timer → Type 0
Kept c t = IsTimer t → IsTimer (step c t)

soft_ended :
    (c : Clock) (t : Timer)
    → IsTimer (record t { state = running })
    → IsTimer ((Timer.soft_end c (record t { state = running })).1)
unfolding IsTimer Timer.soft_end
soft_ended c t h = elim (Bool-cases t.touched) [
  | inl touched ↦ rw touched (inl (h.2 touched))
  | inr untouched ↦ rw untouched (inl (c.hrtime_since h.0.0, ap (Timer.measured c) h.0.1))
]

step-IsTimer : (c : Call) (t : Timer) → Kept c t
unfolding step IsTimer Timer.begin Timer.end Timer.touch Timer.soft_end Timer.set_duration_in_millis
step-IsTimer (begin c) t =
    by_state (Kept (begin c)) t (λ h. ((c.hrtime, refl), h.2, λ e. ground (arith, h.0))) (λ h. h)
      (λ h. h)
step-IsTimer (end c) t =
    by_state (Kept (end c)) t (λ h. inl (c.hrtime_since c.hrtime, refl))
      (λ h. inl (c.hrtime_since h.0.0, ap (Timer.measured c) h.0.1)) (λ h. h)
step-IsTimer (touch c) t =
    by_state (Kept (touch c)) t (λ h. ((c.hrtime, refl), h.2, λ e. (c.hrtime_since c.hrtime, refl)))
      (λ h. (h.0, h.1, λ e. (c.hrtime_since h.0.0, ap (Timer.measured c) h.0.1))) (λ h. h)
step-IsTimer (soft_end c) t =
    by_state (Kept (soft_end c)) t (λ h. rw (h.0) (inl (c.hrtime_since c.hrtime, refl)))
      (λ h. soft_ended c t h) (λ h. h)
step-IsTimer (set_duration_in_millis c d none) t =
    by_state (Kept (set_duration_in_millis c d none)) t (λ h. inr (d, refl)) (λ h. inr (d, refl))
      (λ h. h)
step-IsTimer (set_duration_in_millis c d (some start)) t =
    by_state (Kept (set_duration_in_millis c d (some start))) t (λ h. inr (d, refl))
      (λ h. inr (d, refl)) (λ h. h)

run-IsTimer : (cs : List Call) (t : Timer) → IsTimer t → IsTimer (run cs t)
unfolding run
run-IsTimer [] t h = h
run-IsTimer (c ∷ cs) t h = run-IsTimer cs (step c t) (step-IsTimer c t h)

-- Every timer that calls make from a new one.
pub reached-IsTimer : (cs : List Call) → IsTimer (run cs new)
reached-IsTimer cs = run-IsTimer cs new new-IsTimer

-- A stopped timer keeps all but the mark that it was touched.
abbrev Same : Timer → Timer → Type 0
Same t u =
    (u.state ≡ stopped)
    × (u.hr_duration ≡ t.hr_duration)
    × (u.duration_in_millis ≡ t.duration_in_millis)
    × (u.start ≡ t.start)

step-Same : (c : Call) (t u : Timer) → Same t u → Same t (step c u)
unfolding step Timer.begin Timer.end Timer.touch Timer.soft_end Timer.set_duration_in_millis
step-Same (begin c) t u =
    by_state (λ (u : Timer). Same t u → Same t (step (begin c) u)) u (λ h. cc) (λ h. cc) (λ h. h)
step-Same (end c) t u =
    by_state (λ (u : Timer). Same t u → Same t (step (end c) u)) u (λ h. cc) (λ h. cc) (λ h. h)
step-Same (touch c) t u =
    by_state (λ (u : Timer). Same t u → Same t (step (touch c) u)) u (λ h. cc) (λ h. cc) (λ h. h)
step-Same (soft_end c) t u =
    by_state (λ (u : Timer). Same t u → Same t (step (soft_end c) u)) u (λ h. cc) (λ h. cc) (λ h. h)
step-Same (set_duration_in_millis c d none) t u =
    by_state (λ (u : Timer). Same t u → Same t (step (set_duration_in_millis c d none) u)) u
      (λ h. cc) (λ h. cc) (λ h. h)
step-Same (set_duration_in_millis c d (some start)) t u =
    by_state (λ (u : Timer). Same t u → Same t (step (set_duration_in_millis c d (some start)) u)) u
      (λ h. cc) (λ h. cc) (λ h. h)

run-Same : (cs : List Call) (t u : Timer) → Same t u → Same t (run cs u)
unfolding run
run-Same [] t u h = h
run-Same (c ∷ cs) t u h = run-Same cs t (step c u) (step-Same c t u h)

-- What a stopped timer reports.
abbrev duration_of : Option ℕ → Option HrTime → Option ℕ
duration_of (some d) hr = some d
duration_of none (some hr) = some (hr_to_millis hr)
duration_of none none = none

stopped-duration :
    (c : Clock) (t : Timer)
    → IsTimer t
    → t.state ≡ stopped
    → (get_duration_in_millis c t ≡ duration_of t.duration_in_millis t.hr_duration)
      × ((duration : ℕ) × (duration_of t.duration_in_millis t.hr_duration ≡ some duration))
unfolding IsTimer get_duration_in_millis
stopped-duration c t =
    by_state
      (λ (t : Timer).
        IsTimer t
        → t.state ≡ stopped
        → (get_duration_in_millis c t ≡ duration_of t.duration_in_millis t.hr_duration)
          × ((duration : ℕ) × (duration_of t.duration_in_millis t.hr_duration ≡ some duration)))
      t (λ h e. cc) (λ h e. cc)
      (λ h e. elim (Option-cases t.duration_in_millis) [
        | inl unset ↦ elim h [
          | inl m ↦ rw (unset, m.1) (refl, (hr_to_millis m.0, refl))
          | inr m ↦ ground (arith, m.1, unset)
        ]
        | inr set ↦ rw set.1 (refl, (set.0, refl))
      ])

-- After any calls on a new timer that leave it stopped, the timer has a duration; whatever is called
-- afterwards, other than overwriting the duration, the timer stays stopped and reports that duration
-- and that start, at any time.
pub settled :
    (before after : List Call) (c d : Clock)
    → (run before new).state ≡ stopped
    → ((run after (run before new)).state ≡ stopped)
      × ((run after (run before new)).start ≡ (run before new).start)
      × ((duration : ℕ) × (get_duration_in_millis c (run before new) ≡ some duration)
          × (get_duration_in_millis d (run after (run before new)) ≡ some duration))
settled before after c d stop =
    let t = run before new in
    let u = run after t in
    let same = run-Same after t t (stop, refl, refl, refl) in
    let first = stopped-duration c t (reached-IsTimer before) stop in
    let second = stopped-duration d u (run-IsTimer after t (reached-IsTimer before)) same.0 in
    (same.0, same.3, (first.1.0, first.0 ∙ first.1.1, second.0 ∙ rw (same.1, same.2) first.1.1))
