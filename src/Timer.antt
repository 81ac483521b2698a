-- ===== src/Timer.antt =====
-- lib/timer.js. Milliseconds are numbers of nanoseconds, 10^6 of them for each, so that a pair of
-- `process.hrtime` is exact; a duration that a caller sets is a natural number. What the clock answers
-- during one call is an argument.
pub mod Settled
pub mod Ended
pub mod Offsets
use monis_agent.Common.{
  ℕ, suc, ◌+◌, ◌*◌, ◌/◌, ◌%◌, Bool, true, false, Option, none, some, ltb, if◌then◌else◌, ◌&&◌,
}
use monis_agent.Common.Int.{ℤ, pos, ◌+ℤ◌, ◌*ℤ◌, sub_ℕ}

pub record HrTime : Type 0 where
  pub seconds : ℕ
  pub nanoseconds : ℕ

-- `Date.now()`, `process.hrtime()`, and `process.hrtime(start)` at a given start.
pub record Clock : Type 0 where
  pub date_now : ℕ
  pub hrtime : HrTime
  pub hrtime_since : HrTime → HrTime

pub data State : Type 0 where
  pending : State
  running : State
  stopped : State

-- The numbers of the states, by which the code compares them.
abbrev pub rank : State → ℕ
rank pending = 1
rank running = 2
rank stopped = 3

-- `hrstart` is null before the start; a start that is not given leaves two NaN in it.
pub data HrStart : Type 0 where
  never : HrStart
  at : HrTime → HrStart
  not_numbers : HrStart

pub record Timer : Type 0 where
  pub state : State
  pub touched : Bool
  pub hr_duration : Option HrTime
  pub hrstart : HrStart
  pub start : Option ℕ
  pub duration_in_millis : Option ℕ

abbrev pub nanos_per_second : ℕ
nanos_per_second = 1000000000

unfoldable pub hr_to_millis : HrTime → ℕ
hr_to_millis hr = hr.seconds * nanos_per_second + hr.nanoseconds

unfoldable pub new : Timer
new = record {
  state = pending;
  touched = false;
  hr_duration = none;
  hrstart = never;
  start = none;
  duration_in_millis = none;
}

-- `this.state > other`
abbrev pub past : State → Timer → Bool
past other t = ltb (rank other) (rank t.state)

abbrev is_pending : Timer → Bool
is_pending t = if past pending t then false else true

-- `process.hrtime(this.hrstart)`; it fails without a start.
abbrev pub measured : Clock → HrStart → Option HrTime
measured c never = none
measured c (at start) = some (c.hrtime_since start)
measured c not_numbers = none

unfoldable pub begin : Clock → Timer → Timer
begin c t =
    if past pending t
    then t
    else (record t { start = some c.date_now; hrstart = at c.hrtime; state = running })

abbrev begun : Clock → Timer → Timer
unfolding begin
begun c t = if is_pending t then begin c t else t

unfoldable pub end : Clock → Timer → Timer
unfolding begin
end c t =
    let t1 = begun c t in
    if past running t
    then t
    else (record t1 { hr_duration = measured c t1.hrstart; touched = true; state = stopped })

unfoldable pub touch : Clock → Timer → Timer
unfolding begin
touch c t =
    let t1 = begun c (record t { touched = true }) in
    if past running t
    then (record t { touched = true })
    else (record t1 { hr_duration = measured c t1.hrstart })

-- Whether the end time changed, and the timer afterwards.
unfoldable pub soft_end : Clock → Timer → Bool × Timer
unfolding begin
soft_end c t =
    let t1 = record (begun c t) { state = stopped } in
    if past running t
    then (false, t)
    else (if t1.touched
        then (false, t1)
        else (true, record t1 { hr_duration = measured c t1.hrstart; touched = true }))

unfoldable pub is_running : Timer → Bool
is_running t = elim t.state [ running ↦ true | _ ↦ false ]

unfoldable pub is_active : Timer → Bool
is_active t = ltb (rank t.state) (rank stopped)

unfoldable pub has_end : Timer → Bool
has_end t = elim t.hr_duration [ none ↦ false | some hr ↦ true ]

unfoldable pub overwrite_duration_in_millis : ℕ → Timer → Timer
overwrite_duration_in_millis duration t = record t {
  touched = true;
  duration_in_millis = some duration;
  state = stopped;
}

-- `this.hrstart` for a start that the caller gives, or does not.
unfoldable pub hrstart_of : Option ℕ → HrStart
hrstart_of none = not_numbers
hrstart_of (some start) =
    at (record { seconds = start / nanos_per_second; nanoseconds = start % nanos_per_second })

abbrev given : Option ℕ → Bool
given none = false
given (some start) = true

unfoldable pub set_duration_in_millis : Clock → ℕ → Option ℕ → Timer → Timer
unfolding begin hrstart_of
set_duration_in_millis c duration start t =
    let t1 = if given start then t else begun c t in
    if past running t then t else (record t1 {
      state = stopped;
      duration_in_millis = some duration;
      hrstart = hrstart_of start;
      start = elim start [ none ↦ t1.start | some ms ↦ some ms ];
    })

-- `none` where the clock is asked for the time since no start.
unfoldable pub get_duration_in_millis : Clock → Timer → Option ℕ
unfolding hr_to_millis
get_duration_in_millis c t = elim t.state [
  | pending ↦ some 0
  | _ ↦ elim t.duration_in_millis [
    | some duration ↦ some duration
    | none ↦ elim t.hr_duration [
      | some hr ↦ some (hr_to_millis hr)
      | none ↦ elim (measured c t.hrstart) [ none ↦ none | some hr ↦ some (hr_to_millis hr) ]
    ]
  ]
]

-- A start that is null counts as 0 in a sum.
abbrev pub or_zero : Option ℕ → ℕ
or_zero none = 0
or_zero (some n) = n

unfoldable pub to_range : Clock → Timer → Option (Option ℕ × ℕ)
unfolding get_duration_in_millis
to_range c t = elim (get_duration_in_millis c t) [
  | none ↦ none
  | some duration ↦ some (t.start, or_zero t.start + duration)
]

-- `none` stands for NaN.
unfoldable pub started_relative_to : Timer → Timer → Option ℤ
started_relative_to t other = elim t.hrstart [
  | never ↦ some (sub_ℕ (or_zero t.start) (or_zero other.start))
  | at a ↦ elim other.hrstart [
    | never ↦ some (sub_ℕ (or_zero t.start) (or_zero other.start))
    | at b ↦
        some
          (sub_ℕ a.seconds b.seconds *ℤ pos nanos_per_second +ℤ sub_ℕ a.nanoseconds b.nanoseconds)
    | not_numbers ↦ none
  ]
  | not_numbers ↦ elim other.hrstart [
    | never ↦ some (sub_ℕ (or_zero t.start) (or_zero other.start))
    | _ ↦ none
  ]
]

unfoldable pub ends_after : Clock → Clock → Timer → Timer → Option Bool
unfolding get_duration_in_millis
ends_after c d t other = elim (get_duration_in_millis c t) [
  | none ↦ none
  | some a ↦ elim (get_duration_in_millis d other) [
    | none ↦ none
    | some b ↦ some (ltb (b + or_zero other.start) (a + or_zero t.start))
  ]
]
