-- ===== src/Examples/Times.antt =====
-- Timers and exclusive times at concrete traces.
use monis_agent.Common.{
  ℕ, ◌+◌, ◌-◌, ◌||◌, ◌≡◌, refl, List, [], ◌∷◌, Option, none, some, false, ltb, arith,
}
use monis_agent.Common.Int.{ℤ, pos, sub_ℕ}
use monis_agent.Exclusive
use monis_agent.Exclusive.{Segment, Node, node, nil, cons, process, Range}
use monis_agent.Exclusive.Ranges.{covers, IsSeparated, merge_lem}
use monis_agent.Exclusive.Tree.{IsNested}
use monis_agent.Exclusive.Exclusives.{own_times, process-own_times}
use monis_agent.Timer
use monis_agent.Timer.{HrTime, Clock, State, stopped, Timer, get_duration_in_millis, is_active}
use monis_agent.Timer.Settled.{Call, run, settled}
use monis_agent.Timer.Ended.{TouchDecides, soft_end-touch}

abbrev segment : ℕ → ℕ → ℕ → Segment
segment id start duration = record { id = id; start = start; duration = duration }

-- A root of 10 ms with two children that overlap, the second of which outlives it.
abbrev trace : Node
trace = node (segment 0 0 10) (
    cons (node (segment 1 2 3) nil)
      (cons (node (segment 2 4 9) (cons (node (segment 3 6 2) nil) nil)) nil))

trace-IsNested : IsNested 0 trace
unfolding IsNested
trace-IsNested = (omega arith, ((omega arith, tt), ((omega arith, ((omega arith, tt), tt)), tt)))

process_test : (process trace ([], [])).1 ≡ (3, pos 2) ∷ (2, pos 7) ∷ (1, pos 3) ∷ (0, pos 2) ∷ []
unfolding process monis_agent.Common.Int.◌-ℤ◌
process_test = refl

process-own_times_example : process trace ([], []) ≡ ([], own_times trace)
process-own_times_example = process-own_times 0 trace trace-IsNested

-- A child that starts 2 ms before its parent takes these from the parent's time as well.
early_test :
    (process (node (segment 0 5 10) (cons (node (segment 1 3 4) nil) nil)) ([], [])).1
    ≡ (1, pos 4) ∷ (0, pos 6) ∷ []
unfolding process monis_agent.Common.Int.◌-ℤ◌
early_test = refl

merge_lem_test :
    IsSeparated 1 (Exclusive.merge ((1, 3) ∷ (7, 8) ∷ []) ((2, 5) ∷ []))
    × ((t : ℕ)
        → covers (Exclusive.merge ((1, 3) ∷ (7, 8) ∷ []) ((2, 5) ∷ [])) t
          ≡ (covers ((1, 3) ∷ (7, 8) ∷ []) t || covers ((2, 5) ∷ []) t))
merge_lem_test =
    merge_lem ((1, 3) ∷ (7, 8) ∷ []) ((2, 5) ∷ []) 1
      (omega arith, omega arith, (omega arith, omega arith, tt)) (omega arith, omega arith, tt)

-- A clock that runs a number of nanoseconds after the start.
abbrev clock : ℕ → Clock
clock n = record {
  date_now = n;
  hrtime = record { seconds = 0; nanoseconds = n };
  hrtime_since = λ start. record { seconds = 0; nanoseconds = n - start.nanoseconds };
}

abbrev calls : List Call
calls = Call.begin (clock 5) ∷ Call.touch (clock 8) ∷ Call.soft_end (clock 9) ∷ []

settled_example :
    ((run (Call.end (clock 20) ∷ []) (run calls Timer.new)).state ≡ stopped)
    × ((run (Call.end (clock 20) ∷ []) (run calls Timer.new)).start ≡ (run calls Timer.new).start)
    × ((duration : ℕ) × (get_duration_in_millis (clock 30) (run calls Timer.new) ≡ some duration)
        × (get_duration_in_millis (clock 40) (run (Call.end (clock 20) ∷ []) (run calls Timer.new))
            ≡ some duration))
unfolding run Timer.new Timer.begin Timer.touch Timer.soft_end
settled_example = settled calls (Call.end (clock 20) ∷ []) (clock 30) (clock 40) refl

soft_end-touch_example :
    TouchDecides (clock 8) (clock 9) (clock 30) (run (Call.begin (clock 5) ∷ []) Timer.new)
unfolding run Timer.new Timer.begin is_active
soft_end-touch_example =
    soft_end-touch (Call.begin (clock 5) ∷ []) (clock 8) (clock 9) (clock 30) refl
