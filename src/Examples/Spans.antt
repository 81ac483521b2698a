-- ===== src/Examples/Spans.antt =====
-- A streamer of spans at concrete inputs.
use monis_agent.Common.{
  ℕ, ◌+◌, ◌≡◌, refl, List, [], ◌∷◌, ◌++◌, map, Option, none, some, Bool, true, ltb, ◌==◌,
  if◌then◌else◌,
}
use monis_agent.Streamer
use monis_agent.Streamer.{Streamer, new}
use monis_agent.SpanStreamer
use monis_agent.SpanStreamer.Loop.{IsFlowing}
use monis_agent.SpanStreamer.Flow.{
  Event, writes, connects, disconnects, drains, run, step, run-new-IsFlowing,
}
use monis_agent.SpanStreamer.Order.{answer, kept, run-new-contents}

abbrev format : ℕ → ℕ
format n = n + 100

-- The stream refuses every second write.
abbrev accepts : ℕ → Bool
accepts n = ltb (n + n) 3

abbrev events : List (Event format (answer format accepts))
events =
    writes 1 7
    ∷ writes 2 8
    ∷ writes 3 9
    ∷ connects 4
    ∷ writes 5 10
    ∷ drains 6
    ∷ writes 7 11
    ∷ disconnects
    ∷ writes 8 12
    ∷ []

-- The second write throws, and every other is accepted.
abbrev throwing : ℕ → Option Bool
throwing n = if n == 1 then none else some true

abbrev more_events : List (Event format throwing)
more_events = writes 1 7 ∷ writes 2 8 ∷ connects 3 ∷ writes 4 9 ∷ disconnects ∷ writes 5 10 ∷ []

run-new-IsFlowing_example : IsFlowing (run format throwing more_events (new 2))
run-new-IsFlowing_example = run-new-IsFlowing format throwing 2 more_events

-- The span of the queue whose write throws is lost.
lost_test : (run format throwing more_events (new 2)).failed ≡ 1
unfolding run step new Streamer.base_write Streamer.add_to_queue Streamer.send
    Streamer.connect_stream Streamer.on_disconnected Streamer.on_drain Streamer.drain_each
    Streamer.drain SpanStreamer.write SpanStreamer.send_queue SpanStreamer.send_spans
    SpanStreamer.on_connected SpanStreamer.on_drained
lost_test = refl

-- After a throw in the sending of the queue the next span overtakes what is left of it.
overtaking_test :
    ((run format throwing
        (writes 1 7 ∷ writes 2 8 ∷ writes 3 9 ∷ connects 4 ∷ writes 5 10 ∷ [])
        (new 3)).written
      ≡ 107 ∷ 108 ∷ 110 ∷ [])
    × ((run format throwing
          (writes 1 7 ∷ writes 2 8 ∷ writes 3 9 ∷ connects 4 ∷ writes 5 10 ∷ [])
          (new 3)).spans
        ≡ 9 ∷ [])
unfolding run step new Streamer.base_write Streamer.add_to_queue Streamer.send
    Streamer.connect_stream Streamer.on_disconnected Streamer.on_drain Streamer.drain_each
    Streamer.drain SpanStreamer.write SpanStreamer.send_queue SpanStreamer.send_spans
    SpanStreamer.on_connected SpanStreamer.on_drained
overtaking_test = (refl, refl)

run-new-contents_example :
    (run format (answer format accepts) events (new 2)).written
      ++ map format (run format (answer format accepts) events (new 2)).spans
    ≡ map format (kept format accepts events (new 2))
run-new-contents_example = run-new-contents format accepts 2 events

kept_test : kept format accepts events (new 2) ≡ 7 ∷ 8 ∷ 10 ∷ 11 ∷ 12 ∷ []
unfolding kept step new Streamer.base_write Streamer.add_to_queue Streamer.send
    Streamer.connect_stream Streamer.on_disconnected Streamer.on_drain Streamer.drain_each
    Streamer.drain SpanStreamer.write SpanStreamer.send_queue SpanStreamer.send_spans
    SpanStreamer.on_connected SpanStreamer.on_drained
kept_test = refl
