-- ===== src/Examples/Streaming.antt =====
-- A connection for spans at concrete inputs.
use monis_agent.Common.{ℕ, suc, ◌≡◌, ◌≢◌, refl, [], ◌∷◌, ◌++◌, some, true}
use monis_agent.Grpc.{
  disconnected, connected, unimplemented, failed, Connection, new, connect_spans, disconnect,
  on_status, set_state, create_client, open_stream, ensure_client, settle, connect_in,
}
use monis_agent.Grpc.Streams.{Reach, connects, reacts, ends, reached-IsSettled}
use monis_agent.Grpc.Settled.{IsSettled}
use monis_agent.Grpc.Streams
use monis_agent.Grpc.Pending
use monis_agent.Grpc.Pending.{Reacts}
use monis_agent.Grpc.Reconnecting.{
  unimplemented-final, opens, delay_after, status-reconnects, disconnect-reconnects,
}

abbrev start : Connection
unfolding new set_state
start = new true (some 50)

abbrev first : Connection
unfolding connect_spans connect_in
first = connect_spans opens (new true (some 50))

-- The first stream fails.
abbrev failure : Connection
unfolding on_status
failure = on_status (failed 14) first

observed_test : first.observed ≡ 0 ∷ []
unfolding first set_state create_client open_stream ensure_client settle new
observed_test = refl

reached-IsSettled_example : IsSettled failure
unfolding first failure
reached-IsSettled_example = reached-IsSettled true (some 50) failure (
    Streams.next (Streams.next Streams.here (connects (new true (some 50)) opens))
      (reacts (ends first 0 [] [] (failed 14) observed_test)))

unimplemented-final_example :
    ((on_status unimplemented first).state ≡ disconnected)
    × ((on_status unimplemented first).opened ≡ first.opened)
    × ((on_status unimplemented first).timers ≡ [])
    × ((on_status unimplemented first).observed ≡ [])
unfolding first
unimplemented-final_example =
    unimplemented-final true (some 50) opens first (on_status unimplemented first) 0 [] []
      Pending.here observed_test Pending.here

other : (code : ℕ) → failed code ≢ unimplemented
other code e = cc

status-reconnects_example :
    (failure.state ≡ disconnected)
    × (failure.timers ≡ first.timers ++ delay_after (failed 14) first ∷ [])
    × ((connect_spans opens (record failure { timers = first.timers })).state ≡ connected)
    × ((connect_spans opens (record failure { timers = first.timers })).stream ≡ some first.opened)
    × ((connect_spans opens (record failure { timers = first.timers })).opened ≡ suc first.opened)
unfolding failure
status-reconnects_example = status-reconnects (failed 14) first (other 14)

disconnect-reconnects_example :
    ((disconnect failure).state ≡ disconnected)
    × ((disconnect failure).timers ≡ first.timers ++ delay_after (failed 14) first ∷ [])
    × ((connect_spans opens (record (disconnect failure) { timers = first.timers })).state
        ≡ connected)
    × ((connect_spans opens (record (disconnect failure) { timers = first.timers })).stream
        ≡ some first.opened)
unfolding failure
disconnect-reconnects_example = disconnect-reconnects (failed 14) first (other 14)
