-- ===== src/Grpc/Reconnecting.antt =====
-- When a connection opens a stream again.
use monis_agent.Common.{
  ℕ, suc, ◌≡◌, ◌≢◌, refl, ap, sym, ◌∙◌, subst, List, [], ◌∷◌, ◌++◌, Option, none, some, Bool, true,
  false, arith, either,
}
use monis_agent.Grpc.{
  State, disconnected, connecting, connected, Status, ok, unimplemented, failed, Attempt,
  Connection, set_state, new, end_stream, drop_stream, disconnect, disconnect_in, create_client,
  open_stream, ensure_client, settle, connect_in, connect_spans, reconnect, on_status,
}
use monis_agent.Grpc.Streams.{React, disconnects, ends, fails, fires}
use monis_agent.Grpc.Settled.{AreStreams}
use monis_agent.Grpc.Pending.{
  Reacts, here, next, not_within, end_stream-opened, end_stream-timers, observed-empty,
  Reacts-IsSingle, first-IsSingle,
}

-- A connection that will not open a stream.
abbrev IsOver : ℕ → Connection → Type 0
IsOver n c = (c.state ≡ disconnected) × (c.opened ≡ n) × (c.timers ≡ []) × (c.observed ≡ [])

disconnect_in_over :
    (state : State) (c : Connection) → state ≡ disconnected → disconnect_in state c ≡ c
unfolding disconnect_in
disconnect_in_over disconnected c e = refl
disconnect_in_over connecting c e = cc
disconnect_in_over connected c e = cc

React-IsOver : {c d : Connection} (n : ℕ) → React c d → IsOver n c → IsOver n d
unfolding disconnect
React-IsOver n (disconnects c) h = subst (IsOver n) (sym (disconnect_in_over c.state c h.0)) h
React-IsOver n (ends c s before after status e) h = absurd (not_within s before after (sym h.3 ∙ e))
React-IsOver n (fails c s before after e) h = absurd (not_within s before after (sym h.3 ∙ e))
React-IsOver n (fires c before after delay attempt e) h =
    absurd (not_within delay before after (sym h.2 ∙ e))

Reacts-IsOver : {c d : Connection} (n : ℕ) → Reacts c d → IsOver n c → IsOver n d
Reacts-IsOver n here h = h
Reacts-IsOver n (next r x) h = React-IsOver n x (Reacts-IsOver n r h)

dropped-IsOver :
    (c : Connection) (o : Option ℕ)
    → AreStreams o c.opened c.observed c.ended
    → c.timers ≡ []
    → IsOver c.opened (set_state disconnected none (end_stream c o))
unfolding set_state end_stream
dropped-IsOver c none h e = (refl, refl, e, h.0)
dropped-IsOver c (some s) h e = (refl, refl, e, rw h.1 (ground arith))

-- On a connection on which `connectSpans` was called once, from the outside, the status UNIMPLEMENTED
-- of an observed stream is final: whatever happens afterwards but another such call, the connection
-- stays disconnected, opens no stream and has no timer that could.
pub unimplemented-final :
    (compression : Bool) (delay : Option ℕ) (attempt : Attempt) (c d : Connection) (s : ℕ)
    (before after : List ℕ)
    → Reacts (connect_spans attempt (new compression delay)) c
    → c.observed ≡ before ++ s ∷ after
    → Reacts (on_status unimplemented c) d
    → (d.state ≡ disconnected) × (d.opened ≡ c.opened) × (d.timers ≡ []) × (d.observed ≡ [])
unfolding on_status drop_stream
unimplemented-final compression delay attempt c d s before after r e q =
    let single = Reacts-IsSingle r (first-IsSingle compression delay attempt) in
    Reacts-IsOver c.opened q
      (dropped-IsOver _ c.stream single.0.streams (observed-empty c s before after single e))

-- Every part of an attempt succeeds.
abbrev pub opens : Attempt
opens = record { loads = true; creates = true; calls = true }

abbrev IsOpening : ℕ → Bool × Connection → Type 0
IsOpening n r = (r.0 ≡ true) × (r.1.opened ≡ n)

opens-connected :
    (n : ℕ) (r : Bool × Connection)
    → IsOpening n r
    → ((settle n (open_stream opens r)).state ≡ connected)
      × ((settle n (open_stream opens r)).stream ≡ some n)
      × ((settle n (open_stream opens r)).opened ≡ suc n)
unfolding settle open_stream set_state
opens-connected n (false, c) h = cc
opens-connected n (true, c) h = (refl, refl, ap suc h.1)

create_client-opens : (c : Connection) → IsOpening c.opened (create_client opens c)
unfolding create_client
create_client-opens c = (
  refl,
  either (λ d. d.opened ≡ c.opened) c.compression
      {x = record c { compression_enabled = suc c.compression_enabled }}
      {y = record c { compression_disabled = suc c.compression_disabled }} (λ e. refl) (λ e. refl),
)

connect_in-opens :
    (state : State) (c : Connection)
    → state ≡ disconnected
    → ((connect_in state opens c).state ≡ connected)
      × ((connect_in state opens c).stream ≡ some c.opened)
      × ((connect_in state opens c).opened ≡ suc c.opened)
unfolding connect_in ensure_client set_state
connect_in-opens disconnected c e = opens-connected c.opened _ (
    either (IsOpening c.opened) c.has_client (λ h. (refl, refl))
      (λ h. create_client-opens (set_state connecting none c)))
connect_in-opens connecting c e = cc
connect_in-opens connected c e = cc

-- How long the connection waits after a status.
abbrev pub delay_after : Status → Connection → ℕ
delay_after ok c = 0
delay_after unimplemented c = 0
delay_after (failed code) c = c.reconnect_delay

on_status-schedules :
    (status : Status) (c : Connection)
    → status ≢ unimplemented
    → ((on_status status c).state ≡ disconnected)
      × ((on_status status c).timers ≡ c.timers ++ delay_after status c ∷ [])
      × ((on_status status c).opened ≡ c.opened)
unfolding on_status reconnect drop_stream set_state
on_status-schedules ok c h =
    (refl, ap (λ ts. ts ++ 0 ∷ []) (end_stream-timers c c.stream), end_stream-opened c c.stream)
on_status-schedules unimplemented c h = absurd (h refl)
on_status-schedules (failed code) c h = (
  refl,
  ap (λ ts. ts ++ c.reconnect_delay ∷ []) (end_stream-timers _ c.stream),
  end_stream-opened _ c.stream,
)

-- After any status but UNIMPLEMENTED, the connection is disconnected and a timer is pending, of no
-- delay after OK and of the delay for reconnecting otherwise; when it fires and the package opens a
-- stream, the connection is connected to a new stream.
pub status-reconnects :
    (status : Status) (c : Connection)
    → status ≢ unimplemented
    → let ended = on_status status c in
      let again = connect_spans opens (record ended { timers = c.timers }) in
      (ended.state ≡ disconnected)
      × (ended.timers ≡ c.timers ++ delay_after status c ∷ [])
      × (again.state ≡ connected)
      × (again.stream ≡ some c.opened)
      × (again.opened ≡ suc c.opened)
unfolding connect_spans
status-reconnects status c h =
    let scheduled = on_status-schedules status c h in
    let again =
      connect_in-opens (on_status status c).state
        (record (on_status status c) { timers = c.timers }) scheduled.0 in
    (scheduled.0, scheduled.1, again.0, again.1 ∙ ap some scheduled.2, again.2 ∙ ap suc scheduled.2)

-- A call of `disconnect` while a timer for reconnecting is pending does not stop that timer: the
-- connection is disconnected, and when the timer fires and the package opens a stream, it is
-- connected again.
pub disconnect-reconnects :
    (status : Status) (c : Connection)
    → status ≢ unimplemented
    → let stopped = disconnect (on_status status c) in
      let again = connect_spans opens (record stopped { timers = c.timers }) in
      (stopped.state ≡ disconnected)
      × (stopped.timers ≡ c.timers ++ delay_after status c ∷ [])
      × (again.state ≡ connected)
      × (again.stream ≡ some c.opened)
unfolding disconnect
disconnect-reconnects status c h =
    let scheduled = on_status-schedules status c h in
    let again = status-reconnects status c h in
    rw (disconnect_in_over (on_status status c).state (on_status status c) scheduled.0)
      (again.0, again.1, again.2, again.3)
