-- ===== src/Grpc/Streams.antt =====
-- The streams of a connection over its life.
use monis_agent.Common.{ℕ, suc, ◌≡◌, refl, subst, List, [], ◌∷◌, ◌++◌, Option, none, some, Bool}
use monis_agent.Grpc.{
  State, disconnected, connecting, connected, Status, ok, unimplemented, failed, Attempt,
  Connection, set_state, new, drop_stream, disconnect, connect_in, connect_spans, disconnect_in,
  reconnect, on_status, on_error,
}
use monis_agent.Grpc.Settled.{
  IsSettled, AreStreams, Matches, IsReady, drop_stream-IsSettled, ensure_client-IsReady,
  settle-IsSettled,
}

-- What happens to a connection besides calls of `connectSpans`: a call of `disconnect`, a status or an
-- error of an observed stream, or a timer that fires.
pub data React : Connection → Connection → Type 0 where
  disconnects : (c : Connection) → React c (disconnect c)
  ends :
      (c : Connection) (s : ℕ) (before after : List ℕ) (status : Status)
      → c.observed ≡ before ++ s ∷ after
      → React c (on_status status c)
  fails :
      (c : Connection) (s : ℕ) (before after : List ℕ)
      → c.observed ≡ before ++ s ∷ after
      → React c (on_error c)
  fires :
      (c : Connection) (before after : List ℕ) (delay : ℕ) (attempt : Attempt)
      → c.timers ≡ before ++ delay ∷ after
      → React c (connect_spans attempt (record c { timers = before ++ after }))

pub data Step : Connection → Connection → Type 0 where
  connects : (c : Connection) (attempt : Attempt) → Step c (connect_spans attempt c)
  reacts : {c d : Connection} → React c d → Step c d

pub data Reach (c : Connection) : Connection → Type 0 where
  here : Reach c c
  next : {d e : Connection} → Reach c d → Step d e → Reach c e

Matches-none : (state : State) (o : Option ℕ) → Matches state o → state ≡ disconnected → o ≡ none
Matches-none disconnected none h e = refl
Matches-none disconnected (some s) h e = absurd h
Matches-none connecting o h e = cc
Matches-none connected o h e = cc

-- A disconnected connection that is settled is ready.
settled-IsReady :
    (c : Connection)
    → c.state ≡ disconnected
    → IsSettled c
    → IsReady c.opened (set_state connecting none c)
unfolding set_state
settled-IsReady c e h =
    let no_stream = Matches-none c.state c.stream h.state_matches e in
    let streams : AreStreams none c.opened c.observed c.ended =
      subst (λ o. AreStreams o c.opened c.observed c.ended) no_stream h.streams in
    record {
      no_stream = no_stream;
      same_opened = refl;
      unobserved = streams.0;
      all_ended = streams.1;
      client = h.one_client;
    }

pub connect_in-IsSettled :
    (state : State) (attempt : Attempt) (c : Connection)
    → c.state ≡ state
    → IsSettled c
    → IsSettled (connect_in state attempt c)
unfolding connect_in
connect_in-IsSettled disconnected attempt c e h =
    settle-IsSettled c.opened attempt _
      (ensure_client-IsReady c.opened attempt _ (settled-IsReady c e h))
connect_in-IsSettled connecting attempt c e h = h
connect_in-IsSettled connected attempt c e h = h

disconnect_in-IsSettled :
    (state : State) (c : Connection) → IsSettled c → IsSettled (disconnect_in state c)
unfolding disconnect_in
disconnect_in-IsSettled disconnected c h = h
disconnect_in-IsSettled connecting c h = drop_stream-IsSettled c h.streams h.one_client
disconnect_in-IsSettled connected c h = drop_stream-IsSettled c h.streams h.one_client

-- The fields besides those of the streams and of the client may change.
kept-IsSettled :
    (c : Connection) (timers codes : List ℕ) (unimplemented_count errors : ℕ)
    → IsSettled c
    → IsSettled (record c {
      timers = timers;
      status_codes = codes;
      unimplemented_count = unimplemented_count;
      errors = errors;
    })
kept-IsSettled c timers codes u e h = record {
  state_matches = h.state_matches;
  streams = h.streams;
  one_client = h.one_client;
}

reconnect-IsSettled : (delay : ℕ) (c : Connection) → IsSettled c → IsSettled (reconnect delay c)
unfolding reconnect
reconnect-IsSettled delay c h =
    kept-IsSettled (drop_stream c) _ _ _ _ (drop_stream-IsSettled c h.streams h.one_client)

on_status-IsSettled :
    (status : Status) (c : Connection) → IsSettled c → IsSettled (on_status status c)
unfolding on_status
on_status-IsSettled ok c h = reconnect-IsSettled 0 c h
on_status-IsSettled unimplemented c h =
    drop_stream-IsSettled (record c { unimplemented_count = suc c.unimplemented_count }) h.streams
      h.one_client
on_status-IsSettled (failed code) c h =
    reconnect-IsSettled c.reconnect_delay _
      (kept-IsSettled c c.timers (c.status_codes ++ code ∷ []) c.unimplemented_count c.errors h)

pub React-IsSettled : {c d : Connection} → React c d → IsSettled c → IsSettled d
unfolding connect_spans disconnect on_error
React-IsSettled (disconnects c) h = disconnect_in-IsSettled c.state c h
React-IsSettled (ends c s before after status e) h = on_status-IsSettled status c h
React-IsSettled (fails c s before after e) h =
    kept-IsSettled c c.timers c.status_codes c.unimplemented_count _ h
React-IsSettled (fires c before after delay attempt e) h =
    connect_in-IsSettled c.state attempt _ refl
      (kept-IsSettled c (before ++ after) c.status_codes c.unimplemented_count c.errors h)

Step-IsSettled : {c d : Connection} → Step c d → IsSettled c → IsSettled d
unfolding connect_spans
Step-IsSettled (connects c attempt) h = connect_in-IsSettled c.state attempt c refl h
Step-IsSettled (reacts r) h = React-IsSettled r h

Reach-IsSettled : {c d : Connection} → Reach c d → IsSettled c → IsSettled d
Reach-IsSettled here h = h
Reach-IsSettled (next r s) h = Step-IsSettled s (Reach-IsSettled r h)

-- After any calls, answers of the stream and timers on a new connection, whatever the gRPC package
-- does on the attempts to connect: it has a stream exactly when it is connected, and it is not
-- connecting; at most one stream is observed, the one opened last; every stream before it was ended
-- once, in the order of opening, and without a stream all were; and its client was made at most once.
pub reached-IsSettled :
    (compression : Bool) (delay : Option ℕ) (c : Connection)
    → Reach (new compression delay) c
    → IsSettled c
unfolding new set_state
reached-IsSettled compression delay c r =
    Reach-IsSettled r (record { state_matches = tt; streams = (refl, refl); one_client = refl })
