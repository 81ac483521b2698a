-- ===== src/Grpc/Pending.antt =====
-- The timers that are pending on a connection.
use monis_agent.Common.{
  ℕ, suc, ◌≤◌, ◌≡◌, ◌≢◌, refl, sym, ◌∙◌, subst, List, [], ◌∷◌, ◌++◌, Option, none, some, Bool, true,
  false, arith, either, length, length-append,
}
use monis_agent.Grpc.{
  State, disconnected, connecting, connected, Status, ok, unimplemented, failed, Attempt,
  Connection, set_state, new, end_stream, drop_stream, disconnect, disconnect_in, create_client,
  open_stream, ensure_client, settle, connect_in, connect_spans, reconnect, on_status, on_error,
}
use monis_agent.Grpc.Streams.{
  React, disconnects, ends, fails, fires, React-IsSettled, connect_in-IsSettled,
}
use monis_agent.Grpc.Settled.{IsSettled, AreStreams, Matches}

pub data Reacts (c : Connection) : Connection → Type 0 where
  here : Reacts c c
  next : {d e : Connection} → Reacts c d → React d e → Reacts c e

pub not_within : (s : ℕ) (before after : List ℕ) → [] ≢ before ++ s ∷ after
not_within s [] after e = cc
not_within s (t ∷ before) after e = cc

-- At most one timer is pending, and none while connected.
abbrev pub HasTimers : State → List ℕ → Type 0
HasTimers connected timers = timers ≡ []
HasTimers connecting timers = ⊥
HasTimers disconnected timers = length timers ≤ 1

pub end_stream-opened : (c : Connection) (o : Option ℕ) → (end_stream c o).opened ≡ c.opened
unfolding end_stream
end_stream-opened c none = refl
end_stream-opened c (some s) = refl

pub end_stream-timers : (c : Connection) (o : Option ℕ) → (end_stream c o).timers ≡ c.timers
unfolding end_stream
end_stream-timers c none = refl
end_stream-timers c (some s) = refl

drop_stream-timers :
    (c : Connection) → ((drop_stream c).state ≡ disconnected) × ((drop_stream c).timers ≡ c.timers)
unfolding drop_stream set_state
drop_stream-timers c = (refl, end_stream-timers c c.stream)

abbrev HaveTimers : List ℕ → Bool × Connection → Type 0
HaveTimers ts r = r.1.timers ≡ ts

create_client-timers :
    (attempt : Attempt) (c : Connection) → (create_client attempt c).1.timers ≡ c.timers
unfolding create_client
create_client-timers attempt c =
    let counted =
      either (λ d. d.timers ≡ c.timers) c.compression
        {x = record c { compression_enabled = suc c.compression_enabled }}
        {y = record c { compression_disabled = suc c.compression_disabled }} (λ e. refl)
        (λ e. refl) in
    either (HaveTimers c.timers) attempt.loads
      (λ e. either (HaveTimers c.timers) attempt.creates (λ e'. counted) (λ e'. counted))
      (λ e. refl)

ensure_client-timers :
    (attempt : Attempt) (c : Connection) → (ensure_client attempt c).1.timers ≡ c.timers
unfolding ensure_client
ensure_client-timers attempt c =
    either (HaveTimers c.timers) c.has_client (λ e. refl) (λ e. create_client-timers attempt c)

settle-timers :
    (n : ℕ) (attempt : Attempt) (r : Bool × Connection)
    → (settle n (open_stream attempt r)).timers ≡ r.1.timers
unfolding settle open_stream set_state
settle-timers n attempt (false, c) = (drop_stream-timers c).1
settle-timers n attempt (true, c) =
    either (λ r. (settle n r).timers ≡ c.timers) attempt.calls (λ e. refl)
      (λ e. (drop_stream-timers c).1)

connect_in-timers :
    (state : State) (attempt : Attempt) (c : Connection)
    → (connect_in state attempt c).timers ≡ c.timers
unfolding connect_in set_state
connect_in-timers disconnected attempt c =
    settle-timers c.opened attempt _ ∙ ensure_client-timers attempt _
connect_in-timers connecting attempt c = refl
connect_in-timers connected attempt c = refl

HasTimers-empty :
    (state : State) (o : Option ℕ) (ts : List ℕ) → Matches state o → ts ≡ [] → HasTimers state ts
HasTimers-empty disconnected o ts h e = rw e (omega arith)
HasTimers-empty connecting o ts h e = absurd h
HasTimers-empty connected o ts h e = e

-- Settled, with at most one timer.
abbrev pub IsSingle : Connection → Type 0
IsSingle c = IsSettled c × HasTimers c.state c.timers

connect_in-IsSingle :
    (attempt : Attempt) (c : Connection)
    → IsSettled c
    → c.timers ≡ []
    → IsSingle (connect_in c.state attempt c)
connect_in-IsSingle attempt c h none_left =
    let settled = connect_in-IsSettled c.state attempt c refl h in
    (
      settled,
      HasTimers-empty _ _ _ settled.state_matches (connect_in-timers c.state attempt c ∙ none_left),
    )

-- A settled connection with an observed stream is connected.
observed-connected :
    (state : State) (o : Option ℕ) (opened s : ℕ) (observed ended before after : List ℕ)
    → Matches state o
    → AreStreams o opened observed ended
    → observed ≡ before ++ s ∷ after
    → state ≡ connected
observed-connected connected o n s observed ended before after m h e = refl
observed-connected connecting o n s observed ended before after m h e = absurd m
observed-connected disconnected none n s observed ended before after m h e =
    absurd (not_within s before after (sym h.0 ∙ e))
observed-connected disconnected (some x) n s observed ended before after m h e = absurd m

relaxed : (state : State) (ts : List ℕ) → HasTimers state ts → HasTimers disconnected ts
relaxed disconnected ts h = h
relaxed connecting ts h = absurd h
relaxed connected ts h = rw h (omega arith)

-- The timer that fires was the only one, and none is pending while connected.
fired :
    (state : State) (ts before after : List ℕ) (delay : ℕ)
    → HasTimers state ts
    → ts ≡ before ++ delay ∷ after
    → before ++ after ≡ []
fired state ts [] [] delay h e = refl
fired state ts [] (x ∷ after) delay h e =
    let short = subst (λ l. length l ≤ 1) e (relaxed state ts h) in absurd (omega (arith, short))
fired state ts (x ∷ before) after delay h e =
    let short = subst (λ l. length l ≤ 1) e (relaxed state ts h) in
    absurd (omega (arith, short, length-append before (delay ∷ after)))

disconnect_in-HasTimers :
    (state : State) (c : Connection)
    → c.state ≡ state
    → IsSingle c
    → HasTimers (disconnect_in state c).state (disconnect_in state c).timers
unfolding disconnect_in drop_stream set_state
disconnect_in-HasTimers disconnected c e h = h.1
disconnect_in-HasTimers connecting c e h =
    rw (end_stream-timers c c.stream) (relaxed c.state c.timers h.1)
disconnect_in-HasTimers connected c e h =
    rw (end_stream-timers c c.stream) (relaxed c.state c.timers h.1)

on_status-HasTimers :
    (status : Status) (c : Connection)
    → c.timers ≡ []
    → HasTimers (on_status status c).state (on_status status c).timers
unfolding on_status reconnect drop_stream set_state
on_status-HasTimers ok c e = rw (end_stream-timers c c.stream, e) (omega arith)
on_status-HasTimers unimplemented c e = rw (end_stream-timers _ c.stream, e) (omega arith)
on_status-HasTimers (failed code) c e = rw (end_stream-timers _ c.stream, e) (omega arith)

connected-empty : (state : State) (ts : List ℕ) → HasTimers state ts → state ≡ connected → ts ≡ []
connected-empty connected ts h e = h
connected-empty connecting ts h e = absurd h
connected-empty disconnected ts h e = cc

-- A connection on which something is observed is connected, and no timer is pending.
pub observed-empty :
    (c : Connection) (s : ℕ) (before after : List ℕ)
    → IsSingle c
    → c.observed ≡ before ++ s ∷ after
    → c.timers ≡ []
observed-empty c s before after h e = connected-empty c.state c.timers h.1 (
    observed-connected c.state c.stream c.opened s c.observed c.ended before after h.0.state_matches
      h.0.streams e)

React-IsSingle : {c d : Connection} → React c d → IsSingle c → IsSingle d
unfolding disconnect connect_spans on_error
React-IsSingle (disconnects c) h =
    (React-IsSettled (disconnects c) h.0, disconnect_in-HasTimers c.state c refl h)
React-IsSingle (ends c s before after status e) h = (
  React-IsSettled (ends c s before after status e) h.0,
  on_status-HasTimers status c (observed-empty c s before after h e),
)
React-IsSingle (fails c s before after e) h = (React-IsSettled (fails c s before after e) h.0, h.1)
React-IsSingle (fires c before after delay attempt e) h = (
  React-IsSettled (fires c before after delay attempt e) h.0,
  HasTimers-empty _ _ _ (React-IsSettled (fires c before after delay attempt e) h.0).state_matches
      (connect_in-timers c.state attempt _ ∙ fired c.state c.timers before after delay h.1 e),
)

pub Reacts-IsSingle : {c d : Connection} → Reacts c d → IsSingle c → IsSingle d
Reacts-IsSingle here h = h
Reacts-IsSingle (next r x) h = React-IsSingle x (Reacts-IsSingle r h)

pub first-IsSingle :
    (compression : Bool) (delay : Option ℕ) (attempt : Attempt)
    → IsSingle (connect_spans attempt (new compression delay))
unfolding connect_spans new set_state
first-IsSingle compression delay attempt =
    connect_in-IsSingle attempt (new compression delay)
      (record { state_matches = tt; streams = (refl, refl); one_client = refl }) refl
