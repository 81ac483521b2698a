-- ===== src/Grpc/Settled.antt =====
-- A connection between calls, and the opening of a stream.
use monis_agent.Common.{
  ℕ, zero, suc, ◌≡◌, refl, ap, List, [], ◌∷◌, ◌++◌, Option, none, some, Bool, true, false,
  if◌then◌else◌, arith, either,
}
use monis_agent.Grpc.{
  State, disconnected, connecting, connected, Attempt, Connection, set_state, end_stream,
  drop_stream, create_client, open_stream, ensure_client, settle,
}

-- The first numbers, in order.
abbrev pub below : ℕ → List ℕ
below zero = []
below (suc n) = below n ++ n ∷ []

-- A stream that is open is the one opened last, which alone is observed, and every stream before it was
-- ended once, in order; where none is, every stream was ended.
abbrev pub AreStreams : Option ℕ → ℕ → List ℕ → List ℕ → Type 0
AreStreams (some s) opened observed ended =
    (opened ≡ suc s) × (observed ≡ s ∷ []) × (ended ≡ below s)
AreStreams none opened observed ended = (observed ≡ []) × (ended ≡ below opened)

-- A connection has a stream when it is connected, and between calls it is not connecting.
abbrev pub Matches : State → Option ℕ → Type 0
Matches connected (some s) = Unit
Matches connected none = ⊥
Matches connecting stream = ⊥
Matches disconnected (some s) = ⊥
Matches disconnected none = Unit

pub record IsSettled (c : Connection) : Type 0 where
  pub state_matches : Matches c.state c.stream
  pub streams : AreStreams c.stream c.opened c.observed c.ended
  pub one_client : c.clients ≡ (if c.has_client then 1 else 0)

end_stream-IsSettled :
    (c : Connection) (o : Option ℕ)
    → c.stream ≡ o
    → AreStreams o c.opened c.observed c.ended
    → c.clients ≡ (if c.has_client then 1 else 0)
    → IsSettled (set_state disconnected none (end_stream c o))
unfolding set_state end_stream
end_stream-IsSettled c none e streams one = record {
  state_matches = rw e tt;
  streams = rw e streams;
  one_client = one;
}
end_stream-IsSettled c (some s) e streams one = record {
  state_matches = tt;
  streams = rw (streams.0, streams.1, streams.2) (ground arith, refl);
  one_client = one;
}

pub drop_stream-IsSettled :
    (c : Connection)
    → AreStreams c.stream c.opened c.observed c.ended
    → c.clients ≡ (if c.has_client then 1 else 0)
    → IsSettled (drop_stream c)
unfolding drop_stream
drop_stream-IsSettled c streams one = end_stream-IsSettled c c.stream refl streams one

-- A connection without a stream, about to open one.
pub record IsReady (opened : ℕ) (c : Connection) : Type 0 where
  pub no_stream : c.stream ≡ none
  pub same_opened : c.opened ≡ opened
  pub unobserved : c.observed ≡ []
  pub all_ended : c.ended ≡ below opened
  pub client : c.clients ≡ (if c.has_client then 1 else 0)

counted-IsReady :
    (n m k : ℕ) (c : Connection)
    → IsReady n c
    → IsReady n (record c { compression_enabled = m; compression_disabled = k })
counted-IsReady n m k c h = record {
  no_stream = h.no_stream;
  same_opened = h.same_opened;
  unobserved = h.unobserved;
  all_ended = h.all_ended;
  client = h.client;
}

created-IsReady :
    (n : ℕ) (c : Connection)
    → IsReady n c
    → c.has_client ≡ false
    → IsReady n (record c { has_client = true; clients = suc c.clients })
created-IsReady n c h fresh = record {
  no_stream = h.no_stream;
  same_opened = h.same_opened;
  unobserved = h.unobserved;
  all_ended = h.all_ended;
  client = ground (arith, h.client, fresh);
}

abbrev IsReadyPair : ℕ → Bool × Connection → Type 0
IsReadyPair n r = IsReady n r.1

create_client-IsReady :
    (n : ℕ) (attempt : Attempt) (c : Connection)
    → IsReady n c
    → c.has_client ≡ false
    → IsReady n (create_client attempt c).1
unfolding create_client
create_client-IsReady n attempt c h fresh =
    let with_count =
      either (λ d. IsReady n d × (d.has_client ≡ false)) c.compression
        {x = record c { compression_enabled = suc c.compression_enabled }}
        {y = record c { compression_disabled = suc c.compression_disabled }}
        (λ e. (counted-IsReady n _ _ c h, fresh)) (λ e. (counted-IsReady n _ _ c h, fresh)) in
    either (IsReadyPair n) attempt.loads
      (λ e.
        either (IsReadyPair n) attempt.creates (λ e'. created-IsReady n _ with_count.0 with_count.1)
          (λ e'. with_count.0))
      (λ e. h)

pub ensure_client-IsReady :
    (n : ℕ) (attempt : Attempt) (c : Connection)
    → IsReady n c
    → IsReady n (ensure_client attempt c).1
unfolding ensure_client
ensure_client-IsReady n attempt c h =
    either (IsReadyPair n) c.has_client (λ has. h)
      (λ lacks. create_client-IsReady n attempt c h lacks)

failed-IsSettled : (n : ℕ) (c : Connection) → IsReady n c → IsSettled (drop_stream c)
failed-IsSettled n c h =
    drop_stream-IsSettled c (rw h.no_stream (h.unobserved, rw h.same_opened h.all_ended)) h.client

opened-IsSettled :
    (n : ℕ) (c : Connection)
    → IsReady n c
    → IsSettled (
        set_state connected
          (some n)
          (record c { stream = some n; opened = suc c.opened; observed = c.opened ∷ c.observed }))
unfolding set_state
opened-IsSettled n c h = record {
  state_matches = tt;
  streams = (ap suc h.same_opened, rw (h.same_opened, h.unobserved) refl, h.all_ended);
  one_client = h.client;
}

pub settle-IsSettled :
    (n : ℕ) (attempt : Attempt) (r : Bool × Connection)
    → IsReady n r.1
    → IsSettled (settle n (open_stream attempt r))
unfolding settle open_stream
settle-IsSettled n attempt (false, c) h = failed-IsSettled n c h
settle-IsSettled n attempt (true, c) h =
    either (λ r. IsSettled (settle n r)) attempt.calls (λ e. opened-IsSettled n c h)
      (λ e. failed-IsSettled n c h)
