-- ===== src/Grpc.antt =====
-- lib/grpc/connection.js: the connection on which spans are streamed. A stream is the number of the
-- streams opened before it. What the gRPC package does on a call is an argument (`Attempt`); it
-- delivers the events of a stream to the listeners that the stream has, and the host fires the
-- timers. Emitted events are collected in a list, and no listener calls back into the connection.
-- Logging and the creation of
-- credentials are left out.
pub mod Settled
pub mod Streams
pub mod Pending
pub mod Reconnecting
use monis_agent.Common.{
  ℕ, zero, suc, ◌+◌, List, [], ◌∷◌, ◌++◌, Option, none, some, Bool, true, false, ◌==◌,
  if◌then◌else◌,
}
use monis_agent.Common.Text.{Text, codes, to_lower_case}
use monis_agent.Common.Dict.{Dict}

pub data State : Type 0 where
  disconnected : State
  connecting : State
  connected : State

-- A status of a stream, by what its handler tells apart.
pub data Status : Type 0 where
  ok : Status
  unimplemented : Status
  failed : (code : ℕ) → Status

-- How far an attempt to open a stream gets: the description is loaded, the client is made, and its
-- method returns a stream. Each later one needs those before.
pub record Attempt : Type 0 where
  pub loads : Bool
  pub creates : Bool
  pub calls : Bool

-- What `setConnectionDetails` is given; null at first.
pub record Details : Type 0 where
  pub license_key : Option Text
  pub run_id : Option Text
  pub request_headers_map : Option (Dict Text)
  pub root_certs : Option Text

pub record Connection : Type 0 where
  pub details : Details
  pub state : State
  pub has_client : Bool
  pub stream : Option ℕ
  pub reconnect_delay : ℕ
  pub compression : Bool
  -- The delays of the timers that did not fire yet.
  pub timers : List ℕ
  pub opened : ℕ
  -- The streams with the observers of spans, and those that were ended.
  pub observed : List ℕ
  pub ended : List ℕ
  pub emitted : List (State × Option ℕ)
  pub clients : ℕ
  -- Supportability metrics.
  pub compression_enabled : ℕ
  pub compression_disabled : ℕ
  pub unimplemented_count : ℕ
  pub status_codes : List ℕ
  pub errors : ℕ

-- `_setState`
unfoldable pub set_state : State → Option ℕ → Connection → Connection
set_state state stream c = record c { state = state; emitted = c.emitted ++ (state, stream) ∷ [] }

abbrev pub default_reconnect_delay : ℕ
default_reconnect_delay = 15000

unfoldable pub new : (compression : Bool) (reconnect_delay : Option ℕ) → Connection
unfolding set_state
new compression delay = set_state disconnected none (record {
  details = record {
    license_key = none;
    run_id = none;
    request_headers_map = none;
    root_certs = none;
  };
  state = disconnected;
  has_client = false;
  stream = none;
  reconnect_delay = elim delay [ none ↦ default_reconnect_delay | some ms ↦ ms ];
  compression = compression;
  timers = [];
  opened = 0;
  observed = [];
  ended = [];
  emitted = [];
  clients = 0;
  compression_enabled = 0;
  compression_disabled = 0;
  unimplemented_count = 0;
  status_codes = [];
  errors = 0;
})

unfoldable pub set_connection_details : Details → Connection → Connection
set_connection_details details c = record c { details = details }

-- An entry of the metadata of a call; a number is that of a test variable.
pub data Value : Type 0 where
  text : Option Text → Value
  number : ℕ → Value

-- `GRPC_TEST_META`
abbrev pub grpc_test_meta : Dict Text
grpc_test_meta =
    (codes "flaky", codes "NEWRELIC_GRPCCONNECTION_METADATA_FLAKY")
    ∷ (codes "delay", codes "NEWRELIC_GRPCCONNECTION_METADATA_DELAY")
    ∷ (codes "flaky_code", codes "NEWRELIC_GRPCCONNECTION_METADATA_FLAKY_CODE")
    ∷ (codes "success_delay_ms", codes "NEWRELIC_GRPCCONNECTION_METADATA_SUCCESS_DELAY_MS")
    ∷ []

-- `_setTestMetadata`; `read` is `parseInt` of a variable that may be missing, and 0 and NaN are falsy.
unfoldable pub test_metadata : (read : Text → Option ℕ) → Dict Text → List (Text × Value)
test_metadata read [] = []
test_metadata read ((key, variable) ∷ meta) =
    let rest = test_metadata read meta in
    elim (read variable) [
      | none ↦ rest
      | some value ↦ if value == 0 then rest else (key, number value) ∷ rest
    ]

unfoldable pub header_metadata : Dict Text → List (Text × Value)
header_metadata [] = []
header_metadata ((key, value) ∷ headers) =
    (to_lower_case key, text (some value)) ∷ header_metadata headers

-- `_getMetadata`: what is added, in order.
unfoldable pub get_metadata : (read : Text → Option ℕ) → Details → List (Text × Value)
unfolding test_metadata header_metadata
get_metadata read d =
    (codes "license_key", text d.license_key)
      ∷ (codes "agent_run_token", text d.run_id)
      ∷ header_metadata (elim d.request_headers_map [ none ↦ [] | some headers ↦ headers ])
    ++ test_metadata read grpc_test_meta

abbrev pub without : ℕ → List ℕ → List ℕ
without s [] = []
without s (t ∷ ts) = let rest = without s ts in if t == s then rest else t ∷ rest

-- `_disconnect`; the listeners that it adds log only.
unfoldable pub end_stream : Connection → Option ℕ → Connection
end_stream c none = c
end_stream c (some s) = record c {
  observed = without s c.observed;
  ended = c.ended ++ s ∷ [];
  stream = none;
}

unfoldable pub drop_stream : Connection → Connection
unfolding set_state end_stream
drop_stream c = set_state disconnected none (end_stream c c.stream)

-- `disconnect`, in a state.
unfoldable pub disconnect_in : State → Connection → Connection
unfolding drop_stream
disconnect_in disconnected c = c
disconnect_in connecting c = drop_stream c
disconnect_in connected c = drop_stream c

unfoldable pub disconnect : Connection → Connection
unfolding disconnect_in
disconnect c = disconnect_in c.state c

-- `_createClient`; the first component says that it does not throw.
unfoldable pub create_client : Attempt → Connection → Bool × Connection
create_client attempt c =
    if attempt.loads
    then (let counted =
          if c.compression
          then (record c { compression_enabled = suc c.compression_enabled })
          else (record c { compression_disabled = suc c.compression_disabled }) in
        if attempt.creates
        then (true, record counted { has_client = true; clients = suc counted.clients })
        else (false, counted))
    else (false, c)

-- `_connectSpans`, with the observers that it sets up.
unfoldable pub open_stream : Attempt → Bool × Connection → Bool × Connection
open_stream attempt (false, c) = (false, c)
open_stream attempt (true, c) =
    if attempt.calls
    then (true, record c { observed = c.opened ∷ c.observed; opened = suc c.opened })
    else (false, c)

unfoldable pub ensure_client : Attempt → Connection → Bool × Connection
unfolding create_client
ensure_client attempt c = if c.has_client then (true, c) else create_client attempt c

-- The rest of `connectSpans`: the stream is the one opened last.
unfoldable pub settle : ℕ → Bool × Connection → Connection
unfolding set_state drop_stream
settle s (true, c) = set_state connected (some s) (record c { stream = some s })
settle s (false, c) = drop_stream c

-- `connectSpans`, in a state.
unfoldable pub connect_in : State → Attempt → Connection → Connection
unfolding set_state open_stream ensure_client settle
connect_in disconnected attempt c =
    settle c.opened (open_stream attempt (ensure_client attempt (set_state connecting none c)))
connect_in connecting attempt c = c
connect_in connected attempt c = c

unfoldable pub connect_spans : Attempt → Connection → Connection
unfolding connect_in
connect_spans attempt c = connect_in c.state attempt c

-- `_reconnect`
unfoldable pub reconnect : ℕ → Connection → Connection
unfolding drop_stream
reconnect delay c =
    let dropped = drop_stream c in record dropped { timers = dropped.timers ++ delay ∷ [] }

-- The observer of the status of a stream.
unfoldable pub on_status : Status → Connection → Connection
unfolding reconnect drop_stream
on_status ok c = reconnect 0 c
on_status unimplemented c =
    drop_stream (record c { unimplemented_count = suc c.unimplemented_count })
on_status (failed code) c =
    reconnect c.reconnect_delay (record c { status_codes = c.status_codes ++ code ∷ [] })

unfoldable pub on_error : Connection → Connection
on_error c = record c { errors = suc c.errors }
