-- ===== src/Streamer.antt =====
-- lib/spans/base-span-streamer.js: what the two streamers of spans share. The stream's answer to each
-- write is an argument, a function of the number of writes before it: a Boolean, or `none` if the
-- write throws; a stream delivers `drain` to
-- the listeners that were added to it, and the connection removes them when it drops the stream.
-- Logging and the two metrics of the queue's size are left out.
use monis_agent.Common.{
  ℕ, suc, ◌+◌, ◌-◌, List, [], ◌∷◌, ◌++◌, Option, none, some, Bool, true, false, ltb, length,
  if◌then◌else◌,
}

-- `I` is what the queue holds, and `D` what is written.
pub record Streamer (I D : Type 0) : Type 0 where
  pub connected : Bool
  pub writable : Bool
  pub queue_size : ℕ
  pub spans : List I
  -- What the stream was asked to write.
  pub written : List D
  -- The listeners for `drain` on the stream, each with the time when it was added.
  pub drains : List ℕ
  pub seen : ℕ
  pub sent : ℕ
  -- The writes that threw.
  pub failed : ℕ
  pub dropped : ℕ
  pub drain_durations : List ℕ

module _ {I D : Type 0} where
  unfoldable pub new : ℕ → Streamer I D
  new queue_size = record {
    connected = false;
    writable = false;
    queue_size = queue_size;
    spans = [];
    written = [];
    drains = [];
    seen = 0;
    sent = 0;
    failed = 0;
    dropped = 0;
    drain_durations = [];
  }

  -- `addToQueue`, of what the queue holds.
  unfoldable pub add_to_queue : I → Streamer I D → Streamer I D
  add_to_queue item c = record c { spans = c.spans ++ item ∷ [] }

  -- `write` of the base class.
  unfoldable pub base_write : I → Streamer I D → Streamer I D
  unfolding add_to_queue
  base_write item c =
      let counted = record c { seen = suc c.seen } in
      if c.writable
      then counted
      else if ltb (length c.spans) c.queue_size
      then add_to_queue item counted
      else (record counted { dropped = suc c.dropped })

  -- The rest of `send` once the stream has answered; the Boolean says whether `send` returns, or
  -- throws what the stream threw.
  abbrev pub answered : Option Bool → (now span_len : ℕ) → Streamer I D → Streamer I D × Bool
  answered none now span_len c = (record c { failed = suc c.failed }, false)
  answered (some accepts) now span_len c = (
    record c {
      writable = accepts;
      sent = c.sent + span_len;
      drains = if accepts then c.drains else c.drains ++ now ∷ [];
    },
    true,
  )

  unfoldable pub send :
      (answer : ℕ → Option Bool) (now : ℕ) → D → (span_len : ℕ) → Streamer I D → Streamer I D × Bool
  send answer now content span_len c =
      answered (answer (length c.written)) now span_len
        (record c { written = c.written ++ content ∷ [] })

  -- The listener for `connected`, before it sends the queue.
  unfoldable pub connect_stream : Streamer I D → Streamer I D
  connect_stream c = record c { connected = true; writable = true; drains = [] }

  unfoldable pub on_disconnected : Streamer I D → Streamer I D
  on_disconnected c = record c { connected = false; writable = false; drains = [] }

  -- `drain`, by the way of sending the queue.
  unfoldable pub drain :
      (Streamer I D → Streamer I D × Bool)
      → (now wait_drain_start : ℕ) → Streamer I D
      → Streamer I D × Bool
  drain send_queue now wait_drain_start c = send_queue (record c {
    drain_durations = c.drain_durations ++ (now - wait_drain_start) ∷ [];
    writable = true;
  })

  -- The listeners that an event `drain` calls: one that throws leaves the rest where they are.
  unfoldable pub drain_each :
      (Streamer I D → Streamer I D × Bool) → ℕ → List ℕ → Streamer I D → Streamer I D × Bool
  unfolding drain
  drain_each send_queue now [] c = (c, true)
  drain_each send_queue now (start ∷ starts) c =
      let done = drain send_queue now start c in
      let rest = drain_each send_queue now starts done.0 in
      if done.1 then rest else (record done.0 { drains = starts ++ done.0.drains }, false)

  unfoldable pub on_drain :
      (Streamer I D → Streamer I D × Bool) → ℕ → Streamer I D → Streamer I D × Bool
  unfolding drain_each
  on_drain send_queue now c = drain_each send_queue now c.drains (record c { drains = [] })
