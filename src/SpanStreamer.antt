-- ===== src/SpanStreamer.antt =====
-- lib/spans/span-streamer.js: spans that are written one by one. The queue holds spans, and a span is
-- put in its streaming format (an argument) when it is written. The listeners answer with a Boolean
-- too: whether they return or throw.
pub mod Loop
pub mod Flow
pub mod Order
use monis_agent.Common.{ℕ, List, [], ◌∷◌, Option, Bool, true, false, if◌then◌else◌}
use monis_agent.Streamer.{Streamer, base_write, send, connect_stream, on_drain}

module _ {A D : Type 0} (to_streaming_format : A → D) (answer : ℕ → Option Bool) where
  -- The loop of `sendQueue`, at the spans of the queue. What `send` throws leaves the loop.
  unfoldable pub send_spans : ℕ → List A → Streamer A D → Streamer A D × Bool
  unfolding send
  send_spans now [] c = (c, true)
  send_spans now (span ∷ spans) c =
      let sent = send answer now (to_streaming_format span) 1 (record c { spans = spans }) in
      let rest = send_spans now spans sent.0 in
      if c.writable then (if sent.1 then rest else sent) else (c, true)

  unfoldable pub send_queue : ℕ → Streamer A D → Streamer A D × Bool
  unfolding send_spans
  send_queue now c = send_spans now c.spans c

  -- What `send` throws is caught.
  unfoldable pub write : ℕ → A → Streamer A D → Streamer A D
  unfolding base_write send
  write now span c =
      let based = base_write span c in
      if based.writable then (send answer now (to_streaming_format span) 1 based).0 else based

  unfoldable pub on_connected : ℕ → Streamer A D → Streamer A D × Bool
  unfolding connect_stream send_queue
  on_connected now c = send_queue now (connect_stream c)

  unfoldable pub on_drained : ℕ → Streamer A D → Streamer A D × Bool
  unfolding on_drain send_queue
  on_drained now c = on_drain (send_queue now) now c
