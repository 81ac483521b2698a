-- ===== src/SpanStreamer/Flow.antt =====
-- What a streamer of spans has seen, sent, dropped and queued.
use monis_agent.Common.{
  ℕ, suc, ◌<◌, ◌≡◌, refl, sym, subst, List, [], ◌∷◌, ◌++◌, Option, none, some, Bool, true, false,
  if◌then◌else◌, arith, either, length, length-append, ltb, ltb→lt,
}
use monis_agent.Streamer.{
  Streamer, new, add_to_queue, base_write, answered, send, connect_stream, on_disconnected, drain,
  drain_each, on_drain,
}
use monis_agent.SpanStreamer.{send_queue, write, on_connected, on_drained}
use monis_agent.SpanStreamer.Loop.{Flows, IsFlowing, Pressed-after, left-Flows, queue-IsFlowing}

module _ {A D : Type 0} (format : A → D) (answer : ℕ → Option Bool) where
  -- An event in the life of a streamer: a span is written, or the connection or the stream calls a
  -- listener.
  pub data Event : Type 0 where
    writes : (now : ℕ) → A → Event
    connects : (now : ℕ) → Event
    disconnects : Event
    drains : (now : ℕ) → Event

  unfoldable pub step : Event → Streamer A D → Streamer A D
  step (writes now span) c = write format answer now span c
  step (connects now) c = (on_connected format answer now c).0
  step disconnects c = on_disconnected c
  step (drains now) c = (on_drained format answer now c).0

  on_connected-IsFlowing :
      (now : ℕ) (c : Streamer A D) → IsFlowing c → IsFlowing (on_connected format answer now c).0
  unfolding on_connected connect_stream
  on_connected-IsFlowing now c h =
      queue-IsFlowing format answer now _ refl refl refl h.counted h.bounded h.all_tried

  on_disconnected-IsFlowing : (c : Streamer A D) → IsFlowing c → IsFlowing (on_disconnected c)
  unfolding on_disconnected
  on_disconnected-IsFlowing c h = record {
    counted = h.counted;
    bounded = h.bounded;
    flows = refl;
    idle = λ e f. cc;
    all_tried = h.all_tried;
  }

  one_drain :
      (send_queue' : Streamer A D → Streamer A D × Bool) (now : ℕ) (ds : List ℕ) (c : Streamer A D)
      → length ds ≡ 1
      → (start : ℕ) × ((drain_each send_queue' now ds c).0 ≡ (drain send_queue' now start c).0)
  unfolding drain_each
  one_drain q now [] c e = absurd (omega (arith, e))
  one_drain q now (start ∷ []) c e = (
    start,
    either (λ (d : Streamer A D × Bool). d.0 ≡ (drain q now start c).0) (drain q now start c).1
        (λ e'. refl) (λ e'. refl),
  )
  one_drain q now (a ∷ b ∷ ds) c e = absurd (omega (arith, e))

  no_drain :
      (now : ℕ) (c : Streamer A D)
      → c.drains ≡ []
      → IsFlowing (record c { drains = [] })
      → IsFlowing (on_drained format answer now c).0
  unfolding on_drained on_drain drain_each
  no_drain now c e h =
      subst
        (λ ds.
          IsFlowing (drain_each (send_queue format answer now) now ds (record c { drains = [] })).0)
        (sym e) h

  on_drained-IsFlowing :
      (now : ℕ) (c : Streamer A D) (connected writable : Bool)
      → c.connected ≡ connected
      → c.writable ≡ writable
      → Flows connected writable c.drains
      → IsFlowing c
      → IsFlowing (on_drained format answer now c).0
  unfolding on_drained on_drain drain
  on_drained-IsFlowing now c true true e w f h = no_drain now c f (record {
    counted = h.counted;
    bounded = h.bounded;
    flows = rw (e, w) refl;
    idle = h.idle;
    all_tried = h.all_tried;
  })
  on_drained-IsFlowing now c true false e w f h =
      let one =
        one_drain (send_queue format answer now) now c.drains (record c { drains = [] }) f in
      rw one.1 (queue-IsFlowing format answer now _ e refl refl h.counted h.bounded h.all_tried)
  on_drained-IsFlowing now c false true e w f h = absurd f
  on_drained-IsFlowing now c false false e w f h = no_drain now c f (record {
    counted = h.counted;
    bounded = h.bounded;
    flows = rw (e, w) refl;
    idle = h.idle;
    all_tried = h.all_tried;
  })

  writable-Flows :
      (connected writable : Bool) (ds : List ℕ)
      → Flows connected writable ds
      → writable ≡ true
      → (connected ≡ true) × (ds ≡ [])
  writable-Flows true true ds f e = (refl, f)
  writable-Flows true false ds f e = cc
  writable-Flows false true ds f e = absurd f
  writable-Flows false false ds f e = cc

  -- A span that can be written is given to the stream, which may throw.
  sent-IsFlowing :
      (o : Option Bool) (now : ℕ) (span : A) (c : Streamer A D)
      → IsFlowing c
      → c.writable ≡ true
      → IsFlowing
          (answered o now 1
            (record c { seen = suc c.seen; written = c.written ++ format span ∷ [] })).0
  sent-IsFlowing none now span c h w = record {
    counted = omega (arith, h.counted);
    bounded = h.bounded;
    flows = h.flows;
    idle = λ e f. absurd (omega (arith, f));
    all_tried = rw (length-append c.written (format span ∷ [])) (omega (arith, h.all_tried));
  }
  sent-IsFlowing (some accepts) now span c h w =
      let f = writable-Flows c.connected c.writable c.drains h.flows w in
      record {
        counted = omega (arith, h.counted);
        bounded = h.bounded;
        flows = left-Flows c.connected _ _ f.0 (Pressed-after accepts now c.drains f.1);
        idle = λ e none_failed. h.idle w none_failed;
        all_tried = rw (length-append c.written (format span ∷ [])) (omega (arith, h.all_tried));
      }

  queued-IsFlowing :
      (span : A) (c : Streamer A D)
      → IsFlowing c
      → c.writable ≡ false
      → length c.spans < c.queue_size
      → IsFlowing (add_to_queue span (record c { seen = suc c.seen }))
  unfolding add_to_queue
  queued-IsFlowing span c h w room = record {
    counted = rw (length-append c.spans (span ∷ [])) (omega (arith, h.counted));
    bounded = rw (length-append c.spans (span ∷ [])) (omega (arith, room));
    flows = h.flows;
    idle = λ e f. absurd (ground (arith, w, e));
    all_tried = h.all_tried;
  }

  dropped-IsFlowing :
      (c : Streamer A D)
      → IsFlowing c
      → IsFlowing (record c { seen = suc c.seen; dropped = suc c.dropped })
  dropped-IsFlowing c h = record {
    counted = omega (arith, h.counted);
    bounded = h.bounded;
    flows = h.flows;
    idle = h.idle;
    all_tried = h.all_tried;
  }

  -- The end of `write`, after that of the base class.
  abbrev pub written_through : ℕ → A → Streamer A D → Streamer A D
  written_through now span based =
      if based.writable then (send answer now (format span) 1 based).0 else based

  unsent :
      (now : ℕ) (span : A) (c : Streamer A D)
      → c.writable ≡ false
      → IsFlowing c
      → IsFlowing (written_through now span c)
  unsent now span c w h = either IsFlowing c.writable (λ e. absurd (ground (arith, w, e))) (λ e. h)

  write-IsFlowing :
      (now : ℕ) (span : A) (c : Streamer A D)
      → IsFlowing c
      → IsFlowing (write format answer now span c)
  unfolding write base_write add_to_queue send
  write-IsFlowing now span c h =
      either (λ b. IsFlowing (written_through now span b)) c.writable
        (λ w.
          either IsFlowing c.writable
            (λ e. sent-IsFlowing (answer (length c.written)) now span c h w)
            (λ e. absurd (ground (arith, w, e))))
        (λ w.
          either (λ b. IsFlowing (written_through now span b)) (ltb (length c.spans) c.queue_size)
            (λ room. unsent now span _ w (queued-IsFlowing span c h w (ltb→lt _ _ room)))
            (λ full. unsent now span _ w (dropped-IsFlowing c h)))

  pub step-IsFlowing : (e : Event) (c : Streamer A D) → IsFlowing c → IsFlowing (step e c)
  unfolding step
  step-IsFlowing (writes now span) c h = write-IsFlowing now span c h
  step-IsFlowing (connects now) c h = on_connected-IsFlowing now c h
  step-IsFlowing disconnects c h = on_disconnected-IsFlowing c h
  step-IsFlowing (drains now) c h =
      on_drained-IsFlowing now c c.connected c.writable refl refl h.flows h

  unfoldable pub run : List Event → Streamer A D → Streamer A D
  unfolding step
  run [] c = c
  run (e ∷ es) c = run es (step e c)

  pub new-IsFlowing : (queue_size : ℕ) → IsFlowing {A = A} {D = D} (new queue_size)
  unfolding new
  new-IsFlowing queue_size = record {
    counted = refl;
    bounded = omega arith;
    flows = refl;
    idle = λ e f. refl;
    all_tried = refl;
  }

  run-IsFlowing : (es : List Event) (c : Streamer A D) → IsFlowing c → IsFlowing (run es c)
  unfolding run
  run-IsFlowing [] c h = h
  run-IsFlowing (e ∷ es) c h = run-IsFlowing es (step e c) (step-IsFlowing e c h)

  -- After any writes, connections, disconnections and drains, in any order, whatever the stream
  -- answers, by an exception too: every span that was seen was sent, was lost to an exception of the
  -- stream, was dropped or is in the queue, which keeps to its size. A connected streamer that can
  -- write has no listener for `drain`, and an empty queue if the stream never threw; a connected one
  -- that cannot write has exactly one listener; one without a stream cannot write and has none. The
  -- stream was given the spans sent and those lost, and no others.
  pub run-new-IsFlowing : (queue_size : ℕ) (es : List Event) → IsFlowing (run es (new queue_size))
  run-new-IsFlowing queue_size es = run-IsFlowing es (new queue_size) (new-IsFlowing queue_size)
