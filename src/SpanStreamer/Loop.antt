-- ===== src/SpanStreamer/Loop.antt =====
-- The loop that sends the queue of a streamer of spans.
use monis_agent.Common.{
  ℕ, ◌+◌, ◌≤◌, ◌≡◌, refl, ◌∙◌, List, [], ◌∷◌, ◌++◌, Option, none, some, Bool, true, false,
  if◌then◌else◌, arith, either, length, length-append,
}
use monis_agent.Streamer.{Streamer, answered, send}
use monis_agent.SpanStreamer.{send_spans, send_queue}

-- While spans can be written no listener waits; on a connected streamer that cannot write one waits;
-- without a stream none does, and nothing can be written.
abbrev pub Flows : (connected writable : Bool) → List ℕ → Type 0
Flows true true drains = drains ≡ []
Flows true false drains = length drains ≡ 1
Flows false true drains = ⊥
Flows false false drains = drains ≡ []

pub record IsFlowing {A D : Type 0} (c : Streamer A D) : Type 0 where
  pub counted : c.seen ≡ c.sent + c.failed + c.dropped + length c.spans
  pub bounded : length c.spans ≤ c.queue_size
  pub flows : Flows c.connected c.writable c.drains
  pub idle : c.writable ≡ true → c.failed ≡ 0 → c.spans ≡ []
  pub all_tried : c.sent + c.failed ≡ length c.written

-- The state of the loop: the queue is what is left, and a listener waits once a write was refused.
abbrev pub Pressed : Bool → List ℕ → Type 0
Pressed true drains = drains ≡ []
Pressed false drains = length drains ≡ 1

pub Pressed-after :
    (b : Bool) (now : ℕ) (drains : List ℕ)
    → drains ≡ []
    → Pressed b (if b then drains else drains ++ now ∷ [])
Pressed-after true now drains e = e
Pressed-after false now drains e = rw e refl

Pressed-empty : (b : Bool) (drains : List ℕ) → Pressed b drains → b ≡ true → drains ≡ []
Pressed-empty true drains h e = h
Pressed-empty false drains h e = cc

pub left-Flows :
    (connected writable : Bool) (drains : List ℕ)
    → connected ≡ true
    → Pressed writable drains
    → Flows connected writable drains
left-Flows true true drains e h = h
left-Flows true false drains e h = h
left-Flows false writable drains e h = cc

module _ {A D : Type 0} where
  -- The streamer in the loop, where it can still write or was just refused.
  record IsSending (spans : List A) (c : Streamer A D) : Type 0 where
    here_left : c.spans ≡ spans
    here_counted : c.seen ≡ c.sent + c.failed + c.dropped + length spans
    here_bounded : length spans ≤ c.queue_size
    here_connected : c.connected ≡ true
    here_pressed : Pressed c.writable c.drains
    here_tried : c.sent + c.failed ≡ length c.written

  IsSending-IsFlowing :
      (spans : List A) (c : Streamer A D)
      → IsSending spans c
      → (c.writable ≡ true → c.failed ≡ 0 → spans ≡ [])
      → IsFlowing c
  IsSending-IsFlowing spans c h left = record {
    counted = rw h.here_left h.here_counted;
    bounded = rw h.here_left h.here_bounded;
    flows = left-Flows c.connected c.writable c.drains h.here_connected h.here_pressed;
    idle = λ w f. h.here_left ∙ left w f;
    all_tried = h.here_tried;
  }

  -- The next span was given to the stream: the loop goes on, or it threw.
  then-IsFlowing :
      (o : Option Bool) (now : ℕ) (span : A) (content : D) (spans : List A) (c : Streamer A D)
      (rest : Streamer A D × Bool)
      → c.writable ≡ true
      → IsSending (span ∷ spans) c
      → (IsSending spans
            (answered o now 1 (record c { spans = spans; written = c.written ++ content ∷ [] })).0
          → IsFlowing rest.0)
      → IsFlowing
          (if (answered o now 1 (record c { spans = spans; written = c.written ++ content ∷ [] })).1
            then rest
            else answered o now 1
                (record c { spans = spans; written = c.written ++ content ∷ [] })).0
  then-IsFlowing none now span content spans c rest w h next = record {
    counted = omega (arith, h.here_counted);
    bounded = omega (arith, h.here_bounded);
    flows = left-Flows c.connected c.writable c.drains h.here_connected h.here_pressed;
    idle = λ e f. absurd (omega (arith, f));
    all_tried = rw (length-append c.written (content ∷ [])) (omega (arith, h.here_tried));
  }
  then-IsFlowing (some accepts) now span content spans c rest w h next = next (record {
    here_left = refl;
    here_counted = omega (arith, h.here_counted);
    here_bounded = omega (arith, h.here_bounded);
    here_connected = h.here_connected;
    here_pressed =
        Pressed-after accepts now c.drains (Pressed-empty c.writable c.drains h.here_pressed w);
    here_tried = rw (length-append c.written (content ∷ [])) (omega (arith, h.here_tried));
  })

module _ {A D : Type 0} (format : A → D) (answer : ℕ → Option Bool) where
  send_spans-IsFlowing :
      (spans : List A) (now : ℕ) (c : Streamer A D)
      → IsSending spans c
      → IsFlowing (send_spans format answer now spans c).0
  unfolding send_spans send
  send_spans-IsFlowing [] now c h = IsSending-IsFlowing [] c h (λ e f. refl)
  send_spans-IsFlowing (span ∷ spans) now c h =
      either (λ (d : Streamer A D × Bool). IsFlowing d.0) c.writable
        (λ w.
          then-IsFlowing (answer (length c.written)) now span (format span) spans c _ w h
            (send_spans-IsFlowing spans now _))
        (λ w. IsSending-IsFlowing (span ∷ spans) c h (λ e f. cc))

  pub queue-IsFlowing :
      (now : ℕ) (c : Streamer A D)
      → c.connected ≡ true
      → c.writable ≡ true
      → c.drains ≡ []
      → c.seen ≡ c.sent + c.failed + c.dropped + length c.spans
      → length c.spans ≤ c.queue_size
      → c.sent + c.failed ≡ length c.written
      → IsFlowing (send_queue format answer now c).0
  unfolding send_queue
  queue-IsFlowing now c on w d counted bounded tried = send_spans-IsFlowing c.spans now c (record {
    here_left = refl;
    here_counted = counted;
    here_bounded = bounded;
    here_connected = on;
    here_pressed = rw w d;
    here_tried = tried;
  })
