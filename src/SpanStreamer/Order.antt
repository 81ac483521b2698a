-- ===== src/SpanStreamer/Order.antt =====
-- The order in which a streamer writes spans.
use monis_agent.Common.{
  ℕ, suc, ◌≡◌, refl, ap, sym, ◌∙◌, List, [], ◌∷◌, ◌++◌, map, Option, some, Bool, true, false, ◌||◌,
  if◌then◌else◌, arith, either, length, ltb,
}
use mathlib.Core.List.{append_assoc, append-nil}
use monis_agent.Streamer.{
  Streamer, new, add_to_queue, base_write, send, connect_stream, on_disconnected, drain, drain_each,
  on_drain,
}
use monis_agent.SpanStreamer.{send_spans, send_queue, write, on_connected, on_drained}
use monis_agent.SpanStreamer.Flow.{
  Event, writes, connects, disconnects, drains, step, run, written_through, step-IsFlowing,
  new-IsFlowing,
}
use monis_agent.SpanStreamer.Loop.{IsFlowing}

module _ {A D : Type 0} (format : A → D) (accepts : ℕ → Bool) where
  -- The answers of a stream that never throws.
  abbrev pub answer : ℕ → Option Bool
  answer n = some (accepts n)

  -- What was written, and then what is queued.
  abbrev pub contents : Streamer A D → List D
  contents c = c.written ++ map format c.spans

  append_one : (xs : List D) (y : D) (ys : List D) → (xs ++ y ∷ []) ++ ys ≡ xs ++ y ∷ ys
  append_one [] y ys = refl
  append_one (x ∷ xs) y ys = ap (λ l. x ∷ l) (append_one xs y ys)

  map-append_last :
      (xs : List A) (x : A) → map format (xs ++ x ∷ []) ≡ map format xs ++ format x ∷ []
  map-append_last [] x = refl
  map-append_last (y ∷ xs) x = ap (λ l. format y ∷ l) (map-append_last xs x)

  send_spans-contents :
      (spans : List A) (now : ℕ) (c : Streamer A D)
      → c.spans ≡ spans
      → contents (send_spans format answer now spans c).0 ≡ contents c
  unfolding send_spans send
  send_spans-contents [] now c e = refl
  send_spans-contents (span ∷ spans) now c e =
      either (λ (d : Streamer A D × Bool). contents d.0 ≡ contents c) c.writable
        (λ w.
          send_spans-contents spans now _ refl
          ∙ append_one c.written (format span) (map format spans)
          ∙ ap (λ l. c.written ++ map format l) (sym e))
        (λ w. refl)

  send_queue-contents :
      (now : ℕ) (c : Streamer A D) → contents (send_queue format answer now c).0 ≡ contents c
  unfolding send_queue
  send_queue-contents now c = send_spans-contents c.spans now c refl

  drain_each-contents :
      (starts : List ℕ) (now : ℕ) (c : Streamer A D)
      → contents (drain_each (send_queue format answer now) now starts c).0 ≡ contents c
  unfolding drain_each drain
  drain_each-contents [] now c = refl
  drain_each-contents (start ∷ starts) now c =
      let done = drain (send_queue format answer now) now start c in
      either (λ (d : Streamer A D × Bool). contents d.0 ≡ contents c) done.1
        (λ e. drain_each-contents starts now done.0 ∙ send_queue-contents now _)
        (λ e. send_queue-contents now _)

  send_spans-failed :
      (spans : List A) (now : ℕ) (c : Streamer A D)
      → (send_spans format answer now spans c).0.failed ≡ c.failed
  unfolding send_spans send
  send_spans-failed [] now c = refl
  send_spans-failed (span ∷ spans) now c =
      either (λ (d : Streamer A D × Bool). d.0.failed ≡ c.failed) c.writable
        (λ w. send_spans-failed spans now _) (λ w. refl)

  drain_each-failed :
      (starts : List ℕ) (now : ℕ) (c : Streamer A D)
      → (drain_each (send_queue format answer now) now starts c).0.failed ≡ c.failed
  unfolding drain_each drain send_queue
  drain_each-failed [] now c = refl
  drain_each-failed (start ∷ starts) now c =
      let done = drain (send_queue format answer now) now start c in
      either (λ (d : Streamer A D × Bool). d.0.failed ≡ c.failed) done.1
        (λ e. drain_each-failed starts now done.0 ∙ send_spans-failed c.spans now _)
        (λ e. send_spans-failed c.spans now _)

  written_through-failed :
      (now : ℕ) (span : A) (b : Streamer A D)
      → (written_through format answer now span b).failed ≡ b.failed
  unfolding send
  written_through-failed now span b =
      either (λ (d : Streamer A D). d.failed ≡ b.failed) b.writable (λ e. refl) (λ e. refl)

  base_write-failed : (span : A) (c : Streamer A D) → (base_write span c).failed ≡ c.failed
  unfolding base_write add_to_queue
  base_write-failed span c =
      either (λ (d : Streamer A D). d.failed ≡ c.failed) c.writable (λ e. refl)
        (λ e.
          either (λ (d : Streamer A D). d.failed ≡ c.failed) (ltb (length c.spans) c.queue_size)
            (λ room. refl) (λ full. refl))

  -- No write fails.
  step-failed :
      (e : Event format answer) (c : Streamer A D) → (step format answer e c).failed ≡ c.failed
  unfolding step write on_connected connect_stream on_drained on_drain send_queue on_disconnected
  step-failed (writes now span) c =
      written_through-failed now span (base_write span c) ∙ base_write-failed span c
  step-failed (connects now) c = send_spans-failed c.spans now _
  step-failed disconnects c = refl
  step-failed (drains now) c = drain_each-failed c.drains now _

  -- A span is kept if it can be written or if there is room in the queue.
  abbrev is_kept : Streamer A D → Bool
  is_kept c = c.writable || ltb (length c.spans) c.queue_size

  abbrev pub kept_now : A → Streamer A D → List A
  kept_now span c = if is_kept c then span ∷ [] else []

  abbrev Keeps : List D → Streamer A D → List D → Type 0
  Keeps before c more = contents c ≡ before ++ more

  sent-contents :
      (now : ℕ) (span : A) (c : Streamer A D)
      → c.spans ≡ []
      → contents (send answer now (format span) 1 (record c { seen = suc c.seen })).0
        ≡ contents c ++ format span ∷ []
  unfolding send
  sent-contents now span c e =
      let nothing : map format c.spans ≡ [] = ap (map format) e in
      ap (λ l. (c.written ++ format span ∷ []) ++ l) nothing
      ∙ append-nil (c.written ++ format span ∷ [])
      ∙ ap (λ l. l ++ format span ∷ [])
          (sym (append-nil c.written) ∙ ap (λ l. c.written ++ l) (sym nothing))

  -- What is found after a write that is kept, or not.
  abbrev Holds : A → Streamer A D → Bool → Streamer A D → Type 0
  Holds span c kept d = contents d ≡ contents c ++ map format (if kept then span ∷ [] else [])

  waiting-Holds :
      (now : ℕ) (span : A) (c b : Streamer A D) (kept : Bool)
      → b.writable ≡ false
      → Holds span c kept b
      → Holds span c kept (written_through format answer now span b)
  waiting-Holds now span c b kept w h =
      either (Holds span c kept) b.writable (λ e. absurd (ground (arith, w, e))) (λ e. h)

  added-Holds :
      (span : A) (c : Streamer A D) (kept' : Bool)
      → kept' ≡ true
      → Holds span c kept' (add_to_queue span (record c { seen = suc c.seen }))
  unfolding add_to_queue
  added-Holds span c true e =
      ap (λ l. c.written ++ l) (map-append_last c.spans span)
      ∙ sym (append_assoc c.written (map format c.spans) (format span ∷ []))
  added-Holds span c false e = cc

  lost-Holds :
      (span : A) (c : Streamer A D) (kept' : Bool)
      → kept' ≡ false
      → Holds span c kept' (record c { seen = suc c.seen; dropped = suc c.dropped })
  lost-Holds span c true e = cc
  lost-Holds span c false e = sym (append-nil (contents c))

  on_connected-contents :
      (now : ℕ) (c : Streamer A D) → contents (on_connected format answer now c).0 ≡ contents c
  unfolding on_connected connect_stream
  on_connected-contents now c = send_queue-contents now _

  on_disconnected-contents : (c : Streamer A D) → contents (on_disconnected c) ≡ contents c
  unfolding on_disconnected
  on_disconnected-contents c = refl

  on_drained-contents :
      (now : ℕ) (c : Streamer A D) → contents (on_drained format answer now c).0 ≡ contents c
  unfolding on_drained on_drain
  on_drained-contents now c = drain_each-contents c.drains now _

  write-contents :
      (now : ℕ) (span : A) (c : Streamer A D)
      → (c.writable ≡ true → c.spans ≡ [])
      → contents (write format answer now span c) ≡ contents c ++ map format (kept_now span c)
  unfolding write base_write add_to_queue
  write-contents now span c idle =
      either (λ b. Holds span c (is_kept c) (written_through format answer now span b)) c.writable
        (λ w.
          either (Holds span c (is_kept c)) c.writable
            (λ e. rw w (sent-contents now span c (idle w))) (λ e. absurd (ground (arith, w, e))))
        (λ w.
          either (λ b. Holds span c (is_kept c) (written_through format answer now span b))
            (ltb (length c.spans) c.queue_size)
            (λ room.
              waiting-Holds now span c _ (is_kept c) w
                (added-Holds span c (is_kept c) (ground (arith, w, room))))
            (λ full.
              waiting-Holds now span c _ (is_kept c) w
                (lost-Holds span c (is_kept c) (ground (arith, w, full)))))

  -- The spans that are kept of those that are written.
  unfoldable pub kept : List (Event format answer) → Streamer A D → List A
  kept [] c = []
  kept (writes now span ∷ es) c =
      kept_now span c ++ kept es (step format answer (writes now span) c)
  kept (connects now ∷ es) c = kept es (step format answer (connects now) c)
  kept (disconnects ∷ es) c = kept es (step format answer disconnects c)
  kept (drains now ∷ es) c = kept es (step format answer (drains now) c)

  map-append : (xs ys : List A) → map format (xs ++ ys) ≡ map format xs ++ map format ys
  map-append [] ys = refl
  map-append (x ∷ xs) ys = ap (λ l. format x ∷ l) (map-append xs ys)

  run-contents :
      (es : List (Event format answer)) (c : Streamer A D)
      → IsFlowing c
      → c.failed ≡ 0
      → contents (run format answer es c) ≡ contents c ++ map format (kept es c)
  unfolding run kept step
  run-contents [] c h f = sym (append-nil (contents c))
  run-contents (writes now span ∷ es) c h f =
      run-contents es _ (step-IsFlowing format answer (writes now span) c h)
        (step-failed (writes now span) c ∙ f)
      ∙ ap (λ l. l ++ map format (kept es (write format answer now span c)))
          (write-contents now span c (λ w. h.idle w f))
      ∙ append_assoc (contents c) (map format (kept_now span c)) _
      ∙ ap (λ l. contents c ++ l)
          (sym (map-append (kept_now span c) (kept es (write format answer now span c))))
  run-contents (connects now ∷ es) c h f =
      run-contents es _ (step-IsFlowing format answer (connects now) c h)
        (step-failed (connects now) c ∙ f)
      ∙ ap (λ l. l ++ map format (kept es (on_connected format answer now c).0))
          (on_connected-contents now c)
  run-contents (disconnects ∷ es) c h f =
      run-contents es _ (step-IsFlowing format answer disconnects c h)
        (step-failed disconnects c ∙ f)
      ∙ ap (λ l. l ++ map format (kept es (on_disconnected c))) (on_disconnected-contents c)
  run-contents (drains now ∷ es) c h f =
      run-contents es _ (step-IsFlowing format answer (drains now) c h)
        (step-failed (drains now) c ∙ f)
      ∙ ap (λ l. l ++ map format (kept es (on_drained format answer now c).0))
          (on_drained-contents now c)

  -- Whatever happens to a new streamer and whatever the stream answers, as long as it never throws,
  -- what was written and then what is queued are the spans that were offered, in their order, without those that were offered when
  -- no span could be written and the queue was full.
  pub run-new-contents :
      (queue_size : ℕ) (es : List (Event format answer))
      → (run format answer es (new queue_size)).written
          ++ map format (run format answer es (new queue_size)).spans
        ≡ map format (kept es (new queue_size))
  unfolding new
  run-new-contents queue_size es =
      run-contents es (new queue_size) (new-IsFlowing format answer queue_size) refl
