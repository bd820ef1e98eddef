-- ===== src/Session/Receiving/Loop.antt =====
-- `YamuxSession::poll_next`: its loop over received frames, on any bytes.
use yamux_low_mem.Prelude.{
  ℕ, zero, suc, ◌<◌, ◌≡◌, refl, sym, ap, ap₂, subst, ◌∙◌, ◌⊎◌, inl, inr, Option, none, some, List,
  [], ◌∷◌, ◌++◌, arith, All, Poll, ready, pending, done, Result, ok, err,
}
use yamux_low_mem.Chunk.View.{ChunkView}
use yamux_low_mem.Chunk.Writer.Invariant as Writer
use yamux_low_mem.Frame.{Frame, PendingPayload, admit}
use yamux_low_mem.Frame.Admitted.{admit_all}
use yamux_low_mem.Stream.{Channel}
use yamux_low_mem.Stream.Sent.{IsSmall}
use yamux_low_mem.Stream.Handle.{YamuxStream}
use yamux_low_mem.Transport.{ByteStream, YamuxTransport, YamuxTransportError}
use yamux_low_mem.Transport
use yamux_low_mem.Transport.Reading.{IsSource, work, IsReading, Arrived}
use yamux_low_mem.Transport.Reading.Loop.{poll_next-Arrived}
use yamux_low_mem.Session.{YamuxSession}
use yamux_low_mem.Session.Draining.Order.{IsReady}
use yamux_low_mem.Session.Driving.Order.{IsOrdered}
use yamux_low_mem.Session.Receiving.Handled.{
  Handled, waits, ended, failed, goes_on, ends_session, opens_stream,
}
use yamux_low_mem.Session.Receiving.{Verdict, proceed, closed, accepted, Ends, on_frame, receive}
use yamux_low_mem.Session.Receiving.Invariant.{on_frame-IsOrdered}

module _ {T S R : Type 0} (queued : R → List ChunkView) (avail sent : T → List ℕ) where
  -- A session between two steps of `poll_next`, with the frames that the transport was given.
  pub record IsRunning (given : List Frame) (x : YamuxSession T S R) : Type 0 where
    pub heads : All (IsReady queued) x.streams
    pub ordered : IsOrdered sent given x
    pub reading : IsReading avail x.transport

  -- What the loop over received frames leaves of the session.
  pub record Received (given : List Frame) (x x' : YamuxSession T S R) : Type 0 where
    pub running : IsRunning given x'
    pub writer : x'.transport.writer ≡ x.transport.writer
    pub manual : x'.manual_close ≡ x.manual_close
    pub quiet : sent x'.transport.stream ≡ sent x.transport.stream

  Received-after :
      (given : List Frame) (x y x' : YamuxSession T S R)
      → y.transport.writer ≡ x.transport.writer
      → y.manual_close ≡ x.manual_close
      → sent y.transport.stream ≡ sent x.transport.stream
      → Received given y x'
      → Received given x x'
  Received-after given x y x' writer manual quiet r = record {
    running = r.running;
    writer = r.writer ∙ writer;
    manual = r.manual ∙ manual;
    quiet = r.quiet ∙ quiet;
  }

module _ {E T S R : Type 0} {queued : R → List ChunkView} {avail sent : T → List ℕ} where
  -- The session with the transport after a call of its `poll_next`.
  arrived :
      (given : List Frame) (x : YamuxSession T S R) (t : YamuxTransport T)
      (a : Poll (Option (Result (YamuxTransportError E) Frame)))
      → IsRunning queued avail sent given x
      → Arrived avail sent x.transport t a
      → IsRunning queued avail sent given (record x { transport = t })
        × (t.writer ≡ x.transport.writer)
  arrived given x t a g r =
      let writer : t.writer ≡ x.transport.writer = ap (λ y. y.writer) r.kept in
      (
        record {
          heads = g.heads;
          ordered = record {
            sound = g.ordered.sound;
            given_sound = g.ordered.given_sound;
            admitted = g.ordered.admitted;
            bytes = ap₂ (λ u w. u ++ Writer.bytes w.buffer) r.quiet writer ∙ g.ordered.bytes;
          };
          reading = r.reading;
        },
        writer,
      )

module _ {E T S R S' R' : Type 0} ⦃s : ByteStream E T⦄ ⦃ch : Channel S R⦄
    (queued : R → List ChunkView) {avail sent : T → List ℕ} (laws : IsSource s avail sent)
    (reads : ℕ) (ends : Ends S R S' R') (given : List Frame) where
  -- What `receive` is to end with.
  abbrev Receives : ℕ → YamuxSession T S R → Type 0
  Receives fuel x =
      (v : Verdict (YamuxStream S' R')) × (x' : YamuxSession T S R) × (receive E fuel reads ends x
        ≡ done (v, x'))
      × Received queued avail sent given x x'
      × (frames : List Frame) × (left : Option PendingPayload) × Handled E reads ends x frames v x'
      × (admit_all x.transport.reader.pending frames ≡ ok left)

  -- The verdict on a frame decides whether the loop goes on.
  by_verdict :
      (fuel : ℕ) (x x2 : YamuxSession T S R) (frame : Frame) (t : YamuxTransport T)
      (v : Verdict (YamuxStream S' R'))
      → Transport.poll_next {E = E} reads x.transport ≡ done (ready (some (ok frame)), t)
      → on_frame frame ends (record x { transport = t }) ≡ done (v, x2)
      → IsRunning queued avail sent given x2
      → admit x.transport.reader.pending frame ≡ ok x2.transport.reader.pending
      → x2.transport.writer ≡ x.transport.writer
      → x2.manual_close ≡ x.manual_close
      → sent x2.transport.stream ≡ sent x.transport.stream
      → Receives fuel x2
      → Receives (suc fuel) x
  unfolding receive
  by_verdict fuel x x2 frame t proceed polled run g first writer manual quiet
        (v, x', rest, r, frames, left, handled, order) =
      (
        v,
        x',
        rw (polled, run) rest,
        Received-after queued avail sent given x x2 x' writer manual quiet r,
        frame ∷ frames,
        left,
        goes_on polled run handled,
        rw (first, admit_all) order,
      )
  by_verdict fuel x x2 frame t closed polled run g first writer manual quiet rest = (
    closed,
    x2,
    rw (polled, run) refl,
    record { running = g; writer = writer; manual = manual; quiet = quiet },
    frame ∷ [],
    x2.transport.reader.pending,
    ends_session polled run,
    rw (first, admit_all) refl,
  )
  by_verdict fuel x x2 frame t (accepted handle) polled run g first writer manual quiet rest = (
    accepted handle,
    x2,
    rw (polled, run) refl,
    record { running = g; writer = writer; manual = manual; quiet = quiet },
    frame ∷ [],
    x2.transport.reader.pending,
    opens_stream handle polled run,
    rw (first, admit_all) refl,
  )

  -- The loop returns without a frame.
  no_frame :
      (fuel : ℕ) (x : YamuxSession T S R) (t : YamuxTransport T)
      (a : Poll (Option (Result (YamuxTransportError E) Frame)))
      → Transport.poll_next {E = E} reads x.transport ≡ done (a, t)
      → (a ≡ pending)
        ⊎ ((a ≡ ready none) ⊎ ((e : YamuxTransportError E) × (a ≡ ready (some (err e)))))
      → IsRunning queued avail sent given (record x { transport = t })
      → t.writer ≡ x.transport.writer
      → sent t.stream ≡ sent x.transport.stream
      → Receives (suc fuel) x
  unfolding receive
  no_frame fuel x t a polled stop g writer quiet =
      let x1 : YamuxSession T S R = record x { transport = t } in
      let r : Received queued avail sent given x x1 = record {
        running = g;
        writer = writer;
        manual = refl;
        quiet = quiet;
      } in
      let left : Option PendingPayload = x.transport.reader.pending in
      elim stop [
        | inl e ↦ (proceed, x1, rw (polled, e) refl, r, [], left, waits cc, refl)
        | inr (inl e) ↦ (closed, x1, rw (polled, e) refl, r, [], left, ended cc, refl)
        | inr (inr (why, e)) ↦ (closed, x1, rw (polled, e) refl, r, [], left, failed why cc, refl)
      ]

  -- Over a byte stream on which finitely many bytes have arrived, from a session whose heads are
  -- ready and whose frames so far, given and queued, are a sequence that a FrameWriter admits,
  -- with chunks of at most one chunk capacity to come from the local side of a new stream, and
  -- with more fuel than twice the bytes to read, and one more if a payload is pending: the loop of
  -- YamuxSession::poll_next over received frames ends without a panic, whatever the bytes are. The
  -- frames that it handled, which the transport yielded one after the other until one of them
  -- ended the loop or the transport had no more, are those that a FrameWriter in the state of the
  -- reader at the start would admit in this order. The loop writes nothing, and keeps what was
  -- said of the session.
  pub receive-Received :
      (fuel : ℕ) (x : YamuxSession T S R)
      → All IsSmall (queued ends.rx)
      → IsRunning queued avail sent given x
      → work avail x.transport < fuel
      → work avail x.transport < reads
      → (v : Verdict (YamuxStream S' R')) × (x' : YamuxSession T S R) × (receive E fuel reads ends x
          ≡ done (v, x'))
        × Received queued avail sent given x x'
        × (frames : List Frame) × (left : Option PendingPayload) × Handled E reads ends x frames v
            x'
        × (admit_all x.transport.reader.pending frames ≡ ok left)
  receive-Received zero x small g enough more = absurd (omega arith)
  receive-Received (suc fuel) x small g enough more =
      let (a, t, polled, r) =
        poll_next-Arrived laws reads x.transport g.reading (omega (arith, more)) in
      let (g1, writer) = arrived given x t a g r in
      elim r.outcome [
        | inr stop ↦ no_frame fuel x t a polled stop g1 writer r.quiet
        | inl (frame, yields, sound, first, less) ↦
            let x1 : YamuxSession T S R = record x { transport = t } in
            let (v, x2, run, heads, ordered, kept) =
              on_frame-IsOrdered queued sent given frame ends x1 sound small g1.heads g1.ordered in
            let same : x2.transport ≡ t = ap (λ y. y.transport) kept in
            let g2 : IsRunning queued avail sent given x2 = record {
              heads = heads;
              ordered = ordered;
              reading = subst (IsReading avail) (sym same) g1.reading;
            } in
            let fewer : work avail x2.transport < work avail x.transport =
              subst (λ u. work avail u < work avail x.transport) (sym same) less in
            by_verdict fuel x x2 frame t v (polled ∙ ap (λ b. done (b, t)) yields) run g2
              (first ∙ ap (λ u. ok u.reader.pending) (sym same)) (ap (λ u. u.writer) same ∙ writer)
              (ap (λ y. y.manual_close) kept) (ap (λ u. sent u.stream) same ∙ r.quiet)
              (receive-Received fuel x2 small g2 (omega (arith, enough, fewer))
                (omega (arith, more, fewer)))
      ]
