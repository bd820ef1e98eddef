-- ===== src/Transport/Flushing.antt =====
-- `YamuxTransport`: what reaches the byte stream is what was encoded, in order.
use yamux_low_mem.Prelude.{
  ℕ, zero, suc, ◌+◌, ◌^◌, ◌≤◌, ◌<◌, ◌≡◌, refl, sym, ap, ap₂, ◌∙◌, ◌⊎◌, inl, inr, some, List, [],
  ◌++◌, append_assoc, arith, leb, leb→le, Bool-cases, length, take, drop, length-append,
  take-append-drop, length-drop, drop-append_le, Poll, ready, pending, done, Result, ok, err,
}
use yamux_low_mem.Chunk.Writer.{front_slice, writer}
use yamux_low_mem.Chunk.Writer.Invariant.{IsValid, Room, bytes}
use yamux_low_mem.Chunk.Writer.Drain.{front_slice_lem, consume_front_lem}
use yamux_low_mem.Chunk.Writer.Append.{writer-IsWriter}
use yamux_low_mem.Frame.{Frame}
use yamux_low_mem.Frame.Codec.{frame_bytes, IsSound, frame-Writes}
use yamux_low_mem.Transport.{
  ByteStream, YamuxTransport, YamuxTransportError, io, with_buffer, poll_write, poll_ready,
  start_send,
}

-- What the code relies on of `AsyncWrite`: a write of some bytes accepts at least one of them, and
-- those from the front, or waits, or fails.
pub record IsSink {E T : Type 0} (s : ByteStream E T) (sent : T → List ℕ) : Type 0 where
  pub write_some :
      (ys : List ℕ) (t : T)
      → 0 < length ys
      → ((n : ℕ) × (t' : T) × (s.poll_write ys t ≡ (ready (ok n), t'))
          × (1 ≤ n)
          × (n ≤ length ys)
          × (sent t' ≡ sent t ++ take n ys))
        ⊎ (((t' : T) × (s.poll_write ys t ≡ (pending, t')) × (sent t' ≡ sent t))
            ⊎ ((e : E) × (t' : T) × (s.poll_write ys t ≡ (ready (err e), t')) × (sent t' ≡ sent t)))

-- The byte stream gives an answer for some bytes to write.
abbrev pub Answers : {E T : Type 0} → ByteStream E T → Poll (Result E ℕ) → Type 0
Answers {T} s answer =
    (ys : List ℕ) × (t : T) × (t' : T) × (0 < length ys) × (s.poll_write ys t ≡ (answer, t'))

abbrev pub buffered : {T : Type 0} → YamuxTransport T → List ℕ
buffered x = bytes x.writer.buffer

module _ {E T : Type 0} ⦃s : ByteStream E T⦄ {sent : T → List ℕ} (laws : IsSink s sent) where
  -- What `poll_write` is to end with.
  abbrev Flushed : ℕ → YamuxTransport T → Type 0
  Flushed fuel x =
      (a : Poll (Result (YamuxTransportError E) (Unit {0}))) × (x' : YamuxTransport T) × (poll_write
          fuel x
        ≡ done (a, x'))
      × IsValid x'.writer.buffer
      × (sent x'.stream ++ buffered x' ≡ sent x.stream ++ buffered x)
      × (length (bytes x'.writer.buffer) ≤ length (bytes x.writer.buffer))
      × (x' ≡ with_buffer x'.writer.buffer (record x { stream = x'.stream }))
      × (((a ≡ ready (ok tt)) × (buffered x' ≡ []))
          ⊎ (((a ≡ pending) × Answers s pending)
              ⊎ ((e : E) × (a ≡ ready (err (io e))) × Answers s (ready (err e)))))

  wrote_some :
      (fuel : ℕ) (x : YamuxTransport T) (f : List ℕ) (rest : List ℕ) (n : ℕ) (t : T)
      → ((g : YamuxTransport T)
          → IsValid g.writer.buffer
          → length (buffered g) < 2 ^ 63
          → length (buffered g) < fuel
          → Flushed fuel g)
      → IsValid x.writer.buffer
      → length (buffered x) < suc fuel
      → length (buffered x) < 2 ^ 63
      → front_slice x.writer.buffer ≡ done (some f)
      → buffered x ≡ f ++ rest
      → s.poll_write f x.stream ≡ (ready (ok n), t)
      → 1 ≤ n
      → n ≤ length f
      → sent t ≡ sent x.stream ++ take n f
      → Flushed (suc fuel) x
  unfolding poll_write
  wrote_some fuel x f rest n t ih v small low front cut run least most out =
      let (w, used, v', left) = consume_front_lem n x.writer.buffer v low front most in
      let g : YamuxTransport T = with_buffer w (record x { stream = t }) in
      let back : bytes w ≡ drop n f ++ rest =
        left ∙ ap (drop n) cut ∙ drop-append_le n f rest most in
      let shorter : length (bytes w) + n ≡ length (buffered x) = omega (
        arith,
        ap length back,
        ap length cut,
        length-append (drop n f) rest,
        length-append f rest,
        length-drop n f,
      ) in
      let (a, x', rest_run, valid, same, fewer, kept, stop) =
        ih g v' (omega (arith, shorter)) (omega (arith, shorter)) in
      (
        a,
        x',
        rw (front, run, used)
            (ap
                (λ (p : Poll (Result E ℕ) × T).
                  poll_write fuel (with_buffer w (record x { stream = p.1 })))
                run
              ∙ rest_run),
        valid,
        same
            ∙ ap₂ ◌++◌ out back
            ∙ append_assoc (sent x.stream) (take n f) (drop n f ++ rest)
            ∙ ap (λ q. sent x.stream ++ q)
                (sym (append_assoc (take n f) (drop n f) rest)
                  ∙ ap (λ q. q ++ rest) (take-append-drop n f)
                  ∙ sym cut),
        omega (arith, fewer, shorter),
        kept,
        stop,
      )

  flush :
      (fuel : ℕ) (x : YamuxTransport T)
      → IsValid x.writer.buffer
      → length (buffered x) < 2 ^ 63
      → length (buffered x) < fuel
      → Flushed fuel x
  unfolding poll_write
  flush zero x v low small = absurd (omega arith)
  flush (suc fuel) x v low small = elim (front_slice_lem x.writer.buffer v) [
    | inl (front, empty) ↦
        (ready (ok tt), x, rw front refl, v, refl, omega arith, refl, inl (refl, empty))
    | inr (f, rest, front, pos, cut) ↦ elim (laws.write_some f x.stream pos) [
      | inl (n, t, run, least, most, out) ↦
          wrote_some fuel x f rest n t (flush fuel) v small low front cut run least most out
      | inr (inl (t, run, out)) ↦ (
        pending,
        record x { stream = t },
        rw (front, run)
            (ap (λ (p : Poll (Result E ℕ) × T). done (pending, record x { stream = p.1 })) run),
        v,
        ap (λ q. q ++ buffered x) out,
        omega arith,
        refl,
        inr (inl (refl, (f, x.stream, t, pos, run))),
      )
      | inr (inr (e, t, run, out)) ↦ (
        ready (err (io e)),
        record x { stream = t },
        rw (front, run)
            (ap
              (λ (p : Poll (Result E ℕ) × T). done (ready (err (io e)), record x { stream = p.1 }))
              run),
        v,
        ap (λ q. q ++ buffered x) out,
        omega arith,
        refl,
        inr (inr (e, refl, (f, x.stream, t, pos, run))),
      )
    ]
  ]

  -- Over a byte stream whose writes accept at least one byte, from the front, or wait, or fail:
  -- from a well-formed buffer of less than 2^63 bytes, and with one more round than there are
  -- bytes as its fuel, YamuxTransport::poll_write ends without a panic; the bytes that reached the
  -- stream and those still buffered, one after the other, are what they were, so none is lost,
  -- repeated or reordered; the buffer does not grow, and nothing else changes; and it answers that
  -- all is written with an empty buffer, or waits where the stream does, or passes on the stream's
  -- error.
  pub poll_write_lem :
      (x : YamuxTransport T)
      → IsValid x.writer.buffer
      → length (bytes x.writer.buffer) < 2 ^ 63
      → (a : Poll (Result (YamuxTransportError E) (Unit {0}))) × (x' : YamuxTransport T)
        × (poll_write (suc (length (bytes x.writer.buffer))) x ≡ done (a, x'))
        × IsValid x'.writer.buffer
        × (sent x'.stream ++ bytes x'.writer.buffer ≡ sent x.stream ++ bytes x.writer.buffer)
        × (length (bytes x'.writer.buffer) ≤ length (bytes x.writer.buffer))
        × (x' ≡ with_buffer x'.writer.buffer (record x { stream = x'.stream }))
        × (((a ≡ ready (ok tt)) × (bytes x'.writer.buffer ≡ []))
            ⊎ (((a ≡ pending) × Answers s pending)
                ⊎ ((e : E) × (a ≡ ready (err (io e))) × Answers s (ready (err e)))))
  poll_write_lem x v low = flush (suc (length (buffered x))) x v low (omega arith)

  -- Over a byte stream as for poll_write, YamuxTransport::poll_ready ends; it welcomes another
  -- frame only with an empty buffer or with less than max_writer_buffer bytes in it, makes the
  -- caller wait only where the stream waits and with that many bytes or more in it, or passes on
  -- the stream's error, and loses no byte.
  pub poll_ready_lem :
      (x : YamuxTransport T)
      → IsValid x.writer.buffer
      → length (bytes x.writer.buffer) < 2 ^ 63
      → (a : Poll (Result (YamuxTransportError E) (Unit {0}))) × (x' : YamuxTransport T)
        × (poll_ready (suc (length (bytes x.writer.buffer))) x ≡ done (a, x'))
        × IsValid x'.writer.buffer
        × (sent x'.stream ++ bytes x'.writer.buffer ≡ sent x.stream ++ bytes x.writer.buffer)
        × (length (bytes x'.writer.buffer) ≤ length (bytes x.writer.buffer))
        × (x' ≡ with_buffer x'.writer.buffer (record x { stream = x'.stream }))
        × (((a ≡ ready (ok tt))
              × ((bytes x'.writer.buffer ≡ [])
                  ⊎ (length (bytes x'.writer.buffer) < x.max_writer_buffer)))
            ⊎ (((a ≡ pending)
                  × (x.max_writer_buffer ≤ length (bytes x'.writer.buffer))
                  × Answers s pending)
                ⊎ ((e : E) × (a ≡ ready (err (io e))) × Answers s (ready (err e)))))
  unfolding poll_ready
  poll_ready_lem x v low =
      let (a, x', run, valid, same, fewer, kept, stop) = poll_write_lem x v low in
      let limit : x'.max_writer_buffer ≡ x.max_writer_buffer = ap (λ y. y.max_writer_buffer) kept in
      elim stop [
        | inl (flushed, empty) ↦ (
          ready (ok tt),
          x',
          rw (run, flushed) refl,
          valid,
          same,
          fewer,
          kept,
          inl (refl, inl empty),
        )
        | inr (inl (waits, cause)) ↦
            elim (Bool-cases (leb x'.max_writer_buffer x'.writer.buffer.filled)) [
              | inl full ↦ (
                pending,
                x',
                rw (run, waits, full) refl,
                valid,
                same,
                fewer,
                kept,
                inr (inl (refl, omega (arith, limit, valid.counted, leb→le _ _ full), cause)),
              )
              | inr space ↦ (
                ready (ok tt),
                x',
                rw (run, waits, space) refl,
                valid,
                same,
                fewer,
                kept,
                inl (refl, inr (ground (arith, limit, valid.counted))),
              )
            ]
        | inr (inr (e, failed, cause)) ↦ (
          ready (err (io e)),
          x',
          rw (run, failed) refl,
          valid,
          same,
          fewer,
          kept,
          inr (inr (e, refl, cause)),
        )
      ]

module _ {T : Type 0} (sent : T → List ℕ) where
  -- With room for a sound frame, YamuxTransport::start_send appends the bytes of that frame to all
  -- that was sent or buffered before, keeps the buffer well formed, and changes nothing else.
  pub start_send_lem :
      (frame : Frame) (n : ℕ) (x : YamuxTransport T)
      → IsSound frame
      → Room (length (frame_bytes frame) + n) x.writer.buffer
      → (x' : YamuxTransport T) × (start_send frame x ≡ done x')
        × Room n x'.writer.buffer
        × (x' ≡ with_buffer x'.writer.buffer x)
        × (sent x'.stream ++ bytes x'.writer.buffer
            ≡ (sent x.stream ++ bytes x.writer.buffer) ++ frame_bytes frame)
  unfolding start_send
  start_send_lem frame n x sound room =
      let (w, run, room', grown) =
        frame-Writes writer-IsWriter frame sound n x.writer.buffer room in
      (
        with_buffer w x,
        rw run refl,
        room',
        refl,
        ap (λ q. sent x.stream ++ q) grown
            ∙ sym (append_assoc (sent x.stream) (bytes x.writer.buffer) (frame_bytes frame)),
      )
