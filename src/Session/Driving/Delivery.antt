-- ===== src/Session/Driving/Delivery.antt =====
-- The loop of `YamuxSession::poll_next` that hands frames to the transport: no frame is lost,
-- repeated or reordered.
use yamux_low_mem.Prelude.{
  ℕ, suc, ◌+◌, ◌≤◌, ◌<◌, ◌≡◌, refl, sym, ap, ◌∙◌, ◌⊎◌, inl, inr, Bool, true, false, List, [], ◌∷◌,
  ◌++◌, append-nil, append_assoc, arith, length, All, length-append, Poll, ready, pending, done,
  Result,
}
use yamux_low_mem.Chunk.Writer.Invariant.{Room}
use yamux_low_mem.Frame.{Frame}
use yamux_low_mem.Frame.Codec.{frame_bytes, IsSound}
use yamux_low_mem.Frame.Admitted.{frames_bytes}
use yamux_low_mem.Transport.{
  ByteStream, YamuxTransport, YamuxTransportError, with_buffer, poll_ready,
}
use yamux_low_mem.Transport.Flushing.{IsSink, Answers, buffered, poll_ready_lem, start_send_lem}
use yamux_low_mem.Session.Driving.{write_fuel, send_out}

-- All bytes behind each other that the transport was given: those that the byte stream took, and
-- those in the buffer.
abbrev pub written : {T : Type 0} → (T → List ℕ) → YamuxTransport T → List ℕ
written sent t = sent t.stream ++ buffered t

module _ {E T : Type 0} ⦃s : ByteStream E T⦄ {sent : T → List ℕ} (laws : IsSink s sent) where
  -- `poll_ready` with the fuel that the session gives it.
  ready_lem :
      (n : ℕ) (t : YamuxTransport T)
      → Room n t.writer.buffer
      → (a : Poll (Result (YamuxTransportError E) (Unit {0}))) × (t' : YamuxTransport T)
        × (poll_ready {E = E} (write_fuel t) t ≡ done (a, t'))
        × Room n t'.writer.buffer
        × (written sent t' ≡ written sent t)
        × (t' ≡ with_buffer t'.writer.buffer (record t { stream = t'.stream }))
        × (((a ≡ pending) × (t.max_writer_buffer ≤ length (buffered t')) × Answers s pending)
            ⊎ ((r : Result (YamuxTransportError E) (Unit {0})) × (a ≡ ready r)))
  ready_lem n t room =
      let (a, t', run, valid, same, fewer, kept, stop) =
        poll_ready_lem laws t room.valid (omega (arith, room.fits)) in
      (
        a,
        t',
        ap (λ k. poll_ready {E = E} (suc k) t) room.valid.counted ∙ run,
        record { valid = valid; fits = omega (arith, room.fits, fewer) },
        same,
        kept,
        elim stop [
          | inl (welcome, _) ↦ inr (_, welcome)
          | inr (inl (waits, full, cause)) ↦ inl (waits, full, cause)
          | inr (inr (e, failed, cause)) ↦ inr (_, failed)
        ],
      )

  -- With room for all the frames, which are sound: the loop of YamuxSession::poll_next that hands
  -- frames to the transport ends without a panic; it hands over a front part of the frames, and
  -- keeps the others in order; the bytes that the transport was given grow by exactly those of the
  -- frames handed over; it reports a send exactly if there was one; and it stops only with no
  -- frame left, or when the byte stream makes it wait with max_writer_buffer bytes or more in the
  -- buffer.
  pub send_out_lem :
      (frames : List Frame) (n : ℕ) (t : YamuxTransport T)
      → All IsSound frames
      → Room (length (frames_bytes frames) + n) t.writer.buffer
      → (any : Bool) × (handed : List Frame) × (rest : List Frame) × (t' : YamuxTransport T)
        × (send_out E frames t ≡ done (any, (rest, t')))
        × (frames ≡ handed ++ rest)
        × (written sent t' ≡ written sent t ++ frames_bytes handed)
        × Room (length (frames_bytes rest) + n) t'.writer.buffer
        × (t' ≡ with_buffer t'.writer.buffer (record t { stream = t'.stream }))
        × (((any ≡ false) × (handed ≡ [])) ⊎ ((any ≡ true) × (0 < length handed)))
        × ((rest ≡ []) ⊎ ((t.max_writer_buffer ≤ length (buffered t')) × Answers s pending))
  unfolding send_out
  send_out_lem [] n t sound room = (
    false,
    [],
    [],
    t,
    refl,
    refl,
    sym (append-nil (written sent t)),
    room,
    refl,
    inl (refl, refl),
    inl refl,
  )
  send_out_lem (frame ∷ frames) n t (sound_frame, sound) room =
      let (a, t1, polled, room1, same, kept, stop) =
        ready_lem (length (frames_bytes (frame ∷ frames)) + n) t room in
      elim stop [
        | inl (waits, full, cause) ↦ (
          false,
          [],
          frame ∷ frames,
          t1,
          rw (polled, waits) refl,
          refl,
          same ∙ sym (append-nil (written sent t)),
          room1,
          kept,
          inl (refl, refl),
          inr (full, cause),
        )
        | inr (r, welcome) ↦
            let (t2, started, room2, kept2, grown) =
              start_send_lem sent frame (length (frames_bytes frames) + n) t1 sound_frame (record {
                valid = room1.valid;
                fits =
                    omega
                      (arith, room1.fits, length-append (frame_bytes frame) (frames_bytes frames));
              }) in
            let (any, handed, rest, t', run, cut, out, room', kept', _, stop') =
              send_out_lem frames n t2 sound room2 in
            let limit : t2.max_writer_buffer ≡ t.max_writer_buffer =
              ap (λ y. y.max_writer_buffer) kept2 ∙ ap (λ y. y.max_writer_buffer) kept in
            (
              true,
              frame ∷ handed,
              rest,
              t',
              rw (polled, welcome, started, run) refl,
              ap (◌∷◌ frame) cut,
              out
                  ∙ ap (λ q. q ++ frames_bytes handed)
                      (grown ∙ ap (λ q. q ++ frame_bytes frame) same)
                  ∙ append_assoc (written sent t) (frame_bytes frame) (frames_bytes handed),
              room',
              kept'
                  ∙ ap (λ y. with_buffer t'.writer.buffer (record y { stream = t'.stream }))
                      (kept2 ∙ ap (with_buffer t2.writer.buffer) kept),
              inr (refl, omega arith),
              elim stop' [
                | inl over ↦ inl over
                | inr (full, cause) ↦ inr (omega (arith, full, limit), cause)
              ],
            )
      ]
