-- ===== src/Session/Driving/Rest.antt =====
-- `YamuxSession::poll_next` from its loop over the heads on.
use yamux_low_mem.Prelude.{
  ℕ, suc, ◌+◌, ◌≡◌, refl, sym, ap, subst, ◌∙◌, ◌⊎◌, inl, inr, Bool, true, false, ◌||◌, Option, none,
  List, ◌++◌, arith, length, All, Poll, ready, pending, done,
}
use yamux_low_mem.Chunk.View.{ChunkView}
use yamux_low_mem.Chunk.Writer.Invariant.{Room}
use yamux_low_mem.Packet.{StreamId}
use yamux_low_mem.Frame.{Frame}
use yamux_low_mem.Frame.Admitted.{frames_bytes}
use yamux_low_mem.Stream.{Channel, YamuxStreamHead}
use yamux_low_mem.Stream.Handle.{YamuxStream}
use yamux_low_mem.Stream.Sent.{IsReceiver}
use yamux_low_mem.Transport.{ByteStream, poll_write, poll_flush}
use yamux_low_mem.Transport.Flushing.{IsSink, poll_write_lem}
use yamux_low_mem.Session.{YamuxSession}
use yamux_low_mem.Session.Draining.{remove_all}
use yamux_low_mem.Session.Draining.Order.{IsReady, Enough, AllDrained, drain_heads_lem}
use yamux_low_mem.Session.Driving.{send_rest, flush, write_fuel}
use yamux_low_mem.Session.Driving.Order.{IsOrdered, IsOrdered-append, send_queue-IsOrdered}

module _ {E T S R S' R' : Type 0} ⦃s : ByteStream E T⦄ {sent : T → List ℕ}
    (laws : IsSink s sent) where
  -- `poll_flush` after a send: nothing that was given is lost.
  flush-IsOrdered :
      (any : Bool) (n : ℕ) (given : List Frame) (x : YamuxSession T S R)
      → IsOrdered sent given x
      → Room n x.transport.writer.buffer
      → (a : Poll (Option (YamuxStream S' R'))) × (x' : YamuxSession T S R) × (flush E any x
          ≡ done (a, x'))
        × IsOrdered sent given x'
        × (x'.streams ≡ x.streams)
        × (x'.transport.reader ≡ x.transport.reader)
        × ((a ≡ pending) ⊎ (a ≡ ready none))
  unfolding flush poll_flush
  flush-IsOrdered false n given x o room = (pending, x, refl, o, refl, refl, inl refl)
  flush-IsOrdered true n given x o room =
      let (a, t', run, _, same, _, kept, stop) =
        poll_write_lem laws x.transport room.valid (omega (arith, room.fits)) in
      let x' : YamuxSession T S R = record x { transport = t' } in
      let polled : poll_write {E = E} (write_fuel x.transport) x.transport ≡ done (a, t') =
        ap (λ k. poll_write {E = E} (suc k) x.transport) room.valid.counted ∙ run in
      let o' : IsOrdered sent given x' = record {
        sound = o.sound;
        given_sound = o.given_sound;
        admitted = o.admitted;
        bytes = same ∙ o.bytes;
      } in
      let reader : t'.reader ≡ x.transport.reader = ap (λ u. u.reader) kept in
      elim stop [
        | inl (flushed, _) ↦ (pending, x', rw (polled, flushed) refl, o', refl, reader, inl refl)
        | inr (inl (waits, _)) ↦ (pending, x', rw (polled, waits) refl, o', refl, reader, inl refl)
        | inr (inr (e, failed, _)) ↦
            (ready none, x', rw (polled, failed) refl, o', refl, reader, inr refl)
      ]

module _ {E T S R S' R' : Type 0} ⦃s : ByteStream E T⦄ ⦃ch : Channel S R⦄ {sent : T → List ℕ}
    {queued : R → List ChunkView} (writes : IsSink s sent)
    (takes : IsReceiver ch.poll_next queued) where
  -- From a session whose frames so far, given and queued, are a sequence that a FrameWriter
  -- admits, whose heads are ready, with enough fuel for each head, and with room for the frames
  -- that are queued and for those that the heads yield: the second half of
  -- YamuxSession::poll_next, from the loop over the heads on, ends without a panic and waits or
  -- ends the session; it hands over a front part of all these frames, and what was given and what
  -- is queued is again a sequence that a FrameWriter admits, the given part being all that was
  -- written; and the heads that stay are ready.
  pub send_rest-IsOrdered :
      (drains polls n : ℕ) (any : Bool) (given : List Frame) (x : YamuxSession T S R)
      → IsOrdered sent given x
      → All (IsReady queued) x.streams
      → All (Enough queued drains polls) x.streams
      → ((heads : List (StreamId × YamuxStreamHead S R)) (frames : List Frame) (ids : List StreamId)
          → AllDrained queued x.streams heads frames ids
          → Room (length (frames_bytes (x.out_queue ++ frames)) + n) x.transport.writer.buffer)
      → (a : Poll (Option (YamuxStream S' R'))) × (x' : YamuxSession T S R) × (handed : List Frame)
        × (send_rest E drains polls any x ≡ done (a, x'))
        × IsOrdered sent (given ++ handed) x'
        × All (IsReady queued) x'.streams
        × (x'.transport.reader ≡ x.transport.reader)
        × ((a ≡ pending) ⊎ (a ≡ ready none))
  unfolding send_rest
  send_rest-IsOrdered drains polls n any given x o r enough room =
      let (heads, frames, ids, run, ds, admitted, sound, still) =
        drain_heads_lem takes drains polls x r enough in
      let x1 : YamuxSession T S R = record x {
        streams = remove_all ids heads;
        out_queue = x.out_queue ++ frames;
      } in
      let o0 : IsOrdered sent given (record x { out_queue = x.out_queue ++ frames }) =
        IsOrdered-append x frames o admitted sound in
      let o1 : IsOrdered sent given x1 = record {
        sound = o0.sound;
        given_sound = o0.given_sound;
        admitted = o0.admitted;
        bytes = o0.bytes;
      } in
      let (any', x2, sends, h) =
        send_queue-IsOrdered writes n given x1 o1 (room heads frames ids ds) in
      let low : Room n x2.transport.writer.buffer = record {
        valid = h.room.valid;
        fits = omega (arith, h.room.fits);
      } in
      let (a, x', flushes, o', same, reader, stop) =
        flush-IsOrdered writes (any || any') n (given ++ h.handed) x2 h.ordered low in
      (
        a,
        x',
        h.handed,
        rw (run, sends, flushes) refl,
        o',
        subst (All (IsReady queued)) (sym (same ∙ ap (λ y. y.streams) h.kept)) still,
        reader ∙ h.reader,
        stop,
      )
