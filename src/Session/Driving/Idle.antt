-- ===== src/Session/Driving/Idle.antt =====
-- `YamuxSession::poll_next` when there is no frame to send: bytes that are left in the buffer of the
-- transport stay there.
use yamux_low_mem.Prelude.{
  ℕ, ◌<◌, ◌≡◌, refl, sym, ap, ◌∙◌, false, List, [], ◌∷◌, ◌++◌, append-nil, All, pending, done,
}
use yamux_low_mem.Chunk.View.{ChunkView}
use yamux_low_mem.Packet.{StreamId}
use yamux_low_mem.Frame.{Frame}
use yamux_low_mem.Stream.{Channel, YamuxStreamHead}
use yamux_low_mem.Stream.Sent.{IsSmall}
use yamux_low_mem.Transport.{ByteStream}
use yamux_low_mem.Transport.Reading.{IsSource, work}
use yamux_low_mem.Session.{YamuxSession}
use yamux_low_mem.Session.Receiving.{proceed, Ends, receive}
use yamux_low_mem.Session.Receiving.Loop.{IsRunning, receive-Received}
use yamux_low_mem.Session.Draining.{drain_all, drain_heads, remove_all}
use yamux_low_mem.Session.Driving.{send_out, send_queue, send_rest, flush, poll_next}

module _ (E : Type 0) {T S R : Type 0} ⦃s : ByteStream E T⦄ where
  -- Without a frame in the queue, the transport is not asked for anything.
  send_nothing : (x : YamuxSession T S R) → x.out_queue ≡ [] → send_queue E x ≡ done (false, x)
  unfolding send_queue send_out
  send_nothing x e = go x.out_queue e
    where
      go :
          (q : List Frame)
          → q ≡ []
          → send_queue E (record x { out_queue = q }) ≡ done (false, record x { out_queue = q })
      go [] e = refl
      go (f ∷ fs) e = absurd (cc)

module _ {E T S R S' R' : Type 0} ⦃s : ByteStream E T⦄ ⦃ch : Channel S R⦄
    (queued : R → List ChunkView) {avail sent : T → List ℕ} (laws : IsSource s avail sent)
    (frames reads drains polls : ℕ) (ends : Ends S R S' R') (given : List Frame) where
  -- The session after its heads, of which none had anything to send.
  abbrev drained_session :
      YamuxSession T S R
      → List (StreamId × YamuxStreamHead S R)
      → List StreamId
      → YamuxSession T S R
  drained_session x heads ids = record x {
    streams = remove_all ids heads;
    out_queue = x.out_queue ++ [];
  }

  send_rest_nothing :
      (x : YamuxSession T S R) (heads : List (StreamId × YamuxStreamHead S R)) (ids : List StreamId)
      → x.out_queue ≡ []
      → drain_all drains polls x.streams ≡ done (heads, ([], ids))
      → send_rest E {S' = S'} {R' = R'} drains polls false x
        ≡ done (pending, drained_session x heads ids)
  unfolding send_rest drain_heads flush
  send_rest_nothing x heads ids e drained =
      rw (drained, send_nothing E (drained_session x heads ids) (append-nil x.out_queue ∙ e)) refl

  -- For an open session with no frame in its queue, with ready heads, with frames given so far
  -- that a FrameWriter admits and that are all that was written, and with finitely many bytes
  -- arrived and fuel for them: if the frames that arrive are handled without an answer and without
  -- a new stream, and no head has anything to send, then YamuxSession::poll_next waits and has
  -- written nothing, so that what is in the buffer of the transport stays there, however ready the
  -- byte stream is to take it.
  pub poll_next-idle :
      (x x2 : YamuxSession T S R) (heads : List (StreamId × YamuxStreamHead S R))
      (ids : List StreamId)
      → x.out_queue ≡ []
      → x.manual_close ≡ false
      → All IsSmall (queued ends.rx)
      → IsRunning queued avail sent given x
      → work avail x.transport < frames
      → work avail x.transport < reads
      → receive E frames reads ends x ≡ done (proceed, x2)
      → x2.out_queue ≡ []
      → drain_all drains polls x2.streams ≡ done (heads, ([], ids))
      → (x' : YamuxSession T S R) × (poll_next E {S' = S'} {R' = R'} frames reads drains polls ends
            x
          ≡ done (pending, x'))
        × (x'.transport.writer ≡ x.transport.writer)
        × (sent x'.transport.stream ≡ sent x.transport.stream)
        × (x'.out_queue ≡ [])
  unfolding poll_next
  poll_next-idle x x2 heads ids e is_open small g enough more received e2 drained =
      let (v, x3, run, r, _, _, _, _) =
        receive-Received queued laws reads ends given frames x small g enough more in
      let same : x3 ≡ x2 = cc in
      (
        drained_session x2 heads ids,
        rw (send_nothing E x e, received, is_open) (send_rest_nothing x2 heads ids e2 drained),
        ap (λ y. y.transport.writer) (sym same) ∙ r.writer,
        ap (λ y. sent y.transport.stream) (sym same) ∙ r.quiet,
        append-nil x2.out_queue ∙ e2,
      )
