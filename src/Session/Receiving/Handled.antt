-- ===== src/Session/Receiving/Handled.antt =====
-- `YamuxSession::poll_next`: the frames that its loop over received frames handles, as a relation.
use yamux_low_mem.Prelude.{ℕ, ◌≡◌, none, some, List, [], ◌∷◌, ready, pending, done, ok, err}
use yamux_low_mem.Frame.{Frame}
use yamux_low_mem.Stream.{Channel}
use yamux_low_mem.Stream.Handle.{YamuxStream}
use yamux_low_mem.Transport.{ByteStream, YamuxTransport, YamuxTransportError}
use yamux_low_mem.Transport
use yamux_low_mem.Session.{YamuxSession}
use yamux_low_mem.Session.Receiving.{Verdict, proceed, closed, accepted, Ends, on_frame}

module _ (E : Type 0) {T S R S' R' : Type 0} ⦃s : ByteStream E T⦄ ⦃ch : Channel S R⦄ (reads : ℕ)
    (ends : Ends S R S' R') where
  -- `Handled x frames v x'`: the transport of `x` yields the frames one after the other, each is
  -- handled before the next is asked for, and the loop ends in `x'` with the verdict `v`: when the
  -- transport has no frame, or when the last frame ends the session or opens a stream.
  pub data Handled
      : YamuxSession T S R
        → List Frame
        → Verdict (YamuxStream S' R')
        → YamuxSession T S R
        → Type 0 where
    waits :
        {x : YamuxSession T S R} {t : YamuxTransport T}
        → Transport.poll_next {E = E} reads x.transport ≡ done (pending, t)
        → Handled x [] proceed (record x { transport = t })
    ended :
        {x : YamuxSession T S R} {t : YamuxTransport T}
        → Transport.poll_next {E = E} reads x.transport ≡ done (ready none, t)
        → Handled x [] closed (record x { transport = t })
    failed :
        {x : YamuxSession T S R} {t : YamuxTransport T} (e : YamuxTransportError E)
        → Transport.poll_next {E = E} reads x.transport ≡ done (ready (some (err e)), t)
        → Handled x [] closed (record x { transport = t })
    goes_on :
        {x x2 x' : YamuxSession T S R} {t : YamuxTransport T} {frame : Frame} {frames : List Frame}
        {v : Verdict (YamuxStream S' R')}
        → Transport.poll_next {E = E} reads x.transport ≡ done (ready (some (ok frame)), t)
        → on_frame frame ends (record x { transport = t }) ≡ done (proceed, x2)
        → Handled x2 frames v x'
        → Handled x (frame ∷ frames) v x'
    ends_session :
        {x x2 : YamuxSession T S R} {t : YamuxTransport T} {frame : Frame}
        → Transport.poll_next {E = E} reads x.transport ≡ done (ready (some (ok frame)), t)
        → on_frame frame ends (record x { transport = t }) ≡ done (closed, x2)
        → Handled x (frame ∷ []) closed x2
    opens_stream :
        {x x2 : YamuxSession T S R} {t : YamuxTransport T} {frame : Frame}
        (handle : YamuxStream S' R')
        → Transport.poll_next {E = E} reads x.transport ≡ done (ready (some (ok frame)), t)
        → on_frame frame ends (record x { transport = t }) ≡ done (accepted handle, x2)
        → Handled x (frame ∷ []) (accepted handle) x2
