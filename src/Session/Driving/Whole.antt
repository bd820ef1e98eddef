-- ===== src/Session/Driving/Whole.antt =====
-- `YamuxSession::poll_next` as a whole: it ends, and keeps what it relies on.
use yamux_low_mem.Prelude.{
  ℕ, ◌+◌, ◌^◌, ◌<◌, ◌≡◌, refl, sym, ap, subst, ◌∙◌, Bool, false, Option, none, some, List, ◌++◌,
  append_assoc, length, All, Poll, ready, done,
}
use yamux_low_mem.Chunk.View.{ChunkView}
use yamux_low_mem.Chunk.Writer.Invariant.{Room}
use yamux_low_mem.Chunk.Reader.{reader}
use yamux_low_mem.Chunk.Reader.Invariant as Reader
use yamux_low_mem.Packet.{StreamId}
use yamux_low_mem.Frame.{Frame}
use yamux_low_mem.Frame.Admitted.{frames_bytes}
use yamux_low_mem.Frame.Progress as Progress
use yamux_low_mem.Stream.{Channel, YamuxStreamHead}
use yamux_low_mem.Stream.Sent.{IsReceiver, IsSmall}
use yamux_low_mem.Stream.Handle.{YamuxStream}
use yamux_low_mem.Transport.{ByteStream}
use yamux_low_mem.Transport.Flushing.{IsSink}
use yamux_low_mem.Transport.Reading.{IsSource, incoming, work}
use yamux_low_mem.Session.{YamuxSession}
use yamux_low_mem.Session.Receiving.{Verdict, proceed, closed, accepted, Ends, receive}
use yamux_low_mem.Session.Receiving.Loop.{IsRunning, receive-Received}
use yamux_low_mem.Session.Draining.Order.{IsReady, Enough, AllDrained}
use yamux_low_mem.Session.Driving.{send_queue, poll_next}
use yamux_low_mem.Session.Driving.Rest.{send_rest-IsOrdered}
use yamux_low_mem.Session.Driving.Order.{IsOrdered, send_queue-IsOrdered}

module _ {E T S R S' R' : Type 0} ⦃s : ByteStream E T⦄ ⦃ch : Channel S R⦄
    (queued : R → List ChunkView) {avail sent : T → List ℕ} (writes : IsSink s sent)
    (reads_from : IsSource s avail sent) (takes : IsReceiver ch.poll_next queued)
    (frames reads drains polls n : ℕ) (ends : Ends S R S' R') (given : List Frame) where
  -- What `poll_next` is to end with.
  abbrev Driven : YamuxSession T S R → Type 0
  Driven x =
      (a : Poll (Option (YamuxStream S' R'))) × (x' : YamuxSession T S R) × (handed : List Frame)
      × (poll_next E frames reads drains polls ends x ≡ done (a, x'))
      × IsOrdered sent (given ++ handed) x'
      × All (IsReady queued) x'.streams
      × Progress.IsRunning Reader.IsValid Reader.bytes x'.transport.reader

  -- What comes after the loop over received frames.
  by_verdict :
      (x x1 x2 : YamuxSession T S R) (any : Bool) (handed : List Frame)
      (v : Verdict (YamuxStream S' R'))
      → send_queue E x ≡ done (any, x1)
      → x1.manual_close ≡ false
      → receive E frames reads ends x1 ≡ done (v, x2)
      → IsOrdered sent (given ++ handed) x2
      → All (IsReady queued) x2.streams
      → Progress.IsRunning Reader.IsValid Reader.bytes x2.transport.reader
      → (v ≡ proceed
          → All (Enough queued drains polls) x2.streams
            × ((heads : List (StreamId × YamuxStreamHead S R)) (fs : List Frame)
                  (ids : List StreamId)
                → AllDrained queued x2.streams heads fs ids
                → Room (length (frames_bytes (x2.out_queue ++ fs)) + n) x2.transport.writer.buffer))
      → Driven x
  unfolding poll_next
  by_verdict x x1 x2 any handed closed sends manual receives o r g serve =
      (ready none, x2, handed, rw (sends, receives, manual) refl, o, r, g)
  by_verdict x x1 x2 any handed (accepted handle) sends manual receives o r g serve =
      (ready (some handle), x2, handed, rw (sends, receives, manual) refl, o, r, g)
  by_verdict x x1 x2 any handed proceed sends manual receives o r g serve =
      let (enough, room) = serve refl in
      let (a, x', more, run, o', r', same, _) =
        send_rest-IsOrdered writes takes drains polls n any (given ++ handed) x2 o r enough room in
      (
        a,
        x',
        handed ++ more,
        rw (sends, receives, manual) run,
        subst (λ g. IsOrdered sent g x') (append_assoc given handed more) o',
        r',
        subst (Progress.IsRunning Reader.IsValid Reader.bytes) (sym same) g,
      )

  -- From an open session whose heads are ready and whose frames so far, given and queued, are a
  -- sequence that a FrameWriter admits, with room for the queue, with finitely many bytes arrived
  -- once the first frames are sent, whatever they are, and fuel for them, and, when the session
  -- turns to its heads, with fuel for each head and room for the frames that they yield:
  -- YamuxSession::poll_next ends without a panic, on every path through its loops. The frames that
  -- it gave to the transport, and those in the queue after them, are again a sequence that a
  -- FrameWriter admits, the given ones being all that was written, and every head and the reader
  -- are as the next call needs them.
  pub poll_next-IsOrdered :
      (x : YamuxSession T S R)
      → All IsSmall (queued ends.rx)
      → All (IsReady queued) x.streams
      → IsOrdered sent given x
      → Progress.IsRunning Reader.IsValid Reader.bytes x.transport.reader
      → x.manual_close ≡ false
      → Room (length (frames_bytes x.out_queue) + n) x.transport.writer.buffer
      → ((any : Bool) (x1 : YamuxSession T S R)
          → send_queue E x ≡ done (any, x1)
          → (length (incoming avail x1.transport) < 2 ^ 63)
            × (work avail x1.transport < frames)
            × (work avail x1.transport < reads))
      → ((any : Bool) (x1 x2 : YamuxSession T S R)
          → send_queue E x ≡ done (any, x1)
          → receive E {S' = S'} {R' = R'} frames reads ends x1 ≡ done (proceed, x2)
          → All (Enough queued drains polls) x2.streams
            × ((heads : List (StreamId × YamuxStreamHead S R)) (fs : List Frame)
                  (ids : List StreamId)
                → AllDrained queued x2.streams heads fs ids
                → Room (length (frames_bytes (x2.out_queue ++ fs)) + n) x2.transport.writer.buffer))
      → (a : Poll (Option (YamuxStream S' R'))) × (x' : YamuxSession T S R) × (handed : List Frame)
        × (poll_next E frames reads drains polls ends x ≡ done (a, x'))
        × IsOrdered sent (given ++ handed) x'
        × All (IsReady queued) x'.streams
        × Progress.IsRunning Reader.IsValid Reader.bytes x'.transport.reader
  poll_next-IsOrdered x small r o running is_open room arrives serve =
      let (any, x1, sends, h) = send_queue-IsOrdered writes n given x o room in
      let (few, enough, more) = arrives any x1 sends in
      let g : IsRunning queued avail sent (given ++ h.handed) x1 = record {
        heads = subst (All (IsReady queued)) (sym (ap (λ y. y.streams) h.kept)) r;
        ordered = h.ordered;
        reading = record {
          running = subst (Progress.IsRunning Reader.IsValid Reader.bytes) (sym h.reader) running;
          small = few;
        };
      } in
      let (v, x2, receives, got, _, _, _, _) =
        receive-Received queued reads_from reads ends (given ++ h.handed) frames x1 small g enough
          more in
      by_verdict x x1 x2 any h.handed v sends (ap (λ y. y.manual_close) h.kept ∙ is_open) receives
        got.running.ordered got.running.heads got.running.reading.running
        (λ on. serve any x1 x2 sends (receives ∙ ap (λ w. done (w, x2)) on))
