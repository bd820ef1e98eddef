-- ===== src/Session/Runs/Peer.antt =====
-- `YamuxSession`: what the peer's `FrameReader` makes of the bytes that a session has written.
use yamux_low_mem.Frame.Codec.{IsSound}
use yamux_low_mem.Prelude.{
  ℕ, suc, ◌≡◌, sym, ap, ◌∙◌, none, List, [], ◌++◌, append-nil, length, done, ok,
}
use yamux_low_mem.Chunk.View.{ChunkView}
use yamux_low_mem.Chunk.Traits.{ChunkBufferReader}
use yamux_low_mem.Chunk.Traits.Reads.{IsReader}
use yamux_low_mem.Frame.{Frame}
use yamux_low_mem.Frame.Admitted.{admit_all, frames_bytes}
use yamux_low_mem.Frame.Messages.{assemble}
use yamux_low_mem.Frame.Reading.{collect}
use yamux_low_mem.Frame.Collect.{collect-assemble}
use yamux_low_mem.Frame.Stands.{admitted-all_bytes}
use yamux_low_mem.Stream.{Channel}
use yamux_low_mem.Stream.Sent.{IsReceiver}
use yamux_low_mem.Transport.{ByteStream}
use yamux_low_mem.Transport.Flushing.{IsSink}
use yamux_low_mem.Transport.Reading.{IsSource}
use yamux_low_mem.Session.{YamuxSession}
use yamux_low_mem.Session.Driving.Delivery.{written}
use yamux_low_mem.Session.Runs.{All, Reachable}
use yamux_low_mem.Session.Runs.Conforming.{Reachable-IsConforming}

module _ {E T S R S' R' : Type 0} ⦃s : ByteStream E T⦄ ⦃ch : Channel S R⦄
    (queued : R → List ChunkView) {avail sent : T → List ℕ} (writes : IsSink s sent)
    (reads_from : IsSource s avail sent) (takes : IsReceiver ch.poll_next queued)
    (closes : (t : T) → sent ((s.poll_close t).1) ≡ sent t) {B : Type 0} ⦃r : ChunkBufferReader B⦄
    {Inv : B → Type 0} {held : B → List ℕ} (reader_laws : IsReader Inv held r) where
  -- Over a byte stream and channels as for Reachable-IsConforming: when a session in any state
  -- that it can reach has an empty queue, and a peer's reader that keeps the promises of
  -- ChunkBufferReader holds the bytes that the session has written, sent or still in its buffer,
  -- in whatever chunks: polling the peer's FrameReader::next_frame from its start ends without a
  -- panic or an error, within one more round than there are bytes. The bytes are those of a
  -- sequence of sound frames that a FrameWriter admits and that leaves no payload pending, and the
  -- frames that the peer reads stand for the same messages, in order.
  pub collect-Reachable :
      (x : YamuxSession T S R) (b : B)
      → Reachable E S' R' queued avail sent x
      → x.out_queue ≡ []
      → Inv b
      → held b ≡ written sent x.transport
      → (given : List Frame) × (frames : List Frame) × (frames_bytes given
          ≡ written sent x.transport)
        × All IsSound given
        × (admit_all none given ≡ ok none)
        × (collect (suc (length (held b))) (record { buffer = b; pending = none }) ≡ done frames)
        × (assemble frames ≡ assemble given)
  collect-Reachable x b reached empty inv holds =
      let g =
        Reachable-IsConforming {S' = S'} {R' = R'} queued writes reads_from takes closes x
          reached in
      let whole : admit_all none g.given ≡ ok none =
        ap (admit_all none) (sym (append-nil g.given) ∙ ap (λ q. g.given ++ q) (sym empty))
        ∙ g.ordered.admitted in
      let (sendable, all) = admitted-all_bytes g.given g.ordered.given_sound whole in
      let (frames, run, same) =
        collect-assemble reader_laws b (assemble g.given) inv (holds ∙ g.ordered.bytes ∙ all)
          sendable in
      (g.given, frames, sym g.ordered.bytes, g.ordered.given_sound, whole, run, same)
