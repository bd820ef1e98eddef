-- ===== src/Session/Runs/Goodbye.antt =====
-- `YamuxSession::close`: what the peer's `FrameReader` makes of all that a closed session has sent.
use yamux_low_mem.Prelude.{
  ok, ℕ, suc, ◌+◌, ◌<◌, ◌≡◌, refl, sym, ap, ◌∙◌, Option, none, List, [], ◌∷◌, ◌++◌, append_assoc,
  ◌==◌, if◌then◌else◌, length, All, All-append, Poll, ready, done,
}
use yamux_low_mem.Prelude.Word.{u32_mod}
use yamux_low_mem.Chunk.View.{ChunkView}
use yamux_low_mem.Chunk.View.Laws.{content}
use yamux_low_mem.Chunk.Traits.{ChunkBufferReader}
use yamux_low_mem.Chunk.Traits.Reads.{IsReader}
use yamux_low_mem.Chunk.Writer.Invariant.{Room}
use yamux_low_mem.Packet.{StreamId}
use yamux_low_mem.Frame.{
  Frame, FrameSessionEvent, session, stream, go_away, data_header, data_chunk, window_update, admit,
}
use yamux_low_mem.Frame.Admitted.{admit_all, frames_bytes}
use yamux_low_mem.Frame.Codec.{IsSound}
use yamux_low_mem.Frame.Messages.{assemble, leading, control}
use yamux_low_mem.Frame.Reading.{collect}
use yamux_low_mem.Frame.Collect.{collect-assemble}
use yamux_low_mem.Frame.Stands.{admitted-all_bytes}
use yamux_low_mem.Stream.{Channel}
use yamux_low_mem.Stream.Handle.{YamuxStream}
use yamux_low_mem.Stream.Sent.{IsReceiver}
use yamux_low_mem.Transport.{ByteStream}
use yamux_low_mem.Transport.Flushing.{IsSink}
use yamux_low_mem.Transport.Reading.{IsSource}
use yamux_low_mem.Session.{YamuxSession, close}
use yamux_low_mem.Session.Receiving.{Ends}
use yamux_low_mem.Session.Driving.{poll_next}
use yamux_low_mem.Session.Driving.Delivery.{written}
use yamux_low_mem.Session.Driving.Order.{IsOrdered-append}
use yamux_low_mem.Session.Driving.Closing.{IsEager, close-poll_next}
use yamux_low_mem.Session.Runs.{Reachable}
use yamux_low_mem.Session.Runs.Conforming.{Reachable-IsConforming}

-- A control frame at the end adds nothing to a payload.
leading_control :
    (id : StreamId) (fs : List Frame) (event : FrameSessionEvent)
    → leading id (fs ++ session event ∷ []) ≡ leading id fs
leading_control id [] event = refl
leading_control id (session e ∷ fs) event = refl
leading_control id (stream id' (data_header flags size) ∷ fs) event = refl
leading_control id (stream id' (window_update flags delta) ∷ fs) event = refl
leading_control id (stream id' (data_chunk chunk) ∷ fs) event =
    ap (λ t. if id'.value == id.value then content chunk ++ t else []) (leading_control id fs event)

-- It is a message of its own.
assemble_control :
    (fs : List Frame) (event : FrameSessionEvent)
    → assemble (fs ++ session event ∷ []) ≡ assemble fs ++ control event ∷ []
assemble_control [] event = refl
assemble_control (session e ∷ fs) event = ap (λ t. control e ∷ t) (assemble_control fs event)
assemble_control (stream id (data_header flags size) ∷ fs) event =
    rw (leading_control id fs event, assemble_control fs event) refl
assemble_control (stream id (window_update flags delta) ∷ fs) event =
    rw (assemble_control fs event) refl
assemble_control (stream id (data_chunk chunk) ∷ fs) event = assemble_control fs event

module _ {B : Type 0} ⦃r : ChunkBufferReader B⦄ {Inv : B → Type 0} {held : B → List ℕ}
    (reader_laws : IsReader Inv held r) where
  -- A reader of frames that end with a control frame finds the messages of the others first.
  collect_control :
      (fs queue : List Frame) (event : FrameSessionEvent) (b : B)
      → All IsSound (fs ++ (queue ++ session event ∷ []))
      → admit_all none (fs ++ (queue ++ session event ∷ [])) ≡ ok none
      → Inv b
      → held b ≡ frames_bytes (fs ++ (queue ++ session event ∷ []))
      → (read : List Frame) × (collect
            (suc (length (held b)))
            (record { buffer = b; pending = none })
          ≡ done read)
        × (assemble read ≡ assemble (fs ++ queue) ++ control event ∷ [])
  collect_control fs queue event b sound admitted inv holds =
      let (sendable, bytes) =
        admitted-all_bytes (fs ++ (queue ++ session event ∷ [])) sound admitted in
      let (read, run, stands) =
        collect-assemble reader_laws b (assemble (fs ++ (queue ++ session event ∷ []))) inv
          (holds ∙ bytes) sendable in
      (
        read,
        run,
        stands
            ∙ ap assemble (sym (append_assoc fs queue (session event ∷ [])))
            ∙ assemble_control (fs ++ queue) event,
      )

module _ {E T S R S' R' : Type 0} ⦃s : ByteStream E T⦄ ⦃ch : Channel S R⦄
    (queued : R → List ChunkView) {avail sent : T → List ℕ} (writes : IsSink s sent)
    (eager : IsEager s sent) (reads_from : IsSource s avail sent)
    (takes : IsReceiver ch.poll_next queued) {B : Type 0} ⦃r : ChunkBufferReader B⦄
    {Inv : B → Type 0} {held : B → List ℕ} (reader_laws : IsReader Inv held r) where
  -- Over a byte stream that answers writes at once without failing and that closes at once, and
  -- that keeps the promises of IsSink and IsSource, and over channels that keep that of
  -- IsReceiver: for a session in any state that it can reach, with room for its queue and a GoAway
  -- with a u32 code, and for a peer's reader that keeps the promises of ChunkBufferReader and
  -- holds the bytes that have reached the byte stream after YamuxSession::close and the next call
  -- of poll_next: that call ended the session, and polling the peer's FrameReader::next_frame ends
  -- without a panic or an error and yields frames that stand for the messages of all frames
  -- written before and queued, in order, and last for the GoAway with the code that close was
  -- called with.
  pub collect-close :
      (frames reads drains polls code n : ℕ) (ends : Ends S R S' R') (x x' : YamuxSession T S R)
      (a : Poll (Option (YamuxStream S' R'))) (b : B)
      → Reachable E S' R' queued avail sent x
      → code < u32_mod
      → Room
          (length (frames_bytes (x.out_queue ++ session (go_away code) ∷ [])) + n)
          x.transport.writer.buffer
      → poll_next E frames reads drains polls ends (close code x) ≡ done (a, x')
      → Inv b
      → held b ≡ sent x'.transport.stream
      → (given read : List Frame) × (frames_bytes given ≡ written sent x.transport)
        × (a ≡ ready none)
        × (collect (suc (length (held b))) (record { buffer = b; pending = none }) ≡ done read)
        × (assemble read ≡ assemble (given ++ x.out_queue) ++ control (go_away code) ∷ [])
  unfolding admit
  collect-close frames reads drains polls code n ends x x' a b reached small room run inv holds =
      let goodbye : List Frame = session (go_away code) ∷ [] in
      let closes : (t : T) → sent ((s.poll_close t).1) ≡ sent t =
        λ t. let (_, t', answer, same) = eager.closes t in ap (λ q. sent q.1) answer ∙ same in
      let g =
        Reachable-IsConforming {S' = S'} {R' = R'} queued writes reads_from takes closes x
          reached in
      let o = IsOrdered-append x goodbye g.ordered refl (small, tt) in
      let (x2, ran, out, _, _) =
        close-poll_next writes eager frames reads drains polls code n ends g.given x small g.ordered
          room in
      let ended : a ≡ ready none = cc in
      let same : x2 ≡ x' = cc in
      let sound =
        All-append IsSound g.given (x.out_queue ++ goodbye) g.ordered.given_sound o.sound in
      let (read, runs, stands) =
        collect_control reader_laws g.given x.out_queue (go_away code) b sound o.admitted inv
          (holds ∙ ap (λ y. sent y.transport.stream) (sym same) ∙ out) in
      (g.given, read, sym g.ordered.bytes, ended, runs, stands)
