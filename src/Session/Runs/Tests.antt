-- ===== src/Session/Runs/Tests.antt =====
-- Tests of the runs of a session: a stream is opened, the session is closed, and the peer reads.
use yamux_low_mem.Prelude.{
  sym, ◌∙◌, suc, ap, ℕ, ◌+◌, ◌<◌, ◌≡◌, refl, true, none, List, [], ◌∷◌, ◌++◌, arith, length, All,
  ready, done, ok, ap₂, append-nil,
}
use yamux_low_mem.Chunk.Writer.Invariant.{Room, new-Room}
use yamux_low_mem.Chunk.Reader.{reader, push_back}
use yamux_low_mem.Packet.Wire.{header_bytes}
use yamux_low_mem.Frame.{Frame, session, go_away}
use yamux_low_mem.Frame.Codec.{IsSound}
use yamux_low_mem.Frame.Admitted.{admit_all, frames_bytes}
use yamux_low_mem.Transport.{new_transport}
use yamux_low_mem.Stream.Tests.{queues, pair-IsSmall, queues-IsReceiver, pair}
use yamux_low_mem.Session.{Option, close, YamuxSession, new_session, open_stream, session}
use yamux_low_mem.Session.Fixture.{Queue, ends}
use yamux_low_mem.Transport.Tests.{narrow, narrow-IsSink}
use yamux_low_mem.Session.Quiet.{nothing, sent, narrow-IsEager, narrow-IsSource}
use yamux_low_mem.Prelude.Word.{u32_mod}
use yamux_low_mem.Chunk.View.{view_of_slice}
use yamux_low_mem.Chunk.Reader.Laws.{reader-IsReader}
use yamux_low_mem.Frame.Messages.{assemble}
use yamux_low_mem.Frame.Reading.{collect}
use yamux_low_mem.Frame.Tests.{arrive, none_yet}
use yamux_low_mem.Session.Runs.Goodbye.{collect-close}
use yamux_low_mem.Frame.Messages.{control}
use yamux_low_mem.Session.Runs.Peer.{collect-Reachable}
use yamux_low_mem.Session.Runs.{
  YamuxStream, Poll, Reachable, IsConforming, opens, closing, polls_closing, starts, steps,
}
use yamux_low_mem.Session.Runs.Conforming.{Reachable-IsConforming}
use yamux_low_mem.Session.Driving.{poll_next}
use yamux_low_mem.Session.Driving.Delivery.{written}
use yamux_low_mem.Session.Driving.Order.{IsOrdered}
use yamux_low_mem.Session.Driving.Closing.{close-poll_next}
use yamux_low_mem.Packet.{go_away}
use yamux_low_mem.Chunk.Reader as Reader
use yamux_low_mem.Chunk.Reader.Invariant as ReaderInvariant
use yamux_low_mem.Chunk.Writer as Writer

-- A stream is opened, the session is closed, and the closing call ends it.
abbrev with_stream : YamuxSession (List ℕ) Queue Queue
with_stream =
    (open_stream {S' = Queue} {R' = Queue} [] [] [] (pair ∷ []) (new_session [] true 64)).1

with_stream-IsOrdered : IsOrdered sent [] with_stream
unfolding open_stream new_session new_transport Writer.new
with_stream-IsOrdered = record { sound = tt; given_sound = tt; admitted = refl; bytes = refl }

goodbye :
    Room
      (length (frames_bytes (with_stream.out_queue ++ session (go_away 3) ∷ [])) + 0)
      with_stream.transport.writer.buffer
unfolding open_stream new_session new_transport header_bytes
goodbye = new-Room _ (omega arith)

goodbye_room :
    Room
      (length (frames_bytes (close 3 with_stream).out_queue) + 0)
      (close 3 with_stream).transport.writer.buffer
unfolding close
goodbye_room = goodbye

abbrev farewell : List Frame
farewell = with_stream.out_queue ++ session (go_away 3) ∷ []

ends_run :
    (x' : YamuxSession (List ℕ) Queue Queue) × (poll_next ℕ {S' = Queue} {R' = Queue} 1 1 1 1 ends
        (close 3 with_stream)
      ≡ done (ready none, x'))
    × (written sent x'.transport ≡ frames_bytes farewell)
    × (x'.out_queue ≡ [])
    × (sent x'.transport.stream ≡ frames_bytes farewell)
ends_run =
    let (x', run, out, none_left, empty) =
      close-poll_next narrow-IsSink narrow-IsEager 1 1 1 1 3 0 ends [] with_stream (omega arith)
        with_stream-IsOrdered goodbye in
    (x', run, ap₂ (λ u w. u ++ w) out none_left ∙ append-nil (frames_bytes farewell), empty, out)

next_id : (new_session {T = List ℕ} {S = Queue} {R = Queue} [] true 64).next_stream_id < u32_mod
unfolding new_session
next_id = omega arith

asked : (close 3 with_stream).manual_close ≡ true
unfolding close
asked = refl

-- A stream is opened.
with_stream-Reachable : Reachable ℕ Queue Queue (λ q. q) nothing sent with_stream
with_stream-Reachable =
    steps (starts [] true 64 refl) (opens [] [] [] (pair ∷ []) next_id (pair-IsSmall, tt))

-- A stream is opened, the session is closed, and the closing call ends it.
ends_run-Reachable : Reachable ℕ Queue Queue (λ q. q) nothing sent ends_run.0
ends_run-Reachable =
    steps (steps with_stream-Reachable (closing 3 (omega arith)))
      (polls_closing (ready none) 1 1 1 1 0 ends asked goodbye_room ends_run.1)

Reachable-IsConforming_example : IsConforming (λ q. q) sent ends_run.0
Reachable-IsConforming_example =
    Reachable-IsConforming (λ q. q) narrow-IsSink narrow-IsSource queues-IsReceiver (λ t. refl)
      ends_run.0 ends_run-Reachable

farewell_length : length (frames_bytes farewell) ≡ 12
unfolding open_stream new_session header_bytes
farewell_length = omega arith

received :
    ReaderInvariant.IsValid (push_back (view_of_slice (frames_bytes farewell)) Reader.new)
    × (ReaderInvariant.bytes (push_back (view_of_slice (frames_bytes farewell)) Reader.new)
        ≡ ReaderInvariant.bytes Reader.new ++ frames_bytes farewell)
received =
    arrive Reader.new (frames_bytes farewell) ReaderInvariant.new-IsValid
      (omega (arith, farewell_length)) (omega (arith, farewell_length, ap length none_yet))

-- The peer reads the GoAway.
collect-Reachable_example :
    (given : List Frame) × (frames : List Frame) × (frames_bytes given
      ≡ written sent (ends_run.0).transport)
    × All IsSound given
    × (admit_all none given ≡ ok none)
    × (collect
          (suc (
            length (
              ReaderInvariant.bytes
                (push_back (view_of_slice (frames_bytes farewell)) Reader.new))))
          (record {
            buffer = push_back (view_of_slice (frames_bytes farewell)) Reader.new;
            pending = none;
          })
        ≡ done frames)
    × (assemble frames ≡ assemble given)
collect-Reachable_example =
    collect-Reachable (λ q. q) narrow-IsSink narrow-IsSource queues-IsReceiver (λ t. refl)
      reader-IsReader ends_run.0 (push_back (view_of_slice (frames_bytes farewell)) Reader.new)
      ends_run-Reachable ends_run.3 received.0
      (received.1 ∙ ap (λ q. q ++ frames_bytes farewell) none_yet ∙ sym ends_run.2)

abbrev ended : Poll (Option (YamuxStream Queue Queue))
ended = ready none

-- The peer reads the GoAway from what has reached the byte stream.
collect-close_example :
    (given read : List Frame) × (frames_bytes given ≡ written sent with_stream.transport)
    × (ended ≡ ready none)
    × (collect
          (suc (
            length (
              ReaderInvariant.bytes
                (push_back (view_of_slice (frames_bytes farewell)) Reader.new))))
          (record {
            buffer = push_back (view_of_slice (frames_bytes farewell)) Reader.new;
            pending = none;
          })
        ≡ done read)
    × (assemble read ≡ assemble (given ++ with_stream.out_queue) ++ control (go_away 3) ∷ [])
collect-close_example =
    collect-close (λ q. q) narrow-IsSink narrow-IsEager narrow-IsSource queues-IsReceiver
      reader-IsReader 1 1 1 1 3 0 ends with_stream ends_run.0 ended
      (push_back (view_of_slice (frames_bytes farewell)) Reader.new) with_stream-Reachable
      (omega arith) goodbye ends_run.1 received.0
      (received.1 ∙ ap (λ q. q ++ frames_bytes farewell) none_yet ∙ sym ends_run.4)
