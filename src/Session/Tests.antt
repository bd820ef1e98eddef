-- ===== src/Session/Tests.antt =====
-- Tests of src/session.rs.
use yamux_low_mem.Prelude.{
  ◌-◌, Poll, ℕ, ◌+◌, ◌≤◌, ◌<◌, min, ◌≡◌, refl, ◌≢◌, ◌⊎◌, Bool, true, false, none, some, List, [],
  ◌∷◌, ◌++◌, arith, length, All, ready, pending, done, ok,
}
use yamux_low_mem.Chunk.Writer.Invariant.{Room, bytes}
use yamux_low_mem.Chunk.Reader.{reader}
use yamux_low_mem.Chunk.Reader as Reader
use yamux_low_mem.Packet.Wire.{header_bytes}
use yamux_low_mem.Packet.{syn_flags}
use yamux_low_mem.Frame.{PendingPayload, Frame, session, stream, go_away, window_update}
use yamux_low_mem.Frame.Admitted.{admit_all, frames_bytes}
use yamux_low_mem.Transport.{YamuxTransport, new_transport, with_buffer}
use yamux_low_mem.Transport.Flushing.{Answers, buffered}
use yamux_low_mem.Transport.Reading.{work}
use yamux_low_mem.Transport.Fixture.{Duplex, duplex, arriving, duplex-IsSink, duplex-IsSource}
use yamux_low_mem.Stream.Tests.{queues, pair-IsSmall, queues-IsReceiver}
use yamux_low_mem.Session.{u32_mod, Option, close}
use yamux_low_mem.Session.Fixture.{
  Queue, ends, sent, host, busy, head, two, greeting, room, host-IsOrdered, host-IsRunning,
}
use yamux_low_mem.Chunk.Reader.Invariant as ReaderInvariant
use yamux_low_mem.Frame.Progress as Progress
use yamux_low_mem.Transport.Tests.{narrow, narrow-IsSink}
use yamux_low_mem.Session.Quiet
use yamux_low_mem.Session.Driving.Idle.{poll_next-idle}
use yamux_low_mem.Session.Quiet.{
  left, left-IsRunning, left_work, left_receives, left_drains, quiet, quiet_heads, quiet_open,
  quiet-IsOrdered, quiet_reader, quiet_room, quiet_arrives, quiet_serves, narrow-IsSource,
}
use yamux_low_mem.Session.Driving.Whole.{poll_next-IsOrdered}
use yamux_low_mem.Chunk.Reader.{reader}
use yamux_low_mem.Session.Receiving.{Verdict, on_frame, receive}
use yamux_low_mem.Session.Receiving.Isolation.{Delivered, on_frame-Isolated}
use yamux_low_mem.Session.Receiving.Invariant.{on_frame-IsOrdered}
use yamux_low_mem.Session.Receiving.Handled.{Handled}
use yamux_low_mem.Session.Receiving.Loop.{Received, receive-Received}
use yamux_low_mem.Session.Draining.Order.{IsReady}
use yamux_low_mem.Session.Driving.{send_out, poll_next}
use yamux_low_mem.Session.Driving.Delivery.{written, send_out_lem}
use yamux_low_mem.Session.Driving.Order.{IsOrdered}
use yamux_low_mem.Session.Driving.Closing.{IsEager, close-poll_next}
use yamux_low_mem.Packet.{StreamId}
use yamux_low_mem.Stream.{YamuxStreamHead}
use yamux_low_mem.Stream.Handle.{YamuxStream}
use yamux_low_mem.Session.{YamuxSession, new_session, open_stream, get}
use yamux_low_mem.Session.Streams.{IsOwn, open_stream_lem}

-- The ends of the channels are numbers here.
abbrev server : YamuxSession ℕ ℕ ℕ
server = new_session 0 true 64

server-IsOwn : IsOwn 0 server.next_stream_id
unfolding new_session
server-IsOwn = record { in_range = omega arith; not_session = omega arith; own = refl }

abbrev nine : StreamId
nine = record { value = 9 }

not_nine : server.next_stream_id ≢ nine.value
unfolding new_session
not_nine e = absurd (omega arith)

open_stream_lem_example :
    (stream : YamuxStream ℕ ℕ) × (x' : YamuxSession ℕ ℕ ℕ) × (open_stream 1 2 3 4 server
      ≡ (stream, x'))
    × (stream.id.value ≡ server.next_stream_id)
    × IsOwn 0 x'.next_stream_id
    × ((x'.next_stream_id ≡ server.next_stream_id + 2)
        ⊎ ((u32_mod ≤ server.next_stream_id + 2) × (x'.next_stream_id ≡ 2 - 0)))
    × ((head : YamuxStreamHead ℕ ℕ) × (get stream.id x'.streams ≡ some head)
        × (head.id ≡ stream.id)
        × (head.tx ≡ some 3)
        × (head.rx ≡ 4))
    × (get nine x'.streams ≡ get nine server.streams)
    × (x' ≡ record server { next_stream_id = x'.next_stream_id; streams = x'.streams })
open_stream_lem_example = open_stream_lem 0 1 2 3 4 server nine server-IsOwn not_nine

greeting_length : length (frames_bytes (greeting ∷ [])) ≡ 12
unfolding header_bytes
greeting_length = omega arith

goodbye_length : length (frames_bytes (host.out_queue ++ session (go_away 3) ∷ [])) ≡ 12
unfolding new_session header_bytes
goodbye_length = omega arith

-- A frame is handed to the transport.
send_out_lem_example :
    (any : Bool) × (handed : List Frame) × (rest : List Frame) × (t' : YamuxTransport Duplex)
    × (send_out ℕ (greeting ∷ []) host.transport ≡ done (any, (rest, t')))
    × (greeting ∷ [] ≡ handed ++ rest)
    × (written sent t' ≡ written sent host.transport ++ frames_bytes handed)
    × Room (length (frames_bytes rest) + 0) t'.writer.buffer
    × (t' ≡ with_buffer t'.writer.buffer (record host.transport { stream = t'.stream }))
    × (((any ≡ false) × (handed ≡ [])) ⊎ ((any ≡ true) × (0 < length handed)))
    × ((rest ≡ [])
        ⊎ ((host.transport.max_writer_buffer ≤ length (buffered t')) × Answers duplex pending))
send_out_lem_example =
    send_out_lem duplex-IsSink (greeting ∷ []) 0 host.transport (omega arith, tt)
      (room _ (omega (arith, greeting_length)))

-- A stream is opened by the peer; the other one is not touched.
on_frame-Isolated_example :
    (v : Verdict (YamuxStream Queue Queue)) × (x' : YamuxSession Duplex Queue Queue) × (on_frame
        (stream nine (window_update syn_flags 5))
        ends
        busy
      ≡ done (v, x'))
    × Delivered nine (window_update syn_flags 5) ends busy x' v
    × (get two x'.streams ≡ get two busy.streams)
    × (x' ≡ record busy { streams = x'.streams })
on_frame-Isolated_example =
    on_frame-Isolated nine (window_update syn_flags 5) ends two busy tt (λ e. absurd (omega arith))

on_frame-IsOrdered_example :
    (v : Verdict (YamuxStream Queue Queue)) × (x' : YamuxSession Duplex Queue Queue) × (on_frame
        greeting ends host
      ≡ done (v, x'))
    × All (IsReady (λ q. q)) x'.streams
    × IsOrdered sent [] x'
    × (x' ≡ record host { streams = x'.streams; out_queue = x'.out_queue })
on_frame-IsOrdered_example =
    on_frame-IsOrdered (λ q. q) sent [] greeting ends host (omega arith) (pair-IsSmall, tt)
      host-IsRunning.heads host-IsOrdered

host_work : work arriving host.transport < 30
unfolding new_session new_transport Reader.new
host_work = omega arith

-- The ping is read and handled.
receive-Received_example :
    (v : Verdict (YamuxStream Queue Queue)) × (x' : YamuxSession Duplex Queue Queue) × (receive ℕ 30
        30 ends host
      ≡ done (v, x'))
    × Received (λ q. q) arriving sent [] host x'
    × (frames : List Frame) × (left : Option PendingPayload) × Handled ℕ 30 ends host frames v x'
    × (admit_all host.transport.reader.pending frames ≡ ok left)
receive-Received_example =
    receive-Received (λ q. q) duplex-IsSource 30 ends [] 30 host (pair-IsSmall, tt) host-IsRunning
      host_work host_work

duplex-IsEager : IsEager duplex sent
duplex-IsEager = record {
  writes = λ ys t pos. (min 2 (length ys), _, refl);
  closes = λ t. (ok tt, t, refl, refl);
}

-- The host says goodbye.
close-poll_next_example :
    (x' : YamuxSession Duplex Queue Queue) × (poll_next ℕ {S' = Queue} {R' = Queue} 1 1 1 1 ends
        (close 3 host)
      ≡ done (ready none, x'))
    × (x'.transport.stream.sent ≡ frames_bytes ([] ++ host.out_queue ++ session (go_away 3) ∷ []))
    × (bytes x'.transport.writer.buffer ≡ [])
    × (x'.out_queue ≡ [])
close-poll_next_example =
    close-poll_next duplex-IsSink duplex-IsEager 1 1 1 1 3 0 ends [] host (omega arith)
      host-IsOrdered (room _ (omega (arith, goodbye_length)))

-- The whole of a call: the ping goes out, and there is nothing else to do.
poll_next-IsOrdered_example :
    (a : Poll (Option (YamuxStream Queue Queue))) × (x' : YamuxSession (List ℕ) Queue Queue)
    × (handed : List Frame) × (poll_next ℕ 30 30 1 1 ends quiet ≡ done (a, x'))
    × IsOrdered Quiet.sent ([] ++ handed) x'
    × All (IsReady (λ q. q)) x'.streams
    × Progress.IsRunning ReaderInvariant.IsValid ReaderInvariant.bytes x'.transport.reader
poll_next-IsOrdered_example =
    poll_next-IsOrdered (λ q. q) narrow-IsSink narrow-IsSource queues-IsReceiver 30 30 1 1 0 ends []
      quiet (pair-IsSmall, tt) quiet_heads quiet-IsOrdered quiet_reader quiet_open quiet_room
      quiet_arrives quiet_serves

-- A ping is left in the buffer, and stays there.
poll_next-idle_example :
    (x' : YamuxSession (List ℕ) Queue Queue) × (poll_next ℕ {S' = Queue} {R' = Queue} 30 30 1 1 ends
        left
      ≡ done (pending, x'))
    × (x'.transport.writer ≡ left.transport.writer)
    × (x'.transport.stream ≡ left.transport.stream)
    × (x'.out_queue ≡ [])
poll_next-idle_example =
    poll_next-idle (λ q. q) narrow-IsSource 30 30 1 1 ends (greeting ∷ []) left left [] [] refl
      quiet_open (pair-IsSmall, tt) left-IsRunning left_work left_work left_receives refl
      left_drains
