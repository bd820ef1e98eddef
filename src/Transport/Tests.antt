-- ===== src/Transport/Tests.antt =====
-- Tests of src/transport.rs, on a byte stream that accepts two bytes with each write.
use yamux_low_mem.Prelude.{
  ℕ, suc, ◌+◌, ◌≤◌, ◌<◌, min, ◌≡◌, refl, sym, subst, ◌⊎◌, inl, List, [], ◌++◌, arith, length, take,
  Poll, ready, pending, done, Result, ok, err,
}
use yamux_low_mem.Chunk.Writer.{ChainedChunkBufferWriter, writer}
use yamux_low_mem.Chunk.Writer as Writer
use yamux_low_mem.Chunk.Writer.Invariant.{IsValid, Room, bytes, new-Room}
use yamux_low_mem.Packet.{syn_flags}
use yamux_low_mem.Packet.Wire.{length-header_bytes}
use yamux_low_mem.Frame.{Frame, session, ping}
use yamux_low_mem.Frame.Codec.{frame_bytes}
use yamux_low_mem.Transport.{
  ByteStream, YamuxTransport, YamuxTransportError, io, new_transport, with_buffer, poll_write,
  poll_ready, start_send,
}
use yamux_low_mem.Prelude.{Option, ◌∷◌}
use yamux_low_mem.Chunk.Reader.{reader}
use yamux_low_mem.Chunk.Reader as Reader
use yamux_low_mem.Chunk.Reader.Invariant.{new-IsValid}
use yamux_low_mem.Transport.{poll_next}
use yamux_low_mem.Transport.Fixture.{Duplex, duplex, duplex-IsSource, arriving}
use yamux_low_mem.Transport.Reading.{IsReading, Arrived}
use yamux_low_mem.Transport.Reading.Loop.{poll_next-Arrived}
use yamux_low_mem.Transport.Flushing.{
  IsSink, Answers, poll_write_lem, poll_ready_lem, start_send_lem,
}

instance abbrev pub narrow : ByteStream ℕ (List ℕ)
narrow = record {
  poll_write = λ ys t. (ready (ok (min 2 (length ys))), t ++ take (min 2 (length ys)) ys);
  poll_read = λ n t. (pending, t);
  poll_close = λ t. (ready (ok tt), t);
}

pub narrow-IsSink : IsSink narrow (λ t. t)
narrow-IsSink = record {
  write_some = λ ys t pos.
      inl
        (min 2 (length ys), t ++ take (min 2 (length ys)) ys, refl, omega arith, omega arith, refl);
}

abbrev greeting : Frame
greeting = session (ping syn_flags 5)

abbrev idle : YamuxTransport (List ℕ)
idle = new_transport [] 8

idle_buffer : idle.writer.buffer ≡ Writer.new
unfolding new_transport
idle_buffer = refl

room : Room (length (frame_bytes greeting) + 0) idle.writer.buffer
room =
    subst (Room (length (frame_bytes greeting) + 0)) (sym idle_buffer)
      (new-Room _ (omega (arith, length-header_bytes)))

loads :
    (x' : YamuxTransport (List ℕ)) × (start_send greeting idle ≡ done x')
    × Room 0 x'.writer.buffer
    × (x' ≡ with_buffer x'.writer.buffer idle)
    × (x'.stream ++ bytes x'.writer.buffer
        ≡ (idle.stream ++ bytes idle.writer.buffer) ++ frame_bytes greeting)
loads = start_send_lem (λ t. t) greeting 0 idle (omega arith) room

-- The transport once a frame is encoded.
abbrev loaded : YamuxTransport (List ℕ)
loaded = loads.0

loaded-Room : Room 0 loaded.writer.buffer
loaded-Room = loads.2

poll_write_lem_example :
    (a : Poll (Result (YamuxTransportError ℕ) (Unit {0}))) × (x' : YamuxTransport (List ℕ))
    × (poll_write (suc (length (bytes loaded.writer.buffer))) loaded ≡ done (a, x'))
    × IsValid x'.writer.buffer
    × (x'.stream ++ bytes x'.writer.buffer ≡ loaded.stream ++ bytes loaded.writer.buffer)
    × (length (bytes x'.writer.buffer) ≤ length (bytes loaded.writer.buffer))
    × (x' ≡ with_buffer x'.writer.buffer (record loaded { stream = x'.stream }))
    × (((a ≡ ready (ok tt)) × (bytes x'.writer.buffer ≡ []))
        ⊎ (((a ≡ pending) × Answers narrow pending)
            ⊎ ((e : ℕ) × (a ≡ ready (err (io e))) × Answers narrow (ready (err e)))))
poll_write_lem_example =
    poll_write_lem narrow-IsSink loaded loaded-Room.valid (omega (arith, loaded-Room.fits))

poll_ready_lem_example :
    (a : Poll (Result (YamuxTransportError ℕ) (Unit {0}))) × (x' : YamuxTransport (List ℕ))
    × (poll_ready (suc (length (bytes loaded.writer.buffer))) loaded ≡ done (a, x'))
    × IsValid x'.writer.buffer
    × (x'.stream ++ bytes x'.writer.buffer ≡ loaded.stream ++ bytes loaded.writer.buffer)
    × (length (bytes x'.writer.buffer) ≤ length (bytes loaded.writer.buffer))
    × (x' ≡ with_buffer x'.writer.buffer (record loaded { stream = x'.stream }))
    × (((a ≡ ready (ok tt))
          × ((bytes x'.writer.buffer ≡ [])
              ⊎ (length (bytes x'.writer.buffer) < loaded.max_writer_buffer)))
        ⊎ (((a ≡ pending)
              × (loaded.max_writer_buffer ≤ length (bytes x'.writer.buffer))
              × Answers narrow pending)
            ⊎ ((e : ℕ) × (a ≡ ready (err (io e))) × Answers narrow (ready (err e)))))
poll_ready_lem_example =
    poll_ready_lem narrow-IsSink loaded loaded-Room.valid (omega (arith, loaded-Room.fits))

-- The header of a ping arrives, one byte with each read.
abbrev called : YamuxTransport Duplex
called =
    new_transport
      (record { arrived = 0 ∷ 2 ∷ 0 ∷ 1 ∷ 0 ∷ 0 ∷ 0 ∷ 0 ∷ 0 ∷ 0 ∷ 0 ∷ 77 ∷ []; sent = [] }) 8

called-IsReading : IsReading arriving called
unfolding new_transport Reader.new
called-IsReading = record {
  running = record { buffer = new-IsValid; eight = tt; pending = tt };
  small = omega arith;
}

called_bytes : length (arriving called.stream) < 13
unfolding new_transport
called_bytes = omega arith

poll_next-Arrived_example :
    (a : Poll (Option (Result (YamuxTransportError ℕ) Frame))) × (x' : YamuxTransport Duplex)
    × (poll_next 13 called ≡ done (a, x'))
    × Arrived arriving (λ t. t.sent) called x' a
poll_next-Arrived_example =
    poll_next-Arrived duplex-IsSource 13 called called-IsReading called_bytes
