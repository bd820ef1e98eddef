-- ===== src/Transport.antt =====
-- src/transport.rs: `YamuxTransport`, frames on an asynchronous byte stream.
-- The byte stream is a parameter: `ByteStream` has the calls that the code makes, and what a call
-- changes is returned. A context with its waker is not modelled.
pub mod Flushing
pub mod Reading
pub mod Fixture
pub mod Tests
use yamux_low_mem.Prelude.{
  ℕ, zero, suc, Option, none, some, List, [], ◌∷◌, leb, if◌then◌else◌, length, Exec, Poll, ready,
  pending, done, stuck, Result, ok, err, ◌>>=◌,
}
use yamux_low_mem.Chunk.View.{view_of_vec}
use yamux_low_mem.Chunk.Writer.{ChainedChunkBufferWriter, front_slice, consume_front, writer}
use yamux_low_mem.Chunk.Writer as Writer
use yamux_low_mem.Chunk.Reader.{ChainedChunkBufferReader, reader, sink}
use yamux_low_mem.Chunk.Reader as Reader
use yamux_low_mem.Packet.{ParserError}
use yamux_low_mem.Frame.{
  Frame, FrameReader, FrameWriter, new_reader, new_writer, write, next_frame, push_back,
}

-- `poll_read` of at most as many bytes as its buffer has gives the bytes read.
pub record ByteStream (E T : Type 0) : Type 0 where
  pub poll_write : List ℕ → T → Poll (Result E ℕ) × T
  pub poll_read : ℕ → T → Poll (Result E (List ℕ)) × T
  pub poll_close : T → Poll (Result E (Unit {0})) × T

pub data YamuxTransportError (E : Type 0) : Type 0 where
  io : E → YamuxTransportError E
  parser_error : ParserError → YamuxTransportError E

pub record YamuxTransport (T : Type 0) : Type 0 where
  pub stream : T
  pub max_writer_buffer : ℕ
  pub writer : FrameWriter ChainedChunkBufferWriter
  pub reader : FrameReader ChainedChunkBufferReader

unfoldable pub new_transport : {T : Type 0} → T → ℕ → YamuxTransport T
new_transport stream max_writer_buffer = record {
  stream = stream;
  max_writer_buffer = max_writer_buffer;
  writer = new_writer Writer.new;
  reader = new_reader Reader.new;
}

-- `self.writer.buffer_mut()`, replaced.
abbrev pub with_buffer :
    {T : Type 0} → ChainedChunkBufferWriter → YamuxTransport T → YamuxTransport T
with_buffer w x = record x { writer = record x.writer { buffer = w } }

module _ {T : Type 0} where
  -- `Sink::start_send`: the frame is encoded without the checks of `FrameWriter::write`.
  unfoldable pub start_send : Frame → YamuxTransport T → Exec (YamuxTransport T)
  start_send frame x = do w ← write frame x.writer.buffer; done (with_buffer w x)

-- `map_err(|e| YamuxTransportError::Io(…))`.
abbrev pub io_error :
    {E : Type 0} → Poll (Result E (Unit {0})) → Poll (Result (YamuxTransportError E) (Unit {0}))
io_error pending = pending
io_error (ready (ok a)) = ready (ok a)
io_error (ready (err e)) = ready (err (io e))

module _ {E T : Type 0} ⦃s : ByteStream E T⦄ where
  -- `while let Some(front) = self.writer.buffer_mut().front_slice()`, with fuel.
  unfoldable pub poll_write :
      ℕ
      → YamuxTransport T
      → Exec (Poll (Result (YamuxTransportError E) (Unit {0})) × YamuxTransport T)
  poll_write zero x = stuck
  poll_write (suc fuel) x = front_slice x.writer.buffer >>= λ next. elim next [
    | none ↦ done (ready (ok tt), x)
    | some front ↦
        let (answer, stream) = s.poll_write front x.stream in
        elim answer [
          | pending ↦ done (pending, record x { stream = stream })
          | ready written ↦ elim written [
            | err e ↦ done (ready (err (io e)), record x { stream = stream })
            | ok n ↦ consume_front n x.writer.buffer >>= λ w.
                poll_write fuel (with_buffer w (record x { stream = stream }))
          ]
        ]
  ]

  -- While the bytes cannot be written, more frames are welcome up to `max_writer_buffer`.
  unfoldable pub poll_ready :
      ℕ
      → YamuxTransport T
      → Exec (Poll (Result (YamuxTransportError E) (Unit {0})) × YamuxTransport T)
  poll_ready fuel x = poll_write fuel x >>= λ out. elim out.0 [
    | ready answer ↦ done (ready answer, out.1)
    | pending ↦
        if leb out.1.max_writer_buffer out.1.writer.buffer.filled
        then done (pending, out.1)
        else done (ready (ok tt), out.1)
  ]

  unfoldable pub poll_flush :
      ℕ
      → YamuxTransport T
      → Exec (Poll (Result (YamuxTransportError E) (Unit {0})) × YamuxTransport T)
  poll_flush fuel x = poll_write fuel x

  unfoldable pub poll_close :
      ℕ
      → YamuxTransport T
      → Exec (Poll (Result (YamuxTransportError E) (Unit {0})) × YamuxTransport T)
  poll_close fuel x = poll_write fuel x >>= λ out. elim out.0 [
    | pending ↦ done (pending, out.1)
    | ready flushed ↦ elim flushed [
      | err e ↦ done (ready (err e), out.1)
      | ok _ ↦
          let (answer, stream) = s.poll_close out.1.stream in
          done (io_error answer, record out.1 { stream = stream })
    ]
  ]

  -- What `next_frame` gives, or what to do for want of bytes.
  pub after_frame :
      Exec (Poll (Option (Result (YamuxTransportError E) Frame)) × YamuxTransport T)
      → Result ParserError (Option Frame)
      → YamuxTransport T
      → Exec (Poll (Option (Result (YamuxTransportError E) Frame)) × YamuxTransport T)
  after_frame otherwise (ok (some frame)) x = done (ready (some (ok frame)), x)
  after_frame otherwise (ok none) x = otherwise
  after_frame otherwise (err e) x = done (ready (some (err (parser_error e))), x)

  -- The match on what a read gives; `next` is the rest of the loop.
  pub on_read :
      (YamuxTransport T
        → Exec (Poll (Option (Result (YamuxTransportError E) Frame)) × YamuxTransport T))
      → Poll (Result E (List ℕ))
      → YamuxTransport T
      → Exec (Poll (Option (Result (YamuxTransportError E) Frame)) × YamuxTransport T)
  unfolding after_frame
  on_read next pending x = done (pending, x)
  on_read next (ready (err e)) x = done (ready (some (err (io e))), x)
  on_read next (ready (ok [])) x = done (ready none, x)
  on_read next (ready (ok (b ∷ bs))) x =
      next_frame
        (push_back (view_of_vec (record { items = b ∷ bs; capacity = length (b ∷ bs) })) x.reader)
      >>= λ out.
          after_frame (next (record x { reader = out.1 })) out.0 (record x { reader = out.1 })

  -- The loop of `poll_next`, with fuel; `buf` has 4096 bytes.
  unfoldable pub read_loop :
      ℕ
      → YamuxTransport T
      → Exec (Poll (Option (Result (YamuxTransportError E) Frame)) × YamuxTransport T)
  unfolding on_read
  read_loop zero x = stuck
  read_loop (suc fuel) x =
      let (answer, stream) = s.poll_read 4096 x.stream in
      on_read (λ x'. read_loop fuel x') answer (record x { stream = stream })

  -- `impl Stream for YamuxTransport`, with fuel for its loop.
  unfoldable pub poll_next :
      ℕ
      → YamuxTransport T
      → Exec (Poll (Option (Result (YamuxTransportError E) Frame)) × YamuxTransport T)
  unfolding after_frame read_loop
  poll_next fuel x = next_frame x.reader >>= λ out.
      after_frame (read_loop fuel (record x { reader = out.1 })) out.0 (record x { reader = out.1 })
