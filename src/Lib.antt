-- ===== src/Lib.antt =====
-- yamux-low-mem: the Yamux protocol over chunked buffers.
--
-- The program multiplexes byte streams over one connection. Its layers, from the bottom up:
--   * src/chunk.rs keeps bytes in blocks of fixed size: `ChunkOwned` is filled at its end and
--     consumed at its front, `ChunkView` is a window into a block that nothing changes any more,
--     and `ChainedChunkBufferWriter` and `ChainedChunkBufferReader` are queues of both. Four traits
--     hide the queues from the layers above.
--   * src/packet.rs is the wire format of the twelve bytes of a header, written to and read from
--     any buffer with these traits.
--   * src/frame.rs turns headers and payloads into frames. A payload follows its header in chunks;
--     `FrameReader` and `FrameWriter` keep what is left of it, and the writer refuses a frame out
--     of order.
--   * src/stream.rs has the two halves of a stream: `YamuxStreamHead`, which the session drives
--     with `on_input` and `poll_next`, and `YamuxStream`, which the user holds. Two channels
--     connect them.
--   * src/transport.rs puts frames on an asynchronous byte stream, and src/session.rs keeps the
--     heads of all streams and moves events between them and the transport.
--
-- The files, and what they model:
--   * Prelude, with Tests, Lists, Outcome, Word and Bits: Boolean tests, lists over the native
--     numbers, panics and results as values, `usize` arithmetic, masks.
--   * Chunk.Owned, Chunk.View, Chunk.Writer, Chunk.Reader, Chunk.OwnedWriter: the buffers of
--     src/chunk.rs, one function per method, with the names of the source. Chunk.Traits: its traits
--     as records, with their provided methods; Chunk.Traits.Reads and Chunk.Traits.Writes: what an
--     implementation promises, `IsReader` and `IsWriter`, which the layers above take as a
--     parameter. The child modules hold the lemmas, by topic; Chunk.Reader.Conversion is about the
--     way from a writer to a reader.
--   * Packet: src/packet.rs; `read` and `write` are `Header::read` and `Header::write`. Packet.Wire
--     is about the bytes of a header, Packet.FlagBits about flags and frame types.
--   * Frame: src/frame.rs; `next_frame` is `FrameReader::next_frame`, `write_frame` is
--     `FrameWriter::write`, whose checks are `admit`; `read` and `write` are `Frame::read` and
--     `Frame::write`. Frame.Codec has the bytes of one frame. Frame.Messages is the specification:
--     messages, that is control frames and whole payloads. Frame.Admitted has the order of frames
--     as a relation, Frame.Stands the messages that an admitted sequence stands for, Frame.Reading
--     and Frame.Collect the loop that polls a reader, Frame.Writing the writer and the way back.
--   * Stream: `YamuxStreamHead` of src/stream.rs; `open_head` and `accept_head` are its
--     constructors, `pump` is the loop of its `poll_next`. Stream.Input and Stream.Ledger are about
--     `on_input`, Stream.Sent, Stream.Pump and Stream.Polling about `poll_next`, and
--     Stream.Agreement compares a head with a `FrameWriter`. Stream.Handle is `YamuxStream`, with
--     lemmas on its reads in Stream.Handle.Parts and Stream.Handle.Reading, and on its writes in
--     Stream.Handle.Writing.
--   * Transport: src/transport.rs; `start_send`, `poll_ready`, `poll_flush` and `poll_close` are its
--     `Sink`, `poll_next` its `Stream`, with the loop `read_loop`. Transport.Flushing is about the
--     bytes on their way out, Transport.Reading and its child Loop about those that come in.
--   * Session: src/session.rs; the state of `YamuxSession`, its construction, `open_stream` and
--     `close`. Its `poll_next` is in three files, in the order of its steps: Session.Receiving has
--     the loop over received frames, Session.Draining the loops over the heads, Session.Driving the
--     loop that hands frames to the transport and the composition of them all. Session.Streams and
--     Session.Entries are about identifiers and the map of heads; below Session.Receiving,
--     Isolation and Invariant are about one frame, Loop about all of them, which Handled has as a
--     relation; below Session.Draining, Head and Order are about one head and about all of them;
--     below Session.Driving, Delivery, Order and Rest are about what is sent, Whole about a call as
--     a whole, Closing about the end of a session, and Idle about a call with nothing to do.
--     Session.Runs has the steps that the users of a session and `poll_next` take, and the states
--     that they reach; Session.Runs.Conforming is about these states, and Session.Runs.Peer and
--     Session.Runs.Goodbye are about what a peer reads, at any time and after a close.
--   * The files called Tests run the definitions on small inputs, and apply the theorems to them;
--     Transport.Fixture, Session.Fixture and Session.Quiet have what they share.
--
-- A method that changes its object returns the new object beside its result. A panic, an index out
-- of range and a failed assertion are the outcome `panic`; a `Result` is a value. `usize` has 64
-- bits, and its arithmetic wraps, as in a release build. No `Vec` has 2^63 bytes or more, so the
-- lemmas ask for counts below that. A `VecDeque` is a list, an `Arc` the buffer that it points to.
--
-- Loops run on fuel, and without enough of it end in `stuck`, which no outcome of the program is:
-- one round per byte is enough for `write_slice`, one more round than there are bytes for polling a
-- reader or for `poll_write` of a transport, one more round than there are chunks queued for
-- `poll_next` of a head, and for its caller one more than the events that the head may still
-- yield; one more round than there are bytes to read for `poll_next` of the transport, and one more
-- than twice the bytes for the session's loop over frames, or two more if a payload is pending. The
-- theorems say that the loops end with that much.
--
-- The channels of the crate `futures` are parameters, `Channel` and `UserChannel`, and so is the
-- byte stream below the transport, `ByteStream`. Of a receiving end the theorems ask `IsReceiver`:
-- it yields what is queued, in order, and then waits or has ended; of a sending end `IsSender`: a
-- chunk is queued behind the others, or the call fails; of a byte stream `IsSink`: a write accepts
-- some bytes from the front, waits or fails, and `IsSource`: the bytes that have arrived are
-- finitely many, and a read gives some of them from the front, waits, ends or fails. `IsEager` is a
-- byte stream that neither waits nor fails to write.
--
-- The `HashMap` of a session is an association list, whose order is that of an iteration.
--
-- Not modelled: wakers and scheduling, the log, the `Display` instances, and the programs under
-- examples and tests.
pub mod Prelude
pub mod Chunk
pub mod Packet
pub mod Frame
pub mod Stream
pub mod Transport
pub mod Session
