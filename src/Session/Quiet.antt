-- ===== src/Session/Quiet.antt =====
-- A session for the tests of src/session.rs, with a ping to send, on a byte stream on which nothing
-- arrives.
use yamux_low_mem.Prelude.{
  ℕ, ◌+◌, ◌^◌, ◌<◌, min, ◌≡◌, refl, sym, ap, subst, ◌∙◌, inl, inr, Bool, true, false, none, List,
  [], ◌∷◌, ◌++◌, append-nil, arith, length, All, pending, done, ok,
}
use yamux_low_mem.Chunk.Writer as Writer
use yamux_low_mem.Chunk.Writer.Invariant.{Room, new-Room}
use yamux_low_mem.Chunk.Reader.{reader}
use yamux_low_mem.Chunk.Reader as Reader
use yamux_low_mem.Chunk.Reader.Invariant as ReaderInvariant
use yamux_low_mem.Packet.{StreamId}
use yamux_low_mem.Packet.Wire.{header_bytes}
use yamux_low_mem.Frame.{Frame, admit}
use yamux_low_mem.Frame.Admitted.{frames_bytes}
use yamux_low_mem.Frame.Progress as Progress
use yamux_low_mem.Stream.{YamuxStreamHead}
use yamux_low_mem.Transport.{YamuxTransport, new_transport}
use yamux_low_mem.Transport
use yamux_low_mem.Transport.Reading.{IsSource, work, incoming}
use yamux_low_mem.Transport.Tests.{narrow, narrow-IsSink}
use yamux_low_mem.Transport.Fixture.{nothing_arrives}
use yamux_low_mem.Session.{YamuxSession, new_session}
use yamux_low_mem.Prelude.{◌++◌, sym}
use yamux_low_mem.Frame.Codec.{frame_bytes}
use yamux_low_mem.Transport.{start_send, with_buffer}
use yamux_low_mem.Transport.Flushing.{start_send_lem}
use yamux_low_mem.Session.Receiving.Loop.{IsRunning}
use yamux_low_mem.Session.Draining.{drain_all}
use yamux_low_mem.Stream.Tests.{queues}
use yamux_low_mem.Session.Driving.Delivery.{written}
use yamux_low_mem.Session.Fixture.{Queue, ends, greeting}
use yamux_low_mem.Session.Receiving.{proceed, receive}
use yamux_low_mem.Session.Draining.Order.{IsReady, Enough, AllDrained, no_heads, head_drained}
use yamux_low_mem.Session.Driving.{send_queue}
use yamux_low_mem.Session.Driving.Order.{IsOrdered, Handed, send_queue-IsOrdered}
use yamux_low_mem.Session.Driving.Closing.{IsEager}

abbrev pub sent : List ℕ → List ℕ
sent t = t

abbrev pub nothing : List ℕ → List ℕ
nothing t = []

pub narrow-IsSource : IsSource narrow nothing sent
narrow-IsSource = record {
  read_some = λ n t pos. inr (pending, t, refl, inl refl, refl, refl);
  eight = λ t. tt;
}

pub narrow-IsEager : IsEager narrow sent
narrow-IsEager = record {
  writes = λ ys t pos. (min 2 (length ys), _, refl);
  closes = λ t. (ok tt, t, refl, refl);
}

abbrev pub quiet : YamuxSession (List ℕ) Queue Queue
quiet = record (new_session [] true 64) { out_queue = greeting ∷ [] }

pub quiet-IsOrdered : IsOrdered sent [] quiet
unfolding new_session new_transport Writer.new admit
quiet-IsOrdered = record {
  sound = (omega arith, tt);
  given_sound = tt;
  admitted = refl;
  bytes = refl;
}

pub quiet_heads : All (IsReady (λ q. q)) quiet.streams
unfolding new_session
quiet_heads = tt

pub quiet_open : quiet.manual_close ≡ false
unfolding new_session
quiet_open = refl

pub quiet_reader :
    Progress.IsRunning ReaderInvariant.IsValid ReaderInvariant.bytes quiet.transport.reader
unfolding new_session new_transport Reader.new
quiet_reader = record { buffer = ReaderInvariant.new-IsValid; eight = tt; pending = tt }

pub quiet_room : Room (length (frames_bytes quiet.out_queue) + 0) quiet.transport.writer.buffer
unfolding new_session new_transport header_bytes
quiet_room = new-Room _ (omega arith)

-- The first send hands over the ping.
sends :
    (any : Bool) × (x1 : YamuxSession (List ℕ) Queue Queue) × (send_queue ℕ quiet ≡ done (any, x1))
    × Handed narrow-IsSink 0 [] quiet any x1
sends = send_queue-IsOrdered narrow-IsSink 0 [] quiet quiet-IsOrdered quiet_room

first :
    (any : Bool) (x1 : YamuxSession (List ℕ) Queue Queue)
    → send_queue ℕ quiet ≡ done (any, x1)
    → Handed narrow-IsSink 0 [] quiet any x1
first any x1 e =
    let (any0, x0, run, h) = sends in
    let same : (any0, x0) ≡ (any, x1) = cc in
    subst
      (λ (q : Bool × YamuxSession (List ℕ) Queue Queue). Handed narrow-IsSink 0 [] quiet q.0 q.1)
      same h

quiet_fresh : quiet.transport.reader ≡ record { buffer = Reader.new; pending = none }
unfolding new_session new_transport
quiet_fresh = refl

-- There is nothing to read.
waits :
    (t : YamuxTransport (List ℕ))
    → t.reader ≡ record { buffer = Reader.new; pending = none }
    → Transport.poll_next {E = ℕ} 30 t ≡ done (pending, t)
waits t e = nothing_arrives 29 t e refl

receives :
    (x1 : YamuxSession (List ℕ) Queue Queue)
    → x1.transport.reader ≡ record { buffer = Reader.new; pending = none }
    → receive ℕ {S' = Queue} {R' = Queue} 30 30 ends x1 ≡ done (proceed, x1)
unfolding receive
receives x1 e = rw (waits x1.transport e) refl

-- A send is followed by no read, and no head has anything to send.
pub quiet_arrives :
    (any : Bool) (x1 : YamuxSession (List ℕ) Queue Queue)
    → send_queue ℕ quiet ≡ done (any, x1)
    → (length (incoming nothing x1.transport) < 2 ^ 63)
      × (work nothing x1.transport < 30)
      × (work nothing x1.transport < 30)
unfolding Reader.new
quiet_arrives any x1 e =
    let fresh = (first any x1 e).reader ∙ quiet_fresh in
    rw fresh (omega arith, omega arith, omega arith)

quiet_streams : quiet.streams ≡ []
unfolding new_session
quiet_streams = refl

none_drained :
    (m heads : List (StreamId × YamuxStreamHead Queue Queue)) (fs : List Frame)
    (ids : List StreamId)
    → AllDrained (λ q. q) m heads fs ids
    → m ≡ []
    → fs ≡ []
none_drained _ _ _ _ no_heads e = refl
none_drained _ _ _ _ (head_drained d ds) e = absurd (cc)

pub quiet_serves :
    (any : Bool) (x1 x2 : YamuxSession (List ℕ) Queue Queue)
    → send_queue ℕ quiet ≡ done (any, x1)
    → receive ℕ {S' = Queue} {R' = Queue} 30 30 ends x1 ≡ done (proceed, x2)
    → All (Enough (λ q. q) 1 1) x2.streams
      × ((heads : List (StreamId × YamuxStreamHead Queue Queue)) (fs : List Frame)
            (ids : List StreamId)
          → AllDrained (λ q. q) x2.streams heads fs ids
          → Room (length (frames_bytes (x2.out_queue ++ fs)) + 0) x2.transport.writer.buffer)
quiet_serves any x1 x2 e r =
    let h = first any x1 e in
    let same : x1 ≡ x2 = let run = receives x1 (h.reader ∙ quiet_fresh) in cc in
    let streams : x2.streams ≡ [] =
      ap (λ y. y.streams) (sym same) ∙ ap (λ y. y.streams) h.kept ∙ quiet_streams in
    let room : Room (length (frames_bytes x2.out_queue) + 0) x2.transport.writer.buffer =
      subst
        (λ (y : YamuxSession (List ℕ) Queue Queue).
          Room (length (frames_bytes y.out_queue) + 0) y.transport.writer.buffer)
        same h.room in
    (
      subst (All (Enough (λ q. q) 1 1)) (sym streams) tt,
      λ heads fs ids ds.
          subst
            (λ g. Room (length (frames_bytes (x2.out_queue ++ g)) + 0) x2.transport.writer.buffer)
            (sym (none_drained x2.streams heads fs ids ds streams))
            (subst (λ g. Room (length (frames_bytes g) + 0) x2.transport.writer.buffer)
              (sym (append-nil x2.out_queue)) room),
    )

-- A ping that is encoded and not yet written.
pub loads :
    (t : YamuxTransport (List ℕ)) × (start_send greeting quiet.transport ≡ done t)
    × Room 0 t.writer.buffer
    × (t ≡ with_buffer t.writer.buffer quiet.transport)
    × (written sent t ≡ written sent quiet.transport ++ frame_bytes greeting)
unfolding header_bytes new_session new_transport
loads = start_send_lem sent greeting 0 quiet.transport (omega arith) (new-Room _ (omega arith))

-- The session with these bytes, and nothing more to send.
abbrev pub left : YamuxSession (List ℕ) Queue Queue
left = record quiet { transport = loads.0; out_queue = [] }

left_fresh : left.transport.reader ≡ record { buffer = Reader.new; pending = none }
left_fresh = ap (λ t. t.reader) loads.3 ∙ quiet_fresh

quiet_written : written sent quiet.transport ≡ []
unfolding new_session new_transport Writer.new
quiet_written = refl

pub left-IsRunning : IsRunning (λ q. q) nothing sent (greeting ∷ []) left
unfolding admit new_session Reader.new
left-IsRunning = record {
  heads = tt;
  ordered = record {
    sound = tt;
    given_sound = (omega arith, tt);
    admitted = refl;
    bytes =
        loads.4
        ∙ ap (λ q. q ++ frame_bytes greeting) quiet_written
        ∙ sym (append-nil (frame_bytes greeting));
  };
  reading = record {
    running =
        subst (Progress.IsRunning ReaderInvariant.IsValid ReaderInvariant.bytes) (sym left_fresh)
          (record { buffer = ReaderInvariant.new-IsValid; eight = tt; pending = tt });
    small = rw left_fresh (omega arith);
  };
}

pub left_work : work nothing left.transport < 30
unfolding Reader.new
left_work = rw left_fresh (omega arith)

pub left_receives : receive ℕ {S' = Queue} {R' = Queue} 30 30 ends left ≡ done (proceed, left)
left_receives = receives left left_fresh

pub left_drains : drain_all 1 1 left.streams ≡ done ([], ([], []))
unfolding drain_all new_session
left_drains = refl
