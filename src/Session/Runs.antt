-- ===== src/Session/Runs.antt =====
-- `YamuxSession`: the states that its user and `poll_next` can bring it to.
pub mod Conforming
pub mod Peer
pub mod Goodbye
pub mod Tests
use yamux_low_mem.Prelude.{
  ℕ, ◌+◌, ◌^◌, ◌<◌, ◌≡◌, Bool, true, false, Option, some, List, [], ◌++◌, length, All, Poll, done,
  ◌>>=◌,
}
use yamux_low_mem.Prelude.Word.{u32_mod}
use yamux_low_mem.Chunk.View.{ChunkView}
use yamux_low_mem.Chunk.Writer as Writer
use yamux_low_mem.Chunk.Writer.Invariant.{Room}
use yamux_low_mem.Chunk.Reader.{reader}
use yamux_low_mem.Chunk.Reader as Reader
use yamux_low_mem.Chunk.Reader.Invariant as ReaderInvariant
use yamux_low_mem.Packet.{StreamId}
use yamux_low_mem.Frame.{Frame}
use yamux_low_mem.Frame.Admitted.{frames_bytes}
use yamux_low_mem.Frame.Progress as Progress
use yamux_low_mem.Stream.{Channel, YamuxStreamHead}
use yamux_low_mem.Stream.Sent.{IsSmall}
use yamux_low_mem.Stream.Handle.{YamuxStream}
use yamux_low_mem.Stream.Handle
use yamux_low_mem.Transport.{ByteStream}
use yamux_low_mem.Transport.Reading.{incoming, work}
use yamux_low_mem.Session.{YamuxSession, new_session, open_stream, close, get, insert}
use yamux_low_mem.Session.Receiving.{proceed, Ends, receive}
use yamux_low_mem.Session.Draining.Order.{IsReady, Enough, AllDrained}
use yamux_low_mem.Session.Driving.{send_queue, poll_next}
use yamux_low_mem.Session.Driving.Order.{IsOrdered}

module _ {T S R : Type 0} (queued : R → List ChunkView) (sent : T → List ℕ) where
  -- The frames that were given to the transport are all that was written, and with those in the
  -- queue they are a sequence that a `FrameWriter` admits; the heads and the reader are as
  -- `poll_next` needs them.
  pub record IsConforming (x : YamuxSession T S R) : Type 0 where
    pub given : List Frame
    pub ordered : IsOrdered sent given x
    pub heads : All (IsReady queued) x.streams
    pub reading :
        Progress.IsRunning ReaderInvariant.IsValid ReaderInvariant.bytes x.transport.reader

module _ (E : Type 0) {T S R : Type 0} (S' R' : Type 0) ⦃s : ByteStream E T⦄ ⦃ch : Channel S R⦄
    (queued : R → List ChunkView) (avail sent : T → List ℕ) where
  -- One step of a session: a call of its user, a write of a stream's user, or a call of `poll_next`,
  -- with what that call has to be given. The identifiers and codes are of the type `u32`.
  pub data Step : YamuxSession T S R → YamuxSession T S R → Type 0 where
    opens :
        {x : YamuxSession T S R} (tx : S') (rx2 : R') (tx2 : S) (rx : R)
        → x.next_stream_id < u32_mod
        → All IsSmall (queued rx)
        → Step x ((open_stream tx rx2 tx2 rx x).1)
    closing : {x : YamuxSession T S R} (code : ℕ) → code < u32_mod → Step x (close code x)
    user_writes :
        {x : YamuxSession T S R} (id : StreamId) (h : YamuxStreamHead S R) (rx : R)
        → get id x.streams ≡ some h
        → All IsSmall (queued rx)
        → Step x (record x { streams = insert id (record h { rx = rx }) x.streams })
    polls :
        {x x' : YamuxSession T S R} (a : Poll (Option (YamuxStream S' R')))
        (frames reads drains fuel n : ℕ) (ends : Ends S R S' R')
        → All IsSmall (queued ends.rx)
        → x.manual_close ≡ false
        → Room (length (frames_bytes x.out_queue) + n) x.transport.writer.buffer
        → ((any : Bool) (x1 : YamuxSession T S R)
            → send_queue E x ≡ done (any, x1)
            → (length (incoming avail x1.transport) < 2 ^ 63)
              × (work avail x1.transport < frames)
              × (work avail x1.transport < reads))
        → ((any : Bool) (x1 x2 : YamuxSession T S R)
            → send_queue E x ≡ done (any, x1)
            → receive E {S' = S'} {R' = R'} frames reads ends x1 ≡ done (proceed, x2)
            → All (Enough queued drains fuel) x2.streams
              × ((heads : List (StreamId × YamuxStreamHead S R)) (fs : List Frame)
                    (ids : List StreamId)
                  → AllDrained queued x2.streams heads fs ids
                  → Room
                      (length (frames_bytes (x2.out_queue ++ fs)) + n)
                      x2.transport.writer.buffer))
        → poll_next E frames reads drains fuel ends x ≡ done (a, x')
        → Step x x'
    polls_closing :
        {x x' : YamuxSession T S R} (a : Poll (Option (YamuxStream S' R')))
        (frames reads drains fuel n : ℕ) (ends : Ends S R S' R')
        → x.manual_close ≡ true
        → Room (length (frames_bytes x.out_queue) + n) x.transport.writer.buffer
        → poll_next E frames reads drains fuel ends x ≡ done (a, x')
        → Step x x'

  pub data Reachable : YamuxSession T S R → Type 0 where
    starts :
        (t : T) (is_server : Bool) (max : ℕ) → sent t ≡ [] → Reachable (new_session t is_server max)
    steps : {x x' : YamuxSession T S R} → Reachable x → Step x x' → Reachable x'
