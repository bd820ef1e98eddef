-- ===== src/Session/Fixture.antt =====
-- Sessions for the tests of src/session.rs, on a byte stream on which a ping has arrived.
use yamux_low_mem.Prelude.{ℕ, ◌^◌, ◌<◌, refl, true, List, [], ◌∷◌, arith}
use yamux_low_mem.Chunk.View.{ChunkView}
use yamux_low_mem.Chunk.Writer as Writer
use yamux_low_mem.Chunk.Writer.Invariant.{Room, new-Room}
use yamux_low_mem.Chunk.Reader.{reader}
use yamux_low_mem.Chunk.Reader as Reader
use yamux_low_mem.Chunk.Reader.Invariant as ReaderInvariant
use yamux_low_mem.Packet.{StreamId, syn_flags}
use yamux_low_mem.Frame.{Frame, session, ping, admit}
use yamux_low_mem.Stream.{YamuxStreamHead, open_head}
use yamux_low_mem.Stream.Tests.{pair, pair-IsSmall, queues}
use yamux_low_mem.Transport.{new_transport}
use yamux_low_mem.Transport.Reading.{IsReading}
use yamux_low_mem.Transport.Fixture.{Duplex, arriving}
use yamux_low_mem.Session.{YamuxSession, new_session}
use yamux_low_mem.Session.Receiving.{Ends}
use yamux_low_mem.Session.Receiving.Loop.{IsRunning}
use yamux_low_mem.Session.Draining.Order.{IsReady}
use yamux_low_mem.Session.Driving.Order.{IsOrdered}

-- Both ends of a channel are lists of chunks.
abbrev pub Queue : Type 0
Queue = List ChunkView

abbrev pub ends : Ends Queue Queue Queue Queue
ends = record { tx = []; rx2 = []; tx2 = []; rx = pair ∷ [] }

abbrev pub sent : Duplex → List ℕ
sent t = t.sent

-- A ping with the SYN flag has arrived, and asks for an answer.
abbrev pub wire : Duplex
wire = record { arrived = 0 ∷ 2 ∷ 0 ∷ 1 ∷ 0 ∷ 0 ∷ 0 ∷ 0 ∷ 0 ∷ 0 ∷ 0 ∷ 77 ∷ []; sent = [] }

abbrev pub host : YamuxSession Duplex Queue Queue
host = new_session wire true 64

pub host-IsOrdered : IsOrdered sent [] host
unfolding new_session new_transport Writer.new
host-IsOrdered = record { sound = tt; given_sound = tt; admitted = refl; bytes = refl }

pub host-IsReading : IsReading arriving host.transport
unfolding new_session new_transport Reader.new
host-IsReading = record {
  running = record { buffer = ReaderInvariant.new-IsValid; eight = tt; pending = tt };
  small = omega arith;
}

pub host-IsRunning : IsRunning (λ q. q) arriving sent [] host
unfolding new_session
host-IsRunning = record { heads = tt; ordered = host-IsOrdered; reading = host-IsReading }

abbrev pub greeting : Frame
greeting = session (ping syn_flags 5)

pub room : (n : ℕ) → n < 2 ^ 63 → Room n host.transport.writer.buffer
unfolding new_session new_transport
room n small = new-Room n small

abbrev pub two : StreamId
two = record { value = 2 }

-- A stream that the host opened, and whose user has written two bytes.
abbrev pub head : YamuxStreamHead Queue Queue
head = open_head two [] (pair ∷ [])

pub head-IsReady : IsReady (λ q. q) (two, head)
unfolding open_head admit
head-IsReady = record {
  own = refl;
  word = omega arith;
  small = (pair-IsSmall, tt);
  admitted = refl;
  sound = ((omega arith, omega arith), tt);
}

-- The host with this stream.
abbrev pub busy : YamuxSession Duplex Queue Queue
busy = record host { streams = (two, head) ∷ [] }
