-- ===== src/Session/Draining.antt =====
-- src/session.rs: the loop of `poll_next` over the heads, which takes what they want to send.
pub mod Head
pub mod Order
use yamux_low_mem.Prelude.{
  ℕ, zero, suc, Bool, true, false, none, some, List, [], ◌∷◌, ◌++◌, map, if◌then◌else◌, Exec, ready,
  pending, done, stuck, ◌>>=◌,
}
use yamux_low_mem.Packet.{StreamId}
use yamux_low_mem.Frame.{Frame, FrameStreamEvent, stream}
use yamux_low_mem.Stream.{Channel, YamuxStreamHead}
use yamux_low_mem.Stream
use yamux_low_mem.Session.{YamuxSession, remove}

module _ {S R : Type 0} ⦃ch : Channel S R⦄ where
  -- `while let Poll::Ready(event) = head.poll_next_unpin(cx)`, with fuel for this loop and for the
  -- one of the head: whether the head is at its end, and the events that it yields.
  unfoldable pub drain :
      ℕ → ℕ → YamuxStreamHead S R → Exec (Bool × (List FrameStreamEvent × YamuxStreamHead S R))
  drain zero polls h = stuck
  drain (suc fuel) polls h = Stream.poll_next polls h >>= λ out. elim out.0 [
    | pending ↦ done (false, ([], out.1))
    | ready event ↦ elim event [
      | none ↦ done (true, ([], out.1))
      | some e ↦ drain fuel polls out.1 >>= λ rest. done (rest.0, (e ∷ rest.1.0, rest.1.1))
    ]
  ]

  -- `for (stream_id, head) in this.streams.iter_mut()`: the heads after it, the frames to send, and
  -- the identifiers in `closed_stream`.
  unfoldable pub drain_all :
      ℕ
      → ℕ
      → List (StreamId × YamuxStreamHead S R)
      → Exec (List (StreamId × YamuxStreamHead S R) × (List Frame × List StreamId))
  unfolding drain
  drain_all fuel polls [] = done ([], ([], []))
  drain_all fuel polls ((id, h) ∷ rest) = do
    (ended, (events, h')) ← drain fuel polls h
    (heads, (frames, ids)) ← drain_all fuel polls rest
    done ((id, h') ∷ heads, (map (stream id) events ++ frames, if ended then id ∷ ids else ids))

-- `for stream_id in closed_stream { this.streams.remove(&stream_id); }`.
unfoldable pub remove_all : {V : Type 0} → List StreamId → List (StreamId × V) → List (StreamId × V)
remove_all [] m = m
remove_all (id ∷ ids) m = remove_all ids (remove id m)

module _ {T S R : Type 0} ⦃ch : Channel S R⦄ where
  unfoldable pub drain_heads : ℕ → ℕ → YamuxSession T S R → Exec (YamuxSession T S R)
  unfolding drain_all remove_all
  drain_heads fuel polls x = do
    (heads, (frames, ids)) ← drain_all fuel polls x.streams
    done (record x { streams = remove_all ids heads; out_queue = x.out_queue ++ frames })
