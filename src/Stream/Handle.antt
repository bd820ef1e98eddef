-- ===== src/Stream/Handle.antt =====
-- src/stream.rs, the user's half of a stream: `YamuxStream`.
-- Its channels are those of the crate `futures`, as in the session's half. `poll_read` returns the
-- bytes that it copies to the front of the user's buffer, beside the new state.
pub mod Parts
pub mod Reading
pub mod Writing
pub mod Tests
use yamux_low_mem.Prelude.{
  ℕ, min, Bool, true, false, Option, none, some, List, [], ◌==◌, if◌then◌else◌, length, take, Exec,
  Poll, ready, pending, done, Result, ok, err, ◌>>=◌,
}
use yamux_low_mem.Prelude.Word.{add_usize, sub_usize, slice}
use yamux_low_mem.Chunk.View.{ChunkView, view_of_slice}
use yamux_low_mem.Chunk.View
use yamux_low_mem.Chunk.Owned.{default_chunk_capacity}
use yamux_low_mem.Packet.{StreamId}
use yamux_low_mem.Stream.{YamuxStreamHead, open_head, accept_head, slice_len}

-- `Sender` and `UnboundedReceiver`; a Boolean says whether a call succeeded.
pub record UserChannel (S R : Type 0) : Type 0 where
  pub poll_ready : S → Poll Bool × S
  pub start_send : ChunkView → S → Bool × S
  pub poll_flush : S → Poll Bool × S
  pub poll_close : S → Poll Bool × S
  pub poll_next : R → Poll (Option ChunkView) × R

-- `std::io::Error`, of the one kind that the code makes.
pub data IoError : Type 0 where
  broken_pipe : IoError

pub record YamuxStream (S R : Type 0) : Type 0 where
  pub id : StreamId
  pub tx : S
  pub rx : R
  pub recv_chunk : Option (ChunkView × ℕ)
  pub written : ℕ
  pub read : ℕ

-- `map_err(|e| std::io::Error::new(BrokenPipe, e))`.
abbrev pub pipe_result : Poll Bool → Poll (Result IoError (Unit {0}))
pipe_result pending = pending
pipe_result (ready true) = ready (ok tt)
pipe_result (ready false) = ready (err broken_pipe)

module _ {S R : Type 0} where
  -- The second half of `poll_read`: copies from the chunk that is at hand.
  unfoldable pub read_part :
      ℕ → ChunkView → ℕ → YamuxStream S R → Exec (Poll (Result IoError (List ℕ)) × YamuxStream S R)
  unfolding slice_len
  read_part n c offset x = do
    size ← slice_len c
    let read_len = min (sub_usize size offset) n
    bytes ← View.deref c
    part ← slice bytes offset (add_usize offset read_len)
    let offset' = add_usize offset read_len
    done (
      ready (ok part),
      record x {
        recv_chunk = if offset' == size then none else some (c, offset');
        read = add_usize x.read read_len;
      },
    )

  -- `open_stream` and `accept_stream`, with the ends of their two channels.
  unfoldable pub open_stream :
      {S' R' : Type 0} → StreamId → S → R → S' → R' → YamuxStreamHead S' R' × YamuxStream S R
  open_stream id tx rx2 tx2 rx = (
    open_head id tx2 rx,
    record { id = id; tx = tx; rx = rx2; recv_chunk = none; read = 0; written = 0 },
  )

  unfoldable pub accept_stream :
      {S' R' : Type 0} → StreamId → S → R → S' → R' → YamuxStreamHead S' R' × YamuxStream S R
  accept_stream id tx rx2 tx2 rx = (
    accept_head id tx2 rx,
    record { id = id; tx = tx; rx = rx2; recv_chunk = none; read = 0; written = 0 },
  )

module _ {S R : Type 0} ⦃ch : UserChannel S R⦄ where
  -- `AsyncRead::poll_read`, for a buffer of `n` bytes.
  unfoldable pub poll_read :
      ℕ → YamuxStream S R → Exec (Poll (Result IoError (List ℕ)) × YamuxStream S R)
  unfolding read_part slice_len
  poll_read n x = elim x.recv_chunk [
    | some at_hand ↦ read_part n at_hand.0 at_hand.1 x
    | none ↦
        let (event, rx) = ch.poll_next x.rx in
        elim event [
          | pending ↦ done (pending, record x { rx = rx })
          | ready next ↦ elim next [
            | none ↦ done (ready (err broken_pipe), record x { rx = rx })
            | some c ↦ slice_len c >>= λ size. elim (size == 0) [
              | true ↦ done (ready (ok []), record x { rx = rx })
              | false ↦ read_part n c 0 (record x { rx = rx; recv_chunk = some (c, 0) })
            ]
          ]
        ]
  ]

  -- `AsyncWrite::poll_write`.
  unfoldable pub poll_write : List ℕ → YamuxStream S R → Poll (Result IoError ℕ) × YamuxStream S R
  poll_write buf x =
      let (open_slot, tx) = ch.poll_ready x.tx in
      elim open_slot [
        | pending ↦ (pending, record x { tx = tx })
        | ready usable ↦
            if usable
            then (let send_len = min (length buf) default_chunk_capacity in
                let (sent, tx') = ch.start_send (view_of_slice (take send_len buf)) tx in
                if sent
                then (
                  ready (ok send_len),
                  record x { tx = tx'; written = add_usize x.written send_len },
                )
                else (ready (err broken_pipe), record x { tx = tx' }))
            else (ready (err broken_pipe), record x { tx = tx })
      ]

  unfoldable pub poll_flush : YamuxStream S R → Poll (Result IoError (Unit {0})) × YamuxStream S R
  poll_flush x = let (answer, tx) = ch.poll_flush x.tx in (pipe_result answer, record x { tx = tx })

  unfoldable pub poll_close : YamuxStream S R → Poll (Result IoError (Unit {0})) × YamuxStream S R
  poll_close x = let (answer, tx) = ch.poll_close x.tx in (pipe_result answer, record x { tx = tx })
