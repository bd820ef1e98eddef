-- ===== src/Stream.antt =====
-- src/stream.rs, the session's half of a stream: `YamuxStreamHead`.
-- The channels between the two halves are those of the crate `futures`. They are a parameter:
-- `Channel` has the calls that the code makes, and what a call changes is returned.
pub mod Input
pub mod Ledger
pub mod Replies
pub mod Handle
pub mod Sent
pub mod Pump
pub mod Polling
pub mod Agreement
pub mod Tests
use yamux_low_mem.Prelude.{
  Poll, ready, pending, ℕ, zero, suc, ◌*◌, ◌/◌, ◌%◌, Bool, true, false, ◌&&◌, not, Option, none,
  some, List, [], ◌∷◌, ◌++◌, ltb, leb, ◌==◌, if◌then◌else◌, length, Exec, done, stuck, Result, ok,
  err, ◌>>=◌,
}
use yamux_low_mem.Prelude.Word.{u32_mod, add_usize, sub_usize, saturating_sub}
use yamux_low_mem.Chunk.View.{ChunkView, view_of_slice}
use yamux_low_mem.Chunk.View
use yamux_low_mem.Chunk.Owned.{default_chunk_capacity}
use yamux_low_mem.Packet.{StreamId, Flags, empty_flags, syn_flags, ack_flags, fin_flags}
use yamux_low_mem.Frame.{FrameStreamEvent, data_header, data_chunk, window_update}

abbrev pub initial_window : ℕ
initial_window = 256 * 1024

abbrev pub default_window_update_threshold : ℕ
default_window_update_threshold = initial_window / 2

-- `UnboundedSender::unbounded_send`, with whether it succeeded, and `Receiver::poll_next`.
pub record Channel (S R : Type 0) : Type 0 where
  pub unbounded_send : ChunkView → S → Bool × S
  pub poll_next : R → Poll (Option ChunkView) × R

-- Whether each half is still open.
pub record State : Type 0 where
  pub local : Bool
  pub remote : Bool

unfoldable pub is_closed : State → Bool
is_closed s = not s.local && not s.remote

pub record Window : Type 0 where
  pub send : ℕ
  pub recv : ℕ

pub data YamuxStreamHeadError : Type 0 where
  invalid_frame_type invalid_data_chunk_size internal_channel_error : YamuxStreamHeadError

pub record YamuxStreamHead (S R : Type 0) : Type 0 where
  pub id : StreamId
  pub tx : Option S
  pub rx : R
  pub state : State
  pub window : Window
  pub outs : List FrameStreamEvent
  pub recv_state : Option ℕ

-- `slice::len` of a chunk, through its `Deref`.
unfoldable pub slice_len : ChunkView → Exec ℕ
slice_len c = View.deref c >>= λ ys. done (length ys)

module _ {S R : Type 0} where
  -- `YamuxStreamHead::open` and `YamuxStreamHead::accept`.
  unfoldable pub open_head : StreamId → S → R → YamuxStreamHead S R
  open_head id tx rx = record {
    id = id;
    tx = some tx;
    rx = rx;
    state = record { local = true; remote = false };
    window = record { send = initial_window; recv = 0 };
    outs = window_update syn_flags initial_window ∷ [];
    recv_state = none;
  }

  unfoldable pub accept_head : StreamId → S → R → YamuxStreamHead S R
  accept_head id tx rx = record {
    id = id;
    tx = some tx;
    rx = rx;
    state = record { local = true; remote = true };
    window = record { send = initial_window; recv = 0 };
    outs = window_update ack_flags initial_window ∷ [];
    recv_state = none;
  }

  -- `self.outs.push_back(…)`.
  abbrev pub push_out : FrameStreamEvent → YamuxStreamHead S R → YamuxStreamHead S R
  push_out event h = record h { outs = h.outs ++ event ∷ [] }

  -- The Boolean that `try_close_local` and `try_close_remote` return only guards a log line.
  unfoldable pub try_close_local : YamuxStreamHead S R → YamuxStreamHead S R
  try_close_local h =
      if h.state.local
      then push_out (window_update fin_flags 0)
          (record h { state = record h.state { local = false } })
      else h

  unfoldable pub mark_received_bytes : ℕ → YamuxStreamHead S R → YamuxStreamHead S R
  mark_received_bytes received h =
      let recv = add_usize h.window.recv received in
      if leb default_window_update_threshold (add_usize recv default_chunk_capacity)
      then push_out (window_update empty_flags (recv % u32_mod))
          (record h { window = record h.window { recv = 0 } })
      else record h { window = record h.window { recv = recv } }

  -- A chunk from the local side: an empty one is the hint to close.
  pub forward : ChunkView → ℕ → YamuxStreamHead S R → YamuxStreamHead S R
  unfolding try_close_local
  forward c size h = if size == 0 then try_close_local h else record h {
    window = record h.window { send = saturating_sub h.window.send size };
    outs = h.outs ++ data_header empty_flags (size % u32_mod) ∷ data_chunk c ∷ [];
  }

  -- `self.outs.pop_front()`, or what to answer without an event.
  pub pop_out :
      Poll (Option FrameStreamEvent)
      → YamuxStreamHead S R
      → Poll (Option FrameStreamEvent) × YamuxStreamHead S R
  pop_out otherwise h = elim h.outs [
    | [] ↦ (otherwise, h)
    | event ∷ rest ↦ (ready (some event), record h { outs = rest })
  ]

-- `if let Some(tx) = &self.tx && let Err(e) = tx.unbounded_send(…) { self.tx = None; }`.
pub send_to : {S : Type 0} → (S → Bool × S) → Option S → Option S
send_to send none = none
send_to send (some tx) = let (sent, tx') = send tx in if sent then some tx' else none

module _ {S R : Type 0} ⦃ch : Channel S R⦄ where
  unfoldable pub try_close_remote : YamuxStreamHead S R → YamuxStreamHead S R
  unfolding send_to
  try_close_remote h =
      if h.state.remote
      then record h {
        state = record h.state { remote = false };
        tx = send_to (ch.unbounded_send (view_of_slice [])) h.tx;
      }
      else h

  -- The three tests of `handle_flag`, in their order.
  on_ack : Flags → YamuxStreamHead S R → YamuxStreamHead S R
  on_ack flag h =
      if flag.ack && not h.state.remote
      then record h { state = record h.state { remote = true } }
      else h

  on_rst : Flags → YamuxStreamHead S R → YamuxStreamHead S R
  unfolding try_close_local try_close_remote
  on_rst flag h = if flag.rst then try_close_remote (try_close_local h) else h

  on_fin : Flags → YamuxStreamHead S R → YamuxStreamHead S R
  unfolding try_close_remote
  on_fin flag h = if flag.fin then try_close_remote h else h

  unfoldable pub handle_flag : Flags → YamuxStreamHead S R → YamuxStreamHead S R
  unfolding on_ack on_rst on_fin
  handle_flag flag h = on_fin flag (on_rst flag (on_ack flag h))

  -- A chunk for the stream that is announced with `expected` bytes left.
  pub take_chunk :
      ℕ
      → ℕ
      → ChunkView
      → YamuxStreamHead S R
      → Result YamuxStreamHeadError (Unit {0}) × YamuxStreamHead S R
  unfolding mark_received_bytes send_to
  take_chunk expected received c h =
      if ltb expected received then (err invalid_data_chunk_size, h) else (
        ok tt,
        mark_received_bytes received (record h {
          tx = send_to (ch.unbounded_send c) h.tx;
          recv_state =
              if sub_usize expected received == 0 then none else some (sub_usize expected received);
        }),
      )

  -- `YamuxStreamHead::on_input`.
  unfoldable pub on_input :
      FrameStreamEvent
      → YamuxStreamHead S R
      → Exec (Result YamuxStreamHeadError (Unit {0}) × YamuxStreamHead S R)
  unfolding handle_flag take_chunk slice_len
  on_input (data_header flags size) h = elim h.recv_state [
    | some expected ↦ done (err invalid_frame_type, h)
    | none ↦ done (ok tt, record (handle_flag flags h) { recv_state = some size })
  ]
  on_input (data_chunk c) h = elim h.recv_state [
    | some expected ↦ slice_len c >>= λ n. done (take_chunk expected n c h)
    | none ↦ done (err invalid_frame_type, h)
  ]
  on_input (window_update flags delta) h =
      let h' = handle_flag flags h in
      done
        (ok tt, record h' { window = record h'.window { send = add_usize h'.window.send delta } })

  -- The loop of `poll_next`, with fuel.
  unfoldable pub pump : ℕ → YamuxStreamHead S R → Exec (YamuxStreamHead S R)
  unfolding forward try_close_local slice_len
  pump zero h = stuck
  pump (suc fuel) h = elim (leb default_chunk_capacity h.window.send) [
    | false ↦ done h
    | true ↦
        let (item, rx) = ch.poll_next h.rx in
        elim item [
          | pending ↦ done (record h { rx = rx })
          | ready next ↦ elim next [
            | none ↦ done (try_close_local (record h { rx = rx }))
            | some c ↦ slice_len c >>= λ size. pump fuel (forward c size (record h { rx = rx }))
          ]
        ]
  ]

  -- `impl Stream for YamuxStreamHead`, with fuel for its loop.
  unfoldable pub poll_next :
      ℕ → YamuxStreamHead S R → Exec (Poll (Option FrameStreamEvent) × YamuxStreamHead S R)
  unfolding pump pop_out is_closed
  poll_next fuel h = elim h.outs [
    | event ∷ rest ↦ done (ready (some event), record h { outs = rest })
    | [] ↦
        if is_closed h.state
        then done (ready none, h)
        else pump fuel h >>= λ h'. done (pop_out pending h')
  ]
