-- ===== src/Session.antt =====
-- src/session.rs: the state of `YamuxSession`, and what its user calls. `poll_next` is in the
-- child modules, in the order of its steps: Driving has the whole of it.
-- The `HashMap` of heads is an association list, whose order is that of an iteration.
pub mod Streams
pub mod Entries
pub mod Receiving
pub mod Draining
pub mod Driving
pub mod Runs
pub mod Fixture
pub mod Quiet
pub mod Tests
use yamux_low_mem.Prelude.{
  ℕ, ◌+◌, ◌%◌, Bool, true, false, Option, none, some, List, [], ◌∷◌, ◌++◌, ◌==◌, if◌then◌else◌,
}
use yamux_low_mem.Prelude.Word.{u32_mod}
use yamux_low_mem.Packet.{StreamId}
use yamux_low_mem.Frame.{Frame, session, go_away}
use yamux_low_mem.Transport.{YamuxTransport, new_transport}
use yamux_low_mem.Stream.{YamuxStreamHead}
use yamux_low_mem.Stream.Handle.{YamuxStream}
use yamux_low_mem.Stream.Handle

-- `HashMap::get` and `HashMap::insert`, by the number of a stream.
unfoldable pub get : {V : Type 0} → StreamId → List (StreamId × V) → Option V
get id [] = none
get id ((k, v) ∷ rest) = if k.value == id.value then some v else get id rest

unfoldable pub insert : {V : Type 0} → StreamId → V → List (StreamId × V) → List (StreamId × V)
insert id v [] = (id, v) ∷ []
insert id v ((k, w) ∷ rest) =
    let kept = insert id v rest in if k.value == id.value then (id, v) ∷ rest else (k, w) ∷ kept

unfoldable pub remove : {V : Type 0} → StreamId → List (StreamId × V) → List (StreamId × V)
remove id [] = []
remove id ((k, v) ∷ rest) =
    let kept = remove id rest in if k.value == id.value then kept else (k, v) ∷ kept

pub record YamuxSession (T S R : Type 0) : Type 0 where
  pub transport : YamuxTransport T
  pub streams : List (StreamId × YamuxStreamHead S R)
  pub next_stream_id : ℕ
  pub out_queue : List Frame
  pub manual_close : Bool

-- `YamuxSession::new`; `server` and `client` call it.
unfoldable pub new_session : {T S R : Type 0} → T → Bool → ℕ → YamuxSession T S R
new_session stream is_server max_write_buffer = record {
  transport = new_transport stream max_write_buffer;
  streams = [];
  next_stream_id = if is_server then 2 else 1;
  out_queue = [];
  manual_close = false;
}

-- `next_stream_id.wrapping_add(2)`, and 2 in place of 0.
unfoldable pub id_after : ℕ → ℕ
id_after id = let next = (id + 2) % u32_mod in if next == 0 then 2 else next

module _ {T S R S' R' : Type 0} where
  -- `YamuxSession::open_stream`, with the ends of the two channels of the new stream.
  unfoldable pub open_stream :
      S' → R' → S → R → YamuxSession T S R → YamuxStream S' R' × YamuxSession T S R
  unfolding id_after
  open_stream tx rx2 tx2 rx x =
      let id : StreamId = record { value = x.next_stream_id } in
      let (head, stream) = Handle.open_stream id tx rx2 tx2 rx in
      (
        stream,
        record x { next_stream_id = id_after x.next_stream_id; streams = insert id head x.streams },
      )

module _ {T S R : Type 0} where
  unfoldable pub close : ℕ → YamuxSession T S R → YamuxSession T S R
  close code x = record x {
    out_queue = x.out_queue ++ session (go_away code) ∷ [];
    manual_close = true;
  }
