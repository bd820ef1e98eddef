-- ===== src/Stream/Handle/Tests.antt =====
-- Tests of `YamuxStream`, between two queues.
use yamux_low_mem.Prelude.{
  ℕ, ◌≤◌, min, ◌≡◌, refl, ap, ◌⊎◌, inl, true, Option, none, some, List, [], ◌∷◌, ◌++◌, arith,
  length, take, All, Poll, ready, pending, done, Result, ok, err,
}
use yamux_low_mem.Chunk.View.{ChunkView, view_of_slice}
use yamux_low_mem.Chunk.View.Laws as ViewLaws
use yamux_low_mem.Chunk.View.Laws.{content}
use yamux_low_mem.Chunk.Owned.{default_chunk_capacity}
use yamux_low_mem.Stream.Sent.{IsSmall, IsReceiver}
use yamux_low_mem.Stream.Handle.{
  UserChannel, IoError, broken_pipe, YamuxStream, poll_write, poll_read,
}
use yamux_low_mem.Stream.Handle.Parts.{IsAtHand, unread}
use yamux_low_mem.Stream.Handle.Reading.{poll_read_lem}
use yamux_low_mem.Stream.Handle.Writing.{IsSender, poll_write-IsSmall}

take_front : List ChunkView → Poll (Option ChunkView) × List ChunkView
take_front [] = (pending, [])
take_front (c ∷ cs) = (ready (some c), cs)

instance abbrev user_queues : UserChannel (List ChunkView) (List ChunkView)
user_queues = record {
  poll_ready = λ t. (ready true, t);
  start_send = λ c t. (true, t ++ c ∷ []);
  poll_flush = λ t. (ready true, t);
  poll_close = λ t. (ready true, t);
  poll_next = take_front;
}

take_front-IsReceiver : IsReceiver take_front (λ q. q)
unfolding take_front
take_front-IsReceiver = record {
  poll_some = λ r c cs e. (cs, ap take_front e, refl);
  poll_none = λ r e. ([], refl, inl (ap take_front e));
}

user_queues-IsSender : IsSender user_queues (λ q. q)
user_queues-IsSender = record { ready_keeps = λ t. refl; send_queues = λ c t. inl (refl, refl) }

abbrev pair : ChunkView
pair = view_of_slice (7 ∷ 8 ∷ [])

pair-IsValid : ViewLaws.IsValid pair
pair-IsValid = (ViewLaws.view_of_slice_lem (7 ∷ 8 ∷ []) (omega arith)).0

abbrev user : YamuxStream (List ChunkView) (List ChunkView)
user = record {
  id = record { value = 1 };
  tx = [];
  rx = pair ∷ [];
  recv_chunk = none;
  written = 0;
  read = 0;
}

poll_read_lem_example :
    (a : Poll (Result IoError (List ℕ))) × (x' : YamuxStream (List ChunkView) (List ChunkView))
    × (poll_read 1 user ≡ done (a, x'))
    × IsAtHand x'.recv_chunk
    × All ViewLaws.IsValid x'.rx
    × (((ys : List ℕ) × (a ≡ ready (ok ys))
          × (unread (λ q. q) user ≡ ys ++ unread (λ q. q) x')
          × (length ys ≤ 1)
          × ((min 1 1 ≤ length ys) ⊎ ((c : ChunkView) × (user.rx ≡ c ∷ x'.rx) × (content c ≡ []))))
        ⊎ (((a ≡ pending) ⊎ (a ≡ ready (err broken_pipe))) × (unread (λ q. q) user ≡ [])))
poll_read_lem_example = poll_read_lem take_front-IsReceiver 1 user tt (pair-IsValid, tt)

poll_write-IsSmall_example :
    (((poll_write (1 ∷ 2 ∷ []) user).0 ≡ ready (ok (min 2 default_chunk_capacity)))
      × ((c : ChunkView) × IsSmall c
          × (content c ≡ take (min 2 default_chunk_capacity) (1 ∷ 2 ∷ []))
          × (((poll_write (1 ∷ 2 ∷ []) user).1).tx ≡ c ∷ [])))
    ⊎ ((((poll_write (1 ∷ 2 ∷ []) user).0 ≡ pending)
          ⊎ ((poll_write (1 ∷ 2 ∷ []) user).0 ≡ ready (err broken_pipe)))
        × (((poll_write (1 ∷ 2 ∷ []) user).1).tx ≡ []))
poll_write-IsSmall_example = poll_write-IsSmall user_queues-IsSender (1 ∷ 2 ∷ []) user (omega arith)
