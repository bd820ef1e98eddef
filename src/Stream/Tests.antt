-- ===== src/Stream/Tests.antt =====
-- Tests of src/stream.rs: a stream's head between two queues.
use yamux_low_mem.Stream.Ledger.{IsSent}
use yamux_low_mem.Prelude.{
  Poll, ready, pending, ℕ, ◌+◌, ◌<◌, ◌≡◌, refl, ap, ◌⊎◌, inl, true, false, ◌&&◌, ◌||◌, not, Option,
  none, some, List, [], ◌∷◌, ◌++◌, map, arith, if◌then◌else◌, length, All, done, Result, ok, err,
}
use yamux_low_mem.Prelude.Word.{sub_usize}
use yamux_low_mem.Chunk.View.{ChunkView, view_of_slice}
use yamux_low_mem.Chunk.View
use yamux_low_mem.Chunk.View.Laws as ViewLaws
use yamux_low_mem.Chunk.View.Laws.{content}
use yamux_low_mem.Chunk.Owned.{default_chunk_capacity}
use yamux_low_mem.Packet.{StreamId, empty_flags, ack_flags, fin_flags, rst_flags, bit}
use yamux_low_mem.Frame.{
  stream, FrameStreamEvent, data_header, data_chunk, window_update, admit, after_chunk,
}
use yamux_low_mem.Frame.Admitted.{admit_all}
use yamux_low_mem.Frame.Codec.{IsSound}
use yamux_low_mem.Stream.{
  Channel, YamuxStreamHead, YamuxStreamHeadError, open_head, accept_head, on_input, poll_next,
  handle_flag, send_to, initial_window, default_window_update_threshold,
}
use yamux_low_mem.Stream.Sent.{IsReceiver, IsSmall, Sent, fin_count}
use yamux_low_mem.Stream.Input.{CanReceive, handle_flag_lem, on_input_lem}
use yamux_low_mem.Stream.Ledger.{granted, on_input_chunk, on_input-fins}
use yamux_low_mem.Stream.Agreement.{input_all, input_all-admit_all}

-- A channel whose two ends are lists, and which is never closed.
pub poll_queue : List ChunkView → Poll (Option ChunkView) × List ChunkView
poll_queue [] = (pending, [])
poll_queue (c ∷ cs) = (ready (some c), cs)

instance abbrev pub queues : Channel (List ChunkView) (List ChunkView)
queues = record { unbounded_send = λ c sent. (true, sent ++ c ∷ []); poll_next = poll_queue }

pub queues-IsReceiver : IsReceiver poll_queue (λ q. q)
unfolding poll_queue
queues-IsReceiver = record {
  poll_some = λ r c cs e. (cs, ap poll_queue e, refl);
  poll_none = λ r e. ([], refl, inl (ap poll_queue e));
}

abbrev one : StreamId
one = record { value = 1 }

abbrev pub pair : ChunkView
pair = view_of_slice (7 ∷ 8 ∷ [])

pair-IsValid : ViewLaws.IsValid pair
pair-IsValid = (ViewLaws.view_of_slice_lem (7 ∷ 8 ∷ []) (omega arith)).0

pair_length : length (content pair) ≡ 2
pair_length = ap length (ViewLaws.view_of_slice_lem (7 ∷ 8 ∷ []) (omega arith)).1

-- A stream that was opened, and whose user has written two bytes.
abbrev head : YamuxStreamHead (List ChunkView) (List ChunkView)
head = open_head one [] (pair ∷ [])

pub pair-IsSmall : IsSmall pair
pair-IsSmall = (pair-IsValid, omega (arith, pair_length))

handle_flag_lem_example :
    ((handle_flag rst_flags head).state.local ≡ (head.state.local && not true))
    × ((handle_flag rst_flags head).state.remote
        ≡ ((head.state.remote || false) && not (true || false)))
    × ((handle_flag rst_flags head).tx ≡ (
        if (head.state.remote || false) && (true || false)
        then send_to (queues.unbounded_send (view_of_slice [])) head.tx
        else head.tx))
    × (fin_count (handle_flag rst_flags head).outs + bit (handle_flag rst_flags head).state.local
        ≡ fin_count head.outs + bit head.state.local)
handle_flag_lem_example = handle_flag_lem rst_flags head

head_fresh : head.recv_state ≡ none
unfolding open_head
head_fresh = refl

on_input_lem_example :
    ((q : Option ℕ) × (h' : YamuxStreamHead (List ChunkView) (List ChunkView)) × CanReceive none
        (data_chunk pair)
        q
      × (on_input (data_chunk pair) head ≡ done (ok tt, h'))
      × (h'.recv_state ≡ q))
    ⊎ ((x : YamuxStreamHeadError) × ((q : Option ℕ) → ¬ CanReceive none (data_chunk pair) q)
        × (on_input (data_chunk pair) head ≡ done (err x, head)))
on_input_lem_example = on_input_lem (data_chunk pair) head none pair-IsValid head_fresh tt

-- A head that waits for five bytes.
abbrev waiting : YamuxStreamHead (List ChunkView) (List ChunkView)
waiting = record (accept_head one [] []) { recv_state = some 5 }

waiting_low : waiting.window.recv + default_chunk_capacity < default_window_update_threshold
unfolding accept_head
waiting_low = omega arith

on_input_chunk_example :
    (h' : YamuxStreamHead (List ChunkView) (List ChunkView)) × (on_input (data_chunk pair) waiting
      ≡ done (ok tt, h'))
    × IsSent (queues.unbounded_send pair) waiting.tx h'.tx
    × (granted h'.outs + h'.window.recv
        ≡ granted waiting.outs + waiting.window.recv + length (content pair))
    × (h'.window.recv + default_chunk_capacity < default_window_update_threshold)
on_input_chunk_example =
    on_input_chunk 5 pair waiting pair-IsValid refl (omega arith) (omega (arith, pair_length))
      waiting_low

on_input-fins_example :
    (a : Result YamuxStreamHeadError (Unit {0})) × (h' : YamuxStreamHead
      (List ChunkView)
      (List ChunkView))
    × (on_input (window_update rst_flags 0) head ≡ done (a, h'))
    × (fin_count h'.outs + bit h'.state.local ≡ fin_count head.outs + bit head.state.local)
on_input-fins_example = on_input-fins (window_update rst_flags 0) head tt

-- The events of a short stream: it is accepted, sends two bytes, and ends.
abbrev events : List FrameStreamEvent
events =
    window_update ack_flags initial_window
    ∷ data_header empty_flags 2
    ∷ data_chunk pair
    ∷ window_update fin_flags 0
    ∷ []

events-IsSound : All IsSound (map (stream one) events)
events-IsSound = (
  (omega arith, omega arith),
  ((omega arith, omega arith), (pair-IsValid, ((omega arith, omega arith), tt))),
)

events_admitted : admit_all none (map (stream one) events) ≡ ok none
unfolding admit after_chunk View.len view_of_slice sub_usize
events_admitted = refl

input_all-admit_all_example :
    (h' : YamuxStreamHead (List ChunkView) (List ChunkView)) × (input_all events head
      ≡ done (ok tt, h'))
    × (h'.recv_state ≡ none)
input_all-admit_all_example =
    input_all-admit_all events one none none head events-IsSound tt events_admitted head_fresh
