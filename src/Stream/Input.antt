-- ===== src/Stream/Input.antt =====
-- `YamuxStreamHead::on_input`: which events it takes, and what they change.
use yamux_low_mem.Prelude.{
  ℕ, ◌+◌, ◌-◌, ◌≤◌, ◌<◌, ◌≡◌, refl, sym, ap, subst, ◌∙◌, ◌⊎◌, inl, inr, ◌&&◌, ◌||◌, not, Option,
  none, some, [], ◌∷◌, arith, ltb, ◌==◌, if◌then◌else◌, ltb→lt, ltb→le, Bool-cases, length, done,
  ok, err, ◌>>=◌,
}
use yamux_low_mem.Prelude.Word.{u32_mod, sub_usize_lem}
use yamux_low_mem.Chunk.View.{ChunkView, view_of_slice}
use yamux_low_mem.Chunk.View.Laws as ViewLaws
use yamux_low_mem.Chunk.View.Laws.{content}
use yamux_low_mem.Packet.{StreamId, Flags, fin_flags, bit}
use yamux_low_mem.Frame.{
  stream, FrameStreamEvent, data_header, data_chunk, window_update, PendingPayload,
}
use yamux_low_mem.Frame.Admitted.{CanWrite, begin, update_window, last_chunk, next_chunk}
use yamux_low_mem.Stream.{
  Channel, YamuxStreamHead, YamuxStreamHeadError, invalid_frame_type, invalid_data_chunk_size,
  slice_len, try_close_local, try_close_remote, handle_flag, on_ack, on_rst, on_fin, send_to,
  take_chunk, on_input, mark_received_bytes,
}
use yamux_low_mem.Stream.Sent.{slice_len_lem, fin_count, fin_count-append}

-- The order of events that the head asks for, by the bytes that are left of a payload.
pub data CanReceive : Option ℕ → FrameStreamEvent → Option ℕ → Type 0 where
  receive_header : {flags : Flags} {size : ℕ} → CanReceive none (data_header flags size) (some size)
  receive_update :
      {s : Option ℕ} {flags : Flags} {delta : ℕ} → CanReceive s (window_update flags delta) s
  receive_last :
      {n : ℕ} {c : ChunkView} → length (content c) ≡ n → CanReceive (some n) (data_chunk c) none
  receive_more :
      {n : ℕ} {c : ChunkView}
      → length (content c) < n
      → CanReceive (some n) (data_chunk c) (some (n - length (content c)))

-- A chunk, if the event has one, and a well-formed view.
abbrev pub IsWell : FrameStreamEvent → Type 0
IsWell (data_header flags size) = Unit {0}
IsWell (data_chunk c) = ViewLaws.IsValid c
IsWell (window_update flags delta) = Unit {0}

abbrev pub left_of : Option PendingPayload → Option ℕ
left_of none = none
left_of (some p) = some p.remain

-- The rest of a payload fits a `u32`, as the length of its header does.
abbrev pub Fits : Option ℕ → Type 0
Fits none = Unit {0}
Fits (some n) = n < u32_mod

-- What a `FrameWriter` admits for a stream, that stream's head takes, and the two agree on the
-- bytes that are left.
pub CanWrite-CanReceive :
    {p q : Option PendingPayload} {id : StreamId} {e : FrameStreamEvent}
    → CanWrite p (stream id e) q
    → IsWell e
    → CanReceive (left_of p) e (left_of q)
CanWrite-CanReceive begin v = receive_header
CanWrite-CanReceive update_window v = receive_update
CanWrite-CanReceive (last_chunk {p} {id} {c} same fits) v =
    receive_last (omega (arith, ViewLaws.len_lem v))
CanWrite-CanReceive (next_chunk {p} {id} {c} same fits) v =
    subst (λ n. CanReceive (some p.remain) (data_chunk c) (some (p.remain - n)))
      (sym (ViewLaws.len_lem v)) (receive_more (omega (arith, ViewLaws.len_lem v)))

busy :
    (flags : Flags) (size : ℕ) {n : ℕ} (q : Option ℕ)
    → ¬ CanReceive (some n) (data_header flags size) q
busy flags size q h = elim h [ ]

idle : (c : ChunkView) (q : Option ℕ) → ¬ CanReceive none (data_chunk c) q
idle c q h = elim h [ ]

too_long :
    (c : ChunkView) {n : ℕ}
    → n < length (content c)
    → (q : Option ℕ) → ¬ CanReceive (some n) (data_chunk c) q
too_long c over q (receive_last e) = omega arith
too_long c over q (receive_more e) = omega arith

-- What a chunk leaves of a payload.
rest_of :
    (n : ℕ) (c : ChunkView)
    → length (content c) ≤ n
    → CanReceive
        (some n)
        (data_chunk c)
        (if n - length (content c) == 0 then none else some (n - length (content c)))
rest_of n c fits = elim (Bool-cases (n - length (content c) == 0)) [
  | inl over ↦ rw over (receive_last (ground arith))
  | inr more ↦ rw more (receive_more (ground arith))
]

module _ {S R : Type 0} ⦃ch : Channel S R⦄ where
  -- A control flag leaves the payload alone.
  handle_flag-recv_state :
      (f : Flags) (h : YamuxStreamHead S R) → (handle_flag f h).recv_state ≡ h.recv_state
  unfolding handle_flag on_ack on_rst on_fin try_close_local try_close_remote
  handle_flag-recv_state f h = ground arith

  -- After YamuxStreamHead::handle_flag the local half is open if it was and RST was not set; the
  -- remote half is open if it was, or ACK was set, and neither RST nor FIN was set; the empty
  -- chunk that marks the end goes to the local side exactly when the remote half is closed by
  -- this; and the queued FIN flags and the openness of the local half, counted together, do not
  -- change.
  pub handle_flag_lem :
      (f : Flags) (h : YamuxStreamHead S R)
      → ((handle_flag f h).state.local ≡ (h.state.local && not f.rst))
        × ((handle_flag f h).state.remote ≡ ((h.state.remote || f.ack) && not (f.rst || f.fin)))
        × ((handle_flag f h).tx ≡ (
            if (h.state.remote || f.ack) && (f.rst || f.fin)
            then send_to (ch.unbounded_send (view_of_slice [])) h.tx
            else h.tx))
        × (fin_count (handle_flag f h).outs + bit (handle_flag f h).state.local
            ≡ fin_count h.outs + bit h.state.local)
  unfolding handle_flag on_ack on_rst on_fin try_close_local try_close_remote
  handle_flag_lem f h = ground (arith, fin_count-append h.outs (window_update fin_flags 0 ∷ []))

  -- A chunk that is longer than what is left is refused; any other is counted.
  pub take_chunk_lem :
      (n k : ℕ) (c : ChunkView) (h : YamuxStreamHead S R)
      → n < u32_mod
      → ((n < k) × (take_chunk n k c h ≡ (err invalid_data_chunk_size, h)))
        ⊎ ((k ≤ n)
            × (take_chunk n k c h ≡ (
              ok tt,
              mark_received_bytes k (record h {
                tx = send_to (ch.unbounded_send c) h.tx;
                recv_state = if n - k == 0 then none else some (n - k);
              }),
            )))
  unfolding take_chunk
  take_chunk_lem n k c h small = elim (Bool-cases (ltb n k)) [
    | inl over ↦ inl (ltb→lt n k over, rw over refl)
    | inr fits ↦
        let le : k ≤ n = ltb→le n k fits in
        inr (le, rw (fits, sub_usize_lem n k le (omega arith)) refl)
  ]

  mark-recv_state :
      (k : ℕ) (h : YamuxStreamHead S R) → (mark_received_bytes k h).recv_state ≡ h.recv_state
  unfolding mark_received_bytes
  mark-recv_state k h = ground arith

  -- A chunk is measured, and then taken or refused.
  pub on_chunk :
      (n : ℕ) (c : ChunkView) (h : YamuxStreamHead S R)
      → ViewLaws.IsValid c
      → h.recv_state ≡ some n
      → on_input (data_chunk c) h ≡ done (take_chunk n (length (content c)) c h)
  unfolding on_input
  on_chunk n c h valid same =
      ap
        (λ s. elim s [
          | some expected ↦ slice_len c >>= λ k. done (take_chunk expected k c h)
          | none ↦ done (err invalid_frame_type, h)
        ])
        same
      ∙ ap (λ m. m >>= λ k. done (take_chunk n k c h)) (slice_len_lem valid)

  -- From a recv_state that fits a u32, YamuxStreamHead::on_input either takes an event along the
  -- order of the protocol, a header when no payload is open and then chunks that fit what is left
  -- of it, with window updates at any time, and keeps count of what is left; or it returns an
  -- error, exactly for an event outside that order, and leaves the head as it was.
  pub on_input_lem :
      (e : FrameStreamEvent) (h : YamuxStreamHead S R) (s : Option ℕ)
      → IsWell e
      → h.recv_state ≡ s
      → Fits s
      → ((q : Option ℕ) × (h' : YamuxStreamHead S R) × CanReceive s e q
          × (on_input e h ≡ done (ok tt, h'))
          × (h'.recv_state ≡ q))
        ⊎ ((x : YamuxStreamHeadError) × ((q : Option ℕ) → ¬ CanReceive s e q)
            × (on_input e h ≡ done (err x, h)))
  unfolding on_input
  on_input_lem (window_update flags delta) h s well same small =
      inl (s, _, receive_update, refl, handle_flag-recv_state flags h ∙ same)
  on_input_lem (data_header flags size) h none well same small = inl (
    some size,
    record (handle_flag flags h) { recv_state = some size },
    receive_header,
    rw same refl,
    refl,
  )
  on_input_lem (data_header flags size) h (some n) well same small =
      inr (invalid_frame_type, busy flags size, rw same refl)
  on_input_lem (data_chunk c) h none well same small =
      inr (invalid_frame_type, idle c, rw same refl)
  on_input_lem (data_chunk c) h (some n) well same small =
      elim (take_chunk_lem n (length (content c)) c h small) [
        | inl (over, run) ↦
            inr (invalid_data_chunk_size, too_long c over, on_chunk n c h well same ∙ ap done run)
        | inr (fits, run) ↦ inl (
          _,
          _,
          rest_of n c fits,
          on_chunk n c h well same ∙ ap done run,
          mark-recv_state (length (content c)) _,
        )
      ]
