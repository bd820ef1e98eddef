-- ===== src/Stream/Ledger.antt =====
-- `YamuxStreamHead`: what is counted, bytes received and windows granted, and FIN flags.
use yamux_low_mem.Prelude.{
  ℕ, ◌+◌, ◌-◌, ◌/◌, ◌%◌, ◌≤◌, ◌<◌, ◌≡◌, refl, sym, ap, subst, ◌∙◌, Bool, true, false, inl, inr,
  Option, none, some, List, [], ◌∷◌, ◌++◌, arith, ltb, leb, ◌==◌, if◌then◌else◌, Bool-cases, length,
  done, Result, ok, err,
}
use yamux_low_mem.Prelude.Word.{u32_mod, add_usize, add_usize_lem}
use yamux_low_mem.Chunk.View.{ChunkView}
use yamux_low_mem.Chunk.View.Laws as ViewLaws
use yamux_low_mem.Chunk.View.Laws.{content}
use yamux_low_mem.Chunk.Owned.{default_chunk_capacity}
use yamux_low_mem.Packet.{empty_flags, bit}
use yamux_low_mem.Frame.{FrameStreamEvent, data_header, data_chunk, window_update}
use yamux_low_mem.Stream.{
  invalid_frame_type, Channel, YamuxStreamHead, YamuxStreamHeadError, handle_flag, send_to,
  take_chunk, on_input, mark_received_bytes, default_window_update_threshold,
}
use yamux_low_mem.Stream.Sent.{fin_count, fin_count-append}
use yamux_low_mem.Stream.Input.{IsWell, on_chunk, handle_flag_lem, take_chunk_lem}

-- The window that queued updates grant to the peer.
abbrev pub granted : List FrameStreamEvent → ℕ
granted [] = 0
granted (data_header flags size ∷ es) = granted es
granted (data_chunk c ∷ es) = granted es
granted (window_update flags delta ∷ es) = delta + granted es

granted-append : (es fs : List FrameStreamEvent) → granted (es ++ fs) ≡ granted es + granted fs
granted-append [] fs = omega arith
granted-append (data_header flags size ∷ es) fs = granted-append es fs
granted-append (data_chunk c ∷ es) fs = granted-append es fs
granted-append (window_update flags delta ∷ es) fs = omega (arith, granted-append es fs)

module _ {S R : Type 0} where
  mark_received-fins :
      (k : ℕ) (h : YamuxStreamHead S R)
      → fin_count (mark_received_bytes k h).outs + bit (mark_received_bytes k h).state.local
        ≡ fin_count h.outs + bit h.state.local
  unfolding mark_received_bytes
  mark_received-fins k h = ground (
    arith,
    fin_count-append h.outs (window_update empty_flags (add_usize h.window.recv k % u32_mod) ∷ []),
  )

  -- Bytes received are granted again, now or later, and never lost.
  mark_received_lem :
      (k : ℕ) (h : YamuxStreamHead S R)
      → h.window.recv + default_chunk_capacity < default_window_update_threshold
      → h.window.recv + k < u32_mod
      → (granted (mark_received_bytes k h).outs + (mark_received_bytes k h).window.recv
          ≡ granted h.outs + (h.window.recv + k))
        × ((mark_received_bytes k h).window.recv + default_chunk_capacity
            < default_window_update_threshold)
        × ((mark_received_bytes k h).tx ≡ h.tx)
  unfolding mark_received_bytes
  mark_received_lem k h low total =
      let sum : add_usize h.window.recv k ≡ h.window.recv + k =
        add_usize_lem h.window.recv k (omega arith) in
      let more : add_usize (add_usize h.window.recv k) default_chunk_capacity
          ≡ h.window.recv + k + default_chunk_capacity =
        rw sum (add_usize_lem (h.window.recv + k) default_chunk_capacity (omega arith)) in
      rw (more, sum)
        (elim (Bool-cases
          (leb default_window_update_threshold (h.window.recv + k + default_chunk_capacity))) [
            | inl full ↦ rw full (
              omega (
                arith,
                granted-append h.outs
                    (window_update empty_flags ((h.window.recv + k) % u32_mod) ∷ []),
              ),
              omega arith,
              refl,
            )
            | inr not_yet ↦ rw not_yet (refl, ground arith, refl)
          ])

-- One call of `send` on the sending end of a channel, if it is not gone yet; it goes with an error.
pub data IsSent {S : Type 0} (send : S → Bool × S) : Option S → Option S → Type 0 where
  gone : IsSent send none none
  taken : {tx tx' : S} → send tx ≡ (true, tx') → IsSent send (some tx) (some tx')
  refused : {tx tx' : S} → send tx ≡ (false, tx') → IsSent send (some tx) none

send_to-IsSent :
    {S : Type 0} (send : S → Bool × S) (tx : Option S) → IsSent send tx (send_to send tx)
unfolding send_to
send_to-IsSent send none = gone
send_to-IsSent {S} send (some tx) = go (send tx) refl
  where
    go :
        (out : Bool × S)
        → send tx ≡ out
        → IsSent send (some tx) (if out.0 then some out.1 else none)
    go (true, tx') e = taken e
    go (false, tx') e = refused e

module _ {S R : Type 0} ⦃ch : Channel S R⦄ where
  -- From a count of received bytes that is more than one chunk capacity below the update
  -- threshold, YamuxStreamHead::on_input takes a well-formed chunk that fits the open payload (of
  -- less than 2^31 bytes). The chunk is sent to the local side by one call of unbounded_send,
  -- after which the sending end is kept, or dropped if the call failed; nothing is sent if the end
  -- was dropped before. The windows granted by queued updates and the count of received bytes,
  -- counted together, rise by the length of the chunk, so no received byte is lost to the peer's
  -- window; and the count is again more than one chunk capacity below the threshold.
  pub on_input_chunk :
      (n : ℕ) (c : ChunkView) (h : YamuxStreamHead S R)
      → ViewLaws.IsValid c
      → h.recv_state ≡ some n
      → n < u32_mod / 2
      → length (content c) ≤ n
      → h.window.recv + default_chunk_capacity < default_window_update_threshold
      → (h' : YamuxStreamHead S R) × (on_input (data_chunk c) h ≡ done (ok tt, h'))
        × IsSent (ch.unbounded_send c) h.tx h'.tx
        × (granted h'.outs + h'.window.recv ≡ granted h.outs + h.window.recv + length (content c))
        × (h'.window.recv + default_chunk_capacity < default_window_update_threshold)
  on_input_chunk n c h valid same small fits low =
      elim (take_chunk_lem n (length (content c)) c h (omega arith)) [
        | inl (over, _) ↦ absurd (omega arith)
        | inr (_, run) ↦
            let h1 : YamuxStreamHead S R = record h {
              tx = send_to (ch.unbounded_send c) h.tx;
              recv_state =
                  if n - length (content c) == 0 then none else some (n - length (content c));
            } in
            let (counted, low', sent) =
              mark_received_lem (length (content c)) h1 low (omega arith) in
            (
              _,
              on_chunk n c h valid same ∙ ap done run,
              subst (IsSent (ch.unbounded_send c) h.tx) (sym sent)
                  (send_to-IsSent (ch.unbounded_send c) h.tx),
              omega (arith, counted),
              low',
            )
      ]

  take_chunk-fins :
      (n k : ℕ) (c : ChunkView) (h : YamuxStreamHead S R)
      → fin_count ((take_chunk n k c h).1).outs + bit ((take_chunk n k c h).1).state.local
        ≡ fin_count h.outs + bit h.state.local
  unfolding take_chunk
  take_chunk-fins n k c h = elim (Bool-cases (ltb n k)) [
    | inl over ↦ rw over refl
    | inr fits ↦ rw fits (mark_received-fins k _)
  ]

  -- YamuxStreamHead::on_input ends for every event with a well-formed chunk, error or not, and
  -- keeps the sum of the queued FIN flags and of the openness of the local half: it queues a FIN
  -- only by closing an open local half.
  pub on_input-fins :
      (e : FrameStreamEvent) (h : YamuxStreamHead S R)
      → IsWell e
      → (a : Result YamuxStreamHeadError (Unit {0})) × (h' : YamuxStreamHead S R) × (on_input e h
          ≡ done (a, h'))
        × (fin_count h'.outs + bit h'.state.local ≡ fin_count h.outs + bit h.state.local)
  unfolding on_input
  on_input-fins (window_update flags delta) h well = (ok tt, _, refl, (handle_flag_lem flags h).3)
  on_input-fins (data_header flags size) h well = go h.recv_state refl
    where
      go :
          (s : Option ℕ)
          → h.recv_state ≡ s
          → (a : Result YamuxStreamHeadError (Unit {0})) × (h' : YamuxStreamHead S R) × (on_input
                (data_header flags size)
                h
              ≡ done (a, h'))
            × (fin_count h'.outs + bit h'.state.local ≡ fin_count h.outs + bit h.state.local)
      go none same = (
        ok tt,
        record (handle_flag flags h) { recv_state = some size },
        rw same refl,
        (handle_flag_lem flags h).3,
      )
      go (some n) same = (err invalid_frame_type, h, rw same refl, refl)
  on_input-fins (data_chunk c) h well = go h.recv_state refl
    where
      go :
          (s : Option ℕ)
          → h.recv_state ≡ s
          → (a : Result YamuxStreamHeadError (Unit {0})) × (h' : YamuxStreamHead S R) × (on_input
                (data_chunk c)
                h
              ≡ done (a, h'))
            × (fin_count h'.outs + bit h'.state.local ≡ fin_count h.outs + bit h.state.local)
      go none same = (err invalid_frame_type, h, rw same refl, refl)
      go (some n) same =
          (_, _, on_chunk n c h well same, take_chunk-fins n (length (content c)) c h)
