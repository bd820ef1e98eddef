-- ===== src/Stream/Replies.antt =====
-- `YamuxStreamHead::on_input`: the events that it queues are window updates.
use yamux_low_mem.Prelude.{
  ℕ, ◌<◌, ◌≡◌, refl, sym, ap, ◌∙◌, inl, inr, Bool, true, false, ◌&&◌, not, Option, none, some, List,
  [], ◌∷◌, ◌++◌, map, append-nil, append_assoc, arith, ltb, if◌then◌else◌, Bool-cases, length, All,
  All-append, done, Result, ok, err,
}
use yamux_low_mem.Prelude.Word.{u32_mod}
use yamux_low_mem.Chunk.View.{ChunkView}
use yamux_low_mem.Chunk.View.Laws.{content}
use yamux_low_mem.Packet.{StreamId, Flags, fin_flags, empty_flags}
use yamux_low_mem.Frame.{stream, FrameStreamEvent, data_header, data_chunk, window_update, admit}
use yamux_low_mem.Frame.Admitted.{admit_all}
use yamux_low_mem.Frame.Codec.{IsSound}
use yamux_low_mem.Stream.{
  Channel, YamuxStreamHead, YamuxStreamHeadError, invalid_frame_type, try_close_local,
  try_close_remote, handle_flag, on_ack, on_rst, on_fin, take_chunk, on_input, mark_received_bytes,
}
use yamux_low_mem.Stream.Input.{IsWell, on_chunk}

-- A window update, with a `u32` in it.
abbrev pub IsUpdate : FrameStreamEvent → Type 0
IsUpdate (window_update flags delta) = delta < u32_mod
IsUpdate (data_header flags size) = ⊥
IsUpdate (data_chunk c) = ⊥

-- Window updates may be sent whenever no payload is pending.
pub updates_admitted :
    (id : StreamId) (es : List FrameStreamEvent)
    → All IsUpdate es
    → admit_all none (map (stream id) es) ≡ ok none
unfolding admit
updates_admitted id [] u = refl
updates_admitted id (window_update flags delta ∷ es) (u, us) = updates_admitted id es us
updates_admitted id (data_header flags size ∷ es) (u, us) = absurd u
updates_admitted id (data_chunk c ∷ es) (u, us) = absurd u

pub updates-IsSound :
    (id : StreamId) (es : List FrameStreamEvent)
    → id.value < u32_mod
    → All IsUpdate es
    → All IsSound (map (stream id) es)
updates-IsSound id [] small u = tt
updates-IsSound id (window_update flags delta ∷ es) small (u, us) =
    ((small, u), updates-IsSound id es small us)
updates-IsSound id (data_header flags size ∷ es) small (u, us) = absurd u
updates-IsSound id (data_chunk c ∷ es) small (u, us) = absurd u

module _ {S R : Type 0} where
  -- What an input leaves of the head: only window updates are queued, behind what was there.
  pub record Replied (h h' : YamuxStreamHead S R) : Type 0 where
    pub replies : List FrameStreamEvent
    pub updates : All IsUpdate replies
    pub outs : h'.outs ≡ h.outs ++ replies
    pub same_id : h'.id ≡ h.id
    pub same_rx : h'.rx ≡ h.rx

  -- Nothing is queued.
  quiet :
      (h h' : YamuxStreamHead S R) → h'.outs ≡ h.outs → h'.id ≡ h.id → h'.rx ≡ h.rx → Replied h h'
  quiet h h' outs same_id same_rx = record {
    replies = [];
    updates = tt;
    outs = outs ∙ sym (append-nil h.outs);
    same_id = same_id;
    same_rx = same_rx;
  }

  Replied-trans : (h h1 h2 : YamuxStreamHead S R) → Replied h h1 → Replied h1 h2 → Replied h h2
  Replied-trans h h1 h2 s t = record {
    replies = s.replies ++ t.replies;
    updates = All-append IsUpdate s.replies t.replies s.updates t.updates;
    outs = t.outs ∙ ap (λ o. o ++ t.replies) s.outs ∙ append_assoc h.outs s.replies t.replies;
    same_id = t.same_id ∙ s.same_id;
    same_rx = t.same_rx ∙ s.same_rx;
  }

  Replied-if :
      (b : Bool) {h g k : YamuxStreamHead S R}
      → Replied h g
      → Replied h k
      → Replied h (if b then g else k)
  Replied-if true s t = s
  Replied-if false s t = t

  update_queued :
      (flags : Flags) (delta : ℕ) (h h' : YamuxStreamHead S R)
      → delta < u32_mod
      → h'.outs ≡ h.outs ++ window_update flags delta ∷ []
      → h'.id ≡ h.id
      → h'.rx ≡ h.rx
      → Replied h h'
  update_queued flags delta h h' small outs same_id same_rx = record {
    replies = window_update flags delta ∷ [];
    updates = (small, tt);
    outs = outs;
    same_id = same_id;
    same_rx = same_rx;
  }

  close_local-Replied : (h : YamuxStreamHead S R) → Replied h (try_close_local h)
  unfolding try_close_local
  close_local-Replied h =
      Replied-if h.state.local (update_queued fin_flags 0 h _ (omega arith) refl refl refl)
        (quiet h h refl refl refl)

  mark-Replied : (n : ℕ) (h : YamuxStreamHead S R) → Replied h (mark_received_bytes n h)
  unfolding mark_received_bytes
  mark-Replied n h =
      Replied-if _ (update_queued empty_flags _ h _ (omega arith) refl refl refl)
        (quiet h _ refl refl refl)

module _ {S R : Type 0} ⦃ch : Channel S R⦄ where
  close_remote-Replied : (h : YamuxStreamHead S R) → Replied h (try_close_remote h)
  unfolding try_close_remote
  close_remote-Replied h =
      Replied-if h.state.remote (quiet h _ refl refl refl) (quiet h h refl refl refl)

  on_ack-Replied : (f : Flags) (h : YamuxStreamHead S R) → Replied h (on_ack f h)
  unfolding on_ack
  on_ack-Replied f h =
      Replied-if (f.ack && not h.state.remote) (quiet h _ refl refl refl) (quiet h h refl refl refl)

  on_rst-Replied : (f : Flags) (h : YamuxStreamHead S R) → Replied h (on_rst f h)
  unfolding on_rst
  on_rst-Replied f h =
      let g : YamuxStreamHead S R = try_close_local h in
      Replied-if f.rst
        (Replied-trans h g (try_close_remote g) (close_local-Replied h) (close_remote-Replied g))
        (quiet h h refl refl refl)

  on_fin-Replied : (f : Flags) (h : YamuxStreamHead S R) → Replied h (on_fin f h)
  unfolding on_fin
  on_fin-Replied f h = Replied-if f.fin (close_remote-Replied h) (quiet h h refl refl refl)

  handle_flag-Replied : (f : Flags) (h : YamuxStreamHead S R) → Replied h (handle_flag f h)
  unfolding handle_flag
  handle_flag-Replied f h =
      let g : YamuxStreamHead S R = on_ack f h in
      let k : YamuxStreamHead S R = on_rst f g in
      Replied-trans h k (on_fin f k) (Replied-trans h g k (on_ack-Replied f h) (on_rst-Replied f g))
        (on_fin-Replied f k)

  -- A change that `Replied` does not see, after an input.
  then_quiet :
      (h g k : YamuxStreamHead S R)
      → Replied h g
      → k.outs ≡ g.outs
      → k.id ≡ g.id
      → k.rx ≡ g.rx
      → Replied h k
  then_quiet h g k s outs same_id same_rx = Replied-trans h g k s (quiet g k outs same_id same_rx)

  take_chunk-Replied :
      (n k : ℕ) (c : ChunkView) (h : YamuxStreamHead S R) → Replied h ((take_chunk n k c h).1)
  unfolding take_chunk
  take_chunk-Replied n k c h = elim (Bool-cases (ltb n k)) [
    | inl over ↦ rw over (quiet h h refl refl refl)
    | inr fits ↦ rw fits (Replied-trans h _ _ (quiet h _ refl refl refl) (mark-Replied k _))
  ]

  -- YamuxStreamHead::on_input ends for every event with a well-formed chunk, error or not; it
  -- queues nothing but window updates, behind the events that were queued, and leaves the
  -- identifier of the head and its receiving end alone.
  pub on_input-Replied :
      (e : FrameStreamEvent) (h : YamuxStreamHead S R)
      → IsWell e
      → (a : Result YamuxStreamHeadError (Unit {0})) × (h' : YamuxStreamHead S R) × (on_input e h
          ≡ done (a, h'))
        × Replied h h'
  unfolding on_input
  on_input-Replied (window_update flags delta) h well = (
    ok tt,
    _,
    refl,
    then_quiet h (handle_flag flags h) _ (handle_flag-Replied flags h) refl refl refl,
  )
  on_input-Replied (data_header flags size) h well = go h.recv_state refl
    where
      go :
          (s : Option ℕ)
          → h.recv_state ≡ s
          → (a : Result YamuxStreamHeadError (Unit {0})) × (h' : YamuxStreamHead S R) × (on_input
                (data_header flags size)
                h
              ≡ done (a, h'))
            × Replied h h'
      go none same = (
        ok tt,
        record (handle_flag flags h) { recv_state = some size },
        rw same refl,
        then_quiet h (handle_flag flags h) _ (handle_flag-Replied flags h) refl refl refl,
      )
      go (some n) same = (err invalid_frame_type, h, rw same refl, quiet h h refl refl refl)
  on_input-Replied (data_chunk c) h well = go h.recv_state refl
    where
      go :
          (s : Option ℕ)
          → h.recv_state ≡ s
          → (a : Result YamuxStreamHeadError (Unit {0})) × (h' : YamuxStreamHead S R) × (on_input
                (data_chunk c)
                h
              ≡ done (a, h'))
            × Replied h h'
      go none same = (err invalid_frame_type, h, rw same refl, quiet h h refl refl refl)
      go (some n) same =
          (_, _, on_chunk n c h well same, take_chunk-Replied n (length (content c)) c h)
