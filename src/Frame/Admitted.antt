-- ===== src/Frame/Admitted.antt =====
-- `FrameWriter`: which frames it admits, and what a sequence of them stands for.
use yamux_low_mem.Prelude.{
  ℕ, ◌-◌, ◌≤◌, ◌<◌, ◌≡◌, refl, subst, ◌↔◌, ◌⊎◌, inl, inr, Option, none, some, List, [], ◌∷◌, ◌++◌,
  arith, Result, ok, err,
}
use yamux_low_mem.Prelude.Word.{u32_mod, sub_usize, sub_usize_lem}
use native.Mathlib.Decide.{ℕ_discrete}
use yamux_low_mem.Chunk.View.{ChunkView}
use yamux_low_mem.Chunk.View
use yamux_low_mem.Packet.{StreamId, Flags}
use yamux_low_mem.Frame.{
  Frame, session, stream, data_header, data_chunk, window_update, FrameSessionEvent, PendingPayload,
  after_chunk, admit, FrameWriterError,
}
use yamux_low_mem.Frame.Codec.{frame_bytes}

-- The checks of a sequence of writes, until one fails.
abbrev pub admit_all :
    Option PendingPayload → List Frame → Result FrameWriterError (Option PendingPayload)
admit_all p [] = ok p
admit_all p (f ∷ fs) = elim (admit p f) [ err e ↦ err e | ok q ↦ admit_all q fs ]

abbrev pub frames_bytes : List Frame → List ℕ
frames_bytes [] = []
frames_bytes (f ∷ fs) = frame_bytes f ++ frames_bytes fs

-- The order that the writer enforces: a data header makes its payload pending, and then only
-- chunks of that stream may follow, as long as they fit.
pub data CanWrite : Option PendingPayload → Frame → Option PendingPayload → Type 0 where
  begin :
      {id : StreamId} {flags : Flags} {size : ℕ}
      → CanWrite none
          (stream id (data_header flags size))
          (some (record { stream_id = id; remain = size }))
  update_window :
      {id : StreamId} {flags : Flags} {delta : ℕ}
      → CanWrite none (stream id (window_update flags delta)) none
  control_session : {event : FrameSessionEvent} → CanWrite none (session event) none
  last_chunk :
      {p : PendingPayload} {id : StreamId} {c : ChunkView}
      → id.value ≡ p.stream_id.value
      → View.len c ≡ p.remain
      → CanWrite (some p) (stream id (data_chunk c)) none
  next_chunk :
      {p : PendingPayload} {id : StreamId} {c : ChunkView}
      → id.value ≡ p.stream_id.value
      → View.len c < p.remain
      → CanWrite
          (some p)
          (stream id (data_chunk c))
          (some (record p { remain = p.remain - View.len c }))

-- Every payload that is pending fits a `u32`, as the length of its header does.
abbrev pub IsPending : Option PendingPayload → Type 0
IsPending none = Unit {0}
IsPending (some p) = p.remain < u32_mod

left :
    (p : PendingPayload) (c : ChunkView)
    → p.remain < u32_mod
    → View.len c ≤ p.remain
    → sub_usize p.remain (View.len c) ≡ p.remain - View.len c
left p c small h = sub_usize_lem p.remain (View.len c) h (omega arith)

admit_complete :
    {p q : Option PendingPayload} {f : Frame} → IsPending p → CanWrite p f q → admit p f ≡ ok q
unfolding admit after_chunk
admit_complete h begin = refl
admit_complete h update_window = refl
admit_complete h control_session = refl
admit_complete h (last_chunk {p} {id} {c} same fits) = ground (arith, left p c h)
admit_complete h (next_chunk {p} {id} {c} same fits) = ground (arith, left p c h)

admit_chunk :
    (p : PendingPayload) (id : StreamId) (c : ChunkView) {q : Option PendingPayload}
    → admit (some p) (stream id (data_chunk c)) ≡ ok q
    → (id.value ≡ p.stream_id.value) × (View.len c ≤ p.remain) × (q ≡ after_chunk p c)
unfolding admit
admit_chunk p id c e = ground arith

-- After an admitted chunk the payload is over, or less of it is to come.
pub chunk_next :
    (p : PendingPayload) (id : StreamId) (c : ChunkView) {q : Option PendingPayload}
    → p.remain < u32_mod
    → admit (some p) (stream id (data_chunk c)) ≡ ok q
    → (id.value ≡ p.stream_id.value)
      × (((View.len c ≡ p.remain) × (none ≡ q))
          ⊎ ((View.len c < p.remain) × (some (record p { remain = p.remain - View.len c }) ≡ q)))
unfolding after_chunk
chunk_next p id c {q} h e =
    let (same, fits, out) = admit_chunk p id c e in
    (
      same,
      elim (ℕ_discrete (View.len c) p.remain) [
        | yes all ↦ inl (all, ground (arith, left p c h fits))
        | no more ↦ inr (omega arith, ground (arith, left p c h fits))
      ],
    )

chunk_sound :
    (p : PendingPayload) (id : StreamId) (c : ChunkView) {q : Option PendingPayload}
    → p.remain < u32_mod
    → admit (some p) (stream id (data_chunk c)) ≡ ok q
    → CanWrite (some p) (stream id (data_chunk c)) q
chunk_sound p id c {q} h e =
    let (same, next) = chunk_next p id c h e in
    elim next [
      | inl (all, over) ↦
          subst (CanWrite (some p) (stream id (data_chunk c))) over (last_chunk same all)
      | inr (more, goes_on) ↦
          subst (CanWrite (some p) (stream id (data_chunk c))) goes_on (next_chunk same more)
    ]

admit_sound :
    (p q : Option PendingPayload) (f : Frame) → IsPending p → admit p f ≡ ok q → CanWrite p f q
unfolding admit
admit_sound none q (session event) h e = subst (CanWrite none _) {x = none} (cc) control_session
admit_sound none q (stream id (data_header flags size)) h e =
    subst (CanWrite none _) {x = some (record { stream_id = id; remain = size })} (cc) begin
admit_sound none q (stream id (window_update flags delta)) h e =
    subst (CanWrite none _) {x = none} (cc) update_window
admit_sound none q (stream id (data_chunk c)) h e = absurd (cc)
admit_sound (some p) q (session event) h e = absurd (cc)
admit_sound (some p) q (stream id (data_header flags size)) h e = absurd (cc)
admit_sound (some p) q (stream id (window_update flags delta)) h e = absurd (cc)
admit_sound (some p) q (stream id (data_chunk c)) h e = chunk_sound p id c h e

-- For a pending payload that fits a u32, the checks of FrameWriter::write pass with a given next
-- state exactly along the relation CanWrite: a data header starts a payload, then only chunks of
-- its stream that fit what is left of it may follow, and any control frame may be written when no
-- payload is pending.
pub admit_iff :
    (p q : Option PendingPayload) (f : Frame) → IsPending p → (admit p f ≡ ok q) ↔ CanWrite p f q
admit_iff p q f h = (admit_sound p q f h, admit_complete h)
