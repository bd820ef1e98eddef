-- ===== src/Frame/Stands.antt =====
-- `FrameWriter`: the messages that an admitted sequence of frames stands for.
use yamux_low_mem.Prelude.{
  ℕ, ◌<◌, ◌≡◌, refl, sym, ap, subst, ◌∙◌, inl, inr, Option, none, some, List, [], ◌∷◌, ◌++◌,
  append-nil, append_assoc, arith, eq→==, length, All, length-append, Result, ok, err,
}
use yamux_low_mem.Prelude.Word.{u32_mod}
use yamux_low_mem.Chunk.View.{ChunkView}
use yamux_low_mem.Chunk.View.Laws as ViewLaws
use yamux_low_mem.Chunk.View.Laws.{content}
use yamux_low_mem.Packet.{StreamId, Flags}
use yamux_low_mem.Frame.{
  Frame, session, stream, data_header, data_chunk, window_update, PendingPayload, admit,
  FrameWriterError,
}
use yamux_low_mem.Frame.Codec.{frame_bytes, IsSound}
use yamux_low_mem.Frame.Messages.{all_bytes, leading, assemble, IsSendable}
use yamux_low_mem.Frame.Admitted.{admit_all, frames_bytes, IsPending, chunk_next}

pub admit_all-cons :
    (p r : Option PendingPayload) (f : Frame) (fs : List Frame)
    → admit_all p (f ∷ fs) ≡ ok r
    → (q : Option PendingPayload) × (admit p f ≡ ok q) × (admit_all q fs ≡ ok r)
admit_all-cons p r f fs e = go (admit p f) refl e
  where
    go :
        (a : Result FrameWriterError (Option PendingPayload))
        → admit p f ≡ a
        → (elim a [ err x ↦ err x | ok q ↦ admit_all q fs ]) ≡ ok r
        → (q : Option PendingPayload) × (admit p f ≡ ok q) × (admit_all q fs ≡ ok r)
    go (err x) same e = absurd (cc)
    go (ok q) same e = (q, same, e)

-- The frames of a sequence stand for messages, and their bytes are those of the messages, behind
-- what is left of the payload that is pending.
abbrev Stands : Option PendingPayload → List Frame → Type 0
Stands none fs =
    All IsSendable (assemble fs)
    × (frames_bytes fs ≡ all_bytes (assemble fs))
    × ((id : StreamId) → leading id fs ≡ [])
Stands (some p) fs =
    All IsSendable (assemble fs)
    × (frames_bytes fs ≡ leading p.stream_id fs ++ all_bytes (assemble fs))
    × (length (leading p.stream_id fs) ≡ p.remain)

Stands-header :
    (id : StreamId) (flags : Flags) (size : ℕ) (fs : List Frame)
    → IsSound (stream id (data_header flags size))
    → Stands (some (record { stream_id = id; remain = size })) fs
    → Stands none (stream id (data_header flags size) ∷ fs)
Stands-header id flags size fs (small, size_in) (sendable, same, all) = (
  ((small, omega (arith, all)), sendable),
  ap (λ n. frame_bytes (stream id (data_header flags n)) ++ frames_bytes fs) (sym all)
      ∙ ap (λ t. frame_bytes (stream id (data_header flags (length (leading id fs)))) ++ t) same
      ∙ sym (
          append_assoc (frame_bytes (stream id (data_header flags (length (leading id fs)))))
            (leading id fs) (all_bytes (assemble fs))),
  λ id'. refl,
)

Stands-chunk :
    (p : PendingPayload) (id : StreamId) (c : ChunkView) (q : Option PendingPayload)
    (fs : List Frame)
    → p.remain < u32_mod
    → ViewLaws.IsValid c
    → admit (some p) (stream id (data_chunk c)) ≡ ok q
    → Stands q fs
    → Stands (some p) (stream id (data_chunk c) ∷ fs)
Stands-chunk p id c q fs h valid e s =
    let (same, next) = chunk_next p id c h e in
    let front : leading p.stream_id (stream id (data_chunk c) ∷ fs)
        ≡ content c ++ leading p.stream_id fs =
      rw (eq→== id.value p.stream_id.value same) in
    elim next [
      | inl (all, over) ↦
          let (sendable, bytes, ends) = subst (λ r. Stands r fs) (sym over) s in
          let only : leading p.stream_id (stream id (data_chunk c) ∷ fs) ≡ content c =
            front ∙ ap (λ t. content c ++ t) (ends p.stream_id) ∙ append-nil (content c) in
          (
            sendable,
            ap (λ t. content c ++ t) bytes ∙ ap (λ t. t ++ all_bytes (assemble fs)) (sym only),
            omega (arith, ap length only, ViewLaws.len_lem valid),
          )
      | inr (more, goes_on) ↦
          let (sendable, bytes, rest) = subst (λ r. Stands r fs) (sym goes_on) s in
          (
            sendable,
            ap (λ t. content c ++ t) bytes
                ∙ sym (append_assoc (content c) (leading p.stream_id fs) (all_bytes (assemble fs)))
                ∙ ap (λ t. t ++ all_bytes (assemble fs)) (sym front),
            omega (
              arith,
              ap length front,
              length-append (content c) (leading p.stream_id fs),
              ViewLaws.len_lem valid,
            ),
          )
    ]

IsPending-next :
    (p : PendingPayload) (id : StreamId) (c : ChunkView) (q : Option PendingPayload)
    → p.remain < u32_mod
    → admit (some p) (stream id (data_chunk c)) ≡ ok q
    → IsPending q
IsPending-next p id c q h e = elim (chunk_next p id c h e).1 [
  | inl (all, over) ↦ subst IsPending over tt
  | inr (more, goes_on) ↦ subst IsPending goes_on (omega arith)
]

stands :
    (fs : List Frame) (p : Option PendingPayload)
    → IsPending p
    → All IsSound fs
    → admit_all p fs ≡ ok none
    → Stands p fs
unfolding admit
stands [] none h sound e = (tt, refl, λ id. refl)
stands [] (some p) h sound e = absurd (cc)
stands (session event ∷ fs) none h (s, sound) e =
    let (sendable, same, _) = stands fs none tt sound e in
    ((s, sendable), ap (λ t. frame_bytes (session event) ++ t) same, λ id. refl)
stands (stream id (data_header flags size) ∷ fs) none h (s, sound) e =
    Stands-header id flags size fs s
      (stands fs (some (record { stream_id = id; remain = size })) s.1 sound e)
stands (stream id (window_update flags delta) ∷ fs) none h (s, sound) e =
    let (sendable, same, _) = stands fs none tt sound e in
    (
      (s, sendable),
      ap (λ t. frame_bytes (stream id (window_update flags delta)) ++ t) same,
      λ id'. refl,
    )
stands (stream id (data_chunk c) ∷ fs) none h sound e = absurd (cc)
stands (session event ∷ fs) (some p) h sound e = absurd (cc)
stands (stream id (data_header flags size) ∷ fs) (some p) h sound e = absurd (cc)
stands (stream id (window_update flags delta) ∷ fs) (some p) h sound e = absurd (cc)
stands (stream id (data_chunk c) ∷ fs) (some p) h (s, sound) e =
    let (q, first, rest) = admit_all-cons (some p) none (stream id (data_chunk c)) fs e in
    Stands-chunk p id c q fs h s first (stands fs q (IsPending-next p id c q h first) sound rest)

-- A sequence of sound frames that the checks of FrameWriter::write admit one after the other, and
-- that leaves no payload pending, stands for sendable messages, and its bytes on the wire are
-- those of the messages: every announced length is the number of payload bytes that follow.
pub admitted-all_bytes :
    (fs : List Frame)
    → All IsSound fs
    → admit_all none fs ≡ ok none
    → All IsSendable (assemble fs) × (frames_bytes fs ≡ all_bytes (assemble fs))
admitted-all_bytes fs sound e =
    let (sendable, same, _) = stands fs none tt sound e in (sendable, same)
