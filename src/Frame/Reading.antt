-- ===== src/Frame/Reading.antt =====
-- `FrameReader`: the frames that it yields stand for the messages in its buffer.
use yamux_low_mem.Prelude.{
  ℕ, zero, suc, ◌+◌, ◌≤◌, ◌<◌, min, ◌≡◌, none, some, List, [], ◌∷◌, ◌++◌, arith, length, Exec, done,
  panic, stuck, ok, err, ◌>>=◌,
}
use yamux_low_mem.Prelude.Word.{u32_mod, sub_usize, sub_usize_lem}
use yamux_low_mem.Chunk.View.{ChunkView}
use yamux_low_mem.Chunk.View
use yamux_low_mem.Chunk.View.Laws as ViewLaws
use yamux_low_mem.Chunk.View.Laws.{content}
use yamux_low_mem.Chunk.Traits.{ChunkBufferReader}
use yamux_low_mem.Chunk.Traits.Reads.{Reads, IsReader}
use yamux_low_mem.Packet.{header_len}
use yamux_low_mem.Frame.{
  Frame, stream, data_chunk, FrameReader, PendingPayload, next_frame, after_chunk, started, read,
}
use yamux_low_mem.Frame.Codec.{frame_bytes, frame_short}

module _ {R : Type 0} ⦃r : ChunkBufferReader R⦄ where
  -- `loop { match reader.next_frame().expect(…) { None => break, Some(frame) => … } }`, with fuel.
  unfoldable pub collect : ℕ → FrameReader R → Exec (List Frame)
  collect zero f = stuck
  collect (suc fuel) f = elim (next_frame f) [
    | done (ok none, f') ↦ done []
    | done (ok (some frame), f') ↦ collect fuel f' >>= λ frames. done (frame ∷ frames)
    | done (err e, f') ↦ panic
    | panic ↦ panic
    | stuck ↦ stuck
  ]

  pub collect_end :
      (fuel : ℕ) (f f' : FrameReader R)
      → next_frame f ≡ done (ok none, f')
      → collect (suc fuel) f ≡ done []
  unfolding collect
  collect_end fuel f f' e = rw (e, collect)

  pub collect_step :
      (fuel : ℕ) (f f' : FrameReader R) (frame : Frame) {frames : List Frame}
      → next_frame f ≡ done (ok (some frame), f')
      → collect fuel f' ≡ done frames
      → collect (suc fuel) f ≡ done (frame ∷ frames)
  unfolding collect
  collect_step fuel f f' frame e rest = rw (e, collect, rest)

module _ {R : Type 0} ⦃r : ChunkBufferReader R⦄ {Inv : R → Type 0} {bytes : R → List ℕ}
    (laws : IsReader Inv bytes r) where
  -- With no payload pending and less than a header, there is no frame yet.
  pub next_frame_short :
      (b : R)
      → Inv b
      → length (bytes b) < header_len
      → next_frame (record { buffer = b; pending = none })
        ≡ done (ok none, record { buffer = b; pending = none })
  unfolding next_frame started
  next_frame_short b inv h = rw (frame_short laws b inv h)

  -- A frame with a header is read whole; a data frame makes its payload pending.
  pub next_frame_header :
      (f : Frame) (b : R) (rest : List ℕ)
      → Reads Inv bytes read (ok (some f)) (frame_bytes f)
      → Inv b
      → bytes b ≡ frame_bytes f ++ rest
      → (b' : R) × (next_frame (record { buffer = b; pending = none })
          ≡ done (ok (some f), record { buffer = b'; pending = started (ok (some f)) }))
        × Inv b'
        × (bytes b' ≡ rest)
  unfolding next_frame
  next_frame_header f b rest reads inv e =
      let (b', run, inv', e') = reads b rest inv e in (b', rw run, inv', e')

  -- A pending payload waits for bytes.
  pub next_frame_wait :
      (p : PendingPayload) (b : R)
      → Inv b
      → bytes b ≡ []
      → next_frame (record { buffer = b; pending = some p })
        ≡ done (ok none, record { buffer = b; pending = some p })
  unfolding next_frame
  next_frame_wait p b inv e = rw (laws.next_chunk_nil p.remain b inv e)

  -- With a payload pending and bytes at hand, FrameReader::next_frame yields a chunk for the
  -- stream of the payload, a front part of the bytes, at least one byte if any is due and never
  -- more than is left of the payload.
  pub next_frame_chunk :
      (p : PendingPayload) (b : R)
      → Inv b
      → 0 < length (bytes b)
      → (c : ChunkView) × (b' : R) × (next_frame (record { buffer = b; pending = some p })
          ≡ done (
            ok (some (stream p.stream_id (data_chunk c))),
            record { buffer = b'; pending = after_chunk p c },
          ))
        × ViewLaws.IsValid c
        × Inv b'
        × (bytes b ≡ content c ++ bytes b')
        × (length (content c) ≤ p.remain)
        × (min 1 p.remain ≤ length (content c))
  unfolding next_frame
  next_frame_chunk p b inv h =
      let (c, b', run, valid, inv', cut, most, least) = laws.next_chunk_cons p.remain b inv h in
      (c, b', rw run, valid, inv', cut, most, least)

-- A payload is over with the chunk that brings the rest of it; before that, less is to come.
pub after_chunk_end :
    (p : PendingPayload) {c : ChunkView}
    → ViewLaws.IsValid c
    → p.remain < u32_mod
    → p.remain ≡ length (content c)
    → after_chunk p c ≡ none
unfolding after_chunk
after_chunk_end p {c} v small e =
    ground (arith, ViewLaws.len_lem v, sub_usize_lem p.remain (View.len c))

pub after_chunk_more :
    (p : PendingPayload) {c : ChunkView} (n : ℕ)
    → ViewLaws.IsValid c
    → p.remain < u32_mod
    → p.remain ≡ length (content c) + n
    → 0 < n
    → after_chunk p c ≡ some (record p { remain = n })
unfolding after_chunk
after_chunk_more p {c} n v small e pos =
    let left : sub_usize p.remain (View.len c) ≡ n =
      omega (arith, ViewLaws.len_lem v, sub_usize_lem p.remain (View.len c)) in
    rw left (ground arith)
