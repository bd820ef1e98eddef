-- ===== src/Frame/Codec.antt =====
-- `Frame::read` and `Frame::write`: the bytes of one frame.
use yamux_low_mem.Prelude.{
  ℕ, ◌<◌, ◌≡◌, refl, sym, ap, subst, ◌∙◌, inl, inr, Option, none, some, List, [], ◌++◌, append-nil,
  arith, Bool-cases, length, length-eq-zero, done, ok,
}
use yamux_low_mem.Prelude.Word.{u32_mod}
use yamux_low_mem.Chunk.View.{ChunkView}
use yamux_low_mem.Chunk.View
use yamux_low_mem.Chunk.View.Laws as ViewLaws
use yamux_low_mem.Chunk.View.Laws.{content}
use yamux_low_mem.Chunk.Traits.{ChunkBufferReader, ChunkBufferWriter}
use yamux_low_mem.Chunk.Traits.Reads.{Reads, IsReader}
use yamux_low_mem.Chunk.Traits.Writes.{Writes, IsWriter}
use yamux_low_mem.Packet.{StreamId, FrameType, Header, empty_flags, new_header, header_len}
use yamux_low_mem.Packet.Wire.{header_bytes, IsWide, write-Writes, read-header_bytes, read_short}
use yamux_low_mem.Frame.{
  Frame, session, stream, data_header, data_chunk, window_update, ping, go_away, session_id,
  frame_of, read, write,
}

-- The header that stands for a frame; a chunk has none.
abbrev pub header_for : Frame → Option Header
header_for (session (ping flags code)) = some (new_header FrameType.ping flags session_id code)
header_for (session (go_away code)) =
    some (new_header FrameType.go_away empty_flags session_id code)
header_for (stream id (data_header flags size)) =
    some (new_header FrameType.data_frame flags id size)
header_for (stream id (window_update flags delta)) =
    some (new_header FrameType.window_update flags id delta)
header_for (stream id (data_chunk chunk)) = none

-- The bytes of a frame on the wire.
abbrev pub frame_bytes : Frame → List ℕ
frame_bytes (session (ping flags code)) =
    header_bytes (new_header FrameType.ping flags session_id code)
frame_bytes (session (go_away code)) =
    header_bytes (new_header FrameType.go_away empty_flags session_id code)
frame_bytes (stream id (data_header flags size)) =
    header_bytes (new_header FrameType.data_frame flags id size)
frame_bytes (stream id (window_update flags delta)) =
    header_bytes (new_header FrameType.window_update flags id delta)
frame_bytes (stream id (data_chunk chunk)) = content chunk

-- A `u32` in each number field, and a view that is well formed.
abbrev pub IsSound : Frame → Type 0
IsSound (session (ping flags code)) = code < u32_mod
IsSound (session (go_away code)) = code < u32_mod
IsSound (stream id (data_header flags size)) = (id.value < u32_mod) × (size < u32_mod)
IsSound (stream id (window_update flags delta)) = (id.value < u32_mod) × (delta < u32_mod)
IsSound (stream id (data_chunk chunk)) = ViewLaws.IsValid chunk

module _ {W : Type 0} ⦃w : ChunkBufferWriter W⦄ {Room : ℕ → W → Type 0} {bytes : W → List ℕ}
    (laws : IsWriter Room bytes w) where
  chunk-Writes :
      (id : StreamId) (chunk : ChunkView)
      → ViewLaws.IsValid chunk
      → Writes Room bytes (write (stream id (data_chunk chunk))) (content chunk)
  unfolding write
  chunk-Writes id chunk h n b room = elim (Bool-cases (View.is_empty chunk)) [
    | inl none_left ↦
        let gone : content chunk ≡ [] =
          length-eq-zero (content chunk) (ground (arith, ViewLaws.is_empty_lem h)) in
        (
          b,
          rw none_left,
          subst (λ k. Room k b) (omega (arith, ap length gone)) room,
          sym (append-nil (bytes b)) ∙ ap (λ t. bytes b ++ t) (sym gone),
        )
    | inr some_left ↦
        let (b', run, room', grown) = laws.write_slice_appends (content chunk) n b room in
        (b', rw (some_left, ViewLaws.deref_lem h) run, room', grown)
  ]

  -- `Frame::write` appends the bytes of the frame.
  pub frame-Writes : (f : Frame) → IsSound f → Writes Room bytes (write f) (frame_bytes f)
  unfolding write
  frame-Writes (session (ping flags code)) h = write-Writes laws _
  frame-Writes (session (go_away code)) h = write-Writes laws _
  frame-Writes (stream id (data_header flags size)) h = write-Writes laws _
  frame-Writes (stream id (window_update flags delta)) h = write-Writes laws _
  frame-Writes (stream id (data_chunk chunk)) h = chunk-Writes id chunk h

module _ {R : Type 0} ⦃r : ChunkBufferReader R⦄ {Inv : R → Type 0} {bytes : R → List ℕ}
    (laws : IsReader Inv bytes r) where
  from_header :
      (h : Header) (f : Frame)
      → IsWide h
      → frame_of h ≡ f
      → Reads Inv bytes read (ok (some f)) (header_bytes h)
  unfolding read
  from_header h f wide e b rest inv left =
      let (b', run, inv', left') = read-header_bytes laws h b rest wide inv left in
      (b', rw run (ap (λ x. done (ok (some x), b')) e), inv', left')

  -- `Frame::read` reads back the frame that was written, unless that is a chunk.
  pub frame-Reads :
      (f : Frame) {h : Header}
      → header_for f ≡ some h
      → IsSound f
      → Reads Inv bytes read (ok (some f)) (frame_bytes f)
  unfolding frame_of
  frame-Reads (session (ping flags code)) e s = from_header _ _ (omega arith) refl
  frame-Reads (session (go_away code)) e s = from_header _ _ (omega arith) refl
  frame-Reads (stream id (data_header flags size)) e s = from_header _ _ (omega arith) refl
  frame-Reads (stream id (window_update flags delta)) e s = from_header _ _ (omega arith) refl
  frame-Reads (stream id (data_chunk chunk)) e s = absurd (cc)

  pub frame_short : (b : R) → Inv b → length (bytes b) < header_len → read b ≡ done (ok none, b)
  unfolding read
  frame_short b inv h = rw (read_short laws b inv h)
