-- ===== src/Chunk/Writer/Rounds.antt =====
-- `ChainedChunkBufferWriter`: one round of the loop of `write_slice`.
use yamux_low_mem.Prelude.{
  ℕ, ◌+◌, ◌-◌, ◌^◌, ◌≤◌, ◌<◌, min, ◌≡◌, refl, ap, ◌∙◌, ◌≢◌, ◌⊎◌, inl, inr, some, List, [], ◌∷◌,
  arith, leb, Bool-cases, length, split_back, split_back-snoc, snoc_cases, All-append, All-split,
  Exec, done,
}
use yamux_low_mem.Prelude.Word.{
  add_usize, sub_usize, add_usize_lem, sub_usize_lem, window, slice, slice_lem, length-window,
}
use yamux_low_mem.Chunk.Owned.{ChunkOwned, default_chunk, default_chunk_capacity}
use yamux_low_mem.Chunk.Owned
use yamux_low_mem.Chunk.Owned.Laws
use yamux_low_mem.Chunk.Owned.Laws.{content, length-content}
use yamux_low_mem.Chunk.Writer.{
  ChainedChunkBufferWriter, writer, write_part, last_round, new_round, write_round,
}
use yamux_low_mem.Chunk.Writer.Invariant.{
  IsBlock, IsFilled, bytes, IsValid, default_chunk-IsBlock, write_block,
}
use yamux_low_mem.Chunk.Writer.Blocks.{Fills, Open, Grown, into_last_lem, into_new_lem}

pub available-default : Owned.available_len default_chunk ≡ default_chunk_capacity
unfolding default_chunk
available-default = Laws.available_len_lem default_chunk-IsBlock.valid

-- A part of the data, written to a block with room for it.
pub write_part-Fills :
    (ys : List ℕ) (offset n : ℕ) {c : ChunkOwned}
    → IsBlock c
    → length ys < 2 ^ 63
    → offset + n ≤ length ys
    → n ≤ Owned.available_len c
    → Fills (write_part ys offset n) (window ys offset (offset + n)) c
unfolding write_part
write_part-Fills ys offset n {c} block small h k =
    let size : length (window ys offset (offset + n)) ≡ n =
      omega (arith, length-window ys offset (offset + n) h) in
    let (c', run, block', grown) =
      write_block (window ys offset (offset + n)) block (omega (arith, size)) in
    let end : add_usize offset n ≡ offset + n = add_usize_lem offset n (omega arith) in
    let cut : slice ys offset (offset + n) ≡ done (window ys offset (offset + n)) =
      slice_lem ys offset (offset + n) (omega arith) h in
    (c', rw (end, cut) run, block', grown)

-- The last block may be taken as it is, or else it is full.
abbrev pub Usable : ChunkOwned → Type 0
Usable c = (1 ≤ Owned.available_len c) ⊎ (0 < length (content c))

-- What a round leaves: it wrote `n` bytes, at least one.
abbrev pub Round :
    ChainedChunkBufferWriter → List ℕ → ℕ → Exec (ℕ × ChainedChunkBufferWriter) → Type 0
Round w ys offset out =
    (n : ℕ) × (w' : ChainedChunkBufferWriter) × (out ≡ done (offset + n, w'))
    × (0 < n)
    × (offset + n ≤ length ys)
    × Grown w (window ys offset (offset + n)) w'

pub Open-IsValid :
    {w : ChainedChunkBufferWriter} (o : Open w) → 0 < length (content o.last) → IsValid w
Open-IsValid {w} o pos = record {
  blocks = rw o.shape (All-append IsFilled o.front (o.last ∷ []) o.inner ((o.block, pos), tt));
  counted = o.counted;
}

-- A writer that holds bytes has a last block, which holds some of them.
pub Open-of :
    {w : ChainedChunkBufferWriter}
    → IsValid w
    → w.queue ≢ []
    → (o : Open w) × (0 < length (content o.last))
Open-of {w} v ne = elim (snoc_cases w.queue) [
  | inl e ↦ absurd (ne e)
  | inr (front, last, e) ↦
      let (inner, ((block, pos), _)) = All-split IsFilled front (last ∷ []) (rw e at v.blocks) in
      (
        record {
          front = front;
          last = last;
          shape = e;
          inner = inner;
          block = block;
          counted = v.counted;
        },
        pos,
      )
]

module _ (w : ChainedChunkBufferWriter) (ys : List ℕ) (offset : ℕ) (more : offset < length ys)
    (small : length ys < 2 ^ 63) (fits_all : length (bytes w) + (length ys - offset) < 2 ^ 63) where
  -- The size of a round into a block with room for `room` bytes.
  pub round_size :
      (room n : ℕ)
      → 1 ≤ room
      → n ≡ min room (sub_usize (length ys) offset)
      → (0 < n)
        × (n ≤ room)
        × (offset + n ≤ length ys)
        × (add_usize offset n ≡ offset + n)
        × (length (window ys offset (offset + n)) ≡ n)
        × (length (bytes w) + length (window ys offset (offset + n)) < 2 ^ 63)
  round_size room n usable e = omega (
    arith,
    sub_usize_lem (length ys) offset,
    add_usize_lem offset n,
    length-window ys offset (offset + n),
  )

  pub last_round_lem :
      (o : Open w)
      → 1 ≤ Owned.available_len o.last
      → Round w ys offset (last_round ys offset o.front o.last w.filled)
  unfolding last_round
  last_round_lem o room =
      let n : ℕ = min (Owned.available_len o.last) (sub_usize (length ys) offset) in
      let part : List ℕ = window ys offset (offset + n) in
      let (pos, within, fits, end, size, bound) = round_size _ n room refl in
      let fills : Fills (write_part ys offset n) part o.last =
        write_part-Fills ys offset n o.block (omega arith) fits within in
      let (w', run, grown) =
        into_last_lem (write_part ys offset n) part n size (omega (arith, size, pos)) bound o
          fills in
      (n, w', rw (run, end), pos, fits, grown)

  pub new_round_lem : IsValid w → Round w ys offset (new_round ys offset w)
  unfolding new_round
  new_round_lem v =
      let n : ℕ = min (Owned.available_len default_chunk) (sub_usize (length ys) offset) in
      let part : List ℕ = window ys offset (offset + n) in
      let room : 1 ≤ Owned.available_len default_chunk = omega (arith, available-default) in
      let (pos, within, fits, end, size, bound) = round_size _ n room refl in
      let fills : Fills (write_part ys offset n) part default_chunk =
        write_part-Fills ys offset n default_chunk-IsBlock (omega arith) fits within in
      let (w', run, grown) =
        into_new_lem (write_part ys offset n) part n size (omega (arith, size, pos)) bound v
          fills in
      (n, w', rw (run, end), pos, fits, grown)

  -- A round writes at least one byte, and appends what it wrote.
  pub write_round_lem : (o : Open w) → Usable o.last → Round w ys offset (write_round ys offset w)
  unfolding write_round
  write_round_lem o u =
      let at_back : split_back w.queue ≡ some (o.front, o.last) =
        ap split_back o.shape ∙ split_back-snoc o.front o.last in
      elim (Bool-cases (leb 1 (Owned.available_len o.last))) [
        | inl room ↦ rw (at_back, write_round, room) (last_round_lem o (ground arith))
        | inr full ↦ rw (at_back, write_round, full) (new_round_lem (Open-IsValid o (ground arith)))
      ]
