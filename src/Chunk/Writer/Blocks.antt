-- ===== src/Chunk/Writer/Blocks.antt =====
-- `ChainedChunkBufferWriter`: a write into the last chunk, or into a new one.
use yamux_low_mem.Prelude.{
  ℕ, ◌+◌, ◌^◌, ◌<◌, ◌≡◌, sym, ap, ◌∙◌, List, [], ◌∷◌, ◌++◌, append_assoc, arith, length, All,
  length-append, All-append, Exec, done,
}
use yamux_low_mem.Prelude.Word.{add_usize, add_usize_lem}
use yamux_low_mem.Chunk.Owned.{ChunkOwned, default_chunk}
use yamux_low_mem.Chunk.Owned.Laws.{content}
use yamux_low_mem.Chunk.Writer.{ChainedChunkBufferWriter, writer, into_last, into_new}
use yamux_low_mem.Chunk.Writer.Invariant.{
  IsBlock, IsFilled, contents, bytes, IsValid, contents-snoc, default_chunk_empty,
}

-- `run` writes the bytes `ys` to a block.
abbrev pub Fills : (ChunkOwned → Exec ChunkOwned) → List ℕ → ChunkOwned → Type 0
Fills run ys c = (c' : ChunkOwned) × (run c ≡ done c') × IsBlock c' × (content c' ≡ content c ++ ys)

-- The last block stands apart: it may be an empty one that was just added.
pub record Open (w : ChainedChunkBufferWriter) : Type 0 where
  pub front : List ChunkOwned
  pub last : ChunkOwned
  pub shape : w.queue ≡ front ++ last ∷ []
  pub inner : All IsFilled front
  pub block : IsBlock last
  pub counted : w.filled ≡ length (bytes w)

-- What a successful write of `ys` leaves.
abbrev pub Grown : ChainedChunkBufferWriter → List ℕ → ChainedChunkBufferWriter → Type 0
Grown w ys w' = IsValid w' × (bytes w' ≡ bytes w ++ ys)

module _ {w : ChainedChunkBufferWriter} (run : ChunkOwned → Exec ChunkOwned) (ys : List ℕ) (n : ℕ)
    (size : length ys ≡ n) (some_bytes : 0 < length ys)
    (fits : length (bytes w) + length ys < 2 ^ 63) where
  pub into_last_lem :
      (o : Open w)
      → Fills run ys o.last
      → (w' : ChainedChunkBufferWriter) × (into_last n run o.front o.last w.filled ≡ done w')
        × Grown w ys w'
  unfolding into_last
  into_last_lem o (c', e, block', grown) = (
    record { queue = o.front ++ c' ∷ []; filled = add_usize w.filled n },
    rw e,
    (record { blocks = blocks; counted = counted }, bytes'),
  )
    where
      bytes' : contents (o.front ++ c' ∷ []) ≡ bytes w ++ ys
      bytes' =
          contents-snoc o.front c'
          ∙ ap (λ t. contents o.front ++ t) grown
          ∙ sym (append_assoc (contents o.front) (content o.last) ys)
          ∙ ap (λ t. t ++ ys) (sym (contents-snoc o.front o.last) ∙ ap contents (sym o.shape))

      blocks : All IsFilled (o.front ++ c' ∷ [])
      blocks =
          All-append IsFilled o.front (c' ∷ []) o.inner
            ((block', omega (arith, ap length grown, length-append (content o.last) ys)), tt)

      counted : add_usize w.filled n ≡ length (contents (o.front ++ c' ∷ []))
      counted =
          omega (
            arith,
            o.counted,
            add_usize_lem w.filled n,
            ap length bytes',
            length-append (bytes w) ys,
          )

  pub into_new_lem :
      IsValid w
      → Fills run ys default_chunk
      → (w' : ChainedChunkBufferWriter) × (into_new n run w ≡ done w') × Grown w ys w'
  unfolding into_new
  into_new_lem v (c', e, block', grown) = (
    record { queue = w.queue ++ c' ∷ []; filled = add_usize w.filled n },
    rw e,
    (record { blocks = blocks; counted = counted }, bytes'),
  )
    where
      only : content c' ≡ ys
      only = grown ∙ ap (λ t. t ++ ys) default_chunk_empty

      bytes' : contents (w.queue ++ c' ∷ []) ≡ bytes w ++ ys
      bytes' = contents-snoc w.queue c' ∙ ap (λ t. bytes w ++ t) only

      blocks : All IsFilled (w.queue ++ c' ∷ [])
      blocks =
          All-append IsFilled w.queue (c' ∷ []) v.blocks
            ((block', omega (arith, ap length only)), tt)

      counted : add_usize w.filled n ≡ length (contents (w.queue ++ c' ∷ []))
      counted =
          omega (
            arith,
            v.counted,
            add_usize_lem w.filled n,
            ap length bytes',
            length-append (bytes w) ys,
          )
