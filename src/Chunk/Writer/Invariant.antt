-- ===== src/Chunk/Writer/Invariant.antt =====
-- The blocks of a `ChainedChunkBufferWriter`, and the bytes that they hold.
use yamux_low_mem.Prelude.{
  ℕ, ◌+◌, ◌-◌, ◌^◌, ◌≤◌, ◌<◌, ◌≡◌, refl, sym, ap, ◌∙◌, List, [], ◌∷◌, ◌++◌, append-nil,
  append_assoc, arith, length, All, length-replicate, done,
}
use yamux_low_mem.Chunk.Owned.{ChunkOwned, default_chunk, default_chunk_capacity}
use yamux_low_mem.Chunk.Owned
use yamux_low_mem.Chunk.Owned.Laws
use yamux_low_mem.Chunk.Owned.Laws.{content, length-content}
use yamux_low_mem.Chunk.Writer.{ChainedChunkBufferWriter, new}

-- A block can be filled up to its capacity.
pub record IsBlock (c : ChunkOwned) : Type 0 where
  pub valid : Laws.IsValid c
  pub whole : length c.bytes.items ≡ c.bytes.capacity

-- A block of the queue has bytes left.
abbrev pub IsFilled : ChunkOwned → Type 0
IsFilled c = IsBlock c × (0 < length (content c))

abbrev pub contents : List ChunkOwned → List ℕ
contents [] = []
contents (c ∷ cs) = content c ++ contents cs

abbrev pub bytes : ChainedChunkBufferWriter → List ℕ
bytes w = contents w.queue

pub record IsValid (w : ChainedChunkBufferWriter) : Type 0 where
  pub blocks : All IsFilled w.queue
  pub counted : w.filled ≡ length (bytes w)

-- Well formed, with room for `n` more bytes before the count would wrap.
pub record Room (n : ℕ) (w : ChainedChunkBufferWriter) : Type 0 where
  pub valid : IsValid w
  pub fits : length (bytes w) + n < 2 ^ 63

pub contents-append : (cs ds : List ChunkOwned) → contents (cs ++ ds) ≡ contents cs ++ contents ds
contents-append [] ds = refl
contents-append (c ∷ cs) ds =
    ap (λ t. content c ++ t) (contents-append cs ds)
    ∙ sym (append_assoc (content c) (contents cs) (contents ds))

pub contents-snoc :
    (cs : List ChunkOwned) (c : ChunkOwned) → contents (cs ++ c ∷ []) ≡ contents cs ++ content c
contents-snoc cs c =
    contents-append cs (c ∷ []) ∙ ap (λ t. contents cs ++ t) (append-nil (content c))

pub new-Room : (n : ℕ) → n < 2 ^ 63 → Room n new
unfolding new
new-Room n h = record { valid = record { blocks = tt; counted = refl }; fits = omega arith }

pub default_chunk-IsBlock : IsBlock default_chunk
unfolding default_chunk
default_chunk-IsBlock = record {
  valid = Laws.default_chunk-IsValid;
  whole = length-replicate {A = ℕ} default_chunk_capacity 0;
}

pub default_chunk_empty : content default_chunk ≡ []
unfolding default_chunk
default_chunk_empty = refl

-- Bytes that fit behind the filled part of a block are appended to it.
pub write_block :
    {c : ChunkOwned} (ys : List ℕ)
    → IsBlock c
    → length ys ≤ Owned.available_len c
    → (c' : ChunkOwned) × (Owned.write_slice ys c ≡ done c')
      × IsBlock c'
      × (content c' ≡ content c ++ ys)
write_block {c} ys b h =
    let avail : Owned.available_len c ≡ c.bytes.capacity - c.len = Laws.available_len_lem b.valid in
    let fits : c.len + length ys ≤ length c.bytes.items = omega (arith, b.valid, b.whole, avail) in
    let (c', run, valid, grown, len', consumed', size, cap) =
      Laws.write_slice_lem ys b.valid fits in
    (c', run, record { valid = valid; whole = size ∙ b.whole ∙ sym cap }, grown)
