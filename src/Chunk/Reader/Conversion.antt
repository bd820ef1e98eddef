-- ===== src/Chunk/Reader/Conversion.antt =====
-- `ChainedChunkBufferReader::from(ChainedChunkBufferWriter)`: what the reader holds.
use yamux_low_mem.Prelude.{
  ℕ, ◌+◌, ◌^◌, ◌<◌, ◌≡◌, refl, sym, ap, ap₂, ◌∙◌, ◌↔◌, List, [], ◌∷◌, ◌++◌, map, arith, length, All,
  length-append,
}
use yamux_low_mem.Prelude.Word.{window, length-window}
use yamux_low_mem.Chunk.Owned.{ChunkOwned}
use yamux_low_mem.Chunk.Owned.Laws as OwnedLaws
use yamux_low_mem.Chunk.View.{from_owned}
use yamux_low_mem.Chunk.View.Laws as ViewLaws
use yamux_low_mem.Chunk.Writer.{ChainedChunkBufferWriter}
use yamux_low_mem.Chunk.Writer.Invariant as WriterInvariant
use yamux_low_mem.Chunk.Reader.{from_writer}
use yamux_low_mem.Chunk.Reader.Invariant as ReaderInvariant

-- The bytes of the blocks that were consumed.
abbrev consumed : List ChunkOwned → ℕ
consumed [] = 0
consumed (c ∷ cs) = c.consumed + consumed cs

-- Nothing of the block was consumed.
abbrev pub IsFresh : ChunkOwned → Type 0
IsFresh c = c.consumed ≡ 0

consumed-IsFresh : (cs : List ChunkOwned) → consumed cs ≡ 0 → All IsFresh cs
consumed-IsFresh [] e = tt
consumed-IsFresh (c ∷ cs) e = (omega arith, consumed-IsFresh cs (omega arith))

-- The views show the consumed bytes of the blocks too.
length-views :
    (cs : List ChunkOwned)
    → All WriterInvariant.IsFilled cs
    → length (ReaderInvariant.contents (map from_owned cs))
      ≡ length (WriterInvariant.contents cs) + consumed cs
length-views [] v = refl
length-views (c ∷ cs) ((b, _), v) =
    let shown = ap length (ViewLaws.content-from_owned b.valid) in
    omega (
      arith,
      length-views cs v,
      shown,
      length-append (window c.bytes.items 0 c.consumed) (OwnedLaws.content c),
      length-window c.bytes.items 0 c.consumed (omega (arith, b.valid)),
      length-append (ViewLaws.content (from_owned c))
          (ReaderInvariant.contents (map from_owned cs)),
      length-append (OwnedLaws.content c) (WriterInvariant.contents cs),
    )

views :
    (cs : List ChunkOwned)
    → All WriterInvariant.IsFilled cs
    → All IsFresh cs
    → All ReaderInvariant.IsFilled (map from_owned cs)
      × (ReaderInvariant.contents (map from_owned cs) ≡ WriterInvariant.contents cs)
views [] v f = (tt, refl)
views (c ∷ cs) ((b, some_left), v) (e, f) =
    let same = ViewLaws.content-from_owned_fresh b.valid e in
    let (all, rest) = views cs v f in
    (
      ((ViewLaws.from_owned-IsValid b.valid, omega (arith, ap length same)), all),
      ap₂ (λ s t. s ++ t) same rest,
    )

-- For a well-formed ChainedChunkBufferWriter of less than 2^63 bytes: the ChainedChunkBufferReader
-- that it is turned into is well formed, its count and its chunks included, and holds the bytes
-- that the writer held, exactly if nothing of the writer's blocks was consumed.
pub from_writer-IsFresh_iff :
    (w : ChainedChunkBufferWriter)
    → WriterInvariant.IsValid w
    → length (WriterInvariant.bytes w) < 2 ^ 63
    → (ReaderInvariant.IsValid (from_writer w)
        × (ReaderInvariant.bytes (from_writer w) ≡ WriterInvariant.bytes w))
      ↔ All IsFresh w.queue
unfolding from_writer
from_writer-IsFresh_iff w v small = (
  λ (valid, same).
      consumed-IsFresh w.queue (omega (arith, ap length same, length-views w.queue v.blocks)),
  λ f.
      let (all, same) = views w.queue v.blocks f in
      (
        record {
          views = all;
          counted = v.counted ∙ ap length (sym same);
          small = omega (arith, ap length same);
        },
        same,
      ),
)
