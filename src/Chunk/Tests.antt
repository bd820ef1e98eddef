-- ===== src/Chunk/Tests.antt =====
-- Tests of src/chunk.rs, around one block of four bytes: one consumed, two to read, one free.
use yamux_low_mem.Prelude.{
  ℕ, ◌≤◌, ◌<◌, ◌≡◌, refl, ◌↔◌, ◌⊎◌, Bool, true, none, some, List, [], ◌∷◌, ◌++◌, arith, length,
  drop, done, panic,
}
use yamux_low_mem.Prelude.Word.{slice}
use yamux_low_mem.Chunk.Owned.{Vec, ChunkOwned, from_vec}
use yamux_low_mem.Chunk.Owned
use yamux_low_mem.Chunk.Owned.Laws as OwnedLaws
use yamux_low_mem.Chunk.View.{ChunkView, view_of_slice, from_owned, eq}
use yamux_low_mem.Chunk.View.Laws as ViewLaws
use yamux_low_mem.Chunk.View.Laws.{content}
use yamux_low_mem.Chunk.Writer.{
  ChainedChunkBufferWriter, front_slice, pop_front, consume_front, write_slice,
}
use yamux_low_mem.Chunk.Writer.Invariant as WriterInvariant
use yamux_low_mem.Chunk.Writer.Append as Append
use yamux_low_mem.Chunk.Writer.Drain as Drain
use yamux_low_mem.Chunk.Reader.{from_writer}
use yamux_low_mem.Chunk.Reader.Invariant as ReaderInvariant
use yamux_low_mem.Chunk.Reader.Conversion.{IsFresh, from_writer-IsFresh_iff}
use yamux_low_mem.Prelude.{All}
use yamux_low_mem.Chunk.OwnedWriter.{write_u8-from_vec}

abbrev block : ChunkOwned
block = record {
  bytes = record { items = 6 ∷ 7 ∷ 8 ∷ 0 ∷ []; capacity = 4 };
  len = 3;
  consumed = 1;
}

block-IsValid : OwnedLaws.IsValid block
block-IsValid = omega arith

abbrev queued : ChainedChunkBufferWriter
queued = record { queue = block ∷ []; filled = 2 }

queued-IsValid : WriterInvariant.IsValid queued
queued-IsValid = record {
  blocks = ((record { valid = block-IsValid; whole = refl }, omega arith), tt);
  counted = refl;
}

queued_front : front_slice queued ≡ done (some (7 ∷ 8 ∷ []))
unfolding front_slice Owned.filled_slice slice
queued_front = refl

-- A slice that is longer than the room in the last block goes on in a new one.
write_slice_writes_example :
    (w' : ChainedChunkBufferWriter) × (write_slice (1 ∷ 2 ∷ 3 ∷ []) queued ≡ done w')
    × WriterInvariant.Room 0 w'
    × (WriterInvariant.bytes w' ≡ WriterInvariant.bytes queued ++ 1 ∷ 2 ∷ 3 ∷ [])
write_slice_writes_example =
    Append.write_slice_writes (1 ∷ 2 ∷ 3 ∷ []) 0 queued
      (record { valid = queued-IsValid; fits = omega arith })

front_slice_lem_example :
    ((front_slice queued ≡ done none) × (WriterInvariant.bytes queued ≡ []))
    ⊎ ((s rest : List ℕ) × (front_slice queued ≡ done (some s))
        × (0 < length s)
        × (WriterInvariant.bytes queued ≡ s ++ rest))
front_slice_lem_example = Drain.front_slice_lem queued queued-IsValid

consume_front_lem_example :
    (w' : ChainedChunkBufferWriter) × (consume_front 2 queued ≡ done w')
    × WriterInvariant.IsValid w'
    × (WriterInvariant.bytes w' ≡ drop 2 (WriterInvariant.bytes queued))
consume_front_lem_example =
    Drain.consume_front_lem 2 queued queued-IsValid (omega arith) queued_front (omega arith)

pop_front-fresh_iff_example :
    (w' : ChainedChunkBufferWriter) × (pop_front queued ≡ (some (from_owned block), w'))
    × ((content (from_owned block) ++ WriterInvariant.bytes w' ≡ 7 ∷ 8 ∷ []) ↔ (block.consumed ≡ 0))
pop_front-fresh_iff_example =
    Drain.pop_front-fresh_iff {c = block} {q = []} {k = 2} queued-IsValid (omega arith)

-- One byte of the block was consumed, so the reader's count and its bytes differ.
from_writer-IsFresh_iff_example :
    (ReaderInvariant.IsValid (from_writer queued)
      × (ReaderInvariant.bytes (from_writer queued) ≡ 7 ∷ 8 ∷ []))
    ↔ All IsFresh (block ∷ [])
from_writer-IsFresh_iff_example = from_writer-IsFresh_iff queued queued-IsValid (omega arith)

abbrev pair : ChunkView
pair = record { owned = block; start = 1; end = 3 }

pair-IsValid : ViewLaws.IsValid pair
pair-IsValid = omega arith

-- The same bytes elsewhere.
eq_lem_example :
    (b : Bool) × (eq pair (view_of_slice (7 ∷ 8 ∷ [])) ≡ done b)
    × ((b ≡ true) ↔ (content pair ≡ content (view_of_slice (7 ∷ 8 ∷ []))))
eq_lem_example =
    ViewLaws.eq_lem pair-IsValid (ViewLaws.view_of_slice_lem (7 ∷ 8 ∷ []) (omega arith)).0

-- One byte in a vector that has room for two.
write_u8-from_vec_example :
    (1 ≤ Owned.available_len (from_vec (record { items = 5 ∷ []; capacity = 2 })))
    × (Owned.write_u8 9 (from_vec (record { items = 5 ∷ []; capacity = 2 })) ≡ panic)
write_u8-from_vec_example =
    write_u8-from_vec (record { items = 5 ∷ []; capacity = 2 }) 9 (omega arith) (omega arith)
