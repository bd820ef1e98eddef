-- ===== src/Chunk/Reader.antt =====
-- src/chunk.rs, `ChainedChunkBufferReader`: received bytes in a queue of `ChunkView`s.
-- `size` is the field `len`.
pub mod Invariant
pub mod Laws
pub mod Conversion
use yamux_low_mem.Prelude.{
  ℕ, Bool, true, false, Option, none, some, List, [], ◌∷◌, ◌++◌, map, if◌then◌else◌, Exec, done,
  ◌>>=◌, expect,
}
use yamux_low_mem.Prelude.Word.{add_usize, sub_usize}
use yamux_low_mem.Chunk.View.{ChunkView, from_owned}
use yamux_low_mem.Chunk.View
use yamux_low_mem.Chunk.Traits.{ChunkBufferReader, ChunkBufferSink}
use yamux_low_mem.Chunk.Writer.{ChainedChunkBufferWriter}

pub record ChainedChunkBufferReader : Type 0 where
  pub chunks : List ChunkView
  pub size : ℕ

unfoldable pub new : ChainedChunkBufferReader
new = record { chunks = []; size = 0 }

-- The inherent `is_empty`, which asks for chunks and not for bytes.
unfoldable pub is_empty : ChainedChunkBufferReader → Bool
is_empty r = elim r.chunks [ [] ↦ true | c ∷ rest ↦ false ]

-- `ChainedChunkBufferReader::from(ChainedChunkBufferWriter)`.
unfoldable pub from_writer : ChainedChunkBufferWriter → ChainedChunkBufferReader
from_writer w = record { chunks = map from_owned w.queue; size = w.filled }

unfoldable pub push_back : ChunkView → ChainedChunkBufferReader → ChainedChunkBufferReader
push_back chunk r = record {
  chunks = r.chunks ++ chunk ∷ [];
  size = add_usize r.size (View.len chunk);
}

-- `if front.is_empty() { self.chunks.pop_front(); }`.
abbrev pub pop_if_empty : ChunkView → List ChunkView → List ChunkView
pop_if_empty front rest = if View.is_empty front then rest else front ∷ rest

unfoldable pub next_u8 : ChainedChunkBufferReader → Exec (Option ℕ × ChainedChunkBufferReader)
next_u8 r = elim r.chunks [
  | [] ↦ done (none, r)
  | c ∷ rest ↦ do
    (byte, front) ← View.next_u8 c
    out ← expect byte
    done (some out, record { chunks = pop_if_empty front rest; size = sub_usize r.size 1 })
]

unfoldable pub next_chunk :
    ℕ → ChainedChunkBufferReader → Exec (Option ChunkView × ChainedChunkBufferReader)
next_chunk max_len r = elim r.chunks [
  | [] ↦ done (none, r)
  | c ∷ rest ↦ do
    (chunk, front) ← View.next_chunk max_len c
    out ← expect chunk
    done (
      some out,
      record { chunks = pop_if_empty front rest; size = sub_usize r.size (View.len out) },
    )
]

instance abbrev pub reader : ChunkBufferReader ChainedChunkBufferReader
reader = record { len = λ r. r.size; next_u8 = next_u8; next_chunk = next_chunk }

instance abbrev pub sink : ChunkBufferSink ChainedChunkBufferReader
sink = record { push_back = push_back }

-- `impl ChunkBufferReader for ChunkView`.
instance abbrev pub view_reader : ChunkBufferReader ChunkView
view_reader = record { len = View.len; next_u8 = View.next_u8; next_chunk = View.next_chunk }
