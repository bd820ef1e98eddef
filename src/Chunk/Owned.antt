-- ===== src/Chunk/Owned.antt =====
-- src/chunk.rs, `ChunkOwned`: a buffer of fixed capacity that is filled at its end and consumed at
-- its front. The field `data` is called `bytes` here. A `Vec<u8>` is its items beside its capacity.
pub mod Laws
use yamux_low_mem.Prelude.{
  ℕ, List, Exec, done, ◌>>=◌, ◌>>◌, assert, length, replicate, leb, [], ◌∷◌,
}
use yamux_low_mem.Prelude.Word.{add_usize, sub_usize, slice, copy_at}

abbrev pub default_chunk_capacity : ℕ
default_chunk_capacity = 4090

-- `Vec<u8>`: `capacity` is at least the number of items.
pub record Vec : Type 0 where
  pub items : List ℕ
  pub capacity : ℕ

pub record ChunkOwned : Type 0 where
  pub bytes : Vec
  pub len : ℕ
  pub consumed : ℕ

-- `ChunkOwned::from(Vec<u8>)`.
unfoldable pub from_vec : Vec → ChunkOwned
from_vec v = record { bytes = v; len = length v.items; consumed = 0 }

-- `ChunkOwned::default()`; `vec![0; n]` allocates exactly `n`.
unfoldable pub default_chunk : ChunkOwned
default_chunk = record {
  bytes = record { items = replicate default_chunk_capacity 0; capacity = default_chunk_capacity };
  len = 0;
  consumed = 0;
}

unfoldable pub filled_slice : ChunkOwned → Exec (List ℕ)
filled_slice c = slice c.bytes.items c.consumed c.len

unfoldable pub consume_front : ℕ → ChunkOwned → Exec ChunkOwned
consume_front len c = do
  assert (leb (add_usize c.consumed len) c.len)
  done (record c { consumed = add_usize c.consumed len })

unfoldable pub filled_len : ChunkOwned → ℕ
filled_len c = sub_usize c.len c.consumed

unfoldable pub available_len : ChunkOwned → ℕ
available_len c = sub_usize c.bytes.capacity c.len

-- The bytes of `c` replaced, and its length raised by `n`.
abbrev pub filled : ℕ → ChunkOwned → List ℕ → ChunkOwned
filled n c items = record c { bytes = record c.bytes { items = items }; len = add_usize c.len n }

-- `data[len] = byte` is a copy of one byte.
unfoldable pub write_u8 : ℕ → ChunkOwned → Exec ChunkOwned
write_u8 byte c = do items ← copy_at c.bytes.items c.len (byte ∷ []); done (filled 1 c items)

unfoldable pub write_slice : List ℕ → ChunkOwned → Exec ChunkOwned
write_slice chunk c = do
  items ← copy_at c.bytes.items c.len chunk
  done (filled (length chunk) c items)
