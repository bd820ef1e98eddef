-- ===== src/Chunk/Writer.antt =====
-- src/chunk.rs, `ChainedChunkBufferWriter`: encoded bytes in a queue of `ChunkOwned` blocks.
-- `filled` is the field `filled_len`.
pub mod Invariant
pub mod Blocks
pub mod Rounds
pub mod Append
pub mod Drain
use yamux_low_mem.Prelude.{
  ℕ, zero, suc, min, true, false, Option, none, some, List, [], ◌∷◌, ◌++◌, ltb, leb, ◌==◌,
  if◌then◌else◌, length, split_back, Exec, done, panic, stuck, ◌>>=◌,
}
use yamux_low_mem.Prelude.Word.{add_usize, sub_usize, slice}
use yamux_low_mem.Chunk.Owned.{ChunkOwned, default_chunk}
use yamux_low_mem.Chunk.Owned
use yamux_low_mem.Chunk.View.{ChunkView, from_owned}
use yamux_low_mem.Chunk.Traits.{ChunkBufferWriter, ChunkBufferSource}

pub record ChainedChunkBufferWriter : Type 0 where
  pub queue : List ChunkOwned
  pub filled : ℕ

unfoldable pub new : ChainedChunkBufferWriter
new = record { queue = []; filled = 0 }

unfoldable pub front_slice : ChainedChunkBufferWriter → Exec (Option (List ℕ))
front_slice w = elim w.queue [
  | [] ↦ done none
  | c ∷ rest ↦ do bytes ← Owned.filled_slice c; done (some bytes)
]

unfoldable pub pop_front : ChainedChunkBufferWriter → Option ChunkView × ChainedChunkBufferWriter
pop_front w = elim w.queue [
  | [] ↦ (none, w)
  | c ∷ rest ↦ (
    some (from_owned c),
    record { queue = rest; filled = sub_usize w.filled (Owned.filled_len c) },
  )
]

unfoldable pub consume_front : ℕ → ChainedChunkBufferWriter → Exec ChainedChunkBufferWriter
consume_front len w = elim w.queue [
  | [] ↦ panic
  | c ∷ rest ↦ do
    front ← Owned.consume_front len c
    let filled = sub_usize w.filled len
    if Owned.filled_len front == 0
        then done (record { queue = rest; filled = filled })
        else done (record { queue = front ∷ rest; filled = filled })
]

unfoldable pub available_len : ChainedChunkBufferWriter → ℕ
available_len w = elim (split_back w.queue) [
  | none ↦ 0
  | some (front, last) ↦ Owned.available_len last
]

-- The two ways to write: into the last chunk, or into a new one behind it. `run` writes the bytes
-- into a chunk, and `n` is their number.
pub into_last :
    ℕ
    → (ChunkOwned → Exec ChunkOwned)
    → List ChunkOwned
    → ChunkOwned
    → ℕ
    → Exec ChainedChunkBufferWriter
into_last n run front last filled = do
  last' ← run last
  done (record { queue = front ++ last' ∷ []; filled = add_usize filled n })

pub into_new :
    ℕ → (ChunkOwned → Exec ChunkOwned) → ChainedChunkBufferWriter → Exec ChainedChunkBufferWriter
into_new n run w = do
  chunk ← run default_chunk
  done (record { queue = w.queue ++ chunk ∷ []; filled = add_usize w.filled n })

unfoldable pub write_u8 : ℕ → ChainedChunkBufferWriter → Exec ChainedChunkBufferWriter
unfolding into_last into_new
write_u8 byte w = elim (split_back w.queue) [
  | none ↦ into_new 1 (Owned.write_u8 byte) w
  | some (front, last) ↦
      if leb 1 (Owned.available_len last)
      then into_last 1 (Owned.write_u8 byte) front last w.filled
      else into_new 1 (Owned.write_u8 byte) w
]

-- `data[offset..offset + n]`, written to a chunk.
pub write_part : List ℕ → ℕ → ℕ → ChunkOwned → Exec ChunkOwned
write_part bytes offset n c = do
  part ← slice bytes offset (add_usize offset n)
  Owned.write_slice part c

-- One round of the loop of `write_slice`, in each of the two ways.
pub last_round : List ℕ → ℕ → List ChunkOwned → ChunkOwned → ℕ → Exec (ℕ × ChainedChunkBufferWriter)
last_round bytes offset front last filled = do
  let n = min (Owned.available_len last) (sub_usize (length bytes) offset)
  w' ← into_last n (write_part bytes offset n) front last filled
  done (add_usize offset n, w')

pub new_round : List ℕ → ℕ → ChainedChunkBufferWriter → Exec (ℕ × ChainedChunkBufferWriter)
new_round bytes offset w = do
  let n = min (Owned.available_len default_chunk) (sub_usize (length bytes) offset)
  w' ← into_new n (write_part bytes offset n) w
  done (add_usize offset n, w')

pub write_round : List ℕ → ℕ → ChainedChunkBufferWriter → Exec (ℕ × ChainedChunkBufferWriter)
unfolding into_last into_new write_part last_round new_round
write_round bytes offset w = elim (split_back w.queue) [
  | none ↦ new_round bytes offset w
  | some (front, last) ↦
      if leb 1 (Owned.available_len last)
      then last_round bytes offset front last w.filled
      else new_round bytes offset w
]

-- `while offset < data.len()`, with fuel.
pub write_loop : ℕ → List ℕ → ℕ → ChainedChunkBufferWriter → Exec ChainedChunkBufferWriter
unfolding write_round
write_loop zero bytes offset w = if ltb offset (length bytes) then stuck else done w
write_loop (suc fuel) bytes offset w = elim (ltb offset (length bytes)) [
  | false ↦ done w
  | true ↦ elim (write_round bytes offset w) [
    | done (offset', w') ↦ write_loop fuel bytes offset' w'
    | panic ↦ panic
    | stuck ↦ stuck
  ]
]

-- `if self.queue.is_empty()`.
pub with_chunk : ChainedChunkBufferWriter → ChainedChunkBufferWriter
with_chunk w = elim w.queue [ [] ↦ record w { queue = default_chunk ∷ [] } | c ∷ rest ↦ w ]

unfoldable pub write_slice : List ℕ → ChainedChunkBufferWriter → Exec ChainedChunkBufferWriter
unfolding write_loop with_chunk
write_slice [] w = done w
write_slice (b ∷ bs) w = write_loop (length (b ∷ bs)) (b ∷ bs) 0 (with_chunk w)

instance abbrev pub writer : ChunkBufferWriter ChainedChunkBufferWriter
writer = record {
  filled_len = λ w. w.filled;
  available_len = available_len;
  write_u8 = write_u8;
  write_slice = write_slice;
}

instance abbrev pub source : ChunkBufferSource ChainedChunkBufferWriter
source = record { front_slice = front_slice; pop_front = pop_front; consume_front = consume_front }
