-- ===== src/Chunk/OwnedWriter.antt =====
-- src/chunk.rs, `impl ChunkBufferWriter for ChunkOwned`.
use yamux_low_mem.Prelude.{
  ℕ, ◌+◌, ◌^◌, ◌≤◌, ◌<◌, ◌≡◌, ◌∙◌, List, [], ◌∷◌, ◌++◌, arith, length, done, panic,
}
use yamux_low_mem.Prelude.Word.{copy_at_panics, sub_usize_lem}
use yamux_low_mem.Chunk.Owned.{ChunkOwned, Vec, default_chunk, from_vec}
use yamux_low_mem.Chunk.Owned
use yamux_low_mem.Chunk.Owned.Laws
use yamux_low_mem.Chunk.Owned.Laws.{IsValid, content}
use yamux_low_mem.Chunk.Traits.{ChunkBufferWriter}
use yamux_low_mem.Chunk.Traits.Writes.{IsWriter}

instance abbrev pub owned_writer : ChunkBufferWriter ChunkOwned
owned_writer = record {
  filled_len = Owned.filled_len;
  available_len = Owned.available_len;
  write_u8 = Owned.write_u8;
  write_slice = Owned.write_slice;
}

-- Well formed, with `n` bytes of the vector behind the filled part.
pub record Room (n : ℕ) (c : ChunkOwned) : Type 0 where
  pub valid : IsValid c
  pub fits : c.len + n ≤ length c.bytes.items

write_slice_writes :
    (ys : List ℕ) (n : ℕ) (c : ChunkOwned)
    → Room (length ys + n) c
    → (c' : ChunkOwned) × (Owned.write_slice ys c ≡ done c')
      × Room n c'
      × (content c' ≡ content c ++ ys)
write_slice_writes ys n c room =
    let (c', run, valid, grown, len', _, size, _) =
      Laws.write_slice_lem ys room.valid (omega (arith, room.fits)) in
    (c', run, record { valid = valid; fits = omega (arith, room.fits, len', size) }, grown)

-- A chunk with room keeps the promises of `ChunkBufferWriter`.
pub owned_writer-IsWriter : IsWriter Room content owned_writer
owned_writer-IsWriter = record {
  filled_len_eq = λ n c room. Laws.filled_len_lem room.valid;
  write_u8_appends = λ x n c room.
      let (c', run, room', grown) = write_slice_writes (x ∷ []) n c room in
      (c', Laws.write_u8-write_slice x c ∙ run, room', grown);
  write_slice_appends = write_slice_writes;
}

-- A ChunkOwned made from a vector with spare capacity reports room for at least a byte, and
-- writing a byte to it panics.
pub write_u8-from_vec :
    (v : Vec) (b : ℕ)
    → length v.items < v.capacity
    → v.capacity < 2 ^ 63
    → (1 ≤ Owned.available_len (from_vec v)) × (Owned.write_u8 b (from_vec v) ≡ panic)
unfolding Owned.write_u8 Owned.available_len from_vec
write_u8-from_vec v b h k = (
  omega (arith, sub_usize_lem v.capacity (length v.items)),
  rw (copy_at_panics v.items (length v.items) (b ∷ []) (omega arith)),
)
