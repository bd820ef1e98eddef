-- ===== src/Chunk/Owned/Laws.antt =====
-- What the operations of `ChunkOwned` do to the bytes that it holds.
use yamux_low_mem.Prelude.{
  ℕ, ◌+◌, ◌-◌, ◌^◌, ◌≤◌, ◌<◌, ◌≡◌, refl, ap, ◌∙◌, List, [], ◌∷◌, ◌++◌, done, panic, le→leb, length,
  length-replicate, arith, drop, take,
}
use yamux_low_mem.Prelude.Word.{
  add_usize, add_usize_lem, sub_usize_lem, slice_lem, copy_at_lem, window, length-window,
  length-copied, window-copied, window-drop,
}
use yamux_low_mem.Chunk.Owned.{
  Vec, ChunkOwned, from_vec, default_chunk, default_chunk_capacity, filled_slice, consume_front,
  filled_len, available_len, write_u8, write_slice, filled,
}

-- No `Vec` is larger than `isize::MAX`, so the sums below do not wrap.
pub record IsValid (c : ChunkOwned) : Type 0 where
  pub consumed_in : c.consumed ≤ c.len
  pub len_in : c.len ≤ length c.bytes.items
  pub items_in : length c.bytes.items ≤ c.bytes.capacity
  pub small : c.bytes.capacity < 2 ^ 63

-- The bytes that were written and not yet consumed.
abbrev pub content : ChunkOwned → List ℕ
content c = window c.bytes.items c.consumed c.len

pub length-content : {c : ChunkOwned} → IsValid c → length (content c) ≡ c.len - c.consumed
length-content {c} v = length-window c.bytes.items c.consumed c.len v.len_in

pub filled_slice_lem : {c : ChunkOwned} → IsValid c → filled_slice c ≡ done (content c)
unfolding filled_slice
filled_slice_lem {c} v = slice_lem c.bytes.items c.consumed c.len v.consumed_in v.len_in

pub filled_len_lem : {c : ChunkOwned} → IsValid c → filled_len c ≡ length (content c)
unfolding filled_len
filled_len_lem {c} v = omega (arith, length-content v, sub_usize_lem c.len c.consumed)

pub available_len_lem : {c : ChunkOwned} → IsValid c → available_len c ≡ c.bytes.capacity - c.len
unfolding available_len
available_len_lem {c} v = omega (arith, sub_usize_lem c.bytes.capacity c.len)

pub from_vec-IsValid :
    (v : Vec) → length v.items ≤ v.capacity → v.capacity < 2 ^ 63 → IsValid (from_vec v)
unfolding from_vec
from_vec-IsValid v h k = omega arith

pub default_chunk-IsValid : IsValid default_chunk
unfolding default_chunk
default_chunk-IsValid = omega (arith, length-replicate {0} {A = ℕ} default_chunk_capacity 0)

-- ChunkOwned::write_slice of a slice that fits behind the filled part appends it to the content,
-- keeps the chunk well formed, and changes neither the size of the buffer nor what was consumed.
pub write_slice_lem :
    {c : ChunkOwned} (ys : List ℕ)
    → IsValid c
    → c.len + length ys ≤ length c.bytes.items
    → (c' : ChunkOwned) × (write_slice ys c ≡ done c')
      × IsValid c'
      × (content c' ≡ content c ++ ys)
      × (c'.len ≡ c.len + length ys)
      × (c'.consumed ≡ c.consumed)
      × (length c'.bytes.items ≡ length c.bytes.items)
      × (c'.bytes.capacity ≡ c.bytes.capacity)
unfolding write_slice
write_slice_lem {c} ys v fits = (c', e, valid, grown, len', refl, size, refl)
  where
    copied : List ℕ
    copied = take c.len c.bytes.items ++ (ys ++ drop (c.len + length ys) c.bytes.items)

    c' : ChunkOwned
    c' = filled (length ys) c copied

    e : write_slice ys c ≡ done c'
    e = rw (copy_at_lem c.bytes.items c.len ys fits)

    len' : c'.len ≡ c.len + length ys
    len' = add_usize_lem c.len (length ys) (omega (arith, v))

    size : length c'.bytes.items ≡ length c.bytes.items
    size = length-copied c.bytes.items c.len ys fits

    valid : IsValid c'
    valid = omega (arith, v, size, len')

    grown : content c' ≡ content c ++ ys
    grown =
        ap (window copied c.consumed) len'
        ∙ window-copied c.consumed c.len c.bytes.items ys (drop (c.len + length ys) c.bytes.items)
            v.consumed_in v.len_in

-- A byte is written as a slice of one byte is.
pub write_u8-write_slice : (b : ℕ) (c : ChunkOwned) → write_u8 b c ≡ write_slice (b ∷ []) c
unfolding write_u8 write_slice
write_u8-write_slice b c = refl

-- Consuming drops bytes from the front of the content.
pub consume_front_lem :
    {c : ChunkOwned} (n : ℕ)
    → IsValid c
    → n ≤ length (content c)
    → (c' : ChunkOwned) × (consume_front n c ≡ done c')
      × IsValid c'
      × (content c' ≡ drop n (content c))
      × (c'.bytes ≡ c.bytes)
      × (c'.len ≡ c.len)
unfolding consume_front
consume_front_lem {c} n v h = (c', e, valid, rest, refl, refl)
  where
    c' : ChunkOwned
    c' = record c { consumed = add_usize c.consumed n }

    front : add_usize c.consumed n ≡ c.consumed + n
    front = add_usize_lem c.consumed n (omega (arith, v, length-content v))

    in_range : add_usize c.consumed n ≤ c.len
    in_range = omega (arith, v, length-content v, front)

    e : consume_front n c ≡ done c'
    e = rw (le→leb _ _ in_range)

    valid : IsValid c'
    valid = omega (arith, v, in_range)

    rest : content c' ≡ drop n (content c)
    rest =
        ap (λ k. window c.bytes.items k c.len) front ∙ window-drop c.consumed n c.len c.bytes.items

-- Consuming more bytes than a well-formed ChunkOwned holds, but less than 2^63, trips the
-- assertion.
pub consume_front_panics :
    {c : ChunkOwned} (n : ℕ)
    → IsValid c
    → length (content c) < n
    → n < 2 ^ 63
    → consume_front n c ≡ panic
unfolding consume_front
consume_front_panics {c} n v h k = ground (arith, length-content v, add_usize_lem c.consumed n)
