-- ===== src/Chunk/View.antt =====
-- src/chunk.rs, `ChunkView`: an immutable window into a shared `ChunkOwned`. The field `data` is
-- called `owned` here; an `Arc` of a buffer that nothing changes is the buffer.
pub mod Laws
use yamux_low_mem.Prelude.{
  ℕ, min, Bool, true, false, ◌&&◌, Option, none, some, List, [], ◌∷◌, ltb, ◌==◌, if◌then◌else◌,
  length, get_elem?, Exec, done, panic, Result, ok, err, ◌>>=◌, expect,
}
use yamux_low_mem.Prelude.Word.{add_usize, sub_usize, slice}
use yamux_low_mem.Chunk.Owned.{Vec, ChunkOwned, from_vec}

pub record ChunkView : Type 0 where
  pub owned : ChunkOwned
  pub start : ℕ
  pub end : ℕ

pub data ChunkError : Type 0 where
  overflow : ℕ → ChunkError

-- `ChunkView::from(ChunkOwned)`.
unfoldable pub from_owned : ChunkOwned → ChunkView
from_owned c = record { owned = c; start = 0; end = c.len }

-- `ChunkView::from(Vec<u8>)`.
unfoldable pub view_of_vec : Vec → ChunkView
unfolding from_owned from_vec
view_of_vec v = from_owned (from_vec v)

-- `ChunkView::from(&[u8])`: `to_vec` allocates exactly as many bytes as it copies.
unfoldable pub view_of_slice : List ℕ → ChunkView
unfolding view_of_vec
view_of_slice s = view_of_vec (record { items = s; capacity = length s })

unfoldable pub len : ChunkView → ℕ
len v = sub_usize v.end v.start

-- The provided method `ChunkBufferReader::is_empty`.
unfoldable pub is_empty : ChunkView → Bool
unfolding len
is_empty v = len v == 0

-- `self.view(from..to)`.
unfoldable pub view : ℕ → ℕ → ChunkView → Result ChunkError ChunkView
unfolding len
view from to v =
    if ltb (len v) to
    then err (overflow (add_usize v.start to))
    else ok (record v { start = add_usize v.start from; end = add_usize v.start to })

unfoldable pub next_u8 : ChunkView → Exec (Option ℕ × ChunkView)
unfolding is_empty
next_u8 v = if is_empty v then done (none, v) else do
  value ← expect (get_elem? v.owned.bytes.items v.start)
  done (some value, record v { start = add_usize v.start 1 })

-- `Result::expect`.
abbrev pub unwrap {ℓ} : {E A : Type ℓ} → Result E A → Exec A
unwrap (ok a) = done a
unwrap (err e) = panic

unfoldable pub next_chunk : ℕ → ChunkView → Exec (Option ChunkView × ChunkView)
unfolding is_empty view
next_chunk max_len v = if is_empty v then done (none, v) else do
  let chunk_len = min max_len (len v)
  chunk ← unwrap (view 0 chunk_len v)
  done (some chunk, record v { start = add_usize v.start chunk_len })

-- `Deref for ChunkView`.
unfoldable pub deref : ChunkView → Exec (List ℕ)
deref v = slice v.owned.bytes.items v.start v.end

-- `PartialEq for ChunkView` compares the bytes.
same_bytes : List ℕ → List ℕ → Bool
same_bytes [] [] = true
same_bytes [] (b ∷ bs) = false
same_bytes (a ∷ xs) [] = false
same_bytes (a ∷ xs) (b ∷ ys) = a == b && same_bytes xs ys

unfoldable pub eq : ChunkView → ChunkView → Exec Bool
unfolding same_bytes
eq v w = do xs ← deref v; ys ← deref w; done (same_bytes xs ys)
