-- ===== src/Chunk/View/Laws.antt =====
-- What the operations of `ChunkView` do to the bytes that it shows.
use yamux_low_mem.Prelude.{
  ℕ, suc, ◌+◌, ◌-◌, ◌^◌, ◌≤◌, ◌<◌, min, ◌≡◌, refl, sym, ap, ap₂, ◌∙◌, ◌↔◌, Bool, true, none, some,
  List, [], ◌∷◌, ◌++◌, arith, ◌==◌, lt→ltb, length, get_elem?, take, drop, take_all, take-min,
  drop-min, done, ok, err,
}
use yamux_low_mem.Prelude.Word.{
  add_usize, add_usize_lem, sub_usize_lem, window, slice_lem, length-window, window-head,
  window-split, window-drop, window-take,
}
use yamux_low_mem.Chunk.Owned.Laws
use yamux_low_mem.Chunk.View.{
  view_of_vec, ChunkOwned, same_bytes, eq, overflow, view_of_slice, from_owned, ChunkView, len,
  is_empty, next_u8, next_chunk, deref, view,
}

pub record IsValid (v : ChunkView) : Type 0 where
  pub ordered : v.start ≤ v.end
  pub end_in : v.end ≤ length v.owned.bytes.items
  pub small : length v.owned.bytes.items < 2 ^ 63

-- The bytes that are visible.
abbrev pub content : ChunkView → List ℕ
content v = window v.owned.bytes.items v.start v.end

pub length-content : {v : ChunkView} → IsValid v → length (content v) ≡ v.end - v.start
length-content {v} h = length-window v.owned.bytes.items v.start v.end h.end_in

pub len_lem : {v : ChunkView} → IsValid v → len v ≡ length (content v)
unfolding len
len_lem {v} h = omega (arith, h, length-content h, sub_usize_lem v.end v.start)

pub deref_lem : {v : ChunkView} → IsValid v → deref v ≡ done (content v)
unfolding deref
deref_lem {v} h = slice_lem v.owned.bytes.items v.start v.end h.ordered h.end_in

pub is_empty_lem : {v : ChunkView} → IsValid v → is_empty v ≡ (length (content v) == 0)
unfolding is_empty
is_empty_lem h = rw (len_lem h)

-- Reading a byte from an empty view gives nothing, and changes nothing.
pub next_u8-nil : {v : ChunkView} → IsValid v → content v ≡ [] → next_u8 v ≡ done (none, v)
unfolding next_u8 is_empty
next_u8-nil {v} h e = rw (len_lem h, e)

-- Reading a byte takes the first one off.
pub next_u8-cons :
    {v : ChunkView} (x : ℕ) (xs : List ℕ)
    → IsValid v
    → content v ≡ x ∷ xs
    → (v' : ChunkView) × (next_u8 v ≡ done (some x, v')) × IsValid v' × (content v' ≡ xs)
unfolding next_u8 is_empty
next_u8-cons {v} x xs h e = (v', run, valid, rest)
  where
    v' : ChunkView
    v' = record v { start = add_usize v.start 1 }

    size : v.end - v.start ≡ suc (length xs)
    size = omega (arith, length-content h, ap length e)

    next : add_usize v.start 1 ≡ v.start + 1
    next = add_usize_lem v.start 1 (omega (arith, h, size))

    valid : IsValid v'
    valid = omega (arith, h, next, size)

    head :
        (y : ℕ) × (get_elem? v.owned.bytes.items v.start ≡ some y)
        × (content v ≡ y ∷ window v.owned.bytes.items (v.start + 1) v.end)
    head = window-head v.start v.end v.owned.bytes.items (omega (arith, size)) h.end_in

    first : some head.0 ≡ some x
    first = cc (e, head.2)

    rest : content v' ≡ xs
    rest = rw next (cc (e, head.2))

    run : next_u8 v ≡ done (some x, v')
    run = rw (len_lem h, e, head.1, first) (ground arith)

-- A chunk of at most `n` bytes: the front of what is visible, cut at `n`.
pub next_chunk-nil :
    {v : ChunkView} (n : ℕ) → IsValid v → content v ≡ [] → next_chunk n v ≡ done (none, v)
unfolding next_chunk is_empty
next_chunk-nil {v} n h e = rw (len_lem h, e)

-- ChunkView::next_chunk on a well-formed view that shows bytes cuts them at the given length: the
-- chunk shows the front part, the view is left with the rest, and both are well formed.
pub next_chunk_lem :
    {v : ChunkView} (n : ℕ)
    → IsValid v
    → 0 < length (content v)
    → (c v' : ChunkView) × (next_chunk n v ≡ done (some c, v'))
      × IsValid c
      × IsValid v'
      × (content c ≡ take n (content v))
      × (content v' ≡ drop n (content v))
unfolding next_chunk is_empty view
next_chunk_lem {v} n h pos = (c, v', run, valid_c, valid_v', front, back)
  where
    m : ℕ
    m = min n (len v)

    c : ChunkView
    c = record v { start = add_usize v.start 0; end = add_usize v.start m }

    v' : ChunkView
    v' = record v { start = add_usize v.start m }

    size : len v ≡ v.end - v.start
    size = omega (arith, length-content h, len_lem h)

    cut : add_usize v.start m ≡ v.start + m
    cut = add_usize_lem v.start m (omega (arith, h, size))

    same : add_usize v.start 0 ≡ v.start
    same = omega (arith, h, add_usize_lem v.start 0)

    valid_c : IsValid c
    valid_c = omega (arith, h, size, cut, same)

    valid_v' : IsValid v'
    valid_v' = omega (arith, h, size, cut)

    run : next_chunk n v ≡ done (some c, v')
    run = ground (arith, h, size, cut, same)

    front : content c ≡ take n (content v)
    front =
        ap₂ (λ a b. window v.owned.bytes.items a b) same cut
        ∙ window-take v.start m v.end v.owned.bytes.items (omega (arith, h, size))
        ∙ take-min (content v) n m (omega (arith, size, length-content h))

    back : content v' ≡ drop n (content v)
    back =
        ap (λ k. window v.owned.bytes.items k v.end) cut
        ∙ window-drop v.start m v.end v.owned.bytes.items
        ∙ drop-min (content v) n m (omega (arith, size, length-content h))

-- ChunkView::view of a range within the bytes of a well-formed view gives a well-formed view of
-- exactly these bytes.
pub view_lem :
    {v : ChunkView} (a b : ℕ)
    → IsValid v
    → a ≤ b
    → b ≤ length (content v)
    → (w : ChunkView) × (view a b v ≡ ok w) × IsValid w × (content w ≡ drop a (take b (content v)))
unfolding view
view_lem {v} a b h p q = (w, run, valid, bytes)
  where
    w : ChunkView
    w = record v { start = add_usize v.start a; end = add_usize v.start b }

    size : len v ≡ v.end - v.start
    size = omega (arith, length-content h, len_lem h)

    lo : add_usize v.start a ≡ v.start + a
    lo = add_usize_lem v.start a (omega (arith, h, length-content h))

    hi : add_usize v.start b ≡ v.start + b
    hi = add_usize_lem v.start b (omega (arith, h, length-content h))

    run : view a b v ≡ ok w
    run = ground (arith, size, length-content h)

    valid : IsValid w
    valid = omega (arith, h, lo, hi, length-content h)

    bytes : content w ≡ drop a (take b (content v))
    bytes =
        ap₂ (λ x y. window v.owned.bytes.items x y) lo hi
        ∙ window-drop v.start a (v.start + b) v.owned.bytes.items
        ∙ ap (drop a)
            (window-take v.start b v.end v.owned.bytes.items (omega (arith, h, length-content h)))

-- ChunkView::view of a range that ends behind the bytes of a well-formed view is refused, with the
-- position of that end.
pub view_overflow :
    {v : ChunkView} (a b : ℕ)
    → IsValid v
    → length (content v) < b
    → view a b v ≡ err (overflow (add_usize v.start b))
unfolding view
view_overflow {v} a b h p = rw (lt→ltb (len v) b (omega (arith, len_lem h)))

pub from_owned-IsValid : {c : ChunkOwned} → Laws.IsValid c → IsValid (from_owned c)
unfolding from_owned
from_owned-IsValid h = omega (arith, h)

-- A well-formed ChunkOwned that is turned into a ChunkView shows all that was written: the bytes
-- that were consumed already, and then those that were not.
pub content-from_owned :
    {c : ChunkOwned}
    → Laws.IsValid c
    → content (from_owned c) ≡ window c.bytes.items 0 c.consumed ++ Laws.content c
unfolding from_owned
content-from_owned {c} h = window-split 0 c.consumed c.len c.bytes.items (omega arith) h.consumed_in

pub content-from_owned_fresh :
    {c : ChunkOwned} → Laws.IsValid c → c.consumed ≡ 0 → content (from_owned c) ≡ Laws.content c
unfolding from_owned
content-from_owned_fresh {c} h e = ap (λ k. window c.bytes.items k c.len) (sym e)

-- A view of a vector shows its items.
pub view_of_vec_lem :
    (s : List ℕ)
    → length s < 2 ^ 63
    → IsValid (view_of_vec (record { items = s; capacity = length s }))
      × (content (view_of_vec (record { items = s; capacity = length s })) ≡ s)
unfolding view_of_vec
view_of_vec_lem s h = (omega arith, take_all (length s - 0) s (omega arith))

-- A view of a slice shows that slice.
pub view_of_slice_lem :
    (s : List ℕ) → length s < 2 ^ 63 → IsValid (view_of_slice s) × (content (view_of_slice s) ≡ s)
unfolding view_of_slice
view_of_slice_lem s h = (omega arith, take_all (length s - 0) s (omega arith))

same_bytes_lem : (xs ys : List ℕ) → (same_bytes xs ys ≡ true) ↔ (xs ≡ ys)
unfolding same_bytes
same_bytes_lem [] [] = (λ _. refl, λ _. refl)
same_bytes_lem [] (y ∷ ys) = (λ p. cc, λ p. cc)
same_bytes_lem (x ∷ xs) [] = (λ p. cc, λ p. cc)
same_bytes_lem (x ∷ xs) (y ∷ ys) = ground (arith, same_bytes_lem xs ys)

-- Comparing two well-formed views ends without a panic, and finds them equal exactly when they
-- show the same bytes, wherever those are stored.
pub eq_lem :
    {v w : ChunkView}
    → IsValid v
    → IsValid w
    → (b : Bool) × (eq v w ≡ done b) × ((b ≡ true) ↔ (content v ≡ content w))
unfolding eq same_bytes
eq_lem {v} {w} hv hw = (
  same_bytes (content v) (content w),
  rw (deref_lem hv, deref_lem hw),
  same_bytes_lem (content v) (content w),
)
