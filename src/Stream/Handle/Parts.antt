-- ===== src/Stream/Handle/Parts.antt =====
-- `YamuxStream::poll_read`: copying from the chunk that is at hand.
use yamux_low_mem.Prelude.{
  drop-drop, ℕ, ◌+◌, ◌-◌, ◌^◌, ◌≤◌, ◌<◌, min, ◌≡◌, refl, sym, ap, ap₂, ◌∙◌, inl, inr, Option, none,
  some, List, [], ◌++◌, arith, ◌==◌, if◌then◌else◌, Bool-cases, length, take, drop,
  take-append-drop, drop_all, ready, done, ok,
}
use yamux_low_mem.Prelude.Word.{
  add_usize, sub_usize, add_usize_lem, sub_usize_lem, window, slice_lem, length-window,
}
use yamux_low_mem.Chunk.View.{ChunkView}
use yamux_low_mem.Chunk.View.Laws as ViewLaws
use yamux_low_mem.Chunk.View.Laws.{content}
use yamux_low_mem.Stream.Sent.{contents, slice_len_lem}
use yamux_low_mem.Stream.Handle.{YamuxStream, read_part}

-- A chunk that is at hand has bytes left.
abbrev pub IsAtHand : Option (ChunkView × ℕ) → Type 0
IsAtHand none = Unit {0}
IsAtHand (some (c, offset)) = ViewLaws.IsValid c × (offset < length (content c))

abbrev pub at_hand : Option (ChunkView × ℕ) → List ℕ
at_hand none = []
at_hand (some (c, offset)) = drop offset (content c)

-- What stays at hand once `k` bytes of a chunk are read.
rest_at_hand :
    (c : ChunkView) (k : ℕ)
    → ViewLaws.IsValid c
    → k ≤ length (content c)
    → IsAtHand (if k == length (content c) then none else some (c, k))
      × (at_hand (if k == length (content c) then none else some (c, k)) ≡ drop k (content c))
rest_at_hand c k v within = elim (Bool-cases (k == length (content c))) [
  | inl used ↦ rw used (tt, sym (drop_all k (content c) (ground arith)))
  | inr some_left ↦ rw some_left ((v, ground arith), refl)
]

module _ {S R : Type 0} (queued : R → List ChunkView) where
  -- The bytes that were received and not yet read.
  abbrev pub unread : YamuxStream S R → List ℕ
  unread x = at_hand x.recv_chunk ++ contents (queued x.rx)

  pub read_part_lem :
      (n : ℕ) (c : ChunkView) (offset : ℕ) (x : YamuxStream S R)
      → ViewLaws.IsValid c
      → offset < length (content c)
      → (ys : List ℕ) × (x' : YamuxStream S R) × (read_part n c offset x ≡ done (ready (ok ys), x'))
        × IsAtHand x'.recv_chunk
        × (x'.rx ≡ x.rx)
        × (drop offset (content c) ≡ ys ++ at_hand x'.recv_chunk)
        × (length ys ≤ n)
        × (min 1 n ≤ length ys)
  unfolding read_part
  read_part_lem n c offset x v inside = (
    window (content c) offset (offset + m),
    x',
    run,
    rest.0,
    refl,
    cut,
    omega (arith, len),
    omega (arith, len),
  )
    where
      m : ℕ
      m = min (length (content c) - offset) n

      x' : YamuxStream S R
      x' = record x {
        recv_chunk = if offset + m == length (content c) then none else some (c, offset + m);
        read = add_usize x.read m;
      }

      small : length (content c) < 2 ^ 63
      small = omega (arith, v, ViewLaws.length-content v)

      len : length (window (content c) offset (offset + m)) ≡ m
      len = omega (arith, length-window (content c) offset (offset + m))

      rest :
          IsAtHand (if offset + m == length (content c) then none else some (c, offset + m))
          × (at_hand (if offset + m == length (content c) then none else some (c, offset + m))
              ≡ drop (offset + m) (content c))
      rest = rest_at_hand c (offset + m) v (omega arith)

      cut :
          drop offset (content c) ≡ window (content c) offset (offset + m) ++ at_hand x'.recv_chunk
      cut =
          sym (take-append-drop m (drop offset (content c)))
          ∙ ap₂ ◌++◌ (ap (λ k. take k (drop offset (content c))) {x = m} (omega arith))
              (drop-drop offset m (content c) ∙ sym rest.1)

      left : sub_usize (length (content c)) offset ≡ length (content c) - offset
      left = sub_usize_lem (length (content c)) offset (omega arith) (omega (arith, small))

      next : add_usize offset m ≡ offset + m
      next = add_usize_lem offset m (omega (arith, small))

      run : read_part n c offset x ≡ done (ready (ok (window (content c) offset (offset + m))), x')
      run =
          rw
            (
              read_part,
              slice_len_lem v,
              ViewLaws.deref_lem v,
              left,
              next,
              slice_lem (content c) offset (offset + m) (omega arith) (omega arith),
            )
            refl
