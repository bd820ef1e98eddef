-- ===== src/Chunk/Writer/Drain.antt =====
-- Taking bytes off the front of a `ChainedChunkBufferWriter`.
use yamux_low_mem.Prelude.{
  ℕ, ◌^◌, ◌≤◌, ◌<◌, ◌≡◌, refl, sym, ap, ◌∙◌, ◌↔◌, ◌⊎◌, inl, inr, none, some, List, [], ◌∷◌, ◌++◌,
  arith, ◌==◌, Bool-cases, length, drop, All, length-append, length-drop, length-eq-zero,
  drop-append_le, done,
}
use yamux_low_mem.Prelude.Word.{sub_usize, sub_usize_lem, window, length-window}
use yamux_low_mem.Chunk.Owned.{ChunkOwned}
use yamux_low_mem.Chunk.Owned
use yamux_low_mem.Chunk.Owned.Laws
use yamux_low_mem.Chunk.Owned.Laws.{content, length-content}
use yamux_low_mem.Chunk.View.{from_owned}
use yamux_low_mem.Chunk.View.Laws as ViewLaws
use yamux_low_mem.Chunk.Writer.{ChainedChunkBufferWriter, front_slice, pop_front, consume_front}
use yamux_low_mem.Chunk.Writer.Invariant.{IsFilled, contents, bytes, IsValid}

-- ChainedChunkBufferWriter::front_slice of a well-formed writer gives nothing exactly when there
-- are no bytes, and else a front part of the bytes that is not empty.
pub front_slice_lem :
    (w : ChainedChunkBufferWriter)
    → IsValid w
    → ((front_slice w ≡ done none) × (bytes w ≡ []))
      ⊎ ((s rest : List ℕ) × (front_slice w ≡ done (some s))
          × (0 < length s)
          × (bytes w ≡ s ++ rest))
unfolding front_slice
front_slice_lem w v = go w.queue v.blocks
  where
    go :
        (q : List ChunkOwned)
        → All IsFilled q
        → ((front_slice (record w { queue = q }) ≡ done none) × (contents q ≡ []))
          ⊎ ((s rest : List ℕ) × (front_slice (record w { queue = q }) ≡ done (some s))
              × (0 < length s)
              × (contents q ≡ s ++ rest))
    go [] all = inl (refl, refl)
    go (c ∷ q) ((block, pos), all) =
        inr (content c, contents q, rw (Laws.filled_slice_lem block.valid), pos, refl)

-- The front block after `n` of its bytes, and the count of the bytes left.
module _ {c : ChunkOwned} {q : List ChunkOwned} {k : ℕ} (n : ℕ)
    (v : IsValid (record { queue = c ∷ q; filled = k }))
    (small : length (content c ++ contents q) < 2 ^ 63) (within : n ≤ length (content c)) where
  left : List ℕ
  left = drop n (content c) ++ contents q

  left-drop : left ≡ drop n (content c ++ contents q)
  unfolding left
  left-drop = sym (drop-append_le n (content c) (contents q) within)

  left-counted : sub_usize k n ≡ length left
  unfolding left
  left-counted = omega (
    arith,
    v.counted,
    small,
    sub_usize_lem k n,
    length-append (content c) (contents q),
    length-append (drop n (content c)) (contents q),
    length-drop n (content c),
  )

  consume_block :
      (w' : ChainedChunkBufferWriter) × (consume_front n (record { queue = c ∷ q; filled = k })
        ≡ done w')
      × IsValid w'
      × (bytes w' ≡ drop n (content c ++ contents q))
  unfolding consume_front left
  consume_block =
      let ((block, _), rest) = v.blocks in
      let (c', run, valid, content', bytes', _) = Laws.consume_front_lem n block.valid within in
      let size : Owned.filled_len c' ≡ length (content c') = Laws.filled_len_lem valid in
      elim (Bool-cases (Owned.filled_len c' == 0)) [
        | inl used ↦
            let gone : drop n (content c) ≡ [] =
              sym content' ∙ length-eq-zero (content c') (ground (arith, size)) in
            let same : contents q ≡ left = ap (λ t. t ++ contents q) (sym gone) in
            (
              record { queue = q; filled = sub_usize k n },
              rw (run, used),
              record { blocks = rest; counted = left-counted ∙ ap length (sym same) },
              same ∙ left-drop,
            )
        | inr some_left ↦
            let same : content c' ++ contents q ≡ left = ap (λ t. t ++ contents q) content' in
            let whole : length c'.bytes.items ≡ c'.bytes.capacity =
              ap (λ b. length b.items) bytes' ∙ block.whole ∙ ap (λ b. b.capacity) (sym bytes') in
            (
              record { queue = c' ∷ q; filled = sub_usize k n },
              rw (run, some_left),
              record {
                blocks = ((record { valid = valid; whole = whole }, ground (arith, size)), rest);
                counted = left-counted ∙ ap length (sym same);
              },
              same ∙ left-drop,
            )
      ]

-- Consuming at most the front slice of a well-formed ChainedChunkBufferWriter of less than 2^63
-- bytes drops exactly as many bytes from its front, across the removal of a block that is used up,
-- and it stays well formed.
pub consume_front_lem :
    (n : ℕ) (w : ChainedChunkBufferWriter) {s : List ℕ}
    → IsValid w
    → length (bytes w) < 2 ^ 63
    → front_slice w ≡ done (some s)
    → n ≤ length s
    → (w' : ChainedChunkBufferWriter) × (consume_front n w ≡ done w')
      × IsValid w'
      × (bytes w' ≡ drop n (bytes w))
unfolding front_slice consume_front
consume_front_lem n w v small e h = go w.queue w.filled v small e h
  where
    go :
        (q : List ChunkOwned) (k : ℕ) {s : List ℕ}
        → IsValid (record { queue = q; filled = k })
        → length (contents q) < 2 ^ 63
        → front_slice (record { queue = q; filled = k }) ≡ done (some s)
        → n ≤ length s
        → (w' : ChainedChunkBufferWriter) × (consume_front n (record { queue = q; filled = k })
            ≡ done w')
          × IsValid w'
          × (bytes w' ≡ drop n (contents q))
    go [] k v small e h = absurd (cc)
    go (c ∷ q) k {s} v small e h =
        let first : content c ≡ s = cc (e, Laws.filled_slice_lem v.blocks.0.0.valid) in
        consume_block n v small (omega (arith, ap length first))

-- Popping the front chunk takes its unread bytes off the front. What it hands out is the whole
-- chunk: the bytes that were consumed before, and then those.
module _ {c : ChunkOwned} {q : List ChunkOwned} {k : ℕ}
    (v : IsValid (record { queue = c ∷ q; filled = k }))
    (small : length (content c ++ contents q) < 2 ^ 63) where
  pub pop_front_lem :
      (w' : ChainedChunkBufferWriter) × (pop_front (record { queue = c ∷ q; filled = k })
        ≡ (some (from_owned c), w'))
      × IsValid w'
      × (content c ++ contents q ≡ content c ++ bytes w')
      × (ViewLaws.content (from_owned c) ≡ window c.bytes.items 0 c.consumed ++ content c)
  unfolding pop_front
  pop_front_lem = (
    record { queue = q; filled = sub_usize k (Owned.filled_len c) },
    refl,
    record { blocks = v.blocks.1; counted = counted },
    refl,
    ViewLaws.content-from_owned v.blocks.0.0.valid,
  )
    where
      counted : sub_usize k (Owned.filled_len c) ≡ length (contents q)
      counted = omega (
        arith,
        v.counted,
        Laws.filled_len_lem v.blocks.0.0.valid,
        sub_usize_lem k (Owned.filled_len c),
        length-append (content c) (contents q),
      )

  -- Popping the front block of a well-formed ChainedChunkBufferWriter of less than 2^63 bytes
  -- gives a view whose bytes, with those of the rest, are the bytes that the writer held exactly
  -- if nothing of that block had been consumed.
  pub pop_front-fresh_iff :
      (w' : ChainedChunkBufferWriter) × (pop_front (record { queue = c ∷ q; filled = k })
        ≡ (some (from_owned c), w'))
      × ((ViewLaws.content (from_owned c) ++ bytes w' ≡ content c ++ contents q) ↔ (c.consumed ≡ 0))
  pop_front-fresh_iff =
      let (w', run, _, rest, shown) = pop_front_lem in
      (
        w',
        run,
        (
          λ e. omega (
            arith,
            ap length e,
            ap length rest,
            ap length shown,
            length-append (ViewLaws.content (from_owned c)) (bytes w'),
            length-append (content c) (bytes w'),
            length-append (window c.bytes.items 0 c.consumed) (content c),
            length-window c.bytes.items 0 c.consumed,
            v.blocks.0.0.valid,
          ),
          λ e.
              ap (λ t. t ++ bytes w') (ViewLaws.content-from_owned_fresh v.blocks.0.0.valid e)
              ∙ sym rest,
        ),
      )
