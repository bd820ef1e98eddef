-- ===== src/Chunk/Writer/Append.antt =====
-- Writing to a `ChainedChunkBufferWriter` appends to the bytes that it holds.
use yamux_low_mem.Prelude.{
  ℕ, zero, suc, ◌+◌, ◌-◌, ◌^◌, ◌≤◌, ◌<◌, ◌≡◌, refl, sym, ap, ap₂, ◌∙◌, ◌≢◌, inl, inr, List, [], ◌∷◌,
  ◌++◌, append-nil, append_assoc, arith, leb, if◌then◌else◌, lt→ltb, le→ltb, leb→le, Bool-cases,
  length, length-append, take_all, length-eq-zero, split_back, split_back-snoc, snoc_cases, snoc-ne,
  done,
}
use yamux_low_mem.Prelude.Word.{window, length-window, window-split}
use native.Mathlib.Decide.{dec_lt}
use yamux_low_mem.Chunk.Owned.{ChunkOwned, default_chunk, default_chunk_capacity}
use yamux_low_mem.Chunk.Owned
use yamux_low_mem.Chunk.Owned.Laws
use yamux_low_mem.Chunk.Owned.Laws.{content, length-content}
use yamux_low_mem.Chunk.Traits.Writes.{IsWriter}
use yamux_low_mem.Chunk.Writer.{
  ChainedChunkBufferWriter, writer, into_last, into_new, write_loop, write_u8, write_slice,
  with_chunk,
}
use yamux_low_mem.Chunk.Writer.Invariant.{
  IsBlock, contents, bytes, IsValid, Room, default_chunk-IsBlock, default_chunk_empty, write_block,
}
use yamux_low_mem.Chunk.Writer.Blocks.{Fills, Open, Grown, into_last_lem, into_new_lem}
use yamux_low_mem.Chunk.Writer.Rounds.{available-default, Usable, Open-of, write_round_lem}

not_empty : (w : ChainedChunkBufferWriter) → 0 < length (bytes w) → w.queue ≢ []
not_empty w h e = omega (arith, ap (λ q. length (contents q)) e)

write_loop_end :
    (fuel : ℕ) (ys : List ℕ) (offset : ℕ) (w : ChainedChunkBufferWriter)
    → length ys ≤ offset
    → write_loop fuel ys offset w ≡ done w
unfolding write_loop
write_loop_end zero ys offset w h = rw (le→ltb offset (length ys) h)
write_loop_end (suc fuel) ys offset w h = rw (le→ltb offset (length ys) h, write_loop)

-- A round, and then the rest.
Grown-trans :
    (w w1 w2 : ChainedChunkBufferWriter) (ys : List ℕ) (a b : ℕ)
    → a ≤ b
    → b ≤ length ys
    → Grown w (window ys a b) w1
    → Grown w1 (window ys b (length ys)) w2
    → Grown w (window ys a (length ys)) w2
Grown-trans w w1 w2 ys a b h k (_, e1) (v2, e2) = (
  v2,
  e2
      ∙ ap (λ t. t ++ window ys b (length ys)) e1
      ∙ append_assoc (bytes w) (window ys a b) (window ys b (length ys))
      ∙ ap (λ t. bytes w ++ t) (sym (window-split a b (length ys) ys h k)),
)

-- Enough fuel is the number of bytes left: the loop ends, and has appended them all.
write_loop_lem :
    (fuel : ℕ) (ys : List ℕ) (offset : ℕ) (w : ChainedChunkBufferWriter)
    → offset < length ys
    → length ys - offset ≤ fuel
    → length ys < 2 ^ 63
    → length (bytes w) + (length ys - offset) < 2 ^ 63
    → (o : Open w) → Usable o.last
    → (w' : ChainedChunkBufferWriter) × (write_loop fuel ys offset w ≡ done w')
      × Grown w (window ys offset (length ys)) w'
unfolding write_loop
write_loop_lem zero ys offset w h k small fits o u = absurd (omega arith)
write_loop_lem (suc fuel) ys offset w h k small fits o u =
    let (n, w1, run, pos, within, (v1, e1)) = write_round_lem w ys offset h small fits o u in
    let size : length (bytes w1) ≡ length (bytes w) + n = omega (
      arith,
      ap length e1,
      length-append (bytes w) (window ys offset (offset + n)),
      length-window ys offset (offset + n) within,
    ) in
    let ne : w1.queue ≢ [] = not_empty w1 (omega (arith, size)) in
    let (o1, pos1) = Open-of v1 ne in
    let (w2, rest, grown) =
      more n w1 (write_loop_lem fuel ys (offset + n) w1) v1 size o1 pos1 within pos in
    (
      w2,
      rw (lt→ltb offset (length ys) h, write_loop, run) rest,
      Grown-trans w w1 w2 ys offset (offset + n) (omega arith) within (v1, e1) grown,
    )
  where
    more :
        (n : ℕ) (w1 : ChainedChunkBufferWriter)
        → (offset + n < length ys
            → length ys - (offset + n) ≤ fuel
            → length ys < 2 ^ 63
            → length (bytes w1) + (length ys - (offset + n)) < 2 ^ 63
            → (o : Open w1) → Usable o.last
            → (w2 : ChainedChunkBufferWriter) × (write_loop fuel ys (offset + n) w1 ≡ done w2)
              × Grown w1 (window ys (offset + n) (length ys)) w2)
        → IsValid w1
        → length (bytes w1) ≡ length (bytes w) + n
        → (o1 : Open w1) → 0 < length (content o1.last)
        → offset + n ≤ length ys
        → 0 < n
        → (w2 : ChainedChunkBufferWriter) × (write_loop fuel ys (offset + n) w1 ≡ done w2)
          × Grown w1 (window ys (offset + n) (length ys)) w2
    more n w1 ih v1 size o1 pos1 within pos = elim (dec_lt (offset + n) (length ys)) [
      | yes p ↦ ih p (omega arith) small (omega (arith, size)) o1 (inr pos1)
      | no p ↦ (
        w1,
        write_loop_end fuel ys (offset + n) w1 (omega arith),
        (v1, nothing_left (offset + n) (omega arith)),
      )
    ]
      where
        nothing_left : (a : ℕ) → length ys ≤ a → bytes w1 ≡ bytes w1 ++ window ys a (length ys)
        nothing_left a p =
            sym (append-nil (bytes w1))
            ∙ ap (λ t. bytes w1 ++ t) {x = []}
                (sym (
                  length-eq-zero (window ys a (length ys))
                    (omega (arith, length-window ys a (length ys)))))

-- The writer that the loop starts with has a chunk to write to, and the same bytes.
with_chunk_lem :
    (w : ChainedChunkBufferWriter)
    → IsValid w
    → (o : Open (with_chunk w)) × Usable o.last × (bytes (with_chunk w) ≡ bytes w)
unfolding with_chunk
with_chunk_lem w v = go w.queue w.filled v
  where
    go :
        (q : List ChunkOwned) (n : ℕ)
        → IsValid (record { queue = q; filled = n })
        → (o : Open (with_chunk (record { queue = q; filled = n }))) × Usable o.last
          × (bytes (with_chunk (record { queue = q; filled = n })) ≡ contents q)
    go [] n v =
        let none_yet : content default_chunk ++ [] ≡ [] =
          append-nil (content default_chunk) ∙ default_chunk_empty in
        (
          record {
            front = [];
            last = default_chunk;
            shape = refl;
            inner = tt;
            block = default_chunk-IsBlock;
            counted = omega (arith, v.counted, ap length none_yet);
          },
          inl (omega (arith, available-default)),
          none_yet,
        )
    go (c ∷ q) n v = let (o, pos) = Open-of v (λ e. cc) in (o, inr pos, refl)

Grown-Room :
    (ys : List ℕ) (n : ℕ) (w w' : ChainedChunkBufferWriter)
    → Room (length ys + n) w
    → Grown w ys w'
    → Room n w'
Grown-Room ys n w w' room (v, grown) = record {
  valid = v;
  fits = omega (arith, room.fits, ap length grown, length-append (bytes w) ys);
}

-- With the writer well formed and room for the count, ChainedChunkBufferWriter::write_slice ends
-- without a panic, its loop within one round per byte, whatever blocks the slice spreads over; the
-- bytes of the writer grow by exactly the slice, and it stays well formed.
pub write_slice_writes :
    (ys : List ℕ) (n : ℕ) (w : ChainedChunkBufferWriter)
    → Room (length ys + n) w
    → (w' : ChainedChunkBufferWriter) × (write_slice ys w ≡ done w')
      × Room n w'
      × (bytes w' ≡ bytes w ++ ys)
unfolding write_slice
write_slice_writes [] n w room =
    (w, refl, record { valid = room.valid; fits = omega (arith, room) }, sym (append-nil (bytes w)))
write_slice_writes (y ∷ ys) n w room =
    let (o, u, same) = with_chunk_lem w room.valid in
    let (w', run, (v, grown)) =
      write_loop_lem (length (y ∷ ys)) (y ∷ ys) 0 (with_chunk w) (omega arith) (omega arith)
        (omega (arith, room.fits)) (omega (arith, room.fits, ap length same)) o u in
    let grown' : bytes w' ≡ bytes w ++ y ∷ ys =
      grown ∙ ap₂ ◌++◌ same (take_all (length (y ∷ ys) - 0) (y ∷ ys) (omega arith)) in
    (w', run, Grown-Room (y ∷ ys) n w w' room (v, grown'), grown')

Fills-u8 :
    (y : ℕ) {c : ChunkOwned}
    → IsBlock c
    → 1 ≤ Owned.available_len c
    → Fills (Owned.write_u8 y) (y ∷ []) c
Fills-u8 y {c} block h =
    let (c', run, block', grown) = write_block (y ∷ []) block h in
    (c', Laws.write_u8-write_slice y c ∙ run, block', grown)

write_u8-queue_empty :
    (y : ℕ) (w : ChainedChunkBufferWriter)
    → w.queue ≡ []
    → write_u8 y w ≡ into_new 1 (Owned.write_u8 y) w
unfolding write_u8
write_u8-queue_empty y w e = rw (ap split_back e, write_u8)

write_u8-behind :
    (y : ℕ) {w : ChainedChunkBufferWriter} (o : Open w)
    → write_u8 y w ≡ (
        if leb 1 (Owned.available_len o.last)
        then into_last 1 (Owned.write_u8 y) o.front o.last w.filled
        else into_new 1 (Owned.write_u8 y) w)
unfolding write_u8
write_u8-behind y o = rw (ap split_back o.shape ∙ split_back-snoc o.front o.last, write_u8)

-- With the writer well formed and room for the count, ChainedChunkBufferWriter::write_u8 ends
-- without a panic, in the last block or in a new one; the bytes of the writer grow by exactly the
-- byte, and it stays well formed.
pub write_u8_writes :
    (y n : ℕ) (w : ChainedChunkBufferWriter)
    → Room (1 + n) w
    → (w' : ChainedChunkBufferWriter) × (write_u8 y w ≡ done w')
      × Room n w'
      × (bytes w' ≡ bytes w ++ y ∷ [])
write_u8_writes y n w room =
    let (w', run, grown) = wrote in (w', run, Grown-Room (y ∷ []) n w w' room grown, grown.1)
  where
    small : length (bytes w) + 1 < 2 ^ 63
    small = omega (arith, room.fits)

    fresh :
        (w' : ChainedChunkBufferWriter) × (into_new 1 (Owned.write_u8 y) w ≡ done w')
        × Grown w (y ∷ []) w'
    fresh =
        into_new_lem (Owned.write_u8 y) (y ∷ []) 1 refl (omega arith) small room.valid
          (Fills-u8 y default_chunk-IsBlock (omega (arith, available-default)))

    behind :
        (o : Open w)
        → (w' : ChainedChunkBufferWriter) × (write_u8 y w ≡ done w') × Grown w (y ∷ []) w'
    behind o = elim (Bool-cases (leb 1 (Owned.available_len o.last))) [
      | inl fits ↦
          let (w', run, grown) =
            into_last_lem (Owned.write_u8 y) (y ∷ []) 1 refl (omega arith) small o
              (Fills-u8 y o.block (leb→le 1 _ fits)) in
          (w', rw (write_u8-behind y o, fits) run, grown)
      | inr full ↦ let (w', run, grown) = fresh in (w', rw (write_u8-behind y o, full) run, grown)
    ]

    wrote : (w' : ChainedChunkBufferWriter) × (write_u8 y w ≡ done w') × Grown w (y ∷ []) w'
    wrote = elim (snoc_cases w.queue) [
      | inl e ↦ let (w', run, grown) = fresh in (w', write_u8-queue_empty y w e ∙ run, grown)
      | inr (front, last, e) ↦
          behind (Open-of room.valid (λ none_yet. snoc-ne front last (sym e ∙ none_yet))).0
    ]

-- `ChainedChunkBufferWriter` keeps the promises of `ChunkBufferWriter`.
pub writer-IsWriter : IsWriter Room bytes writer
writer-IsWriter = record {
  filled_len_eq = λ n w room. room.valid.counted;
  write_u8_appends = write_u8_writes;
  write_slice_appends = write_slice_writes;
}
