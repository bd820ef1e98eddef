-- ===== src/Chunk/Reader/Laws.antt =====
-- `ChainedChunkBufferReader` and `ChunkView` keep the promises of `ChunkBufferReader`.
use yamux_low_mem.Prelude.{
  ℕ, ◌≤◌, ◌<◌, min, ◌≡◌, refl, sym, ap, ap₂, ◌∙◌, none, some, List, [], ◌∷◌, ◌++◌, arith, length,
  length-append, take-append-drop, length-take, done,
}
use yamux_low_mem.Prelude.Word.{sub_usize}
use yamux_low_mem.Chunk.View.{ChunkView, from_owned}
use yamux_low_mem.Chunk.View
use yamux_low_mem.Chunk.View.Laws as ViewLaws
use yamux_low_mem.Chunk.View.Laws.{content}
use yamux_low_mem.Chunk.Reader.{
  ChainedChunkBufferReader, pop_if_empty, next_u8, next_chunk, reader, view_reader,
}
use yamux_low_mem.Chunk.Traits.Reads.{Reads, IsReader}
use yamux_low_mem.Chunk.Reader.Invariant.{IsValid, contents, bytes, advance}

next_u8_nil : (r : ChainedChunkBufferReader) → IsValid r → bytes r ≡ [] → next_u8 r ≡ done (none, r)
unfolding next_u8
next_u8_nil r v e = go r.chunks r.size v e
  where
    go :
        (cs : List ChunkView) (n : ℕ)
        → IsValid (record { chunks = cs; size = n })
        → contents cs ≡ []
        → next_u8 (record { chunks = cs; size = n }) ≡ done (none, record { chunks = cs; size = n })
    go [] n v e = refl
    go (c ∷ cs) n v e =
        absurd (omega (arith, v.views.0.1, ap length e, length-append (content c) (contents cs)))

next_chunk_nil :
    (m : ℕ) (r : ChainedChunkBufferReader)
    → IsValid r
    → bytes r ≡ []
    → next_chunk m r ≡ done (none, r)
unfolding next_chunk
next_chunk_nil m r v e = go r.chunks r.size v e
  where
    go :
        (cs : List ChunkView) (n : ℕ)
        → IsValid (record { chunks = cs; size = n })
        → contents cs ≡ []
        → next_chunk m (record { chunks = cs; size = n })
          ≡ done (none, record { chunks = cs; size = n })
    go [] n v e = refl
    go (c ∷ cs) n v e =
        absurd (omega (arith, v.views.0.1, ap length e, length-append (content c) (contents cs)))

-- `next_u8` takes the first byte, from whatever chunk it stands in.
next_u8-Reads : (x : ℕ) → Reads IsValid bytes next_u8 (some x) (x ∷ [])
unfolding next_u8
next_u8-Reads x r rest v e = go r.chunks r.size v e
  where
    split :
        (c : ChunkView) (cs : List ChunkView)
        → content c ++ contents cs ≡ x ∷ rest
        → 0 < length (content c)
        → (ys : List ℕ) × (content c ≡ x ∷ ys)
    split c cs e pos = head_of (content c) e pos
      where
        head_of :
            (zs : List ℕ)
            → zs ++ contents cs ≡ x ∷ rest
            → 0 < length zs
            → (ys : List ℕ) × (zs ≡ x ∷ ys)
        head_of [] e pos = absurd (omega arith)
        head_of (z ∷ zs) e pos = (zs, cc)

    go :
        (cs : List ChunkView) (n : ℕ)
        → IsValid (record { chunks = cs; size = n })
        → contents cs ≡ x ∷ rest
        → (r' : ChainedChunkBufferReader) × (next_u8 (record { chunks = cs; size = n })
            ≡ done (some x, r'))
          × IsValid r'
          × (bytes r' ≡ rest)
    go [] n v e = absurd (cc)
    go (c ∷ cs) n v e =
        let ((valid, pos), _) = v.views in
        let (ys, first) = split c cs e pos in
        let (front, run, valid', left) = ViewLaws.next_u8-cons x ys valid first in
        let (v', cut) =
          advance c front cs n 1 (x ∷ []) v valid' (first ∙ ap (◌∷◌ x) (sym left)) refl in
        (record { chunks = pop_if_empty front cs; size = sub_usize n 1 }, rw run, v', cc (e, cut))

-- `next_chunk` takes a front part of the front chunk.
next_chunk_reads :
    (m : ℕ) (r : ChainedChunkBufferReader)
    → IsValid r
    → 0 < length (bytes r)
    → (c : ChunkView) × (r' : ChainedChunkBufferReader) × (next_chunk m r ≡ done (some c, r'))
      × ViewLaws.IsValid c
      × IsValid r'
      × (bytes r ≡ content c ++ bytes r')
      × (length (content c) ≤ m)
      × (min 1 m ≤ length (content c))
unfolding next_chunk
next_chunk_reads m r v pos = go r.chunks r.size v pos
  where
    go :
        (cs : List ChunkView) (n : ℕ)
        → IsValid (record { chunks = cs; size = n })
        → 0 < length (contents cs)
        → (c : ChunkView) × (r' : ChainedChunkBufferReader) × (next_chunk m
              (record { chunks = cs; size = n })
            ≡ done (some c, r'))
          × ViewLaws.IsValid c
          × IsValid r'
          × (contents cs ≡ content c ++ bytes r')
          × (length (content c) ≤ m)
          × (min 1 m ≤ length (content c))
    go [] n v pos = absurd (omega arith)
    go (c ∷ cs) n v pos =
        let ((valid, some_bytes), _) = v.views in
        let (out, front, run, valid_out, valid', taken, left) =
          ViewLaws.next_chunk_lem m valid some_bytes in
        let (v', cut) =
          advance c front cs n (View.len out) (content out) v valid'
            (sym (take-append-drop m (content c)) ∙ ap₂ ◌++◌ (sym taken) (sym left))
            (ViewLaws.len_lem valid_out) in
        let count : length (content out) ≡ min m (length (content c)) =
          ap length taken ∙ length-take m (content c) in
        (
          out,
          record { chunks = pop_if_empty front cs; size = sub_usize n (View.len out) },
          rw run,
          valid_out,
          v',
          cut,
          omega (arith, count),
          omega (arith, count),
        )

-- `ChainedChunkBufferReader` keeps the promises of `ChunkBufferReader`.
pub reader-IsReader : IsReader IsValid bytes reader
reader-IsReader = record {
  len_eq = λ r v. v.counted;
  next_u8_nil = next_u8_nil;
  next_u8_cons = next_u8-Reads;
  next_chunk_nil = next_chunk_nil;
  next_chunk_cons = next_chunk_reads;
}

-- So does a single `ChunkView`.
pub view_reader-IsReader : IsReader ViewLaws.IsValid content view_reader
view_reader-IsReader = record {
  len_eq = λ v h. ViewLaws.len_lem h;
  next_u8_nil = λ v h e. ViewLaws.next_u8-nil h e;
  next_u8_cons =
      λ x v rest h e. let (v', run, h', e') = ViewLaws.next_u8-cons x rest h e in (v', run, h', e');
  next_chunk_nil = λ n v h e. ViewLaws.next_chunk-nil n h e;
  next_chunk_cons = λ n v h pos.
      let (c, v', run, hc, h', taken, left) = ViewLaws.next_chunk_lem n h pos in
      let count : length (content c) ≡ min n (length (content v)) =
        ap length taken ∙ length-take n (content v) in
      (
        c,
        v',
        run,
        hc,
        h',
        sym (take-append-drop n (content v)) ∙ ap₂ ◌++◌ (sym taken) (sym left),
        omega (arith, count),
        omega (arith, count),
      );
}
