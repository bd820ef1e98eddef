-- ===== src/Chunk/Reader/Invariant.antt =====
-- The chunks of a `ChainedChunkBufferReader`, and the bytes that they hold.
use yamux_low_mem.Prelude.{
  ℕ, ◌+◌, ◌^◌, ◌<◌, ◌≡◌, refl, sym, ap, ◌∙◌, inl, inr, List, [], ◌∷◌, ◌++◌, append-nil,
  append_assoc, arith, ◌==◌, eq→==, Bool-cases, length, All, length-append, length-eq-zero,
  All-append,
}
use yamux_low_mem.Prelude.Word.{sub_usize, add_usize_lem, sub_usize_lem}
use yamux_low_mem.Chunk.View.{ChunkView, from_owned}
use yamux_low_mem.Chunk.View
use yamux_low_mem.Chunk.View.Laws as ViewLaws
use yamux_low_mem.Chunk.View.Laws.{content}
use yamux_low_mem.Chunk.Reader.{
  ChainedChunkBufferReader, new, is_empty, push_back, pop_if_empty, reader, view_reader,
}

abbrev pub IsFilled : ChunkView → Type 0
IsFilled c = ViewLaws.IsValid c × (0 < length (content c))

abbrev pub contents : List ChunkView → List ℕ
contents [] = []
contents (c ∷ cs) = content c ++ contents cs

abbrev pub bytes : ChainedChunkBufferReader → List ℕ
bytes r = contents r.chunks

pub record IsValid (r : ChainedChunkBufferReader) : Type 0 where
  pub views : All IsFilled r.chunks
  pub counted : r.size ≡ length (bytes r)
  pub small : length (bytes r) < 2 ^ 63

pub new-IsValid : IsValid new
unfolding new
new-IsValid = record { views = tt; counted = refl; small = omega arith }

contents-append : (cs ds : List ChunkView) → contents (cs ++ ds) ≡ contents cs ++ contents ds
contents-append [] ds = refl
contents-append (c ∷ cs) ds =
    ap (λ t. content c ++ t) (contents-append cs ds)
    ∙ sym (append_assoc (content c) (contents cs) (contents ds))

-- Pushing a view that is well formed and not empty keeps a ChainedChunkBufferReader well formed,
-- if the count of bytes stays below 2^63, and appends its bytes.
pub push_back_lem :
    (c : ChunkView) (r : ChainedChunkBufferReader)
    → IsValid r
    → IsFilled c
    → length (bytes r) + length (content c) < 2 ^ 63
    → IsValid (push_back c r) × (bytes (push_back c r) ≡ bytes r ++ content c)
unfolding push_back
push_back_lem c r v (valid, pos) small =
    let grown : contents (r.chunks ++ c ∷ []) ≡ contents r.chunks ++ content c =
      contents-append r.chunks (c ∷ [])
      ∙ ap (λ t. contents r.chunks ++ t) (append-nil (content c)) in
    let size : length (contents (r.chunks ++ c ∷ [])) ≡ length (bytes r) + length (content c) =
      ap length grown ∙ length-append (bytes r) (content c) in
    (
      record {
        views = All-append IsFilled r.chunks (c ∷ []) v.views ((valid, pos), tt);
        counted =
            omega
              (arith, size, v.counted, ViewLaws.len_lem valid, add_usize_lem r.size (View.len c));
        small = omega (arith, size);
      },
      grown,
    )

-- The front chunk is dropped once it is used up.
pub pop_if_empty_lem :
    (front : ChunkView) (rest : List ChunkView)
    → ViewLaws.IsValid front
    → All IsFilled rest
    → All IsFilled (pop_if_empty front rest)
      × (contents (pop_if_empty front rest) ≡ content front ++ contents rest)
pop_if_empty_lem front rest v all = elim (Bool-cases (View.is_empty front)) [
  | inl used ↦
      let gone : content front ≡ [] =
        length-eq-zero (content front) (ground (arith, ViewLaws.is_empty_lem v)) in
      rw used (all, ap (λ t. t ++ contents rest) (sym gone))
  | inr some_left ↦ rw some_left (((v, ground (arith, ViewLaws.is_empty_lem v)), all), refl)
]

-- The reader after `n` bytes of its front chunk.
abbrev pub after : ChunkView → List ChunkView → ℕ → ℕ → ChainedChunkBufferReader
after front rest size n = record { chunks = pop_if_empty front rest; size = sub_usize size n }

-- The bytes `xs` were taken off the front chunk `c`, which leaves `front`.
pub advance :
    (c front : ChunkView) (rest : List ChunkView) (size n : ℕ) (xs : List ℕ)
    → IsValid (record { chunks = c ∷ rest; size = size })
    → ViewLaws.IsValid front
    → content c ≡ xs ++ content front
    → n ≡ length xs
    → IsValid (after front rest size n)
      × (content c ++ contents rest ≡ xs ++ contents (pop_if_empty front rest))
advance c front rest size n xs v valid e count =
    let (views, same) = pop_if_empty_lem front rest valid v.views.1 in
    let cut : content c ++ contents rest ≡ xs ++ contents (pop_if_empty front rest) =
      ap (λ t. t ++ contents rest) e
      ∙ append_assoc xs (content front) (contents rest)
      ∙ ap (λ t. xs ++ t) (sym same) in
    let total : length (content c ++ contents rest)
        ≡ n + length (contents (pop_if_empty front rest)) =
      omega (arith, ap length cut, length-append xs (contents (pop_if_empty front rest)), count) in
    (
      record {
        views = views;
        counted = omega (arith, total, v.counted, v.small, sub_usize_lem size n);
        small = omega (arith, total, v.small);
      },
      cut,
    )

-- On a well-formed ChainedChunkBufferReader the inherent is_empty, which asks for chunks, answers
-- as that of the trait, which asks for bytes.
pub is_empty_lem : (r : ChainedChunkBufferReader) → IsValid r → is_empty r ≡ (r.size == 0)
unfolding is_empty
is_empty_lem r v = go r.chunks r.size v
  where
    go :
        (cs : List ChunkView) (n : ℕ)
        → IsValid (record { chunks = cs; size = n })
        → is_empty (record { chunks = cs; size = n }) ≡ (n == 0)
    go [] n v = sym (eq→== n 0 v.counted)
    go (c ∷ cs) n v =
        ground (arith, v.counted, v.views.0.1, length-append (content c) (contents cs))
