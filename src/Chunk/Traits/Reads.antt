-- ===== src/Chunk/Traits/Reads.antt =====
-- What a `ChunkBufferReader` promises, and what its provided methods read.
use yamux_low_mem.Prelude.{
  ℕ, ◌≤◌, ◌<◌, min, ◌≡◌, ap, ◌∙◌, false, none, some, List, [], ◌∷◌, ◌++◌, append_assoc, arith, ltb,
  ◌==◌, lt→ltb, le→ltb, length, Exec, done, ◌>>=◌,
}
use yamux_low_mem.Chunk.View.{ChunkView}
use yamux_low_mem.Chunk.View.Laws
use yamux_low_mem.Chunk.View.Laws.{content}
use yamux_low_mem.Chunk.Traits.{
  ChunkBufferReader, is_empty, expect_u8, next_u16, next_u32, u16_of_bytes, u32_of_bytes,
}

module _ {R : Type 0} (Inv : R → Type 0) (bytes : R → List ℕ) where
  -- `f` returns `a`, takes the bytes `xs` off the front and keeps the reader well formed.
  abbrev pub Reads {ℓ} : {A : Type ℓ} → (R → Exec (A × R)) → A → List ℕ → Type ℓ
  Reads f a xs =
      (b : R) (rest : List ℕ)
      → Inv b
      → bytes b ≡ xs ++ rest
      → (b' : R) × (f b ≡ done (a, b')) × Inv b' × (bytes b' ≡ rest)

  pub Reads-bind {ℓ κ} :
      {A : Type ℓ} {B : Type κ} (f : R → Exec (A × R)) (g : A → R → Exec (B × R)) (a : A) (c : B)
      (xs ys : List ℕ)
      → Reads f a xs
      → Reads (g a) c ys
      → Reads (λ b. f b >>= λ p. g p.0 p.1) c (xs ++ ys)
  Reads-bind f g a c xs ys rf rg b rest h e =
      let (b1, run1, h1, e1) = rf b (ys ++ rest) h (e ∙ append_assoc xs ys rest) in
      let (b2, run2, h2, e2) = rg b1 rest h1 e1 in (b2, rw run1 run2, h2, e2)

  pub record IsReader (r : ChunkBufferReader R) : Type 0 where
    pub len_eq : (b : R) → Inv b → r.len b ≡ length (bytes b)
    pub next_u8_nil : (b : R) → Inv b → bytes b ≡ [] → r.next_u8 b ≡ done (none, b)
    pub next_u8_cons : (x : ℕ) → Reads r.next_u8 (some x) (x ∷ [])
    pub next_chunk_nil : (n : ℕ) (b : R) → Inv b → bytes b ≡ [] → r.next_chunk n b ≡ done (none, b)
    -- A chunk is a front part of the bytes, at most `n` long, and not empty unless `n` is 0.
    pub next_chunk_cons :
        (n : ℕ) (b : R)
        → Inv b
        → 0 < length (bytes b)
        → (c : ChunkView) × (b' : R) × (r.next_chunk n b ≡ done (some c, b'))
          × Laws.IsValid c
          × Inv b'
          × (bytes b ≡ content c ++ bytes b')
          × (length (content c) ≤ n)
          × (min 1 n ≤ length (content c))

module _ {R : Type 0} ⦃r : ChunkBufferReader R⦄ {Inv : R → Type 0} {bytes : R → List ℕ}
    (laws : IsReader Inv bytes r) where
  pub is_empty_lem : (b : R) → Inv b → is_empty b ≡ (length (bytes b) == 0)
  unfolding is_empty
  is_empty_lem b h = ap (λ n. n == 0) (laws.len_eq b h)

  pub expect_u8-Reads : (x : ℕ) → Reads Inv bytes expect_u8 x (x ∷ [])
  unfolding expect_u8
  expect_u8-Reads x b rest h e =
      let (b', run, h', e') = laws.next_u8_cons x b rest h e in (b', rw run, h', e')

  -- `next_u16` reads two bytes in network order.
  pub next_u16-Reads : (x y : ℕ) → Reads Inv bytes next_u16 (some (u16_of_bytes x y)) (x ∷ y ∷ [])
  unfolding next_u16
  next_u16-Reads x y b rest h e =
      let (b1, run1, h1, e1) = expect_u8-Reads x b (y ∷ rest) h e in
      let (b2, run2, h2, e2) = expect_u8-Reads y b1 rest h1 e1 in
      let long : ltb (r.len b) 2 ≡ false =
        le→ltb (r.len b) 2 (omega (arith, laws.len_eq b h, ap length e)) in
      (b2, rw (long, run1, run2), h2, e2)

  -- `next_u32` reads four bytes in network order.
  pub next_u32-Reads :
      (x y z t : ℕ) → Reads Inv bytes next_u32 (some (u32_of_bytes x y z t)) (x ∷ y ∷ z ∷ t ∷ [])
  unfolding next_u32
  next_u32-Reads x y z t b rest h e =
      let (b1, run1, h1, e1) = expect_u8-Reads x b (y ∷ z ∷ t ∷ rest) h e in
      let (b2, run2, h2, e2) = expect_u8-Reads y b1 (z ∷ t ∷ rest) h1 e1 in
      let (b3, run3, h3, e3) = expect_u8-Reads z b2 (t ∷ rest) h2 e2 in
      let (b4, run4, h4, e4) = expect_u8-Reads t b3 rest h3 e3 in
      let long : ltb (r.len b) 4 ≡ false =
        le→ltb (r.len b) 4 (omega (arith, laws.len_eq b h, ap length e)) in
      (b4, rw (long, run1, run2, run3, run4), h4, e4)

  -- Short of bytes, they read nothing and leave the reader alone.
  pub next_u16_short : (b : R) → Inv b → length (bytes b) < 2 → next_u16 b ≡ done (none, b)
  unfolding next_u16
  next_u16_short b h p = rw (lt→ltb (r.len b) 2 (omega (arith, laws.len_eq b h)))

  pub next_u32_short : (b : R) → Inv b → length (bytes b) < 4 → next_u32 b ≡ done (none, b)
  unfolding next_u32
  next_u32_short b h p = rw (lt→ltb (r.len b) 4 (omega (arith, laws.len_eq b h)))
