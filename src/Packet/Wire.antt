-- ===== src/Packet/Wire.antt =====
-- The twelve bytes of a header, written and read.
use yamux_low_mem.Prelude.{
  All, ℕ, ◌/◌, ◌%◌, ◌^◌, ◌≤◌, ◌<◌, ◌≡◌, refl, sym, ap, ◌∙◌, ◌⊎◌, inl, inr, false, Option, none,
  some, List, [], ◌∷◌, ◌++◌, arith, ltb, lt→ltb, le→ltb, length, get_elem?, drop, Exec, done,
  Result, ok, err,
}
use yamux_low_mem.Prelude.Word.{u32_mod, IsByte}
use yamux_low_mem.Packet.FlagBits.{from_bits-bits, bits-lt, from_u8-as_u8, from_u8_lem}
use yamux_low_mem.Packet.{
  from_bits, unknown_type, ParserError, next_u32, read, next_u16, Header, as_u8, bits, header_of,
  checked, fields, write, header_len,
}
use yamux_low_mem.Chunk.Traits.{ChunkBufferReader, ChunkBufferWriter, u16_of_bytes, u32_of_bytes}
use yamux_low_mem.Chunk.Traits.Reads.{Reads, IsReader, next_u16-Reads, next_u32-Reads}
use yamux_low_mem.Chunk.Traits.Writes.{
  Writes, Writes-bind, IsWriter, u16_bytes, u32_bytes, write_u16_appends, write_u32_appends,
}

-- The layout of SPEC.md: version, type, flags, stream identifier, length, in network order.
unfoldable pub header_bytes : Header → List ℕ
header_bytes h =
    h.version
    ∷ as_u8 h.type
    ∷ (u16_bytes (bits h.flags) ++ (u32_bytes h.stream_id.value ++ u32_bytes h.length))

-- The two wide fields fit a `u32`.
pub record IsWide (h : Header) : Type 0 where
  pub id_in : h.stream_id.value < u32_mod
  pub length_in : h.length < u32_mod

pub length-header_bytes : (h : Header) → length (header_bytes h) ≡ header_len
unfolding header_bytes
length-header_bytes h = refl

module _ {W : Type 0} ⦃w : ChunkBufferWriter W⦄ {Room : ℕ → W → Type 0} {bytes : W → List ℕ}
    (laws : IsWriter Room bytes w) where
  -- `Header::write` appends the twelve bytes of the layout.
  pub write-Writes : (h : Header) → Writes Room bytes (write h) (header_bytes h)
  unfolding write header_bytes
  write-Writes h = Writes-bind Room bytes _ _ (_ ∷ []) _ (laws.write_u8_appends h.version) (
      Writes-bind Room bytes _ _ (_ ∷ []) _ (laws.write_u8_appends (as_u8 h.type)) (
        Writes-bind Room bytes _ _ (u16_bytes (bits h.flags)) _
          (write_u16_appends laws (bits h.flags))
          (Writes-bind Room bytes _ _ (u32_bytes h.stream_id.value) _
            (write_u32_appends laws h.stream_id.value) (write_u32_appends laws h.length))))

u16_of_bytes-u16_bytes : (v : ℕ) → v < 2 ^ 16 → u16_of_bytes (v / 2 ^ 8 % 2 ^ 8) (v % 2 ^ 8) ≡ v
u16_of_bytes-u16_bytes v h = omega arith

u32_of_bytes-u32_bytes :
    (v : ℕ)
    → v < u32_mod
    → u32_of_bytes (v / 2 ^ 24 % 2 ^ 8) (v / 2 ^ 16 % 2 ^ 8) (v / 2 ^ 8 % 2 ^ 8) (v % 2 ^ 8) ≡ v
u32_of_bytes-u32_bytes v h = omega arith

header_of_cases :
    (v t f s l : ℕ)
    → ((h : Header) × (header_of v t f s l ≡ ok (some h))
        × (h.stream_id.value ≡ s)
        × (h.length ≡ l))
      ⊎ ((4 ≤ t) × (header_of v t f s l ≡ err (unknown_type t)))
unfolding header_of
header_of_cases v t f s l = elim (from_u8_lem t) [
  | inl (k, known, _) ↦ inl (
    record {
      version = v;
      type = k;
      flags = from_bits f;
      stream_id = record { value = s };
      length = l;
    },
    rw (known, header_of),
    refl,
    refl,
  )
  | inr (big, unknown) ↦ inr (big, rw (unknown, header_of))
]

header_of-fields :
    (h : Header)
    → header_of h.version (as_u8 h.type) (bits h.flags) h.stream_id.value h.length ≡ ok (some h)
unfolding header_of
header_of-fields h = rw (from_u8-as_u8 h.type, header_of, from_bits-bits h.flags)

header_of-header_bytes :
    (h : Header)
    → IsWide h
    → header_of h.version
        (as_u8 h.type)
        (u16_of_bytes (bits h.flags / 2 ^ 8 % 2 ^ 8) (bits h.flags % 2 ^ 8))
        (u32_of_bytes
          (h.stream_id.value / 2 ^ 24 % 2 ^ 8)
          (h.stream_id.value / 2 ^ 16 % 2 ^ 8)
          (h.stream_id.value / 2 ^ 8 % 2 ^ 8)
          (h.stream_id.value % 2 ^ 8))
        (u32_of_bytes
          (h.length / 2 ^ 24 % 2 ^ 8)
          (h.length / 2 ^ 16 % 2 ^ 8)
          (h.length / 2 ^ 8 % 2 ^ 8)
          (h.length % 2 ^ 8))
      ≡ ok (some h)
header_of-header_bytes h wide =
    rw
      (
        u16_of_bytes-u16_bytes (bits h.flags) (omega (arith, bits-lt h.flags)),
        u32_of_bytes-u32_bytes h.stream_id.value wide.id_in,
        u32_of_bytes-u32_bytes h.length wide.length_in,
      )
      (header_of-fields h)

module _ {R : Type 0} ⦃r : ChunkBufferReader R⦄ {Inv : R → Type 0} {bytes : R → List ℕ}
    (laws : IsReader Inv bytes r) where
  checked-Reads :
      (next : R → Exec (Option ℕ × R)) (x : ℕ) (xs : List ℕ)
      → Reads Inv bytes next (some x) xs
      → Reads Inv bytes (checked next) x xs
  unfolding checked
  checked-Reads next x xs reads b rest h e =
      let (b', run, h', e') = reads b rest h e in (b', rw run, h', e')

  fields-Reads :
      (v t f1 f2 s1 s2 s3 s4 l1 l2 l3 l4 : ℕ)
      → Reads Inv bytes fields
          (header_of v t (u16_of_bytes f1 f2) (u32_of_bytes s1 s2 s3 s4) (u32_of_bytes l1 l2 l3 l4))
          (v ∷ t ∷ f1 ∷ f2 ∷ s1 ∷ s2 ∷ s3 ∷ s4 ∷ l1 ∷ l2 ∷ l3 ∷ l4 ∷ [])
  unfolding fields
  fields-Reads v t f1 f2 s1 s2 s3 s4 l1 l2 l3 l4 b rest h e =
      let (b1, run1, h1, e1) = checked-Reads r.next_u8 v (v ∷ []) (laws.next_u8_cons v) b _ h e in
      let (b2, run2, h2, e2) =
        checked-Reads r.next_u8 t (t ∷ []) (laws.next_u8_cons t) b1 _ h1 e1 in
      let (b3, run3, h3, e3) =
        checked-Reads next_u16 _ (f1 ∷ f2 ∷ []) (next_u16-Reads laws f1 f2) b2 _ h2 e2 in
      let (b4, run4, h4, e4) =
        checked-Reads next_u32 _ (s1 ∷ s2 ∷ s3 ∷ s4 ∷ []) (next_u32-Reads laws s1 s2 s3 s4) b3 _ h3
          e3 in
      let (b5, run5, h5, e5) =
        checked-Reads next_u32 _ (l1 ∷ l2 ∷ l3 ∷ l4 ∷ []) (next_u32-Reads laws l1 l2 l3 l4) b4 _ h4
          e4 in
      (b5, rw (run1, run2, run3, run4, run5), h5, e5)

  -- `Header::read` on twelve bytes: it takes them all off, and then looks at the type.
  pub read-Reads :
      (v t f1 f2 s1 s2 s3 s4 l1 l2 l3 l4 : ℕ)
      → Reads Inv bytes read
          (header_of v t (u16_of_bytes f1 f2) (u32_of_bytes s1 s2 s3 s4) (u32_of_bytes l1 l2 l3 l4))
          (v ∷ t ∷ f1 ∷ f2 ∷ s1 ∷ s2 ∷ s3 ∷ s4 ∷ l1 ∷ l2 ∷ l3 ∷ l4 ∷ [])
  unfolding read
  read-Reads v t f1 f2 s1 s2 s3 s4 l1 l2 l3 l4 b rest h e =
      let (b', run, h', e') = fields-Reads v t f1 f2 s1 s2 s3 s4 l1 l2 l3 l4 b rest h e in
      let long : ltb (r.len b) header_len ≡ false =
        le→ltb (r.len b) header_len (omega (arith, laws.len_eq b h, ap length e)) in
      (b', rw long run, h', e')

  -- With fewer than twelve bytes in the reader, Header::read asks for more, and leaves the reader
  -- as it was.
  pub read_short : (b : R) → Inv b → length (bytes b) < header_len → read b ≡ done (ok none, b)
  unfolding read
  read_short b h p = rw (lt→ltb (r.len b) header_len (omega (arith, laws.len_eq b h)))

  -- From a reader that keeps the promises of ChunkBufferReader and whose bytes begin with those of
  -- a header with two u32 fields, Header::read gives back that header, and takes exactly its
  -- twelve bytes off, wherever the chunks are cut.
  pub read-header_bytes :
      (h : Header) (b : R) (rest : List ℕ)
      → IsWide h
      → Inv b
      → bytes b ≡ header_bytes h ++ rest
      → (b' : R) × (read b ≡ done (ok (some h), b')) × Inv b' × (bytes b' ≡ rest)
  unfolding header_bytes
  read-header_bytes h b rest wide inv e =
      let (b', run, inv', e') = read-Reads _ _ _ _ _ _ _ _ _ _ _ _ b rest inv e in
      (b', run ∙ ap (λ x. done (x, b')) (header_of-header_bytes h wide), inv', e')

  -- With twelve bytes or more in the reader, whatever they are, Header::read ends without a panic
  -- and takes exactly twelve bytes off: it answers with a header whose two wide fields fit a u32,
  -- or refuses the type byte, which is then the second byte and 4 or more.
  pub read_total :
      (b : R)
      → Inv b
      → All IsByte (bytes b)
      → header_len ≤ length (bytes b)
      → (a : Result ParserError (Option Header)) × (b' : R) × (read b ≡ done (a, b'))
        × Inv b'
        × (bytes b' ≡ drop header_len (bytes b))
        × (((h : Header) × (a ≡ ok (some h)) × IsWide h)
            ⊎ ((t : ℕ) × (4 ≤ t) × (get_elem? (bytes b) 1 ≡ some t) × (a ≡ err (unknown_type t))))
  read_total b inv eight long = go (bytes b) refl eight long
    where
      go :
          (xs : List ℕ)
          → bytes b ≡ xs
          → All IsByte xs
          → header_len ≤ length xs
          → (a : Result ParserError (Option Header)) × (b' : R) × (read b ≡ done (a, b'))
            × Inv b'
            × (bytes b' ≡ drop header_len (bytes b))
            × (((h : Header) × (a ≡ ok (some h)) × IsWide h)
                ⊎ ((t : ℕ) × (4 ≤ t)
                    × (get_elem? (bytes b) 1 ≡ some t)
                    × (a ≡ err (unknown_type t))))
      go (v ∷ t ∷ f1 ∷ f2 ∷ s1 ∷ s2 ∷ s3 ∷ s4 ∷ l1 ∷ l2 ∷ l3 ∷ l4 ∷ rest) e
            (_, (_, (_, (_, (i1, (i2, (i3, (i4, (n1, (n2, (n3, (n4, _)))))))))))) p =
          let (b', run, inv', left) = read-Reads v t f1 f2 s1 s2 s3 s4 l1 l2 l3 l4 b rest inv e in
          let kinds =
            header_of_cases v t (u16_of_bytes f1 f2) (u32_of_bytes s1 s2 s3 s4)
              (u32_of_bytes l1 l2 l3 l4) in
          (
            _,
            b',
            run,
            inv',
            left ∙ ap (drop header_len) (sym e),
            elim kinds [
              | inl (h, good, id, size) ↦
                  inl
                    (h, good, record { id_in = omega (arith, id); length_in = omega (arith, size) })
              | inr (big, bad) ↦ inr (t, big, ap (λ ys. get_elem? ys 1) e, bad)
            ],
          )
      go _ e k p = absurd (omega arith)
