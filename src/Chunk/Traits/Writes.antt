-- ===== src/Chunk/Traits/Writes.antt =====
-- What a `ChunkBufferWriter` promises, and what its provided methods append.
use yamux_low_mem.Prelude.{
  ℕ, ◌+◌, ◌/◌, ◌%◌, ◌^◌, bit_and, ◌≡◌, ap, subst, ◌∙◌, List, [], ◌∷◌, ◌++◌, append_assoc, arith,
  length, length-append, Exec, done, ◌>>=◌,
}
use yamux_low_mem.Prelude.Bits.{bit_and-byte}
use yamux_low_mem.Chunk.Traits.{ChunkBufferWriter, write_u16, write_u32}

-- The bytes of a number in network order.
abbrev pub u16_bytes : ℕ → List ℕ
u16_bytes v = (v / 2 ^ 8 % 2 ^ 8) ∷ (v % 2 ^ 8) ∷ []

abbrev pub u32_bytes : ℕ → List ℕ
u32_bytes v = (v / 2 ^ 24 % 2 ^ 8) ∷ (v / 2 ^ 16 % 2 ^ 8) ∷ (v / 2 ^ 8 % 2 ^ 8) ∷ (v % 2 ^ 8) ∷ []

module _ {W : Type 0} (Room : ℕ → W → Type 0) (bytes : W → List ℕ) where
  -- `f` appends `ys`, if there is room, and takes no more room than that.
  abbrev pub Writes : (W → Exec W) → List ℕ → Type 0
  Writes f ys =
      (n : ℕ) (b : W)
      → Room (length ys + n) b
      → (b' : W) × (f b ≡ done b') × Room n b' × (bytes b' ≡ bytes b ++ ys)

  -- `Room n b`: `b` is well formed, and `n` more bytes can be written.
  pub record IsWriter (w : ChunkBufferWriter W) : Type 0 where
    pub filled_len_eq : (n : ℕ) (b : W) → Room n b → w.filled_len b ≡ length (bytes b)
    pub write_u8_appends : (x : ℕ) → Writes (w.write_u8 x) (x ∷ [])
    pub write_slice_appends : (ys : List ℕ) → Writes (w.write_slice ys) ys

  pub Writes-bind :
      (f g : W → Exec W) (xs ys : List ℕ)
      → Writes f xs
      → Writes g ys
      → Writes (λ b. f b >>= g) (xs ++ ys)
  Writes-bind f g xs ys wf wg n b room = (b2, run, room2, grown)
    where
      room0 : Room (length xs + (length ys + n)) b
      room0 = subst (λ k. Room k b) (omega (arith, length-append xs ys)) room

      open wf (length ys + n) b room0 use {0 as b1, 1 as run1, 2 as room1, 3 as grown1}
      open wg n b1 room1 use {0 as b2, 1 as run2, 2 as room2, 3 as grown2}

      run : (f b >>= g) ≡ done b2
      run = rw run1 run2

      grown : bytes b2 ≡ bytes b ++ (xs ++ ys)
      grown = grown2 ∙ ap (λ zs. zs ++ ys) grown1 ∙ append_assoc (bytes b) xs ys

low_byte : (v : ℕ) → bit_and v 0xff % 2 ^ 8 ≡ v % 2 ^ 8
low_byte v = omega (arith, bit_and-byte v)

module _ {W : Type 0} ⦃w : ChunkBufferWriter W⦄ {Room : ℕ → W → Type 0} {bytes : W → List ℕ}
    (laws : IsWriter Room bytes w) where
  -- `write_u16` appends the two bytes of its value, most significant first.
  pub write_u16_appends : (v : ℕ) → Writes Room bytes (write_u16 v) (u16_bytes v)
  unfolding write_u16
  write_u16_appends v =
      subst (λ z. Writes Room bytes (write_u16 v) ((v / 2 ^ 8 % 2 ^ 8) ∷ z ∷ [])) (low_byte v)
        (Writes-bind Room bytes _ _ (_ ∷ []) (_ ∷ []) (laws.write_u8_appends _)
          (laws.write_u8_appends _))

  -- `write_u32` appends the four bytes of its value, most significant first.
  pub write_u32_appends : (v : ℕ) → Writes Room bytes (write_u32 v) (u32_bytes v)
  unfolding write_u32
  write_u32_appends v =
      subst
        (λ z.
          Writes Room bytes (write_u32 v)
            ((v / 2 ^ 24 % 2 ^ 8) ∷ (v / 2 ^ 16 % 2 ^ 8) ∷ (v / 2 ^ 8 % 2 ^ 8) ∷ z ∷ []))
        (low_byte v) (byte _ _ _ (byte _ _ _ (byte _ _ (_ ∷ []) (laws.write_u8_appends _))))
    where
      byte :
          (x : ℕ) (g : W → Exec W) (ys : List ℕ)
          → Writes Room bytes g ys
          → Writes Room bytes (λ b. w.write_u8 x b >>= g) (x ∷ ys)
      byte x g ys = Writes-bind Room bytes (w.write_u8 x) g (x ∷ []) ys (laws.write_u8_appends x)
