-- ===== src/Chunk/Traits.antt =====
-- src/chunk.rs: the traits, as records of operations, with their provided methods.
-- A method that takes `&mut self` returns the new state beside its result.
pub mod Reads
pub mod Writes
use yamux_low_mem.Prelude.{
  ℕ, ◌+◌, ◌*◌, ◌/◌, ◌%◌, ◌^◌, bit_and, Bool, Option, none, some, List, ltb, ◌==◌, if◌then◌else◌,
  Exec, done, ◌>>=◌, expect,
}
use yamux_low_mem.Chunk.View.{ChunkView}

pub record ChunkBufferReader (R : Type 0) : Type 0 where
  pub len : R → ℕ
  pub next_u8 : R → Exec (Option ℕ × R)
  pub next_chunk : ℕ → R → Exec (Option ChunkView × R)

pub record ChunkBufferWriter (W : Type 0) : Type 0 where
  pub filled_len : W → ℕ
  pub available_len : W → ℕ
  pub write_u8 : ℕ → W → Exec W
  pub write_slice : List ℕ → W → Exec W

pub record ChunkBufferSource (W : Type 0) : Type 0 where
  pub front_slice : W → Exec (Option (List ℕ))
  pub pop_front : W → Option ChunkView × W
  pub consume_front : ℕ → W → Exec W

pub record ChunkBufferSink (R : Type 0) : Type 0 where
  pub push_back : ChunkView → R → R

-- `u16::from_be_bytes` and `u32::from_be_bytes`.
abbrev pub u16_of_bytes : ℕ → ℕ → ℕ
u16_of_bytes a b = a * 2 ^ 8 + b

abbrev pub u32_of_bytes : ℕ → ℕ → ℕ → ℕ → ℕ
u32_of_bytes a b c d = a * 2 ^ 24 + b * 2 ^ 16 + c * 2 ^ 8 + d

module _ {R : Type 0} ⦃r : ChunkBufferReader R⦄ where
  unfoldable pub is_empty : R → Bool
  is_empty b = r.len b == 0

  -- `self.next_u8().expect(…)`.
  unfoldable pub expect_u8 : R → Exec (ℕ × R)
  expect_u8 b = do (byte, b') ← r.next_u8 b; value ← expect byte; done (value, b')

  unfoldable pub next_u16 : R → Exec (Option ℕ × R)
  unfolding expect_u8
  next_u16 b =
      if ltb (r.len b) 2
      then done (none, b)
      else do (v1, b1) ← expect_u8 b; (v2, b2) ← expect_u8 b1; done (some (u16_of_bytes v1 v2), b2)

  unfoldable pub next_u32 : R → Exec (Option ℕ × R)
  unfolding expect_u8
  next_u32 b = if ltb (r.len b) 4 then done (none, b) else do
    (v1, b1) ← expect_u8 b
    (v2, b2) ← expect_u8 b1
    (v3, b3) ← expect_u8 b2
    (v4, b4) ← expect_u8 b3
    done (some (u32_of_bytes v1 v2 v3 v4), b4)

module _ {W : Type 0} ⦃w : ChunkBufferWriter W⦄ where
  unfoldable pub write_u16 : ℕ → W → Exec W
  write_u16 value b = do
    b1 ← w.write_u8 (value / 2 ^ 8 % 2 ^ 8) b
    w.write_u8 (bit_and value 0xff % 2 ^ 8) b1

  unfoldable pub write_u32 : ℕ → W → Exec W
  write_u32 value b = do
    b1 ← w.write_u8 (value / 2 ^ 24 % 2 ^ 8) b
    b2 ← w.write_u8 (value / 2 ^ 16 % 2 ^ 8) b1
    b3 ← w.write_u8 (value / 2 ^ 8 % 2 ^ 8) b2
    w.write_u8 (bit_and value 0xff % 2 ^ 8) b3
