-- ===== src/Prelude/Bits.antt =====
-- The masks of the wire format as arithmetic: `& 1`, `& 2`, `& 4`, `& 8` and `& 0xFF`.
use Prim.Native.Nat.{digits, bit_and-bitwise}
use yamux_low_mem.Prelude.{ℕ, zero, suc, ◌+◌, ◌*◌, ◌/◌, ◌%◌, ◌≤◌, min, bit_and, ◌≡◌, refl, arith}

-- `bit_and` by its binary digits, with fuel.
abbrev common_digits : ℕ → ℕ → ℕ → ℕ
common_digits fuel a b = digits (λ _. zero) min fuel a b

enough_digits : (a b f g : ℕ) → a ≤ f → a ≤ g → common_digits f a b ≡ common_digits g a b
enough_digits zero b zero zero below under = refl
enough_digits zero b zero (suc g) below under = refl
enough_digits zero b (suc f) zero below under = refl
enough_digits zero b (suc f) (suc g) below under = refl
enough_digits (suc a) b zero g below under = absurd (omega arith)
enough_digits (suc a) b (suc f) zero below under = absurd (omega arith)
enough_digits (suc a) b (suc f) (suc g) below under =
    omega (enough_digits (suc a / 2) (b / 2) f g (omega arith) (omega arith), arith)

-- One digit of the conjunction.
bit_and_step : (a b : ℕ) → bit_and a b ≡ min (a % 2) (b % 2) + bit_and (a / 2) (b / 2) * 2
bit_and_step zero b = omega (arith, bit_and-bitwise 0 (b / 2), bit_and-bitwise 0 b)
bit_and_step (suc a) b =
    let half : ℕ = suc a / 2 in
    let deep = enough_digits half (b / 2) half a (omega arith) (omega arith) in
    omega (arith, deep, bit_and-bitwise half (b / 2), bit_and-bitwise (suc a) b)

bit_and-zero_below : (n a : ℕ) → a ≤ n → bit_and a 0 ≡ 0
bit_and-zero_below n zero h = refl
bit_and-zero_below zero (suc a) h = absurd (omega arith)
bit_and-zero_below (suc n) (suc a) h =
    omega (arith, bit_and_step (suc a) 0, bit_and-zero_below n (suc a / 2) (omega arith))

bit_and-zero : (a : ℕ) → bit_and a 0 ≡ 0
bit_and-zero a = bit_and-zero_below a a (omega arith)

pub bit_and-one : (a : ℕ) → bit_and a 0x1 ≡ a % 2
bit_and-one a = omega (arith, bit_and_step a 0x1, bit_and-zero (a / 2))

pub bit_and-two : (a : ℕ) → bit_and a 0x2 ≡ a / 2 % 2 * 2
bit_and-two a = omega (arith, bit_and_step a 0x2, bit_and-one (a / 2))

pub bit_and-four : (a : ℕ) → bit_and a 0x4 ≡ a / 4 % 2 * 4
bit_and-four a = omega (arith, bit_and_step a 0x4, bit_and-two (a / 2))

pub bit_and-eight : (a : ℕ) → bit_and a 0x8 ≡ a / 8 % 2 * 8
bit_and-eight a = omega (arith, bit_and_step a 0x8, bit_and-four (a / 2))

bit_and-fifteen : (a : ℕ) → bit_and a 0xf ≡ a % 16
bit_and-fifteen a = omega (
  arith,
  bit_and_step a 0xf,
  bit_and_step (a / 2) 7,
  bit_and_step (a / 2 / 2) 3,
  bit_and-one (a / 2 / 2 / 2),
)

pub bit_and-byte : (a : ℕ) → bit_and a 0xff ≡ a % 256
bit_and-byte a = omega (
  arith,
  bit_and_step a 0xff,
  bit_and_step (a / 2) 0x7f,
  bit_and_step (a / 2 / 2) 0x3f,
  bit_and_step (a / 2 / 2 / 2) 0x1f,
  bit_and-fifteen (a / 2 / 2 / 2 / 2),
)
