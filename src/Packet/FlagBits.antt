-- ===== src/Packet/FlagBits.antt =====
-- Stream identifiers by parity, frame types by number, and flags as a bit field.
use yamux_low_mem.Prelude.{
  ℕ, zero, suc, ◌%◌, ◌≤◌, ◌<◌, ◌≡◌, refl, ap, ◌↔◌, ◌⊎◌, inl, inr, Bool, true, false, not, arith, ok,
  err,
}
use yamux_low_mem.Prelude.Bits.{bit_and-one, bit_and-two, bit_and-four, bit_and-eight}
use yamux_low_mem.Packet.{
  StreamId, is_client, is_server, is_session, Flags, from_bits, bits, FrameType, data_frame,
  window_update, ping, go_away, from_u8, as_u8, unknown_type,
}

-- An identifier is of the client or of the server, by its parity; that of the session is even.
pub parity :
    (s : StreamId)
    → (is_client s ≡ not (is_server s))
      × ((is_client s ≡ true) ↔ (s.value % 2 ≡ 1))
      × (is_session s ≡ true → is_server s ≡ true)
unfolding is_client is_server is_session
parity s = ground (arith, bit_and-one s.value)

rebuild :
    (a b c d : Bool)
    → from_bits (bits (record { syn = a; ack = b; fin = c; rst = d }))
      ≡ record { syn = a; ack = b; fin = c; rst = d }
unfolding from_bits bits
rebuild true true true true = refl
rebuild true true true false = refl
rebuild true true false true = refl
rebuild true true false false = refl
rebuild true false true true = refl
rebuild true false true false = refl
rebuild true false false true = refl
rebuild true false false false = refl
rebuild false true true true = refl
rebuild false true true false = refl
rebuild false true false true = refl
rebuild false true false false = refl
rebuild false false true true = refl
rebuild false false true false = refl
rebuild false false false true = refl
rebuild false false false false = refl

-- Flags that are written as a bit field are read back as the same flags.
pub from_bits-bits : (f : Flags) → from_bits (bits f) ≡ f
from_bits-bits f = rebuild f.syn f.ack f.fin f.rst

-- Reading a bit field as flags and writing these keeps its four lowest bits, and drops all others.
pub bits-from_bits : (n : ℕ) → bits (from_bits n) ≡ n % 16
unfolding bits from_bits
bits-from_bits n = ground (arith, bit_and-one n, bit_and-two n, bit_and-four n, bit_and-eight n)

pub bits-lt : (f : Flags) → bits f < 16
bits-lt f = omega (arith, bits-from_bits (bits f), ap bits (from_bits-bits f))

-- A known type is read back from its number.
pub from_u8-as_u8 : (t : FrameType) → from_u8 (as_u8 t) ≡ ok t
unfolding from_u8 as_u8
from_u8-as_u8 data_frame = refl
from_u8-as_u8 window_update = refl
from_u8-as_u8 ping = refl
from_u8-as_u8 go_away = refl

-- FrameType::from_u8 gives the type whose number a byte is, and refuses, with that number, exactly
-- the numbers from 4 on.
pub from_u8_lem :
    (n : ℕ)
    → ((t : FrameType) × (from_u8 n ≡ ok t) × (as_u8 t ≡ n))
      ⊎ ((4 ≤ n) × (from_u8 n ≡ err (unknown_type n)))
unfolding from_u8 as_u8
from_u8_lem zero = inl (data_frame, refl, refl)
from_u8_lem (suc zero) = inl (window_update, refl, refl)
from_u8_lem (suc (suc zero)) = inl (ping, refl, refl)
from_u8_lem (suc (suc (suc zero))) = inl (go_away, refl, refl)
from_u8_lem (suc (suc (suc (suc n)))) = inr (omega arith, refl)
