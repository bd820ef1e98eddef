-- ===== src/Packet.antt =====
-- src/packet.rs: the wire format of Yamux frames.
pub mod FlagBits
pub mod Wire
pub mod Tests
use yamux_low_mem.Prelude.{
  ℕ, zero, suc, ◌*◌, ◌^◌, bit_and, bit_or, Bool, true, false, not, Option, none, some, ltb, ◌==◌,
  if◌then◌else◌, length, Exec, done, Result, ok, err, ◌>>=◌, expect,
}
use yamux_low_mem.Chunk.Traits.{
  ChunkBufferReader, ChunkBufferWriter, next_u16, next_u32, write_u16, write_u32,
}

abbrev pub header_len : ℕ
header_len = 12

-- `StreamID(u32)`.
pub record StreamId : Type 0 where
  pub value : ℕ

pub data ParserError : Type 0 where
  unknown_type : ℕ → ParserError
  length_overflow : ParserError
  unexpected_data_chunk : ParserError
  pending_data : ℕ → ParserError
  stream_mismatch : StreamId → StreamId → ParserError
  data_size_mismatch : ℕ → ℕ → ParserError
  empty_chunk : ParserError
  invalid_stream_id : ParserError
  unexpected_frame_type : ParserError

unfoldable pub is_client : StreamId → Bool
is_client s = bit_and s.value 1 == 1

unfoldable pub is_server : StreamId → Bool
is_server s = bit_and s.value 1 == 0

unfoldable pub is_session : StreamId → Bool
is_session s = s.value == 0

pub record Flags : Type 0 where
  pub syn : Bool
  pub ack : Bool
  pub fin : Bool
  pub rst : Bool

-- The constructors of `impl Flags`.
abbrev pub empty_flags : Flags
empty_flags = record { syn = false; ack = false; fin = false; rst = false }

abbrev pub syn_flags : Flags
syn_flags = record { syn = true; ack = false; fin = false; rst = false }

abbrev pub ack_flags : Flags
ack_flags = record { syn = false; ack = true; fin = false; rst = false }

abbrev pub fin_flags : Flags
fin_flags = record { syn = false; ack = false; fin = true; rst = false }

abbrev pub rst_flags : Flags
rst_flags = record { syn = false; ack = false; fin = false; rst = true }

unfoldable pub from_bits : ℕ → Flags
from_bits flags = record {
  syn = not (bit_and flags 0x1 == 0);
  ack = not (bit_and flags 0x2 == 0);
  fin = not (bit_and flags 0x4 == 0);
  rst = not (bit_and flags 0x8 == 0);
}

-- `b as u16`.
abbrev pub bit : Bool → ℕ
bit true = 1
bit false = 0

unfoldable pub bits : Flags → ℕ
bits f =
    bit_or (bit_or (bit_or (bit f.syn) (bit f.ack * 2)) (bit f.fin * 2 ^ 2)) (bit f.rst * 2 ^ 3)

pub data FrameType : Type 0 where
  data_frame window_update ping go_away : FrameType

unfoldable pub from_u8 : ℕ → Result ParserError FrameType
from_u8 zero = ok data_frame
from_u8 (suc zero) = ok window_update
from_u8 (suc (suc zero)) = ok ping
from_u8 (suc (suc (suc zero))) = ok go_away
from_u8 (suc (suc (suc (suc n)))) = err (unknown_type (suc (suc (suc (suc n)))))

unfoldable pub as_u8 : FrameType → ℕ
as_u8 data_frame = 0
as_u8 window_update = 1
as_u8 ping = 2
as_u8 go_away = 3

pub record Header : Type 0 where
  pub version : ℕ
  pub type : FrameType
  pub flags : Flags
  pub stream_id : StreamId
  pub length : ℕ

-- `Header::new`: protocol version 0.
abbrev pub new_header : FrameType → Flags → StreamId → ℕ → Header
new_header type flags stream_id length = record {
  version = 0;
  type = type;
  flags = flags;
  stream_id = stream_id;
  length = length;
}

-- `Self { … type_: FrameType::from_u8(type_byte)?, … }`.
pub header_of : ℕ → ℕ → ℕ → ℕ → ℕ → Result ParserError (Option Header)
unfolding from_u8 from_bits
header_of version type_byte flags_bits stream_id length = elim (from_u8 type_byte) [
  | err e ↦ err e
  | ok type ↦ ok (
      some (record {
        version = version;
        type = type;
        flags = from_bits flags_bits;
        stream_id = record { value = stream_id };
        length = length;
      }))
]

module _ {R : Type 0} ⦃r : ChunkBufferReader R⦄ where
  -- A read that is checked beforehand: `.expect("checked length")`.
  checked : (R → Exec (Option ℕ × R)) → R → Exec (ℕ × R)
  checked next b = do (value, b') ← next b; v ← expect value; done (v, b')

  -- The header is consumed before its type is looked at.
  fields : R → Exec (Result ParserError (Option Header) × R)
  unfolding checked header_of
  fields b = do
    (version, b1) ← checked r.next_u8 b
    (type_byte, b2) ← checked r.next_u8 b1
    (flags_bits, b3) ← checked next_u16 b2
    (stream_id, b4) ← checked next_u32 b3
    (length, b5) ← checked next_u32 b4
    done (header_of version type_byte flags_bits stream_id length, b5)

  -- `Header::read`.
  unfoldable pub read : R → Exec (Result ParserError (Option Header) × R)
  unfolding fields
  read b = if ltb (r.len b) header_len then done (ok none, b) else fields b

module _ {W : Type 0} ⦃w : ChunkBufferWriter W⦄ where
  -- `Header::write`.
  unfoldable pub write : Header → W → Exec W
  unfolding bits as_u8
  write h b = do
    b1 ← w.write_u8 h.version b
    b2 ← w.write_u8 (as_u8 h.type) b1
    b3 ← write_u16 (bits h.flags) b2
    b4 ← write_u32 h.stream_id.value b3
    write_u32 h.length b4
