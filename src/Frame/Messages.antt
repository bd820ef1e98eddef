-- ===== src/Frame/Messages.antt =====
-- The specification of the frame layer: messages, that is control frames and whole payloads.
-- How a payload is cut into chunks is forgotten.
use yamux_low_mem.Prelude.{
  ℕ, ◌≤◌, ◌≡◌, refl, ap, List, [], ◌∷◌, ◌++◌, arith, ◌==◌, if◌then◌else◌, length, length-append,
}
use yamux_low_mem.Chunk.View.Laws.{content}
use yamux_low_mem.Packet.{StreamId, Flags, FrameType, new_header, header_len}
use yamux_low_mem.Packet.Wire.{header_bytes, length-header_bytes}
use yamux_low_mem.Frame.{
  Frame, session, stream, data_header, data_chunk, window_update, FrameSessionEvent,
}
use yamux_low_mem.Frame.Codec.{frame_bytes, IsSound}

pub data Message : Type 0 where
  control : FrameSessionEvent → Message
  update : StreamId → Flags → ℕ → Message
  payload : StreamId → Flags → List ℕ → Message

-- The bytes of a message: a header, and the payload that it announces.
abbrev pub message_bytes : Message → List ℕ
message_bytes (control event) = frame_bytes (session event)
message_bytes (update id flags delta) = frame_bytes (stream id (window_update flags delta))
message_bytes (payload id flags ys) = frame_bytes (stream id (data_header flags (length ys))) ++ ys

abbrev pub all_bytes : List Message → List ℕ
all_bytes [] = []
all_bytes (m ∷ ms) = message_bytes m ++ all_bytes ms

-- The bytes of the chunks of one stream that stand in front.
abbrev pub leading : StreamId → List Frame → List ℕ
leading id [] = []
leading id (session event ∷ fs) = []
leading id (stream id' (data_header flags size) ∷ fs) = []
leading id (stream id' (window_update flags delta) ∷ fs) = []
leading id (stream id' (data_chunk chunk) ∷ fs) =
    if id'.value == id.value then content chunk ++ leading id fs else []

-- The messages that a sequence of frames stands for.
abbrev pub assemble : List Frame → List Message
assemble [] = []
assemble (session event ∷ fs) = control event ∷ assemble fs
assemble (stream id (data_header flags size) ∷ fs) = payload id flags (leading id fs) ∷ assemble fs
assemble (stream id (window_update flags delta) ∷ fs) = update id flags delta ∷ assemble fs
assemble (stream id (data_chunk chunk) ∷ fs) = assemble fs

-- A message that the wire format can carry.
abbrev pub IsSendable : Message → Type 0
IsSendable (control event) = IsSound (session event)
IsSendable (update id flags delta) = IsSound (stream id (window_update flags delta))
IsSendable (payload id flags ys) = IsSound (stream id (data_header flags (length ys)))

pub length-message_bytes : (m : Message) → header_len ≤ length (message_bytes m)
length-message_bytes (control (FrameSessionEvent.ping flags code)) =
    omega (arith, length-header_bytes)
length-message_bytes (control (FrameSessionEvent.go_away code)) = omega (arith, length-header_bytes)
length-message_bytes (update id flags delta) = omega (arith, length-header_bytes)
length-message_bytes (payload id flags ys) = omega (
  arith,
  length-header_bytes,
  length-append (header_bytes (new_header FrameType.data_frame flags id (length ys))) ys,
)

-- Only no messages take no bytes.
pub all_bytes_nil : (ms : List Message) → all_bytes ms ≡ [] → ms ≡ []
all_bytes_nil [] e = refl
all_bytes_nil (m ∷ ms) e = absurd (
    omega
      (arith, ap length e, length-append (message_bytes m) (all_bytes ms), length-message_bytes m))
