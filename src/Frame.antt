-- ===== src/Frame.antt =====
-- src/frame.rs: frames, and the stateful reader and writer that split and join payloads.
pub mod Codec
pub mod Messages
pub mod Writing
pub mod Admitted
pub mod Stands
pub mod Reading
pub mod Progress
pub mod Collect
pub mod Tests
use yamux_low_mem.Prelude.{
  ℕ, Option, none, some, ltb, ◌==◌, if◌then◌else◌, Exec, done, Result, ok, err, ◌>>=◌,
}
use yamux_low_mem.Prelude.Word.{sub_usize}
use yamux_low_mem.Chunk.View.{ChunkView}
use yamux_low_mem.Chunk.View
use yamux_low_mem.Chunk.Traits.{
  ChunkBufferReader, ChunkBufferWriter, ChunkBufferSource, ChunkBufferSink,
}
use yamux_low_mem.Packet.{StreamId, Flags, FrameType, Header, ParserError, empty_flags, new_header}
use yamux_low_mem.Packet

pub record PendingPayload : Type 0 where
  pub stream_id : StreamId
  pub remain : ℕ

-- `FrameStreamEvent`: `Data` is `data_header` here.
pub data FrameStreamEvent : Type 0 where
  data_header : Flags → ℕ → FrameStreamEvent
  data_chunk : ChunkView → FrameStreamEvent
  window_update : Flags → ℕ → FrameStreamEvent

-- `FrameStreamEvent::flags`.
unfoldable pub event_flags : FrameStreamEvent → Option Flags
event_flags (data_header flags size) = some flags
event_flags (data_chunk chunk) = none
event_flags (window_update flags delta) = some flags

pub data FrameSessionEvent : Type 0 where
  ping : Flags → ℕ → FrameSessionEvent
  go_away : ℕ → FrameSessionEvent

pub data Frame : Type 0 where
  session : FrameSessionEvent → Frame
  stream : StreamId → FrameStreamEvent → Frame

abbrev pub session_id : StreamId
session_id = record { value = 0 }

-- The match on `header.type_`.
unfoldable pub frame_of : Header → Frame
frame_of h = elim h.type [
  | FrameType.data_frame ↦ stream h.stream_id (data_header h.flags h.length)
  | FrameType.window_update ↦ stream h.stream_id (window_update h.flags h.length)
  | FrameType.ping ↦ session (ping h.flags h.length)
  | FrameType.go_away ↦ session (go_away h.length)
]

frame_of_header : Result ParserError (Option Header) → Result ParserError (Option Frame)
unfolding frame_of
frame_of_header (err e) = err e
frame_of_header (ok none) = ok none
frame_of_header (ok (some h)) = ok (some (frame_of h))

module _ {R : Type 0} ⦃r : ChunkBufferReader R⦄ where
  -- `Frame::read`.
  unfoldable pub read : R → Exec (Result ParserError (Option Frame) × R)
  unfolding frame_of_header
  read b = do (header, b') ← Packet.read b; done (frame_of_header header, b')

module _ {W : Type 0} ⦃w : ChunkBufferWriter W⦄ where
  -- `Frame::write`.
  unfoldable pub write : Frame → W → Exec W
  write (session (ping flags code)) b =
      Packet.write (new_header FrameType.ping flags session_id code) b
  write (session (go_away code)) b =
      Packet.write (new_header FrameType.go_away empty_flags session_id code) b
  write (stream id (data_header flags size)) b =
      Packet.write (new_header FrameType.data_frame flags id size) b
  write (stream id (data_chunk chunk)) b =
      if View.is_empty chunk then done b else View.deref chunk >>= λ bytes. w.write_slice bytes b
  write (stream id (window_update flags delta)) b =
      Packet.write (new_header FrameType.window_update flags id delta) b

pub record FrameReader (R : Type 0) : Type 0 where
  pub buffer : R
  pub pending : Option PendingPayload

-- `FrameReader::new`.
abbrev pub new_reader : {R : Type 0} → R → FrameReader R
new_reader b = record { buffer = b; pending = none }

-- What is still to come of a payload after a chunk of it.
unfoldable pub after_chunk : PendingPayload → ChunkView → Option PendingPayload
after_chunk p chunk =
    let remain = sub_usize p.remain (View.len chunk) in
    if remain == 0 then none else some (record p { remain = remain })

-- A data frame that was read starts a payload.
unfoldable pub started : Result ParserError (Option Frame) → Option PendingPayload
started (ok (some (stream id (data_header flags size)))) =
    some (record { stream_id = id; remain = size })
started (ok (some (stream id (data_chunk chunk)))) = none
started (ok (some (stream id (window_update flags delta)))) = none
started (ok (some (session event))) = none
started (ok none) = none
started (err e) = none

module _ {R : Type 0} ⦃r : ChunkBufferReader R⦄ where
  -- `next_frame` while a payload is pending.
  pub next_payload : PendingPayload → R → Exec (Result ParserError (Option Frame) × FrameReader R)
  next_payload p b = r.next_chunk p.remain b >>= λ out. elim out.0 [
    | none ↦ done (ok none, record { buffer = out.1; pending = some p })
    | some chunk ↦ done (
      ok (some (stream p.stream_id (data_chunk chunk))),
      record { buffer = out.1; pending = after_chunk p chunk },
    )
  ]

  -- `next_frame` at the start of a frame.
  pub next_header : R → Exec (Result ParserError (Option Frame) × FrameReader R)
  next_header b = do
    (frame, b') ← read b
    done (frame, record { buffer = b'; pending = started frame })

  unfoldable pub next_frame :
      FrameReader R → Exec (Result ParserError (Option Frame) × FrameReader R)
  unfolding next_payload next_header
  next_frame f = elim f.pending [ some p ↦ next_payload p f.buffer | none ↦ next_header f.buffer ]

module _ {R : Type 0} ⦃s : ChunkBufferSink R⦄ where
  -- `FrameReader::push_back`.
  unfoldable pub push_back : ChunkView → FrameReader R → FrameReader R
  push_back chunk f = record f { buffer = s.push_back chunk f.buffer }

pub data FrameWriterError : Type 0 where
  invalid_stream_id chunk_too_large unexpected_frame_type : FrameWriterError

pub record FrameWriter (W : Type 0) : Type 0 where
  pub pending : Option PendingPayload
  pub buffer : W

-- `FrameWriter::new`.
abbrev pub new_writer : {W : Type 0} → W → FrameWriter W
new_writer b = record { pending = none; buffer = b }

-- The checks of `FrameWriter::write`, and the payload that is pending after them.
unfoldable pub admit :
    Option PendingPayload → Frame → Result FrameWriterError (Option PendingPayload)
admit (some p) (stream id (data_chunk chunk)) =
    if id.value == p.stream_id.value
    then if ltb p.remain (View.len chunk) then err chunk_too_large else ok (after_chunk p chunk)
    else err invalid_stream_id
admit (some p) (stream id (data_header flags size)) = err unexpected_frame_type
admit (some p) (stream id (window_update flags delta)) = err unexpected_frame_type
admit (some p) (session event) = err unexpected_frame_type
admit none (stream id (data_header flags size)) =
    ok (some (record { stream_id = id; remain = size }))
admit none (stream id (data_chunk chunk)) = err unexpected_frame_type
admit none (stream id (window_update flags delta)) = ok none
admit none (session event) = ok none

module _ {W : Type 0} ⦃w : ChunkBufferWriter W⦄ where
  -- `FrameWriter::write`.
  unfoldable pub write_frame :
      Frame → FrameWriter W → Exec (Result FrameWriterError (Unit {0}) × FrameWriter W)
  write_frame frame f = elim (admit f.pending frame) [
    | err e ↦ done (err e, f)
    | ok pending ↦
        write frame f.buffer >>= λ b. done (ok tt, record { pending = pending; buffer = b })
  ]

module _ {W : Type 0} ⦃s : ChunkBufferSource W⦄ where
  -- `FrameWriter::pop_front`.
  unfoldable pub pop_front : FrameWriter W → Option ChunkView × FrameWriter W
  pop_front f = let (chunk, b) = s.pop_front f.buffer in (chunk, record f { buffer = b })

-- `FrameWriter::take`.
abbrev pub take_buffer : {W : Type 0} → FrameWriter W → W
take_buffer f = f.buffer
