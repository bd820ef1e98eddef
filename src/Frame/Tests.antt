-- ===== src/Frame/Tests.antt =====
-- Tests of src/frame.rs: a payload in two pieces, on its way through a writer and a reader.
use yamux_low_mem.Prelude.{
  ℕ, suc, ◌+◌, ◌^◌, ◌<◌, ◌≡◌, refl, sym, ap, ◌∙◌, ◌↔◌, ◌⊎◌, Option, none, some, List, [], ◌∷◌, ◌++◌,
  arith, length, take, drop, All, take-append-drop, done, ok, err,
}
use yamux_low_mem.Prelude.Word.{sub_usize}
use yamux_low_mem.Chunk.View.{ChunkView, view_of_slice}
use yamux_low_mem.Chunk.View
use yamux_low_mem.Chunk.View.Laws as ViewLaws
use yamux_low_mem.Chunk.Writer.{ChainedChunkBufferWriter, writer}
use yamux_low_mem.Chunk.Writer
use yamux_low_mem.Chunk.Writer.Invariant as WriterInvariant
use yamux_low_mem.Chunk.Writer.Append.{writer-IsWriter}
use yamux_low_mem.Chunk.Reader.{view_reader, ChainedChunkBufferReader, reader, push_back}
use yamux_low_mem.Chunk.Reader
use yamux_low_mem.Chunk.Reader.Invariant as ReaderInvariant
use yamux_low_mem.Chunk.Reader.Laws.{view_reader-IsReader, reader-IsReader}
use yamux_low_mem.Packet.{StreamId, syn_flags}
use yamux_low_mem.Packet.Wire.{header_bytes}
use yamux_low_mem.Frame.{
  Frame, session, stream, data_header, data_chunk, ping, FrameWriterError, PendingPayload,
  unexpected_frame_type, chunk_too_large, invalid_stream_id, admit, after_chunk, next_frame,
  write_frame,
}
use yamux_low_mem.Frame.Progress.{Stepped, next_frame_total}
use yamux_low_mem.Prelude.Word.{IsByte}
use yamux_low_mem.Packet.{ParserError}
use yamux_low_mem.Frame.{FrameReader}
use yamux_low_mem.Prelude.{subst, Result, Option, All}
use yamux_low_mem.Frame.Codec.{frame_bytes, IsSound}
use yamux_low_mem.Frame.Messages.{assemble, all_bytes, IsSendable, payload, control}
use yamux_low_mem.Frame.Admitted.{admit_all, frames_bytes, CanWrite, admit_iff}
use yamux_low_mem.Frame.Stands.{admitted-all_bytes}
use yamux_low_mem.Frame.Reading.{collect}
use yamux_low_mem.Frame.Collect.{collect-assemble}
use yamux_low_mem.Frame.Writing.{write_all, write_all_lem, write_frame_lem, collect-write_all}

abbrev one : StreamId
one = record { value = 1 }

abbrev two : StreamId
two = record { value = 2 }

abbrev pair : ChunkView
pair = view_of_slice (7 ∷ 8 ∷ [])

abbrev frames : List Frame
frames =
    stream one (data_header syn_flags 2)
    ∷ stream one (data_chunk pair)
    ∷ session (ping syn_flags 5)
    ∷ []

pair-IsValid : ViewLaws.IsValid pair
pair-IsValid = (ViewLaws.view_of_slice_lem (7 ∷ 8 ∷ []) (omega arith)).0

frames-IsSound : All IsSound frames
frames-IsSound = ((omega arith, omega arith), (pair-IsValid, (omega arith, tt)))

frames_admitted : admit_all none frames ≡ ok none
unfolding admit after_chunk View.len view_of_slice sub_usize
frames_admitted = refl

-- A control frame has to wait for the payload; so has a chunk of another stream, and one too long.
admit_refuses :
    (admit (some (record { stream_id = one; remain = 1 })) (session (ping syn_flags 5))
      ≡ err unexpected_frame_type)
    × (admit (some (record { stream_id = one; remain = 1 })) (stream one (data_chunk pair))
        ≡ err chunk_too_large)
    × (admit (some (record { stream_id = one; remain = 2 })) (stream two (data_chunk pair))
        ≡ err invalid_stream_id)
    × (admit none (stream one (data_chunk pair)) ≡ err unexpected_frame_type)
unfolding admit after_chunk View.len view_of_slice sub_usize
admit_refuses = (refl, refl, refl, refl)

frames-assemble :
    assemble frames ≡ payload one syn_flags (7 ∷ 8 ∷ []) ∷ control (ping syn_flags 5) ∷ []
unfolding view_of_slice
frames-assemble = refl

frames_length : length (frames_bytes frames) ≡ 26
unfolding view_of_slice header_bytes
frames_length = refl

room : WriterInvariant.Room (length (frames_bytes frames) + 0) Writer.new
room = WriterInvariant.new-Room _ (omega (arith, frames_length))

fresh : WriterInvariant.bytes Writer.new ≡ []
unfolding Writer.new
fresh = refl

written :
    (b : ChainedChunkBufferWriter) × (write_all frames
        (record { pending = none; buffer = Writer.new })
      ≡ done (ok tt, record { pending = none; buffer = b }))
    × WriterInvariant.Room 0 b
    × (WriterInvariant.bytes b ≡ WriterInvariant.bytes Writer.new ++ frames_bytes frames)
written =
    write_all_lem writer-IsWriter frames none none 0 Writer.new frames-IsSound frames_admitted room

-- The bytes arrive in two chunks, and the cut is in the payload.
abbrev head : List ℕ
head = take 13 (frames_bytes frames)

abbrev tail : List ℕ
tail = drop 13 (frames_bytes frames)

abbrev arrived : ChainedChunkBufferReader
arrived = push_back (view_of_slice tail) (push_back (view_of_slice head) Reader.new)

head_length : length head ≡ 13
unfolding view_of_slice header_bytes
head_length = refl

tail_length : length tail ≡ 13
unfolding view_of_slice header_bytes
tail_length = refl

-- Bytes that arrive in one chunk.
pub arrive :
    (r : ChainedChunkBufferReader) (s : List ℕ)
    → ReaderInvariant.IsValid r
    → 0 < length s
    → length (ReaderInvariant.bytes r) + length s < 2 ^ 63
    → ReaderInvariant.IsValid (push_back (view_of_slice s) r)
      × (ReaderInvariant.bytes (push_back (view_of_slice s) r) ≡ ReaderInvariant.bytes r ++ s)
arrive r s v pos small =
    let (valid, same) = ViewLaws.view_of_slice_lem s (omega arith) in
    let (v', grown) =
      ReaderInvariant.push_back_lem (view_of_slice s) r v (valid, omega (arith, ap length same))
        (omega (arith, ap length same)) in
    (v', grown ∙ ap (λ t. ReaderInvariant.bytes r ++ t) same)

pub none_yet : ReaderInvariant.bytes Reader.new ≡ []
unfolding Reader.new
none_yet = refl

arrived_lem :
    ReaderInvariant.IsValid arrived × (ReaderInvariant.bytes arrived ≡ frames_bytes frames)
arrived_lem =
    let (v1, e1) =
      arrive Reader.new head ReaderInvariant.new-IsValid (omega (arith, head_length))
        (omega (arith, head_length, ap length none_yet)) in
    let first : ReaderInvariant.bytes (push_back (view_of_slice head) Reader.new) ≡ head =
      e1 ∙ ap (λ t. t ++ head) none_yet in
    let (v2, e2) =
      arrive (push_back (view_of_slice head) Reader.new) tail v1 (omega (arith, tail_length))
        (omega (arith, ap length first, head_length, tail_length)) in
    (v2, e2 ∙ ap (λ t. t ++ tail) first ∙ take-append-drop 13 (frames_bytes frames))

collect-write_all_example :
    (fs : List Frame) × (collect
        (suc (length (ReaderInvariant.bytes arrived)))
        (record { buffer = arrived; pending = none })
      ≡ done fs)
    × (assemble fs ≡ assemble frames)
collect-write_all_example =
    collect-write_all writer-IsWriter reader-IsReader frames 0 Writer.new arrived
      {f = record { pending = none; buffer = written.0 }} frames-IsSound frames_admitted room fresh
      written.1 arrived_lem.0
      (arrived_lem.1 ∙ sym (written.3 ∙ ap (λ t. t ++ frames_bytes frames) fresh))

-- The messages `frames` stands for, and their bytes.
admitted-all_bytes_example :
    All IsSendable (assemble frames) × (frames_bytes frames ≡ all_bytes (assemble frames))
admitted-all_bytes_example = admitted-all_bytes frames frames-IsSound frames_admitted

collect-assemble_example :
    (fs : List Frame) × (collect
        (suc (length (ReaderInvariant.bytes arrived)))
        (record { buffer = arrived; pending = none })
      ≡ done fs)
    × (assemble fs ≡ assemble frames)
collect-assemble_example =
    collect-assemble reader-IsReader arrived (assemble frames) arrived_lem.0
      (arrived_lem.1 ∙ admitted-all_bytes_example.1) admitted-all_bytes_example.0

admit_iff_example :
    (admit none (stream one (data_header syn_flags 2))
      ≡ ok (some (record { stream_id = one; remain = 2 })))
    ↔ CanWrite none
        (stream one (data_header syn_flags 2))
        (some (record { stream_id = one; remain = 2 }))
admit_iff_example =
    admit_iff none (some (record { stream_id = one; remain = 2 }))
      (stream one (data_header syn_flags 2)) tt

abbrev awaited : PendingPayload
awaited = record { stream_id = one; remain = 1 }

write_frame_lem_example :
    ((q : Option PendingPayload) × (b' : ChainedChunkBufferWriter) × CanWrite
        (some awaited)
        (stream one (data_chunk pair))
        q
      × (write_frame
            (stream one (data_chunk pair))
            (record { pending = some awaited; buffer = Writer.new })
          ≡ done (ok tt, record { pending = q; buffer = b' }))
      × WriterInvariant.Room 0 b'
      × (WriterInvariant.bytes b'
          ≡ WriterInvariant.bytes Writer.new ++ frame_bytes (stream one (data_chunk pair))))
    ⊎ ((e : FrameWriterError) × ((q : Option PendingPayload)
          → ¬ CanWrite (some awaited) (stream one (data_chunk pair)) q)
        × (write_frame
              (stream one (data_chunk pair))
              (record { pending = some awaited; buffer = Writer.new })
            ≡ done (err e, record { pending = some awaited; buffer = Writer.new })))
write_frame_lem_example =
    write_frame_lem writer-IsWriter (stream one (data_chunk pair)) (some awaited) 0 Writer.new
      pair-IsValid (omega arith)
      (WriterInvariant.new-Room _
        (omega (arith, ap length (ViewLaws.view_of_slice_lem (7 ∷ 8 ∷ []) (omega arith)).1)))

pair_eight : All IsByte (ViewLaws.content pair)
pair_eight =
    subst (All IsByte) (sym (ViewLaws.view_of_slice_lem (7 ∷ 8 ∷ []) (omega arith)).1)
      (omega arith, (omega arith, tt))

next_frame_total_example :
    (a : Result ParserError (Option Frame)) × (f' : FrameReader ChunkView) × (next_frame
        (record { buffer = pair; pending = some awaited })
      ≡ done (a, f'))
    × Stepped ViewLaws.IsValid ViewLaws.content
        (record { buffer = pair; pending = some awaited })
        f'
        a
next_frame_total_example =
    next_frame_total view_reader-IsReader (record { buffer = pair; pending = some awaited })
      (record { buffer = pair-IsValid; eight = pair_eight; pending = omega arith })
