-- ===== src/Frame/Collect.antt =====
-- `FrameReader`: polled until it wants more bytes, it yields the messages in its buffer.
use yamux_low_mem.Prelude.{
  ℕ, zero, suc, ◌+◌, ◌<◌, ◌≡◌, refl, sym, ap, ap₂, ◌∙◌, none, some, List, [], ◌∷◌, ◌++◌,
  append_assoc, arith, eq→==, length, All, length-append, length-eq-zero, append_cut, done, ok,
}
use yamux_low_mem.Prelude.Word.{u32_mod}
use native.Mathlib.Decide.{ℕ_discrete}
use yamux_low_mem.Chunk.View.{ChunkView}
use yamux_low_mem.Chunk.View.Laws as ViewLaws
use yamux_low_mem.Chunk.View.Laws.{content}
use yamux_low_mem.Chunk.Traits.{ChunkBufferReader}
use yamux_low_mem.Chunk.Traits.Reads.{Reads, IsReader}
use yamux_low_mem.Packet.{StreamId, Flags, FrameType, new_header}
use yamux_low_mem.Packet.Wire.{length-header_bytes}
use yamux_low_mem.Frame.{
  Frame, session, stream, data_header, data_chunk, window_update, ping, go_away, FrameReader,
  next_frame, after_chunk, started, read,
}
use yamux_low_mem.Frame.Codec.{frame_bytes, frame-Reads}
use yamux_low_mem.Frame.Messages.{
  Message, control, update, payload, message_bytes, all_bytes, leading, assemble, IsSendable,
  all_bytes_nil,
}
use yamux_low_mem.Frame.Reading.{
  collect, collect_end, collect_step, next_frame_short, next_frame_header, next_frame_wait,
  next_frame_chunk, after_chunk_end, after_chunk_more,
}

module _ {R : Type 0} ⦃r : ChunkBufferReader R⦄ {Inv : R → Type 0} {bytes : R → List ℕ}
    (laws : IsReader Inv bytes r) where
  abbrev idle : R → FrameReader R
  idle b = record { buffer = b; pending = none }

  abbrev awaiting : StreamId → ℕ → R → FrameReader R
  awaiting id n b = record { buffer = b; pending = some (record { stream_id = id; remain = n }) }

  -- What `collect` gives between two messages.
  abbrev Idle : ℕ → Type 0
  Idle fuel =
      (b : R) (ms : List Message)
      → Inv b
      → bytes b ≡ all_bytes ms
      → All IsSendable ms
      → length (bytes b) < fuel
      → (frames : List Frame) × (collect fuel (idle b) ≡ done frames)
        × (assemble frames ≡ ms)
        × ((id : StreamId) → leading id frames ≡ [])

  -- What `collect` gives before the last bytes `ys` of a payload.
  abbrev Awaiting : ℕ → Type 0
  Awaiting fuel =
      (b : R) (id : StreamId) (ys : List ℕ) (ms : List Message)
      → Inv b
      → bytes b ≡ ys ++ all_bytes ms
      → All IsSendable ms
      → length ys < u32_mod
      → length (bytes b) + 1 < fuel
      → (frames : List Frame) × (collect fuel (awaiting id (length ys) b) ≡ done frames)
        × (assemble frames ≡ ms)
        × (leading id frames ≡ ys)

  -- A frame that stands for a message by itself, and then the rest.
  idle_frame :
      (fuel : ℕ) (f : Frame) (m : Message)
      → Idle fuel
      → Reads Inv bytes read (ok (some f)) (frame_bytes f)
      → started (ok (some f)) ≡ none
      → ((fs : List Frame) → assemble (f ∷ fs) ≡ m ∷ assemble fs)
      → ((id : StreamId) (fs : List Frame) → leading id (f ∷ fs) ≡ [])
      → 0 < length (frame_bytes f)
      → (b : R) (ms : List Message) → Inv b
      → bytes b ≡ frame_bytes f ++ all_bytes ms
      → All IsSendable ms
      → length (bytes b) < suc fuel
      → (frames : List Frame) × (collect (suc fuel) (idle b) ≡ done frames)
        × (assemble frames ≡ m ∷ ms)
        × ((id : StreamId) → leading id frames ≡ [])
  idle_frame fuel f m ih reads alone joins ends pos b ms inv e ok_ms small =
      let (b', run, inv', e') = next_frame_header laws f b (all_bytes ms) reads inv e in
      let shorter : length (bytes b') < fuel =
        omega (arith, ap length e, ap length e', length-append (frame_bytes f) (all_bytes ms)) in
      let (frames, rest, same, _) = ih b' ms inv' e' ok_ms shorter in
      (
        f ∷ frames,
        collect_step fuel (idle b) (idle b') f
            (run ∙ ap (λ p. done (ok (some f), record { buffer = b'; pending = p })) alone) rest,
        joins frames ∙ ap (◌∷◌ m) same,
        λ id. ends id frames,
      )

  idle_payload :
      (fuel : ℕ) (id : StreamId) (flags : Flags) (ys : List ℕ)
      → Awaiting fuel
      → IsSendable (payload id flags ys)
      → (b : R) (ms : List Message) → Inv b
      → bytes b ≡ message_bytes (payload id flags ys) ++ all_bytes ms
      → All IsSendable ms
      → length (bytes b) < suc fuel
      → (frames : List Frame) × (collect (suc fuel) (idle b) ≡ done frames)
        × (assemble frames ≡ payload id flags ys ∷ ms)
        × ((id' : StreamId) → leading id' frames ≡ [])
  unfolding started
  idle_payload fuel id flags ys ih sound b ms inv e ok_ms small =
      let f : Frame = stream id (data_header flags (length ys)) in
      let e0 : bytes b ≡ frame_bytes f ++ (ys ++ all_bytes ms) =
        e ∙ append_assoc (frame_bytes f) ys (all_bytes ms) in
      let (b', run, inv', e') =
        next_frame_header laws f b (ys ++ all_bytes ms) (frame-Reads laws f refl sound) inv e0 in
      let shorter : length (bytes b') + 1 < fuel = omega (
        arith,
        ap length e0,
        ap length e',
        length-append (frame_bytes f) (ys ++ all_bytes ms),
        length-header_bytes (new_header FrameType.data_frame flags id (length ys)),
      ) in
      let (frames, rest, same, front) = ih b' id ys ms inv' e' ok_ms sound.1 shorter in
      (
        f ∷ frames,
        collect_step fuel (idle b) (awaiting id (length ys) b') f run rest,
        ap₂ ◌∷◌ (ap (payload id flags) front) same,
        λ id'. refl,
      )

  Idle-step : (fuel : ℕ) → Idle fuel → Awaiting fuel → Idle (suc fuel)
  unfolding started
  Idle-step fuel ih wait b [] inv e ok_ms small = (
    [],
    collect_end fuel (idle b) (idle b) (next_frame_short laws b inv (omega (arith, ap length e))),
    refl,
    λ id. refl,
  )
  Idle-step fuel ih wait b (control (ping flags code) ∷ ms) inv e (s, ok_ms) small =
      idle_frame fuel (session (ping flags code)) _ ih (frame-Reads laws _ refl s) refl (λ fs. refl)
        (λ id fs. refl) (omega (arith, length-header_bytes)) b ms inv e ok_ms small
  Idle-step fuel ih wait b (control (go_away code) ∷ ms) inv e (s, ok_ms) small =
      idle_frame fuel (session (go_away code)) _ ih (frame-Reads laws _ refl s) refl (λ fs. refl)
        (λ id fs. refl) (omega (arith, length-header_bytes)) b ms inv e ok_ms small
  Idle-step fuel ih wait b (update id flags delta ∷ ms) inv e (s, ok_ms) small =
      idle_frame fuel (stream id (window_update flags delta)) _ ih (frame-Reads laws _ refl s) refl
        (λ fs. refl) (λ id' fs. refl) (omega (arith, length-header_bytes)) b ms inv e ok_ms small
  Idle-step fuel ih wait b (payload id flags ys ∷ ms) inv e (s, ok_ms) small =
      idle_payload fuel id flags ys wait s b ms inv e ok_ms small

  -- A chunk `c` of a payload `c ++ us`, and then the rest.
  chunk_step :
      (fuel : ℕ)
      → Idle fuel
      → Awaiting fuel
      → (b b' : R) (id : StreamId) (c : ChunkView) (us : List ℕ) (n : ℕ) (ms : List Message)
      → next_frame (awaiting id n b)
        ≡ done (
          ok (some (stream id (data_chunk c))),
          record { buffer = b'; pending = after_chunk (record { stream_id = id; remain = n }) c },
        )
      → ViewLaws.IsValid c
      → Inv b'
      → n ≡ length (content c) + length us
      → n < u32_mod
      → bytes b' ≡ us ++ all_bytes ms
      → All IsSendable ms
      → length (bytes b') < fuel
      → (0 < length us → length (bytes b') + 1 < fuel)
      → (frames : List Frame) × (collect (suc fuel) (awaiting id n b) ≡ done frames)
        × (assemble frames ≡ ms)
        × (leading id frames ≡ content c ++ us)
  chunk_step fuel ih wait b b' id c [] n ms run valid inv' total small e' ok_ms short shorter =
      let (frames, rest, same, ends) = ih b' ms inv' e' ok_ms short in
      let over : after_chunk (record { stream_id = id; remain = n }) c ≡ none =
        after_chunk_end (record { stream_id = id; remain = n }) valid small (omega arith) in
      (
        stream id (data_chunk c) ∷ frames,
        collect_step fuel (awaiting id n b) (idle b') _
            (run
              ∙ ap
                  (λ p.
                    done
                      (ok (some (stream id (data_chunk c))), record { buffer = b'; pending = p }))
                  over)
            rest,
        same,
        rw (eq→== id.value id.value refl, ends id),
      )
  chunk_step fuel ih wait b b' id c (u ∷ us) n ms run valid inv' total small e' ok_ms short
        shorter =
      let (frames, rest, same, front) =
        wait b' id (u ∷ us) ms inv' e' ok_ms (omega arith) (shorter (omega arith)) in
      let more : after_chunk (record { stream_id = id; remain = n }) c
          ≡ some (record { stream_id = id; remain = length (u ∷ us) }) =
        after_chunk_more (record { stream_id = id; remain = n }) (length (u ∷ us)) valid small total
          (omega arith) in
      (
        stream id (data_chunk c) ∷ frames,
        collect_step fuel (awaiting id n b) (awaiting id (length (u ∷ us)) b') _
            (run
              ∙ ap
                  (λ p.
                    done
                      (ok (some (stream id (data_chunk c))), record { buffer = b'; pending = p }))
                  more)
            rest,
        same,
        rw (eq→== id.value id.value refl, front),
      )

  Awaiting-step : (fuel : ℕ) → Idle fuel → Awaiting fuel → Awaiting (suc fuel)
  Awaiting-step fuel ih wait b id ys ms inv e ok_ms small short =
      elim (ℕ_discrete (length (bytes b)) 0) [
        | yes z ↦
            let none_left : bytes b ≡ [] = length-eq-zero (bytes b) z in
            let no_ys : ys ≡ [] =
              length-eq-zero ys (omega (arith, ap length e, length-append ys (all_bytes ms))) in
            let no_ms : ms ≡ [] = all_bytes_nil ms (
              length-eq-zero (all_bytes ms)
                (omega (arith, ap length e, length-append ys (all_bytes ms)))) in
            (
              [],
              collect_end fuel _ _ (next_frame_wait laws _ b inv none_left),
              sym no_ms,
              sym no_ys,
            )
        | no nz ↦
            let (c, b', run, valid, inv', cut, most, least) =
              next_frame_chunk laws (record { stream_id = id; remain = length ys }) b inv
                (omega arith) in
            let (us, front, back) =
              append_cut (content c) (bytes b') ys (all_bytes ms) (sym cut ∙ e) most in
            let size : length ys ≡ length (content c) + length us =
              ap length front ∙ length-append (content c) us in
            let total : length (bytes b) ≡ length (content c) + length (bytes b') =
              ap length cut ∙ length-append (content c) (bytes b') in
            let (frames, rest, same, lead) =
              chunk_step fuel ih wait b b' id c us (length ys) ms run valid inv' size small back
                ok_ms (omega (arith, total, short))
                (λ p. omega (arith, total, short, least, size)) in
            (frames, rest, same, lead ∙ sym front)
      ]

  collect_all : (fuel : ℕ) → Idle fuel × Awaiting fuel
  collect_all zero = (
    λ b ms inv e ok_ms small. absurd (omega arith),
    λ b id ys ms inv e ok_ms small short. absurd (omega arith),
  )
  collect_all (suc fuel) =
      let (ih, wait) = collect_all fuel in (Idle-step fuel ih wait, Awaiting-step fuel ih wait)

  -- For every reader that keeps the promises of ChunkBufferReader and holds the bytes of a list of
  -- sendable messages, however they are spread over chunks: polling FrameReader::next_frame from
  -- the start of a frame ends, with one more round than there are bytes as its fuel, without a
  -- panic or an error, and the frames that it yields stand for exactly these messages.
  pub collect-assemble :
      (b : R) (ms : List Message)
      → Inv b
      → bytes b ≡ all_bytes ms
      → All IsSendable ms
      → (frames : List Frame) × (collect
            (suc (length (bytes b)))
            (record { buffer = b; pending = none })
          ≡ done frames)
        × (assemble frames ≡ ms)
  collect-assemble b ms inv e ok_ms =
      let (frames, run, same, _) =
        (collect_all (suc (length (bytes b)))).0 b ms inv e ok_ms (omega arith) in
      (frames, run, same)
