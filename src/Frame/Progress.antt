-- ===== src/Frame/Progress.antt =====
-- `FrameReader::next_frame` on any bytes: it ends, and makes progress with each frame.
use yamux_low_mem.Prelude.{
  ℕ, ◌+◌, ◌≤◌, ◌<◌, ◌≡◌, refl, sym, ap, subst, ◌∙◌, ◌⊎◌, inl, inr, Option, none, some, List, [],
  ◌++◌, arith, ltb, ◌==◌, ltb→lt, ltb→le, Bool-cases, length, take, All, length-append,
  take-append-drop, length-drop, length-eq-zero, All-split, done, Result, ok, err,
}
use yamux_low_mem.Prelude.Word.{IsByte, u32_mod}
use yamux_low_mem.Chunk.View.{ChunkView}
use yamux_low_mem.Chunk.View.Laws as ViewLaws
use yamux_low_mem.Chunk.View.Laws.{content}
use yamux_low_mem.Chunk.Traits.{ChunkBufferReader}
use yamux_low_mem.Chunk.Traits.Reads.{IsReader}
use yamux_low_mem.Packet.{Header, FrameType, ParserError, unknown_type, header_len}
use yamux_low_mem.Packet.Wire.{IsWide, read_total}
use yamux_low_mem.Frame.{
  Frame, stream, data_chunk, frame_of, frame_of_header, FrameReader, PendingPayload, next_frame,
  after_chunk, started, admit, read,
}
use yamux_low_mem.Frame.Codec.{IsSound}
use yamux_low_mem.Frame.Admitted.{IsPending, chunk_next}
use yamux_low_mem.Frame.Reading.{next_frame_short, next_frame_wait, next_frame_chunk}

-- The frame of a header is sound, and starts what a `FrameWriter` that wrote it would await.
frame_of_lem :
    (h : Header)
    → IsWide h
    → IsSound (frame_of h)
      × (admit none (frame_of h) ≡ ok (started (ok (some (frame_of h)))))
      × IsPending (started (ok (some (frame_of h))))
unfolding frame_of started admit
frame_of_lem h wide = go h.type
  where
    go :
        (t : FrameType)
        → IsSound (frame_of (record h { type = t }))
          × (admit none (frame_of (record h { type = t }))
              ≡ ok (started (ok (some (frame_of (record h { type = t }))))))
          × IsPending (started (ok (some (frame_of (record h { type = t })))))
    go FrameType.data_frame = ((wide.id_in, wide.length_in), refl, wide.length_in)
    go FrameType.window_update = ((wide.id_in, wide.length_in), refl, tt)
    go FrameType.ping = (wide.length_in, refl, tt)
    go FrameType.go_away = (wide.length_in, refl, tt)

-- A chunk that fits what is left of a payload is one that a `FrameWriter` would admit.
chunk_lem :
    (p : PendingPayload) (c : ChunkView)
    → ViewLaws.IsValid c
    → length (content c) ≤ p.remain
    → admit (some p) (stream p.stream_id (data_chunk c)) ≡ ok (after_chunk p c)
unfolding admit
chunk_lem p c v fits = ground (arith, ViewLaws.len_lem v)

-- Of an upper bound of the frames that are left: twice the bytes, and one for a payload.
abbrev pub weight : Option PendingPayload → ℕ
weight none = 0
weight (some p) = 1

weight-le : (p : Option PendingPayload) → weight p ≤ 1
weight-le none = omega arith
weight-le (some p) = omega arith

module _ {R : Type 0} ⦃r : ChunkBufferReader R⦄ (bytes : R → List ℕ) where
  abbrev pub frames_left : FrameReader R → ℕ
  frames_left f = length (bytes f.buffer) + length (bytes f.buffer) + weight f.pending

module _ {R : Type 0} ⦃r : ChunkBufferReader R⦄ (Inv : R → Type 0) (bytes : R → List ℕ) where
  -- A reader of bytes whose payload, if one is pending, fits a `u32`.
  pub record IsRunning (f : FrameReader R) : Type 0 where
    pub buffer : Inv f.buffer
    pub eight : All IsByte (bytes f.buffer)
    pub pending : IsPending f.pending

  -- What `next_frame` is to end with.
  pub record Stepped (f f' : FrameReader R) (a : Result ParserError (Option Frame)) : Type 0 where
    pub running : IsRunning f'
    pub taken : List ℕ
    pub cut : bytes f.buffer ≡ taken ++ bytes f'.buffer
    pub outcome :
        ((frame : Frame) × (a ≡ ok (some frame))
          × IsSound frame
          × (admit f.pending frame ≡ ok f'.pending)
          × (frames_left bytes f' < frames_left bytes f))
        ⊎ (((a ≡ ok none) × (f' ≡ f) × (length (bytes f.buffer) < header_len))
            ⊎ ((e : ParserError) × (a ≡ err e) × (f.pending ≡ none)))

module _ {R : Type 0} ⦃r : ChunkBufferReader R⦄ {Inv : R → Type 0} {bytes : R → List ℕ}
    (laws : IsReader Inv bytes r) where
  abbrev Steps : FrameReader R → Type 0
  Steps f =
      (a : Result ParserError (Option Frame)) × (f' : FrameReader R) × (next_frame f ≡ done (a, f'))
      × Stepped Inv bytes f f' a

  header_step :
      (b : R) → Inv b → All IsByte (bytes b) → Steps (record { buffer = b; pending = none })
  unfolding next_frame read frame_of_header started
  header_step b inv eight = elim (Bool-cases (ltb (length (bytes b)) header_len)) [
    | inl short ↦ (
      ok none,
      record { buffer = b; pending = none },
      next_frame_short laws b inv (ltb→lt _ _ short),
      record {
        running = record { buffer = inv; eight = eight; pending = tt };
        taken = [];
        cut = refl;
        outcome = inr (inl (refl, refl, ltb→lt _ _ short));
      },
    )
    | inr long ↦
        let (a, b', run, inv', left, kinds) = read_total laws b inv eight (ltb→le _ _ long) in
        let cut : bytes b ≡ take header_len (bytes b) ++ bytes b' =
          sym (
            ap (λ q. take header_len (bytes b) ++ q) left
            ∙ take-append-drop header_len (bytes b)) in
        let eight' : All IsByte (bytes b') =
          (All-split IsByte (take header_len (bytes b)) (bytes b')
            (subst (All IsByte) cut eight)).1 in
        let fewer : length (bytes b') + header_len ≡ length (bytes b) =
          omega (arith, ap length left, length-drop header_len (bytes b), ltb→le _ _ long) in
        elim kinds [
          | inl (h, good, wide) ↦
              let (sound, admitted, awaited) = frame_of_lem h wide in
              (
                ok (some (frame_of h)),
                record { buffer = b'; pending = started (ok (some (frame_of h))) },
                rw (run, good) refl,
                record {
                  running = record { buffer = inv'; eight = eight'; pending = awaited };
                  taken = take header_len (bytes b);
                  cut = cut;
                  outcome = inl (
                    frame_of h,
                    refl,
                    sound,
                    admitted,
                    omega (arith, fewer, weight-le (started (ok (some (frame_of h))))),
                  );
                },
              )
          | inr (t, big, _, bad) ↦ (
            err (unknown_type t),
            record { buffer = b'; pending = none },
            rw (run, bad) refl,
            record {
              running = record { buffer = inv'; eight = eight'; pending = tt };
              taken = take header_len (bytes b);
              cut = cut;
              outcome = inr (inr (_, refl, refl));
            },
          )
        ]
  ]

  chunk_step :
      (p : PendingPayload) (b : R)
      → Inv b
      → All IsByte (bytes b)
      → p.remain < u32_mod
      → 0 < length (bytes b)
      → Steps (record { buffer = b; pending = some p })
  chunk_step p b inv eight word some_left =
      let (c, b', run, valid, inv', cut, fits, least) = next_frame_chunk laws p b inv some_left in
      let eight' : All IsByte (bytes b') =
        (All-split IsByte (content c) (bytes b') (subst (All IsByte) cut eight)).1 in
      let admitted = chunk_lem p c valid fits in
      let fewer : length (content c) + length (bytes b') ≡ length (bytes b) =
        omega (arith, ap length cut, length-append (content c) (bytes b')) in
      let (awaited, less) : IsPending (after_chunk p c)
          × (length (bytes b') + length (bytes b') + weight (after_chunk p c)
              < length (bytes b) + length (bytes b) + 1) =
        elim (chunk_next p p.stream_id c word admitted).1 [
          | inl (all, over) ↦ (subst IsPending over tt, omega (arith, fewer, ap weight over))
          | inr (more, goes_on) ↦ (
            subst IsPending goes_on (omega (arith, word)),
            omega (arith, fewer, ap weight goes_on, more, least, ViewLaws.len_lem valid),
          )
        ] in
      (
        ok (some (stream p.stream_id (data_chunk c))),
        record { buffer = b'; pending = after_chunk p c },
        run,
        record {
          running = record { buffer = inv'; eight = eight'; pending = awaited };
          taken = content c;
          cut = cut;
          outcome = inl (stream p.stream_id (data_chunk c), refl, valid, admitted, less);
        },
      )

  -- From a well-formed buffer of any bytes, and with a pending payload that fits a u32:
  -- FrameReader::next_frame ends without a panic and takes a front part of the bytes, in one of
  -- three ways. It yields a sound frame, which a FrameWriter in the same state would admit and
  -- which leaves that writer with the same payload pending, and less is left to yield; or it asks
  -- for more bytes, with less than a header of them, and changes nothing; or it refuses a header.
  pub next_frame_total :
      (f : FrameReader R)
      → IsRunning Inv bytes f
      → (a : Result ParserError (Option Frame)) × (f' : FrameReader R) × (next_frame f
          ≡ done (a, f'))
        × Stepped Inv bytes f f' a
  next_frame_total f g = go f.pending g.pending
    where
      go : (p : Option PendingPayload) → IsPending p → Steps (record f { pending = p })
      go none h = header_step f.buffer g.buffer g.eight
      go (some p) h = elim (Bool-cases (length (bytes f.buffer) == 0)) [
        | inl nothing ↦
            let empty : bytes f.buffer ≡ [] = length-eq-zero (bytes f.buffer) (ground arith) in
            (
              ok none,
              record f { pending = some p },
              next_frame_wait laws p f.buffer g.buffer empty,
              record {
                running = record { buffer = g.buffer; eight = g.eight; pending = h };
                taken = [];
                cut = refl;
                outcome = inr (inl (refl, refl, omega (arith, ap length empty)));
              },
            )
        | inr something ↦ chunk_step p f.buffer g.buffer g.eight h (ground arith)
      ]
