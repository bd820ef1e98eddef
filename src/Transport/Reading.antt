-- ===== src/Transport/Reading.antt =====
-- `YamuxTransport::poll_next`: what the code relies on of the byte stream, and how a call ends.
pub mod Loop
use yamux_low_mem.Prelude.{
  ℕ, ◌+◌, ◌^◌, ◌≤◌, ◌<◌, ◌≡◌, refl, sym, ap, ◌∙◌, ◌⊎◌, inl, inr, Option, none, some, List, [], ◌++◌,
  arith, length, All, length-append, Poll, ready, pending, Result, ok, err,
}
use yamux_low_mem.Prelude.Word.{IsByte}
use yamux_low_mem.Chunk.View.Laws as ViewLaws
use yamux_low_mem.Chunk.Reader.{reader, sink}
use yamux_low_mem.Chunk.Reader.Invariant.{IsValid, bytes}
use yamux_low_mem.Frame.{Frame, admit}
use yamux_low_mem.Frame.Codec.{IsSound}
use yamux_low_mem.Frame.Progress.{frames_left, IsRunning}
use yamux_low_mem.Transport.{ByteStream, YamuxTransport, YamuxTransportError}

-- What the code relies on of `AsyncRead`: `avail` are the bytes that have arrived, finitely many.
-- A read into a buffer with room gives some of them, from the front and no more than there is room
-- for, or waits, or is at its end, or fails; and a read writes nothing.
pub record IsSource {E T : Type 0} (s : ByteStream E T) (avail sent : T → List ℕ) : Type 0 where
  pub read_some :
      (n : ℕ) (t : T)
      → 0 < n
      → ((ys : List ℕ) × (t' : T) × (s.poll_read n t ≡ (ready (ok ys), t'))
          × (0 < length ys)
          × (length ys ≤ n)
          × (avail t ≡ ys ++ avail t')
          × (sent t' ≡ sent t))
        ⊎ ((a : Poll (Result E (List ℕ))) × (t' : T) × (s.poll_read n t ≡ (a, t'))
            × ((a ≡ pending) ⊎ ((a ≡ ready (ok [])) ⊎ ((e : E) × (a ≡ ready (err e)))))
            × (avail t' ≡ avail t)
            × (sent t' ≡ sent t))
  pub eight : (t : T) → All IsByte (avail t)

module _ {T : Type 0} (avail : T → List ℕ) where
  -- The bytes that are still to be read as frames.
  abbrev pub incoming : YamuxTransport T → List ℕ
  incoming x = bytes x.reader.buffer ++ avail x.stream

  -- An upper bound of the frames that can still be read.
  abbrev pub work : YamuxTransport T → ℕ
  work x = frames_left bytes x.reader + (length (avail x.stream) + length (avail x.stream))

  pub record IsReading (x : YamuxTransport T) : Type 0 where
    pub running : IsRunning IsValid bytes x.reader
    pub small : length (incoming x) < 2 ^ 63

module _ {E T : Type 0} (avail sent : T → List ℕ) where
  -- What `poll_next` is to end with.
  pub record Arrived (x x' : YamuxTransport T)
      (a : Poll (Option (Result (YamuxTransportError E) Frame))) : Type 0 where
    pub reading : IsReading avail x'
    pub kept : x' ≡ record x { stream = x'.stream; reader = x'.reader }
    pub quiet : sent x'.stream ≡ sent x.stream
    pub taken : List ℕ
    pub cut : incoming avail x ≡ taken ++ incoming avail x'
    pub outcome :
        ((frame : Frame) × (a ≡ ready (some (ok frame)))
          × IsSound frame
          × (admit x.reader.pending frame ≡ ok x'.reader.pending)
          × (work avail x' < work avail x))
        ⊎ ((a ≡ pending)
            ⊎ ((a ≡ ready none) ⊎ ((e : YamuxTransportError E) × (a ≡ ready (some (err e))))))

  -- The same from `x`, when only bytes went from the stream to the reader on the way to `y`.
  pub Arrived-after :
      (x y x' : YamuxTransport T) (a : Poll (Option (Result (YamuxTransportError E) Frame)))
      → y ≡ record x { stream = y.stream; reader = y.reader }
      → y.reader.pending ≡ x.reader.pending
      → sent y.stream ≡ sent x.stream
      → incoming avail x ≡ incoming avail y
      → work avail y ≤ work avail x
      → Arrived y x' a
      → Arrived x x' a
  Arrived-after x y x' a kept same quiet cut less r = record {
    reading = r.reading;
    kept =
        r.kept
        ∙ ap (λ (z : YamuxTransport T). record z { stream = x'.stream; reader = x'.reader }) kept;
    quiet = r.quiet ∙ quiet;
    taken = r.taken;
    cut = cut ∙ r.cut;
    outcome = elim r.outcome [
      | inl (frame, yields, sound, admitted, progress) ↦ inl (
        frame,
        yields,
        sound,
        ap (λ p. admit p frame) (sym same) ∙ admitted,
        omega (arith, progress, less),
      )
      | inr stop ↦ inr stop
    ];
  }

  -- Without bytes, only the stream changes.
  pub stopped :
      (x : YamuxTransport T) (t : T) (a : Poll (Option (Result (YamuxTransportError E) Frame)))
      → IsReading avail x
      → avail t ≡ avail x.stream
      → sent t ≡ sent x.stream
      → (a ≡ pending)
        ⊎ ((a ≡ ready none) ⊎ ((e : YamuxTransportError E) × (a ≡ ready (some (err e)))))
      → Arrived x (record x { stream = t }) a
  stopped x t a g same quiet stop = record {
    reading = record {
      running = g.running;
      small = omega (
        arith,
        g.small,
        ap length same,
        length-append (bytes x.reader.buffer) (avail x.stream),
        length-append (bytes x.reader.buffer) (avail t),
      );
    };
    kept = refl;
    quiet = quiet;
    taken = [];
    cut = ap (λ q. bytes x.reader.buffer ++ q) (sym same);
    outcome = inr stop;
  }
