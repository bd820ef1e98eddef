-- ===== src/Transport/Reading/Loop.antt =====
-- The loop of `YamuxTransport::poll_next`: it ends on any bytes.
use yamux_low_mem.Prelude.{
  ℕ, zero, suc, ◌+◌, ◌^◌, ◌≤◌, ◌<◌, ◌≡◌, refl, sym, ap, subst, ◌∙◌, ◌⊎◌, inl, inr, Option, none,
  some, List, [], ◌∷◌, ◌++◌, append_assoc, arith, length, All, length-append, All-append, All-split,
  Exec, Poll, ready, pending, done, Result, ok, err, ◌>>=◌,
}
use yamux_low_mem.Prelude.Word.{IsByte}
use yamux_low_mem.Chunk.View.{ChunkView, view_of_vec}
use yamux_low_mem.Chunk.View.Laws.{view_of_vec_lem}
use yamux_low_mem.Chunk.Reader.{ChainedChunkBufferReader, reader, sink}
use yamux_low_mem.Chunk.Reader.Invariant.{bytes, push_back_lem}
use yamux_low_mem.Chunk.Reader.Laws.{reader-IsReader}
use yamux_low_mem.Frame.{Frame, FrameReader, next_frame, push_back}
use yamux_low_mem.Frame.Progress.{next_frame_total}
use yamux_low_mem.Transport.{
  ByteStream, YamuxTransport, YamuxTransportError, io, parser_error, after_frame, on_read,
  read_loop, poll_next,
}
use yamux_low_mem.Transport.Reading.{
  IsSource, incoming, work, IsReading, Arrived, Arrived-after, stopped,
}

module _ {E T : Type 0} ⦃s : ByteStream E T⦄ {avail sent : T → List ℕ}
    (laws : IsSource s avail sent) where
  abbrev Reads :
      Exec (Poll (Option (Result (YamuxTransportError E) Frame)) × YamuxTransport T)
      → YamuxTransport T
      → Type 0
  Reads run x =
      (a : Poll (Option (Result (YamuxTransportError E) Frame))) × (x' : YamuxTransport T) × (run
        ≡ done (a, x'))
      × Arrived avail sent x x' a

  -- What `next_frame` decides for the reader of `y`: to return, or to do what is `otherwise`.
  decide :
      (otherwise : FrameReader ChainedChunkBufferReader
        → Exec (Poll (Option (Result (YamuxTransportError E) Frame)) × YamuxTransport T))
      (y : YamuxTransport T)
      → IsReading avail y
      → Reads (otherwise y.reader) y
      → Reads
          (next_frame y.reader >>= λ out.
            after_frame (otherwise out.1) out.0 (record y { reader = out.1 }))
          y
  unfolding after_frame
  decide otherwise y g more =
      let (a, f', run, p) = next_frame_total reader-IsReader y.reader g.running in
      let y' : YamuxTransport T = record y { reader = f' } in
      let cut : incoming avail y ≡ p.taken ++ incoming avail y' =
        ap (λ q. q ++ avail y.stream) p.cut
        ∙ append_assoc p.taken (bytes f'.buffer) (avail y.stream) in
      let reading : IsReading avail y' = record {
        running = p.running;
        small = omega (arith, g.small, ap length cut, length-append p.taken (incoming avail y'));
      } in
      elim p.outcome [
        | inl (frame, yields, sound, admitted, progress) ↦ (
          ready (some (ok frame)),
          y',
          rw (run, yields) refl,
          record {
            reading = reading;
            kept = refl;
            quiet = refl;
            taken = p.taken;
            cut = cut;
            outcome = inl (frame, refl, sound, admitted, omega (arith, progress));
          },
        )
        | inr (inl (waits, same, _)) ↦
            let (b, x', rest, r) = more in
            (b, x', rw (run, waits, after_frame) (ap otherwise same ∙ rest), r)
        | inr (inr (e, refused, _)) ↦ (
          ready (some (err (parser_error e))),
          y',
          rw (run, refused) refl,
          record {
            reading = reading;
            kept = refl;
            quiet = refl;
            taken = p.taken;
            cut = cut;
            outcome = inr (inr (inr (parser_error e, refl)));
          },
        )
      ]

  after_read :
      (fuel : ℕ) (x : YamuxTransport T) (answer : Poll (Result E (List ℕ))) (t : T)
      → s.poll_read 4096 x.stream ≡ (answer, t)
      → read_loop (suc fuel) x ≡ on_read (read_loop fuel) answer (record x { stream = t })
  unfolding read_loop
  after_read fuel x answer t run =
      ap
        (λ (p : Poll (Result E (List ℕ)) × T).
          on_read (read_loop fuel) p.0 (record x { stream = p.1 }))
        run

  -- A read that gives no bytes ends the call.
  no_bytes :
      (fuel : ℕ) (x : YamuxTransport T) (answer : Poll (Result E (List ℕ))) (t : T)
      → IsReading avail x
      → s.poll_read 4096 x.stream ≡ (answer, t)
      → (answer ≡ pending) ⊎ ((answer ≡ ready (ok [])) ⊎ ((e : E) × (answer ≡ ready (err e))))
      → avail t ≡ avail x.stream
      → sent t ≡ sent x.stream
      → Reads (read_loop (suc fuel) x) x
  unfolding on_read
  no_bytes fuel x answer t g run stop same quiet = elim stop [
    | inl waits ↦ (
      pending,
      record x { stream = t },
      after_read fuel x pending t (run ∙ ap (λ a. (a, t)) waits),
      stopped avail sent x t pending g same quiet (inl refl),
    )
    | inr (inl ended) ↦ (
      ready none,
      record x { stream = t },
      after_read fuel x (ready (ok [])) t (run ∙ ap (λ a. (a, t)) ended),
      stopped avail sent x t (ready none) g same quiet (inr (inl refl)),
    )
    | inr (inr (e, failed)) ↦ (
      ready (some (err (io e))),
      record x { stream = t },
      after_read fuel x (ready (err e)) t (run ∙ ap (λ a. (a, t)) failed),
      stopped avail sent x t (ready (some (err (io e)))) g same quiet (inr (inr (io e, refl))),
    )
  ]

  -- The bytes of a read, handed to the reader.
  abbrev feed : YamuxTransport T → ℕ → List ℕ → T → YamuxTransport T
  feed x b bs t = record x {
    stream = t;
    reader =
        push_back (view_of_vec (record { items = b ∷ bs; capacity = length (b ∷ bs) })) x.reader;
  }

  fed :
      (x : YamuxTransport T) (b : ℕ) (bs : List ℕ) (t : T)
      → IsReading avail x
      → length (b ∷ bs) ≤ 4096
      → avail x.stream ≡ b ∷ bs ++ avail t
      → IsReading avail (feed x b bs t)
        × (incoming avail x ≡ incoming avail (feed x b bs t))
        × (work avail (feed x b bs t) ≡ work avail x)
  unfolding push_back
  fed x b bs t g few cut =
      let c : ChunkView = view_of_vec (record { items = b ∷ bs; capacity = length (b ∷ bs) }) in
      let (valid, shows) = view_of_vec_lem (b ∷ bs) (omega (arith, few)) in
      let both : length (bytes x.reader.buffer) + (length (b ∷ bs) + length (avail t)) < 2 ^ 63 =
        omega (
          arith,
          g.small,
          ap length cut,
          length-append (bytes x.reader.buffer) (avail x.stream),
          length-append (b ∷ bs) (avail t),
        ) in
      let (valid', grown) =
        push_back_lem c x.reader.buffer g.running.buffer (valid, omega (arith, ap length shows))
          (omega (arith, both, ap length shows)) in
      let y : YamuxTransport T = feed x b bs t in
      let now : bytes y.reader.buffer ≡ bytes x.reader.buffer ++ b ∷ bs =
        grown ∙ ap (λ q. bytes x.reader.buffer ++ q) shows in
      let same : incoming avail x ≡ incoming avail y =
        ap (λ q. bytes x.reader.buffer ++ q) cut
        ∙ sym (append_assoc (bytes x.reader.buffer) (b ∷ bs) (avail t))
        ∙ ap (λ q. q ++ avail t) (sym now) in
      (
        record {
          running = record {
            buffer = valid';
            eight = subst (All IsByte) (sym now) (
                All-append IsByte (bytes x.reader.buffer) (b ∷ bs) g.running.eight
                  (All-split IsByte (b ∷ bs) (avail t)
                    (subst (All IsByte) cut (laws.eight x.stream))).0);
            pending = g.running.pending;
          };
          small = omega (arith, g.small, ap length same);
        },
        same,
        omega (
          arith,
          ap length now,
          ap length cut,
          length-append (bytes x.reader.buffer) (b ∷ bs),
          length-append (b ∷ bs) (avail t),
        ),
      )

  -- A read that gives bytes: they go to the reader, which decides.
  some_bytes :
      (fuel : ℕ) (x : YamuxTransport T) (ys : List ℕ) (t : T)
      → ((y : YamuxTransport T)
          → IsReading avail y
          → length (avail y.stream) < fuel
          → Reads (read_loop fuel y) y)
      → IsReading avail x
      → length (avail x.stream) < suc fuel
      → s.poll_read 4096 x.stream ≡ (ready (ok ys), t)
      → 0 < length ys
      → length ys ≤ 4096
      → avail x.stream ≡ ys ++ avail t
      → sent t ≡ sent x.stream
      → Reads (read_loop (suc fuel) x) x
  unfolding on_read push_back
  some_bytes fuel x [] t ih g enough run pos few cut quiet = absurd (omega arith)
  some_bytes fuel x (b ∷ bs) t ih g enough run pos few cut quiet =
      let (reading, same, less) = fed x b bs t g few cut in
      let y : YamuxTransport T = feed x b bs t in
      let (a, x', rest, r) =
        decide (λ f. read_loop fuel (record y { reader = f })) y reading
          (ih y reading (omega (arith, enough, ap length cut, length-append (b ∷ bs) (avail t)))) in
      (
        a,
        x',
        after_read fuel x (ready (ok (b ∷ bs))) t run ∙ rest,
        Arrived-after avail sent x y x' a refl refl quiet same (omega (arith, less)) r,
      )

  read_loop_lem :
      (fuel : ℕ) (x : YamuxTransport T)
      → IsReading avail x
      → length (avail x.stream) < fuel
      → Reads (read_loop fuel x) x
  read_loop_lem zero x g enough = absurd (omega arith)
  read_loop_lem (suc fuel) x g enough = elim (laws.read_some 4096 x.stream (omega arith)) [
    | inr (answer, t, run, stop, same, quiet) ↦ no_bytes fuel x answer t g run stop same quiet
    | inl (ys, t, run, pos, few, cut, quiet) ↦
        some_bytes fuel x ys t (read_loop_lem fuel) g enough run pos few cut quiet
  ]

  -- Over a byte stream on which finitely many bytes have arrived, whose reads give some of them
  -- from the front, or wait, end or fail: from a well-formed reader, whatever the bytes are, and
  -- with more fuel than there are bytes to read, YamuxTransport::poll_next ends without a panic.
  -- It takes a front part of the bytes, writes nothing, and yields a sound frame, which a
  -- FrameWriter in the reader's state would admit and which leaves it in the reader's next state,
  -- with less left to yield; or it waits, ends, or answers with an error.
  pub poll_next-Arrived :
      (fuel : ℕ) (x : YamuxTransport T)
      → IsReading avail x
      → length (avail x.stream) < fuel
      → (a : Poll (Option (Result (YamuxTransportError E) Frame))) × (x' : YamuxTransport T)
        × (poll_next fuel x ≡ done (a, x'))
        × Arrived avail sent x x' a
  unfolding poll_next
  poll_next-Arrived fuel x g enough =
      decide (λ f. read_loop fuel (record x { reader = f })) x g (read_loop_lem fuel x g enough)
