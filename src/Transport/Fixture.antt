-- ===== src/Transport/Fixture.antt =====
-- A byte stream for the tests of src/transport.rs and src/session.rs: it accepts two bytes with
-- each write, and gives one byte with each read.
use yamux_low_mem.Prelude.{
  sym, ◌∙◌, ap, ℕ, ◌%◌, ◌^◌, ◌≤◌, ◌<◌, min, ◌≡◌, refl, ◌⊎◌, inl, inr, List, [], ◌∷◌, ◌++◌, arith,
  length, take, All, Poll, ready, pending, Result, ok, err,
}
use yamux_low_mem.Prelude.Word.{IsByte}
use yamux_low_mem.Chunk.Reader.{reader}
use yamux_low_mem.Chunk.Reader as Reader
use yamux_low_mem.Chunk.Reader.Invariant.{new-IsValid}
use yamux_low_mem.Chunk.Reader.Laws.{reader-IsReader}
use yamux_low_mem.Frame.Reading.{next_frame_short}
use yamux_low_mem.Transport.{
  next_frame, done, suc, none, ByteStream, YamuxTransport, poll_next, after_frame, on_read,
  read_loop,
}
use yamux_low_mem.Transport.Flushing.{IsSink}
use yamux_low_mem.Transport.Reading.{IsSource}

pub record Duplex : Type 0 where
  pub arrived : List ℕ
  pub sent : List ℕ

-- The bytes of the numbers.
abbrev pub low : List ℕ → List ℕ
low [] = []
low (x ∷ xs) = x % 2 ^ 8 ∷ low xs

pub low-IsByte : (xs : List ℕ) → All IsByte (low xs)
low-IsByte [] = tt
low-IsByte (x ∷ xs) = (omega arith, low-IsByte xs)

abbrev pub read_one : List ℕ → Duplex → Poll (Result ℕ (List ℕ)) × Duplex
read_one [] t = (pending, t)
read_one (x ∷ xs) t = (ready (ok (x % 2 ^ 8 ∷ [])), record t { arrived = xs })

instance abbrev pub duplex : ByteStream ℕ Duplex
duplex = record {
  poll_write = λ ys t.
      (ready (ok (min 2 (length ys))), record t { sent = t.sent ++ take (min 2 (length ys)) ys });
  poll_read = λ n t. read_one t.arrived t;
  poll_close = λ t. (ready (ok tt), t);
}

abbrev pub arriving : Duplex → List ℕ
arriving t = low t.arrived

pub duplex-IsSink : IsSink duplex (λ t. t.sent)
duplex-IsSink = record {
  write_some = λ ys t pos. inl (min 2 (length ys), _, refl, omega arith, omega arith, refl);
}

pub duplex-IsSource : IsSource duplex arriving (λ t. t.sent)
duplex-IsSource = record {
  read_some = λ n t pos. go n t.arrived t.sent pos;
  eight = λ t. low-IsByte t.arrived;
}
  where
    Read : ℕ → Duplex → Type 0
    Read n t =
        ((ys : List ℕ) × (t' : Duplex) × (read_one t.arrived t ≡ (ready (ok ys), t'))
          × (0 < length ys)
          × (length ys ≤ n)
          × (arriving t ≡ ys ++ arriving t')
          × (t'.sent ≡ t.sent))
        ⊎ ((a : Poll (Result ℕ (List ℕ))) × (t' : Duplex) × (read_one t.arrived t ≡ (a, t'))
            × ((a ≡ pending) ⊎ ((a ≡ ready (ok [])) ⊎ ((e : ℕ) × (a ≡ ready (err e)))))
            × (arriving t' ≡ arriving t)
            × (t'.sent ≡ t.sent))

    go : (n : ℕ) (xs ys : List ℕ) → 0 < n → Read n (record { arrived = xs; sent = ys })
    go n [] ys pos = inr (pending, _, refl, inl refl, refl, refl)
    go n (x ∷ xs) ys pos = inl (_, _, refl, omega arith, omega arith, refl, refl)

-- Without a byte at hand, and with none to read, a call waits.
pub nothing_arrives :
    {E T : Type 0} ⦃s : ByteStream E T⦄ (fuel : ℕ) (x : YamuxTransport T)
    → x.reader ≡ record { buffer = Reader.new; pending = none }
    → s.poll_read 4096 x.stream ≡ (pending, x.stream)
    → poll_next {E = E} (suc fuel) x ≡ done (pending, x)
unfolding poll_next after_frame on_read read_loop Reader.new
nothing_arrives {E} {T} fuel x e run =
    let none_yet : next_frame x.reader ≡ done (ok none, x.reader) =
      ap next_frame e
      ∙ next_frame_short reader-IsReader Reader.new new-IsValid (omega arith)
      ∙ ap (λ f. done (ok none, f)) (sym e) in
    rw none_yet (
      ap
        (λ (p : Poll (Result E (List ℕ)) × T).
          on_read (λ y. read_loop fuel y) p.0 (record x { stream = p.1 }))
        run)
