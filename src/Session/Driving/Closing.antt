-- ===== src/Session/Driving/Closing.antt =====
-- `YamuxSession::close`, and the call of `poll_next` that ends the session.
use yamux_low_mem.Prelude.{
  ℕ, suc, ◌+◌, ◌<◌, ◌≡◌, refl, sym, ap, ◌∙◌, inl, inr, Bool, true, none, List, [], ◌∷◌, ◌++◌,
  append-nil, arith, length, Poll, ready, pending, done, Result, ok, err,
}
use yamux_low_mem.Prelude.Word.{u32_mod}
use yamux_low_mem.Chunk.Writer.Invariant.{Room, bytes}
use yamux_low_mem.Frame.{Frame, session, go_away, admit}
use yamux_low_mem.Frame.Admitted.{frames_bytes}
use yamux_low_mem.Stream.{Channel}
use yamux_low_mem.Transport.{
  ByteStream, YamuxTransport, YamuxTransportError, poll_write, poll_close, io, io_error,
}
use yamux_low_mem.Transport.Flushing.{IsSink, Answers, poll_write_lem}
use yamux_low_mem.Session.{YamuxSession, close}
use yamux_low_mem.Session.Receiving.{Ends}
use yamux_low_mem.Session.Driving.{poll_next, finish, write_fuel, send_queue}
use yamux_low_mem.Session.Driving.Delivery.{written}
use yamux_low_mem.Session.Driving.Order.{IsOrdered, IsOrdered-append, send_queue-IsOrdered}

-- A byte stream whose writes are answered at once and do not fail, and which closes at once.
pub record IsEager {E T : Type 0} (s : ByteStream E T) (sent : T → List ℕ) : Type 0 where
  pub writes :
      (ys : List ℕ) (t : T)
      → 0 < length ys
      → (n : ℕ) × (t' : T) × (s.poll_write ys t ≡ (ready (ok n), t'))
  pub closes :
      (t : T)
      → (a : Result E (Unit {0})) × (t' : T) × (s.poll_close t ≡ (ready a, t')) × (sent t' ≡ sent t)

module _ {E T : Type 0} ⦃s : ByteStream E T⦄ {sent : T → List ℕ} (eager : IsEager s sent) where
  pub never_waits : ¬ Answers s pending
  never_waits (ys, t, t', pos, run) = let (n, t2, run2) = eager.writes ys t pos in cc

  never_fails : (e : E) → ¬ Answers s (ready (err e))
  never_fails e (ys, t, t', pos, run) = let (n, t2, run2) = eager.writes ys t pos in cc

io_error-ready :
    {E : Type 0} (r : Result E (Unit {0}))
    → (a : Result (YamuxTransportError E) (Unit {0})) × (io_error (ready r) ≡ ready a)
io_error-ready (ok u) = (ok u, refl)
io_error-ready (err e) = (err (io e), refl)

module _ {E T : Type 0} ⦃s : ByteStream E T⦄ {sent : T → List ℕ} (laws : IsSink s sent)
    (eager : IsEager s sent) where
  poll_close_lem :
      (t : YamuxTransport T) (n : ℕ)
      → Room n t.writer.buffer
      → (a : Result (YamuxTransportError E) (Unit {0})) × (t' : YamuxTransport T) × (poll_close
            {E = E}
            (write_fuel t)
            t
          ≡ done (ready a, t'))
        × (sent t'.stream ≡ written sent t)
        × (bytes t'.writer.buffer ≡ [])
  unfolding poll_close
  poll_close_lem t n room =
      let (a, t', run, _, same, _, _, stop) =
        poll_write_lem laws t room.valid (omega (arith, room.fits)) in
      let polled : poll_write {E = E} (write_fuel t) t ≡ done (a, t') =
        ap (λ k. poll_write {E = E} (suc k) t) room.valid.counted ∙ run in
      elim stop [
        | inr (inl (_, cause)) ↦ absurd (never_waits eager cause)
        | inr (inr (e, _, cause)) ↦ absurd (never_fails eager e cause)
        | inl (flushed, empty) ↦
            let (answer, u, closed, kept) = eager.closes t'.stream in
            let (b, mapped) = io_error-ready answer in
            (
              b,
              record t' { stream = u },
              rw (polled, flushed)
                  (ap
                      (λ (p : Poll (Result E (Unit {0})) × T).
                        done (io_error p.0, record t' { stream = p.1 }))
                      closed
                    ∙ ap (λ p. done (p, record t' { stream = u })) mapped),
              kept
                  ∙ sym (append-nil (sent t'.stream))
                  ∙ ap (λ q. sent t'.stream ++ q) (sym empty)
                  ∙ same,
              empty,
            )
      ]

module _ (E : Type 0) {T S R S' R' : Type 0} ⦃s : ByteStream E T⦄ ⦃ch : Channel S R⦄ where
  -- Once `close` was called, the call goes no further than the first send.
  pub poll_next-finish :
      (frames reads drains polls : ℕ) (ends : Ends S R S' R') (any : Bool)
      (x x1 : YamuxSession T S R)
      → send_queue E x ≡ done (any, x1)
      → x1.manual_close ≡ true
      → poll_next E frames reads drains polls ends x ≡ finish E x1
  unfolding poll_next
  poll_next-finish frames reads drains polls ends any x x1 run manual = rw (run, manual) refl

  finish_lem :
      (x : YamuxSession T S R) (a : Result (YamuxTransportError E) (Unit {0}))
      (t : YamuxTransport T)
      → poll_close {E = E} (write_fuel x.transport) x.transport ≡ done (ready a, t)
      → finish E {S' = S'} {R' = R'} x ≡ done (ready none, record x { transport = t })
  unfolding finish
  finish_lem x a t run = rw run refl

module _ {E T S R S' R' : Type 0} ⦃s : ByteStream E T⦄ ⦃ch : Channel S R⦄ {sent : T → List ℕ}
    (laws : IsSink s sent) (eager : IsEager s sent) where
  -- Over a byte stream that answers writes at once without failing and that closes at once, from a
  -- session whose frames so far, given and queued, are a sequence that a FrameWriter admits, and
  -- with room for the queue and a GoAway: after YamuxSession::close, the next call of poll_next
  -- ends the session, whatever the peer sends; and then all that was written before, the frames
  -- that were queued and, last, the GoAway have reached the byte stream, and no frame or byte is
  -- left behind.
  pub close-poll_next :
      (frames reads drains polls code n : ℕ) (ends : Ends S R S' R') (given : List Frame)
      (x : YamuxSession T S R)
      → code < u32_mod
      → IsOrdered sent given x
      → Room
          (length (frames_bytes (x.out_queue ++ session (go_away code) ∷ [])) + n)
          x.transport.writer.buffer
      → (x' : YamuxSession T S R) × (poll_next E frames reads drains polls ends (close code x)
          ≡ done (ready none, x'))
        × (sent x'.transport.stream
            ≡ frames_bytes (given ++ (x.out_queue ++ session (go_away code) ∷ [])))
        × (bytes x'.transport.writer.buffer ≡ [])
        × (x'.out_queue ≡ [])
  unfolding close admit
  close-poll_next frames reads drains polls code n ends given x small o room =
      let goodbye : List Frame = session (go_away code) ∷ [] in
      let o0 : IsOrdered sent given (record x { out_queue = x.out_queue ++ goodbye }) =
        IsOrdered-append x goodbye o refl (small, tt) in
      let o1 : IsOrdered sent given (close code x) = record {
        sound = o0.sound;
        given_sound = o0.given_sound;
        admitted = o0.admitted;
        bytes = o0.bytes;
      } in
      let (any, x1, run, h) = send_queue-IsOrdered laws n given (close code x) o1 room in
      let over : x1.out_queue ≡ [] = elim h.stop [
        | inl gone ↦ gone
        | inr (_, cause) ↦ absurd (never_waits eager cause)
      ] in
      let (a, t', closed, all, empty) = poll_close_lem laws eager x1.transport _ h.room in
      (
        record x1 { transport = t' },
        poll_next-finish E frames reads drains polls ends any (close code x) x1 run
              (ap (λ y. y.manual_close) h.kept)
            ∙ finish_lem E x1 a t' closed,
        all
            ∙ h.ordered.bytes
            ∙ ap (λ q. frames_bytes (given ++ q))
                (sym (h.queue ∙ ap (λ q. h.handed ++ q) over ∙ append-nil h.handed)),
        empty,
        over,
      )
