-- ===== src/Session/Driving.antt =====
-- src/session.rs: `poll_next`, and its loop that hands frames to the transport.
pub mod Delivery
pub mod Order
pub mod Rest
pub mod Closing
pub mod Whole
pub mod Idle
use yamux_low_mem.Prelude.{
  ℕ, suc, Bool, true, false, ◌||◌, Option, none, some, List, [], ◌∷◌, if◌then◌else◌, Exec, Poll,
  ready, pending, done, ok, err, ◌>>=◌,
}
use yamux_low_mem.Frame.{Frame}
use yamux_low_mem.Stream.{Channel}
use yamux_low_mem.Stream.Handle.{YamuxStream}
use yamux_low_mem.Transport.{
  ByteStream, YamuxTransport, poll_ready, poll_close, poll_flush, start_send,
}
use yamux_low_mem.Session.{YamuxSession}
use yamux_low_mem.Session.Receiving.{proceed, closed, accepted, Ends, receive}
use yamux_low_mem.Session.Draining.{drain_heads}

-- One more round than there are bytes to write.
abbrev pub write_fuel : {T : Type 0} → YamuxTransport T → ℕ
write_fuel t = suc t.writer.buffer.filled

module _ (E : Type 0) {T : Type 0} ⦃s : ByteStream E T⦄ where
  -- `while !this.out_queue.is_empty() && this.transport.poll_ready_unpin(cx).is_ready()`: whether
  -- a frame was sent, the frames that are left, and the transport. An error of the byte stream is
  -- `Ready` too, and `start_send` never fails.
  unfoldable pub send_out :
      List Frame → YamuxTransport T → Exec (Bool × (List Frame × YamuxTransport T))
  send_out [] t = done (false, ([], t))
  send_out (frame ∷ frames) t = poll_ready {E = E} (write_fuel t) t >>= λ out. elim out.0 [
    | pending ↦ done (false, (frame ∷ frames, out.1))
    | ready answer ↦
        start_send frame out.1 >>= λ t'. send_out frames t' >>= λ rest. done (true, rest.1)
  ]

module _ (E : Type 0) {T S R : Type 0} ⦃s : ByteStream E T⦄ where
  unfoldable pub send_queue : YamuxSession T S R → Exec (Bool × YamuxSession T S R)
  unfolding send_out
  send_queue x = do
    (sent, (frames, t)) ← send_out E x.out_queue x.transport
    done (sent, record x { out_queue = frames; transport = t })

module _ (E : Type 0) {T S R S' R' : Type 0} ⦃s : ByteStream E T⦄ where
  -- Once `close` was called, the session ends when all is written and the byte stream is closed.
  unfoldable pub finish :
      YamuxSession T S R → Exec (Poll (Option (YamuxStream S' R')) × YamuxSession T S R)
  finish x = poll_close {E = E} (write_fuel x.transport) x.transport >>= λ out. elim out.0 [
    | pending ↦ done (pending, record x { transport = out.1 })
    | ready answer ↦ done (ready none, record x { transport = out.1 })
  ]

  -- `if sent && let Poll::Ready(Err(e)) = this.transport.poll_flush_unpin(cx)`.
  pub flush :
      Bool → YamuxSession T S R → Exec (Poll (Option (YamuxStream S' R')) × YamuxSession T S R)
  flush false x = done (pending, x)
  flush true x = poll_flush {E = E} (write_fuel x.transport) x.transport >>= λ out. elim out.0 [
    | pending ↦ done (pending, record x { transport = out.1 })
    | ready answer ↦ elim answer [
      | ok _ ↦ done (pending, record x { transport = out.1 })
      | err e ↦ done (ready none, record x { transport = out.1 })
    ]
  ]

module _ (E : Type 0) {T S R S' R' : Type 0} ⦃s : ByteStream E T⦄ ⦃ch : Channel S R⦄ where
  -- From the heads on.
  pub send_rest :
      ℕ
      → ℕ
      → Bool
      → YamuxSession T S R
      → Exec (Poll (Option (YamuxStream S' R')) × YamuxSession T S R)
  unfolding flush
  send_rest drains polls sent x = do
    x1 ← drain_heads drains polls x
    (sent', x2) ← send_queue E x1
    flush E (sent || sent') x2

  -- `impl Stream for YamuxSession`. The fuel is for the loops over frames, over reads, over the
  -- events of a head, and over the chunks that a head takes.
  unfoldable pub poll_next :
      ℕ
      → ℕ
      → ℕ
      → ℕ
      → Ends S R S' R'
      → YamuxSession T S R
      → Exec (Poll (Option (YamuxStream S' R')) × YamuxSession T S R)
  unfolding send_queue finish send_rest
  poll_next frames reads drains polls ends x = send_queue E x >>= λ first.
      if first.1.manual_close
      then finish E first.1
      else receive E frames reads ends first.1 >>= λ out. elim out.0 [
        | closed ↦ done (ready none, out.1)
        | accepted handle ↦ done (ready (some handle), out.1)
        | proceed ↦ send_rest drains polls first.0 out.1
      ]
