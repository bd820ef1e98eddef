-- ===== src/Session/Receiving.antt =====
-- src/session.rs: the loop of `poll_next` over the frames that arrive.
pub mod Isolation
pub mod Invariant
pub mod Handled
pub mod Loop
use yamux_low_mem.Prelude.{
  ℕ, zero, suc, true, false, none, some, [], ◌∷◌, ◌++◌, if◌then◌else◌, Exec, ready, pending, done,
  stuck, ok, err, ◌>>=◌,
}
use yamux_low_mem.Packet.{StreamId, ack_flags}
use yamux_low_mem.Frame.{
  Frame, FrameSessionEvent, FrameStreamEvent, session, stream, ping, go_away, event_flags,
}
use yamux_low_mem.Stream.{Channel, YamuxStreamHead, on_input}
use yamux_low_mem.Stream.Handle.{YamuxStream}
use yamux_low_mem.Stream.Handle
use yamux_low_mem.Transport.{ByteStream}
use yamux_low_mem.Transport
use yamux_low_mem.Session.{YamuxSession, get, insert}

-- Whether the loop goes on, or `poll_next` returns: at the end of the session, or with a stream.
pub data Verdict (A : Type 0) : Type 0 where
  proceed : Verdict A
  closed : Verdict A
  accepted : A → Verdict A

-- The ends of the two channels of a stream: `tx` and `rx2` for the user, `tx2` and `rx` for the head.
pub record Ends (S R S' R' : Type 0) : Type 0 where
  pub tx : S'
  pub rx2 : R'
  pub tx2 : S
  pub rx : R

module _ {T S R : Type 0} where
  -- `this.out_queue.push_back(…)`.
  abbrev pub push_frame : Frame → YamuxSession T S R → YamuxSession T S R
  push_frame frame x = record x { out_queue = x.out_queue ++ frame ∷ [] }

module _ {T S R S' R' : Type 0} where
  pub on_session_event :
      FrameSessionEvent → YamuxSession T S R → Verdict (YamuxStream S' R') × YamuxSession T S R
  on_session_event (ping flags code) x =
      if flags.syn then (proceed, push_frame (session (ping ack_flags code)) x) else (proceed, x)
  on_session_event (go_away code) x = (closed, x)

module _ {T S R S' R' : Type 0} ⦃ch : Channel S R⦄ where
  -- An event of a stream that the session has; an error of the head is only logged.
  pub on_known :
      StreamId
      → FrameStreamEvent
      → YamuxStreamHead S R
      → YamuxSession T S R
      → Exec (Verdict (YamuxStream S' R') × YamuxSession T S R)
  on_known id event head x = on_input event head >>= λ out.
      done (proceed, record x { streams = insert id out.1 x.streams })

  -- An event of another stream: only one with a SYN is taken, and opens the stream.
  pub on_unknown :
      StreamId
      → FrameStreamEvent
      → Ends S R S' R'
      → YamuxSession T S R
      → Exec (Verdict (YamuxStream S' R') × YamuxSession T S R)
  on_unknown id event ends x = elim (event_flags event) [
    | none ↦ done (proceed, x)
    | some flags ↦ elim flags.syn [
      | false ↦ done (proceed, x)
      | true ↦
          let (head, handle) = Handle.accept_stream id ends.tx ends.rx2 ends.tx2 ends.rx in
          on_input event head >>= λ out.
          done (accepted handle, record x { streams = insert id out.1 x.streams })
    ]
  ]

  pub on_stream_event :
      StreamId
      → FrameStreamEvent
      → Ends S R S' R'
      → YamuxSession T S R
      → Exec (Verdict (YamuxStream S' R') × YamuxSession T S R)
  unfolding on_known on_unknown
  on_stream_event id event ends x = elim (get id x.streams) [
    | some head ↦ on_known id event head x
    | none ↦ on_unknown id event ends x
  ]

  -- The match on a frame.
  unfoldable pub on_frame :
      Frame
      → Ends S R S' R'
      → YamuxSession T S R
      → Exec (Verdict (YamuxStream S' R') × YamuxSession T S R)
  unfolding on_session_event on_stream_event
  on_frame (session event) ends x = done (on_session_event event x)
  on_frame (stream id event) ends x = on_stream_event id event ends x

module _ (E : Type 0) {T S R S' R' : Type 0} ⦃s : ByteStream E T⦄ ⦃ch : Channel S R⦄ where
  -- `while let Poll::Ready(event) = this.transport.poll_next_unpin(cx)`, with fuel for this loop
  -- and for the one of the transport.
  unfoldable pub receive :
      ℕ
      → ℕ
      → Ends S R S' R'
      → YamuxSession T S R
      → Exec (Verdict (YamuxStream S' R') × YamuxSession T S R)
  unfolding on_frame
  receive zero reads ends x = stuck
  receive (suc fuel) reads ends x = Transport.poll_next {E = E} reads x.transport >>= λ out.
      let x1 : YamuxSession T S R = record x { transport = out.1 } in
      elim out.0 [
        | pending ↦ done (proceed, x1)
        | ready event ↦ elim event [
          | none ↦ done (closed, x1)
          | some frame ↦ elim frame [
            | err e ↦ done (closed, x1)
            | ok f ↦ on_frame f ends x1 >>= λ next. elim next.0 [
              | proceed ↦ receive fuel reads ends next.1
              | closed ↦ done (closed, next.1)
              | accepted handle ↦ done (accepted handle, next.1)
            ]
          ]
        ]
      ]
