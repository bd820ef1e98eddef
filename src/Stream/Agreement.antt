-- ===== src/Stream/Agreement.antt =====
-- `YamuxStreamHead::on_input` against `FrameWriter::write`: the head takes what the writer admits.
use yamux_low_mem.Prelude.{
  ℕ, ◌-◌, ◌≡◌, refl, sym, ap, ◌∙◌, inl, inr, Option, none, some, List, [], ◌∷◌, map, arith, ◌==◌,
  if◌then◌else◌, length, All, Exec, done, Result, ok, err, ◌>>=◌,
}
use yamux_low_mem.Chunk.View.Laws.{content}
use yamux_low_mem.Packet.{StreamId}
use yamux_low_mem.Frame.{
  Frame, stream, FrameStreamEvent, data_header, data_chunk, window_update, PendingPayload, admit,
}
use yamux_low_mem.Frame.Admitted.{
  CanWrite, begin, update_window, control_session, last_chunk, next_chunk, admit_all, admit_iff,
  IsPending,
}
use yamux_low_mem.Frame.Stands.{admit_all-cons}
use yamux_low_mem.Frame.Codec.{IsSound}
use yamux_low_mem.Stream.{Channel, YamuxStreamHead, YamuxStreamHeadError, on_input}
use yamux_low_mem.Stream.Input.{
  CanReceive, receive_header, receive_update, receive_last, receive_more, CanWrite-CanReceive,
  IsWell, Fits, left_of, on_input_lem,
}

-- The event, and what was left before it, say what is left after it.
left_after : Option ℕ → FrameStreamEvent → Option ℕ
left_after s (data_header flags size) = some size
left_after s (window_update flags delta) = s
left_after none (data_chunk c) = none
left_after (some n) (data_chunk c) =
    if n - length (content c) == 0 then none else some (n - length (content c))

CanReceive-left_after :
    {s q : Option ℕ} {e : FrameStreamEvent} → CanReceive s e q → q ≡ left_after s e
unfolding left_after
CanReceive-left_after receive_header = refl
CanReceive-left_after receive_update = refl
CanReceive-left_after (receive_last e) = ground arith
CanReceive-left_after (receive_more e) = ground arith

CanWrite-IsPending :
    {p q : Option PendingPayload} {f : Frame}
    → CanWrite p f q
    → IsSound f
    → IsPending p
    → IsPending q
CanWrite-IsPending begin s h = s.1
CanWrite-IsPending update_window s h = tt
CanWrite-IsPending control_session s h = tt
CanWrite-IsPending (last_chunk same fits) s h = tt
CanWrite-IsPending (next_chunk same fits) s h = omega arith

IsWell-IsSound : (id : StreamId) (e : FrameStreamEvent) → IsSound (stream id e) → IsWell e
IsWell-IsSound id (data_header flags size) s = tt
IsWell-IsSound id (data_chunk c) s = s
IsWell-IsSound id (window_update flags delta) s = tt

Fits-left : (p : Option PendingPayload) → IsPending p → Fits (left_of p)
Fits-left none h = tt
Fits-left (some p) h = h

module _ {S R : Type 0} ⦃ch : Channel S R⦄ where
  -- A session hands the events of a stream to its head one after the other, until one is refused.
  unfoldable pub input_all :
      List FrameStreamEvent
      → YamuxStreamHead S R
      → Exec (Result YamuxStreamHeadError (Unit {0}) × YamuxStreamHead S R)
  input_all [] h = done (ok tt, h)
  input_all (e ∷ es) h =
      on_input e h >>= λ out. elim out.0 [ err x ↦ done (err x, out.1) | ok _ ↦ input_all es out.1 ]

  on_input-admitted :
      (e : FrameStreamEvent) (id : StreamId) (p q : Option PendingPayload) (h : YamuxStreamHead S R)
      → IsSound (stream id e)
      → IsPending p
      → admit p (stream id e) ≡ ok q
      → h.recv_state ≡ left_of p
      → (h' : YamuxStreamHead S R) × (on_input e h ≡ done (ok tt, h')) × (h'.recv_state ≡ left_of q)
  on_input-admitted e id p q h sound small e_ok same =
      let can =
        CanWrite-CanReceive ((admit_iff p q (stream id e) small).0 e_ok)
          (IsWell-IsSound id e sound) in
      elim (on_input_lem e h (left_of p) (IsWell-IsSound id e sound) same (Fits-left p small)) [
        | inl (r, h', taken, run, left) ↦
            (h', run, left ∙ CanReceive-left_after taken ∙ sym (CanReceive-left_after can))
        | inr (x, refused, _) ↦ absurd (refused (left_of q) can)
      ]

  -- Sound events that pass the checks of a FrameWriter for a stream one after the other, from a
  -- state in which the writer's pending payload and the head's recv_state agree on the bytes that
  -- are left, are all taken by YamuxStreamHead::on_input, and writer and head agree in the end.
  pub input_all-admit_all :
      (es : List FrameStreamEvent) (id : StreamId) (p q : Option PendingPayload)
      (h : YamuxStreamHead S R)
      → All IsSound (map (stream id) es)
      → IsPending p
      → admit_all p (map (stream id) es) ≡ ok q
      → h.recv_state ≡ left_of p
      → (h' : YamuxStreamHead S R) × (input_all es h ≡ done (ok tt, h'))
        × (h'.recv_state ≡ left_of q)
  unfolding input_all
  input_all-admit_all [] id p q h sound small e same = (h, refl, same ∙ ap left_of (cc))
  input_all-admit_all (x ∷ es) id p q h (s, sound) small e same =
      let (r, first, rest) = admit_all-cons p q (stream id x) (map (stream id) es) e in
      let (h1, run1, same1) = on_input-admitted x id p r h s small first same in
      let (h2, run2, same2) =
        input_all-admit_all es id r q h1 sound
          (CanWrite-IsPending ((admit_iff p r (stream id x) small).0 first) s small) rest same1 in
      (h2, rw run1 run2, same2)
