-- ===== src/Session/Draining/Head.antt =====
-- The loop of `YamuxSession::poll_next` that takes the events of one head.
use yamux_low_mem.Prelude.{
  ℕ, zero, suc, ◌+◌, ◌≤◌, ◌<◌, ◌≡◌, refl, sym, ap, subst, ◌∙◌, ◌⊎◌, inl, inr, Bool, true, false,
  some, List, [], ◌∷◌, ◌++◌, arith, length, All, length-append, All-split, ready, done,
}
use yamux_low_mem.Chunk.View.{ChunkView}
use yamux_low_mem.Chunk.Owned.{default_chunk_capacity}
use yamux_low_mem.Packet.{bit}
use yamux_low_mem.Frame.{FrameStreamEvent}
use yamux_low_mem.Stream.{Channel, YamuxStreamHead, is_closed, pop_out}
use yamux_low_mem.Stream
use yamux_low_mem.Stream.Sent.{IsReceiver, IsSmall, Sent, Sent-trans, waiting}
use yamux_low_mem.Stream.Polling.{poll_next-Yields}
use yamux_low_mem.Session.Draining.{drain}

-- How many events a head may still yield: a chunk of the local side becomes two at most, and the
-- end of the local half one.
abbrev pub events_left : {S R : Type 0} → (R → List ChunkView) → YamuxStreamHead S R → ℕ
events_left queued h =
    length h.outs + (length (queued h.rx) + length (queued h.rx)) + bit h.state.local

module _ {S R : Type 0} (queued : R → List ChunkView) where
  -- The end of the loop, from the head `h`, with the events that it yielded.
  pub record Drained (h : YamuxStreamHead S R) (ended : Bool) (events : List FrameStreamEvent)
      (h' : YamuxStreamHead S R) : Type 0 where
    pub sent : Sent queued h (record h' { outs = events })
    pub empty : h'.outs ≡ []
    pub stop :
        ((ended ≡ true) × (is_closed h'.state ≡ true))
        ⊎ ((ended ≡ false) × ((h'.window.send < default_chunk_capacity) ⊎ (queued h'.rx ≡ [])))

  -- An event at the front of the queue comes first.
  Sent-cons :
      (x : FrameStreamEvent) (es events : List FrameStreamEvent) (h h' : YamuxStreamHead S R)
      → h.outs ≡ x ∷ es
      → Sent queued (record h { outs = es }) (record h' { outs = events })
      → Sent queued h (record h' { outs = x ∷ events })
  Sent-cons x es events h h' e s = record {
    taken = s.taken;
    sent = s.sent;
    same_id = s.same_id;
    queue = s.queue;
    outs = ap (◌∷◌ x) s.outs ∙ ap (λ o. o ++ s.sent) (sym e);
    order = s.order;
    credit = s.credit;
    admitted = s.admitted;
    fins = s.fins;
    few = s.few;
    sound = s.sound;
  }

  pub Sent-IsSmall :
      (h h' : YamuxStreamHead S R)
      → Sent queued h h'
      → All IsSmall (queued h.rx)
      → All IsSmall (queued h'.rx)
  Sent-IsSmall h h' s small =
      (All-split IsSmall s.taken (queued h'.rx) (subst (All IsSmall) s.queue small)).1

  Sent-queue :
      (h h' : YamuxStreamHead S R) (n : ℕ)
      → Sent queued h h'
      → length (queued h.rx) < n
      → length (queued h'.rx) < n
  Sent-queue h h' n s small = omega (arith, ap length s.queue, length-append s.taken (queued h'.rx))

  Sent-left :
      (h h' : YamuxStreamHead S R) → Sent queued h h' → events_left queued h' ≤ events_left queued h
  Sent-left h h' s = omega (
    arith,
    s.few,
    ap length s.queue,
    length-append s.taken (queued h'.rx),
    ap length s.outs,
    length-append h.outs s.sent,
  )

module _ {S R : Type 0} ⦃ch : Channel S R⦄ {queued : R → List ChunkView}
    (laws : IsReceiver ch.poll_next queued) (polls : ℕ) where
  -- What `drain` is to end with.
  abbrev Drains : ℕ → YamuxStreamHead S R → Type 0
  Drains fuel h =
      (ended : Bool) × (events : List FrameStreamEvent) × (h' : YamuxStreamHead S R) × (drain fuel
          polls h
        ≡ done (ended, (events, h')))
      × Drained queued h ended events h'

  -- The queue is not empty: its front is the next event.
  drain_front :
      (fuel : ℕ) (x : FrameStreamEvent) (es : List FrameStreamEvent) (h g : YamuxStreamHead S R)
      → Stream.poll_next polls h ≡ done (ready (some x), record g { outs = es })
      → g.outs ≡ x ∷ es
      → Sent queued h g
      → Drains fuel (record g { outs = es })
      → Drains (suc fuel) h
  unfolding drain
  drain_front fuel x es h g polled e s (ended, events, h', run, d) = (
    ended,
    x ∷ events,
    h',
    rw (polled, drain, run) refl,
    record {
      sent =
          Sent-trans queued h g (record h' { outs = x ∷ events }) s
            (Sent-cons queued x es events g h' e d.sent);
      empty = d.empty;
      stop = d.stop;
    },
  )

  pub drain_lem :
      (fuel : ℕ) (h : YamuxStreamHead S R)
      → length (queued h.rx) < polls
      → events_left queued h < fuel
      → All IsSmall (queued h.rx)
      → (ended : Bool) × (events : List FrameStreamEvent) × (h' : YamuxStreamHead S R) × (drain fuel
            polls h
          ≡ done (ended, (events, h')))
        × Drained queued h ended events h'
  unfolding drain
  drain_lem zero h more enough small = absurd (omega arith)
  drain_lem (suc fuel) h more enough small = elim (poll_next-Yields laws polls h more small) [
    | inl (x, es, g, polled, e, s) ↦
        let g' : YamuxStreamHead S R = record g { outs = es } in
        drain_front fuel x es h g polled e s (
          drain_lem fuel g' (Sent-queue queued h g polls s more)
            (omega (arith, Sent-left queued h g s, ap length e, enough))
            (Sent-IsSmall queued h g s small))
    | inr (inl (g, polled, e, s, stop)) ↦ (
      false,
      [],
      g,
      rw polled refl,
      record {
        sent = subst (λ o. Sent queued h (record g { outs = o })) e s;
        empty = e;
        stop = inr (refl, stop);
      },
    )
    | inr (inr (polled, closed, e)) ↦ (
      true,
      [],
      h,
      rw polled refl,
      record {
        sent = subst (λ o. Sent queued h (record h { outs = o })) e (waiting queued h h.rx refl);
        empty = e;
        stop = inl (refl, closed);
      },
    )
  ]
