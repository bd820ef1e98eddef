-- ===== src/Stream/Polling.antt =====
-- `YamuxStreamHead::poll_next`: every event that it yields passes the checks of a `FrameWriter`.
use yamux_low_mem.Prelude.{
  Poll, ready, ℕ, ◌<◌, ◌≡◌, refl, ◌∙◌, ◌⊎◌, inl, inr, true, none, some, List, [], ◌∷◌, Bool-cases,
  length, All, done,
}
use yamux_low_mem.Chunk.View.{ChunkView}
use yamux_low_mem.Chunk.Owned.{default_chunk_capacity}
use yamux_low_mem.Frame.{FrameStreamEvent}
use yamux_low_mem.Stream.{ℕ, Channel, YamuxStreamHead, poll_next, pop_out}
use yamux_low_mem.Stream.{is_closed}
use yamux_low_mem.Stream.Sent.{Sent, waiting, IsReceiver, IsSmall}
use yamux_low_mem.Stream.Pump.{pump_lem}

module _ {S R : Type 0} ⦃ch : Channel S R⦄ {queued : R → List ChunkView}
    (laws : IsReceiver ch.poll_next queued) where
  -- What `poll_next` is to end with: the front of the queue, that of the head `g` after the loop
  -- over chunks has run if need be, or nothing.
  abbrev pub Yields : ℕ → YamuxStreamHead S R → Type 0
  Yields fuel h =
      ((x : FrameStreamEvent) × (es : List FrameStreamEvent) × (g : YamuxStreamHead S R)
        × (poll_next fuel h ≡ done (ready (some x), record g { outs = es }))
        × (g.outs ≡ x ∷ es)
        × Sent queued h g)
      ⊎ (((g : YamuxStreamHead S R) × (poll_next fuel h ≡ done (Poll.pending, g))
            × (g.outs ≡ [])
            × Sent queued h g
            × ((g.window.send < default_chunk_capacity) ⊎ (queued g.rx ≡ [])))
          ⊎ ((poll_next fuel h ≡ done (ready none, h))
              × (is_closed h.state ≡ true)
              × (h.outs ≡ [])))

  pop-Yields :
      (fuel : ℕ) (h g : YamuxStreamHead S R)
      → poll_next fuel h ≡ done (pop_out Poll.pending g)
      → Sent queued h g
      → (g.window.send < default_chunk_capacity) ⊎ (queued g.rx ≡ [])
      → Yields fuel h
  unfolding pop_out
  pop-Yields fuel h g run s stop = go g.outs refl
    where
      go : (es : List FrameStreamEvent) → g.outs ≡ es → Yields fuel h
      go [] e = inr (inl (g, run ∙ rw e refl, e, s, stop))
      go (x ∷ es) e = inl (x, es, g, run ∙ rw e refl, e, s)

  pub poll_next-Yields :
      (fuel : ℕ) (h : YamuxStreamHead S R)
      → length (queued h.rx) < fuel
      → All IsSmall (queued h.rx)
      → Yields fuel h
  unfolding poll_next
  poll_next-Yields fuel h more small = go h.outs
    where
      go : (es : List FrameStreamEvent) → Yields fuel (record h { outs = es })
      go (x ∷ es) = inl (x, es, record h { outs = x ∷ es }, refl, refl, waiting queued _ h.rx refl)
      go [] = elim (Bool-cases (is_closed h.state)) [
        | inl closed ↦ inr (inr (rw closed refl, closed, refl))
        | inr still_open ↦
            let (g, run, s, stop) = pump_lem laws fuel (record h { outs = [] }) more small in
            pop-Yields fuel (record h { outs = [] }) g (rw (still_open, run) refl) s stop
      ]
