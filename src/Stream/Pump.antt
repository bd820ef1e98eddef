-- ===== src/Stream/Pump.antt =====
-- `YamuxStreamHead::poll_next`: its loop takes chunks until credit or chunks run out.
use yamux_low_mem.Prelude.{
  Poll, ready, ℕ, zero, suc, ◌≤◌, ◌<◌, ◌≡◌, refl, sym, ap, ◌∙◌, ◌⊎◌, inl, inr, Option, some, List,
  [], ◌∷◌, arith, leb, ◌==◌, le→leb, leb→le, Bool-cases, length, All, done,
}
use yamux_low_mem.Chunk.View.{ChunkView}
use yamux_low_mem.Chunk.View.Laws as ViewLaws
use yamux_low_mem.Chunk.View.Laws.{content}
use yamux_low_mem.Chunk.Owned.{default_chunk_capacity}
use yamux_low_mem.Stream.{Channel, YamuxStreamHead, try_close_local, forward, pump}
use yamux_low_mem.Stream.Sent.{
  IsReceiver, IsSmall, Sent, Sent-trans, waiting, closing, forwarded, slice_len_lem,
}

module _ {S R : Type 0} where
  try_close_local-rx : (h : YamuxStreamHead S R) → (try_close_local h).rx ≡ h.rx
  unfolding try_close_local
  try_close_local-rx h = elim (Bool-cases h.state.local) [
    | inl is_open ↦ rw is_open refl
    | inr is_closed ↦ rw is_closed refl
  ]

  forward-rx : (c : ChunkView) (n : ℕ) (h : YamuxStreamHead S R) → (forward c n h).rx ≡ h.rx
  unfolding forward
  forward-rx c n h = elim (Bool-cases (n == 0)) [
    | inl none_left ↦ rw none_left (try_close_local-rx h)
    | inr some_left ↦ rw some_left refl
  ]

module _ {S R : Type 0} ⦃ch : Channel S R⦄ {queued : R → List ChunkView}
    (laws : IsReceiver ch.poll_next queued) where
  pump_end :
      (fuel : ℕ) (h : YamuxStreamHead S R)
      → h.window.send < default_chunk_capacity
      → pump (suc fuel) h ≡ done h
  unfolding pump
  pump_end fuel h small = ground arith

  pump_chunk :
      (fuel : ℕ) (h : YamuxStreamHead S R) (r : R) (c : ChunkView)
      → default_chunk_capacity ≤ h.window.send
      → ViewLaws.IsValid c
      → ch.poll_next h.rx ≡ (ready (some c), r)
      → pump (suc fuel) h ≡ pump fuel (forward c (length (content c)) (record h { rx = r }))
  unfolding pump
  pump_chunk fuel h r c enough valid e =
      rw (le→leb default_chunk_capacity h.window.send enough, pump, e, slice_len_lem valid)
        (ap
          (λ (p : Poll (Option ChunkView) × R).
            pump fuel (forward c (length (content c)) (record h { rx = p.1 })))
          e)

  pump_none :
      (fuel : ℕ) (h : YamuxStreamHead S R)
      → default_chunk_capacity ≤ h.window.send
      → queued h.rx ≡ []
      → (h' : YamuxStreamHead S R) × (pump (suc fuel) h ≡ done h')
        × Sent queued h h'
        × (queued h'.rx ≡ [])
  unfolding pump
  pump_none fuel h enough e =
      let (r, empty, polled) = laws.poll_none h.rx e in
      elim polled [
        | inl waits ↦ (
          record h { rx = r },
          rw (le→leb default_chunk_capacity h.window.send enough, pump, waits)
              (ap (λ (p : Poll (Option ChunkView) × R). done (record h { rx = p.1 })) waits),
          waiting queued h r (e ∙ sym empty),
          empty,
        )
        | inr ended ↦ (
          try_close_local (record h { rx = r }),
          rw (le→leb default_chunk_capacity h.window.send enough, pump, ended)
              (ap
                (λ (p : Poll (Option ChunkView) × R).
                  done (try_close_local (record h { rx = p.1 })))
                ended),
          closing queued h r [] (e ∙ sym empty) refl,
          ap queued (try_close_local-rx (record h { rx = r })) ∙ empty,
        )
      ]

  -- What `pump` is to end with.
  abbrev Pumped : ℕ → YamuxStreamHead S R → Type 0
  Pumped fuel h =
      (h' : YamuxStreamHead S R) × (pump fuel h ≡ done h')
      × Sent queued h h'
      × ((h'.window.send < default_chunk_capacity) ⊎ (queued h'.rx ≡ []))

  -- Below one chunk of credit, the loop takes nothing.
  pump_open :
      (fuel : ℕ) (h : YamuxStreamHead S R)
      → (default_chunk_capacity ≤ h.window.send → Pumped (suc fuel) h)
      → Pumped (suc fuel) h
  pump_open fuel h more = elim (Bool-cases (leb default_chunk_capacity h.window.send)) [
    | inl enough ↦ more (leb→le default_chunk_capacity h.window.send enough)
    | inr short ↦
        let low : h.window.send < default_chunk_capacity = ground arith in
        (h, pump_end fuel h low, waiting queued h h.rx refl, inl low)
  ]

  pump-All :
      (cs : List ChunkView) (fuel : ℕ) (h : YamuxStreamHead S R)
      → length cs < fuel
      → queued h.rx ≡ cs
      → All IsSmall cs
      → Pumped fuel h
  pump-All cs zero h more e small = absurd (omega arith)
  pump-All [] (suc fuel) h more e small = pump_open fuel h (λ enough.
      let (h', run, sent, empty) = pump_none fuel h enough e in (h', run, sent, inr empty))
  pump-All (c ∷ cs) (suc fuel) h more e (s, small) = pump_open fuel h (λ enough.
      let (r, polled, rest) = laws.poll_some h.rx c cs e in
      let h1 : YamuxStreamHead S R = forward c (length (content c)) (record h { rx = r }) in
      let (h', run, sent, stop) =
        pump-All cs fuel h1 (omega arith)
          (ap queued (forward-rx c (length (content c)) (record h { rx = r })) ∙ rest) small in
      (
        h',
        pump_chunk fuel h r c enough s.0 polled ∙ run,
        Sent-trans queued h h1 h' (forwarded queued h r c (e ∙ ap (◌∷◌ c) (sym rest)) s enough)
            sent,
        stop,
      ))

  pub pump_lem :
      (fuel : ℕ) (h : YamuxStreamHead S R)
      → length (queued h.rx) < fuel
      → All IsSmall (queued h.rx)
      → (h' : YamuxStreamHead S R) × (pump fuel h ≡ done h')
        × Sent queued h h'
        × ((h'.window.send < default_chunk_capacity) ⊎ (queued h'.rx ≡ []))
  pump_lem fuel h more small = pump-All (queued h.rx) fuel h more refl small
