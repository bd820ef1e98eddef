-- ===== src/Stream/Handle/Writing.antt =====
-- `YamuxStream::poll_write`: the chunks that it makes are those that the session's half asks for.
use yamux_low_mem.Prelude.{
  ℕ, ◌^◌, ◌<◌, min, ◌≡◌, refl, ap, ◌∙◌, ◌⊎◌, inl, inr, Bool, true, false, List, [], ◌∷◌, ◌++◌,
  arith, length, take, length-take, Poll, ready, pending, Result, ok, err,
}
use yamux_low_mem.Chunk.View.{ChunkView, view_of_slice}
use yamux_low_mem.Chunk.View.Laws as ViewLaws
use yamux_low_mem.Chunk.View.Laws.{content}
use yamux_low_mem.Chunk.Owned.{default_chunk_capacity}
use yamux_low_mem.Stream.Sent.{IsSmall}
use yamux_low_mem.Stream.Handle.{IoError, UserChannel, broken_pipe, YamuxStream, poll_write}

-- What the code relies on of the sending end of a channel: asking for room changes nothing, and a
-- chunk is queued behind the others, or is not if the call fails.
pub record IsSender {S R : Type 0} (ch : UserChannel S R) (queued : S → List ChunkView)
    : Type 0 where
  pub ready_keeps : (t : S) → queued ((ch.poll_ready t).1) ≡ queued t
  pub send_queues :
      (c : ChunkView) (t : S)
      → (((ch.start_send c t).0 ≡ true) × (queued ((ch.start_send c t).1) ≡ queued t ++ c ∷ []))
        ⊎ (((ch.start_send c t).0 ≡ false) × (queued ((ch.start_send c t).1) ≡ queued t))

module _ {S R : Type 0} ⦃ch : UserChannel S R⦄ {queued : S → List ChunkView}
    (laws : IsSender ch queued) where
  abbrev Wrote : List ℕ → YamuxStream S R → Poll (Result IoError ℕ) × YamuxStream S R → Type 0
  Wrote buf x (a, x') =
      ((a ≡ ready (ok (min (length buf) default_chunk_capacity)))
        × ((c : ChunkView) × IsSmall c
            × (content c ≡ take (min (length buf) default_chunk_capacity) buf)
            × (queued x'.tx ≡ queued x.tx ++ c ∷ [])))
      ⊎ (((a ≡ pending) ⊎ (a ≡ ready (err broken_pipe))) × (queued x'.tx ≡ queued x.tx))

  wrote :
      (buf : List ℕ) (x : YamuxStream S R)
      → length buf < 2 ^ 63
      → (p : Poll Bool) → (ch.poll_ready x.tx).0 ≡ p
      → Wrote buf x (poll_write buf x)
  unfolding poll_write
  wrote buf x small pending same = rw (same, poll_write) (inr (inl refl, laws.ready_keeps x.tx))
  wrote buf x small (ready false) same =
      rw (same, poll_write) (inr (inr refl, laws.ready_keeps x.tx))
  wrote buf x small (ready true) same =
      let part : List ℕ = take (min (length buf) default_chunk_capacity) buf in
      let c : ChunkView = view_of_slice part in
      let size : length part ≡ min (length buf) default_chunk_capacity =
        omega (arith, length-take (min (length buf) default_chunk_capacity) buf) in
      let (valid, shows) = ViewLaws.view_of_slice_lem part (omega (arith, size)) in
      elim (laws.send_queues c ((ch.poll_ready x.tx).1)) [
        | inl (sent, queue) ↦
            let small_part : IsSmall c = (valid, omega (arith, ap length shows, size)) in
            let grown = queue ∙ ap (λ q. q ++ c ∷ []) (laws.ready_keeps x.tx) in
            rw (same, poll_write, sent) (inl (refl, (c, small_part, shows, grown)))
        | inr (failed, queue) ↦
            rw (same, poll_write, failed) (inr (inr refl, queue ∙ laws.ready_keeps x.tx))
      ]

  -- Over a sending end that queues a chunk behind the others unless the call fails, and for a
  -- buffer of less than 2^63 bytes: YamuxStream::poll_write either queues one well-formed chunk of
  -- at most one chunk capacity, as the loop of the session's half expects, with the front part of
  -- the buffer, whose length it returns; or it waits or fails, and queues nothing.
  pub poll_write-IsSmall :
      (buf : List ℕ) (x : YamuxStream S R)
      → length buf < 2 ^ 63
      → (((poll_write buf x).0 ≡ ready (ok (min (length buf) default_chunk_capacity)))
          × ((c : ChunkView) × IsSmall c
              × (content c ≡ take (min (length buf) default_chunk_capacity) buf)
              × (queued (((poll_write buf x).1).tx) ≡ queued x.tx ++ c ∷ [])))
        ⊎ ((((poll_write buf x).0 ≡ pending) ⊎ ((poll_write buf x).0 ≡ ready (err broken_pipe)))
            × (queued (((poll_write buf x).1).tx) ≡ queued x.tx))
  poll_write-IsSmall buf x small = wrote buf x small ((ch.poll_ready x.tx).0) refl
