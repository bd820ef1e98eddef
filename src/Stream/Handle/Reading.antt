-- ===== src/Stream/Handle/Reading.antt =====
-- `YamuxStream::poll_read`: what is read is what was received, in order.
use yamux_low_mem.Prelude.{
  ℕ, ◌≤◌, ◌<◌, min, ◌≡◌, refl, sym, ap, subst, ◌∙◌, ◌⊎◌, inl, inr, true, false, Option, none, some,
  List, [], ◌∷◌, ◌++◌, append_assoc, arith, ◌==◌, Bool-cases, length, All, length-eq-zero, Poll,
  ready, pending, done, Result, ok, err,
}
use yamux_low_mem.Chunk.View.{ChunkView}
use yamux_low_mem.Chunk.View.Laws as ViewLaws
use yamux_low_mem.Chunk.View.Laws.{content}
use yamux_low_mem.Stream.Sent.{IsReceiver, contents, slice_len_lem}
use yamux_low_mem.Stream.Handle.{
  UserChannel, IoError, broken_pipe, YamuxStream, read_part, poll_read,
}
use yamux_low_mem.Stream.Handle.Parts.{IsAtHand, at_hand, unread, read_part_lem}

module _ {S R : Type 0} ⦃ch : UserChannel S R⦄ {queued : R → List ChunkView}
    (laws : IsReceiver ch.poll_next queued) where
  -- What `poll_read` is to end with.
  abbrev ReadDone : ℕ → YamuxStream S R → Type 0
  ReadDone n x =
      (a : Poll (Result IoError (List ℕ))) × (x' : YamuxStream S R) × (poll_read n x ≡ done (a, x'))
      × IsAtHand x'.recv_chunk
      × All ViewLaws.IsValid (queued x'.rx)
      × (((ys : List ℕ) × (a ≡ ready (ok ys))
            × (unread queued x ≡ ys ++ unread queued x')
            × (length ys ≤ n)
            × ((min 1 n ≤ length ys)
                ⊎ ((c : ChunkView) × (queued x.rx ≡ c ∷ queued x'.rx) × (content c ≡ []))))
          ⊎ (((a ≡ pending) ⊎ (a ≡ ready (err broken_pipe))) × (unread queued x ≡ [])))

  read_at_hand :
      (n : ℕ) (c : ChunkView) (offset : ℕ) (x : YamuxStream S R)
      → ViewLaws.IsValid c
      → offset < length (content c)
      → All ViewLaws.IsValid (queued x.rx)
      → ReadDone n (record x { recv_chunk = some (c, offset) })
  unfolding poll_read
  read_at_hand n c offset x v inside views =
      let (ys, x', run, hand, same, cut, most, least) =
        read_part_lem queued n c offset (record x { recv_chunk = some (c, offset) }) v inside in
      (
        ready (ok ys),
        x',
        run,
        hand,
        subst (λ r. All ViewLaws.IsValid (queued r)) (sym same) views,
        inl (
          ys,
          refl,
          ap (λ t. t ++ contents (queued x.rx)) cut
              ∙ append_assoc ys (at_hand x'.recv_chunk) (contents (queued x.rx))
              ∙ ap (λ r. ys ++ (at_hand x'.recv_chunk ++ contents (queued r))) (sym same),
          most,
          inl least,
        ),
      )

  read_next :
      (n : ℕ) (c : ChunkView) (cs : List ChunkView) (x : YamuxStream S R)
      → queued x.rx ≡ c ∷ cs
      → ViewLaws.IsValid c
      → All ViewLaws.IsValid cs
      → ReadDone n (record x { recv_chunk = none })
  unfolding poll_read
  read_next n c cs x e v views =
      let (r, polled, rest) = laws.poll_some x.rx c cs e in
      elim (Bool-cases (length (content c) == 0)) [
        | inl no_bytes ↦
            let gone : content c ≡ [] = length-eq-zero (content c) (ground arith) in
            (
              ready (ok []),
              record x { rx = r; recv_chunk = none },
              rw (polled, poll_read, slice_len_lem v)
                  (ap
                      (λ b. elim b [
                        | true ↦ done (
                          ready (ok []),
                          record x { rx = (ch.poll_next x.rx).1; recv_chunk = none },
                        )
                        | false ↦
                            read_part n c 0
                              (record x { rx = (ch.poll_next x.rx).1; recv_chunk = some (c, 0) })
                      ])
                      no_bytes
                    ∙ ap
                        (λ (p : Poll (Option ChunkView) × R).
                          done (ready (ok []), record x { rx = p.1; recv_chunk = none }))
                        polled),
              tt,
              subst (All ViewLaws.IsValid) (sym rest) views,
              inl (
                [],
                refl,
                ap contents e ∙ ap (λ t. t ++ contents cs) gone ∙ ap contents (sym rest),
                omega arith,
                inr (c, e ∙ ap (◌∷◌ c) (sym rest), gone),
              ),
            )
        | inr some_bytes ↦
            let x0 : YamuxStream S R = record x { rx = r; recv_chunk = some (c, 0) } in
            let (ys, x', run, hand, same, cut, most, least) =
              read_part_lem queued n c 0 x0 v (ground arith) in
            (
              ready (ok ys),
              x',
              rw (polled, poll_read, slice_len_lem v)
                  (ap
                      (λ b. elim b [
                        | true ↦ done (
                          ready (ok []),
                          record x { rx = (ch.poll_next x.rx).1; recv_chunk = none },
                        )
                        | false ↦
                            read_part n c 0
                              (record x { rx = (ch.poll_next x.rx).1; recv_chunk = some (c, 0) })
                      ])
                      some_bytes
                    ∙ ap
                        (λ (p : Poll (Option ChunkView) × R).
                          read_part n c 0 (record x { rx = p.1; recv_chunk = some (c, 0) }))
                        polled
                    ∙ run),
              hand,
              subst (All ViewLaws.IsValid) (sym rest ∙ ap queued (sym same)) views,
              inl (
                ys,
                refl,
                ap contents e
                    ∙ ap (λ t. t ++ contents cs) cut
                    ∙ append_assoc ys (at_hand x'.recv_chunk) (contents cs)
                    ∙ ap (λ q. ys ++ (at_hand x'.recv_chunk ++ contents q))
                        (sym rest ∙ ap queued (sym same)),
                most,
                inl least,
              ),
            )
      ]

  read_none :
      (n : ℕ) (x : YamuxStream S R) → queued x.rx ≡ [] → ReadDone n (record x { recv_chunk = none })
  unfolding poll_read
  read_none n x e =
      let (r, empty, polled) = laws.poll_none x.rx e in
      elim polled [
        | inl waits ↦ (
          pending,
          record x { rx = r; recv_chunk = none },
          rw (waits, poll_read)
              (ap
                (λ (p : Poll (Option ChunkView) × R).
                  done (pending, record x { rx = p.1; recv_chunk = none }))
                waits),
          tt,
          subst (All ViewLaws.IsValid) (sym empty) tt,
          inr (inl refl, ap contents e),
        )
        | inr ended ↦ (
          ready (err broken_pipe),
          record x { rx = r; recv_chunk = none },
          rw (ended, poll_read)
              (ap
                (λ (p : Poll (Option ChunkView) × R).
                  done (ready (err broken_pipe), record x { rx = p.1; recv_chunk = none }))
                ended),
          tt,
          subst (All ViewLaws.IsValid) (sym empty) tt,
          inr (inr refl, ap contents e),
        )
      ]

  -- Over a receiving end that yields what is queued in order, with well-formed chunks queued and,
  -- if a chunk is at hand, bytes left in it: YamuxStream::poll_read ends without a panic, and
  -- either returns bytes, at most as many as the buffer has, which are the next ones of what was
  -- received and not yet read, and at least one if the buffer has room, or none for an empty
  -- chunk, which is the mark of the end; or it waits or fails, and then there is nothing to read.
  pub poll_read_lem :
      (n : ℕ) (x : YamuxStream S R)
      → IsAtHand x.recv_chunk
      → All ViewLaws.IsValid (queued x.rx)
      → (a : Poll (Result IoError (List ℕ))) × (x' : YamuxStream S R) × (poll_read n x
          ≡ done (a, x'))
        × IsAtHand x'.recv_chunk
        × All ViewLaws.IsValid (queued x'.rx)
        × (((ys : List ℕ) × (a ≡ ready (ok ys))
              × (unread queued x ≡ ys ++ unread queued x')
              × (length ys ≤ n)
              × ((min 1 n ≤ length ys)
                  ⊎ ((c : ChunkView) × (queued x.rx ≡ c ∷ queued x'.rx) × (content c ≡ []))))
            ⊎ (((a ≡ pending) ⊎ (a ≡ ready (err broken_pipe))) × (unread queued x ≡ [])))
  poll_read_lem n x hand views = at x.recv_chunk hand
    where
      at : (r : Option (ChunkView × ℕ)) → IsAtHand r → ReadDone n (record x { recv_chunk = r })
      at (some (c, offset)) (v, inside) = read_at_hand n c offset x v inside views
      at none _ = received (queued x.rx) refl views
        where
          received :
              (cs : List ChunkView)
              → queued x.rx ≡ cs
              → All ViewLaws.IsValid cs
              → ReadDone n (record x { recv_chunk = none })
          received [] e _ = read_none n x e
          received (c ∷ cs) e (v, rest) = read_next n c cs x e v rest
