-- ===== src/Frame/Writing.antt =====
-- `FrameWriter`: what it writes and what it refuses, and the way back through a `FrameReader`.
use yamux_low_mem.Prelude.{
  ℕ, suc, ◌+◌, ◌≡◌, refl, sym, ap, subst, ◌∙◌, ◌⊎◌, inl, inr, Option, none, List, [], ◌∷◌, ◌++◌,
  append-nil, append_assoc, arith, length, All, length-append, Exec, done, Result, ok, err, ◌>>=◌,
}
use yamux_low_mem.Chunk.Traits.{ChunkBufferReader, ChunkBufferWriter}
use yamux_low_mem.Chunk.Traits.Reads.{IsReader}
use yamux_low_mem.Chunk.Traits.Writes.{IsWriter}
use yamux_low_mem.Frame.{Frame, FrameWriter, PendingPayload, FrameWriterError, admit, write_frame}
use yamux_low_mem.Frame.Codec.{frame_bytes, IsSound, frame-Writes}
use yamux_low_mem.Frame.Messages.{assemble}
use yamux_low_mem.Frame.Reading.{collect}
use yamux_low_mem.Frame.Collect.{collect-assemble}
use yamux_low_mem.Frame.Admitted.{admit_all, frames_bytes, IsPending, CanWrite, admit_iff}
use yamux_low_mem.Frame.Stands.{admit_all-cons, admitted-all_bytes}

module _ {W : Type 0} ⦃w : ChunkBufferWriter W⦄ where
  -- Writes one frame after the other, until one is refused.
  unfoldable pub write_all :
      List Frame → FrameWriter W → Exec (Result FrameWriterError (Unit {0}) × FrameWriter W)
  write_all [] f = done (ok tt, f)
  write_all (x ∷ xs) f = write_frame x f >>= λ out. elim out.0 [
    | err e ↦ done (err e, out.1)
    | ok _ ↦ write_all xs out.1
  ]

module _ {W : Type 0} ⦃w : ChunkBufferWriter W⦄ {Room : ℕ → W → Type 0} {bytes : W → List ℕ}
    (laws : IsWriter Room bytes w) where
  abbrev at : Option PendingPayload → W → FrameWriter W
  at p b = record { pending = p; buffer = b }

  write_frame_ok :
      (x : Frame) (p q : Option PendingPayload) (n : ℕ) (b : W)
      → IsSound x
      → admit p x ≡ ok q
      → Room (length (frame_bytes x) + n) b
      → (b' : W) × (write_frame x (at p b) ≡ done (ok tt, at q b'))
        × Room n b'
        × (bytes b' ≡ bytes b ++ frame_bytes x)
  unfolding write_frame
  write_frame_ok x p q n b sound e room =
      let (b', run, room', grown) = frame-Writes laws x sound n b room in
      (b', rw (e, write_frame, run), room', grown)

  write_frame_err :
      (x : Frame) (p : Option PendingPayload) (b : W) (e : FrameWriterError)
      → admit p x ≡ err e
      → write_frame x (at p b) ≡ done (err e, at p b)
  unfolding write_frame
  write_frame_err x p b e h = rw (h, write_frame)

  -- With room for a sound frame in the buffer, and a pending payload that fits a u32,
  -- FrameWriter::write either appends exactly the bytes of the frame, for a frame that the order
  -- of headers and chunks allows, and moves the pending payload on along that order; or it returns
  -- an error, for a frame that this order does not allow, and leaves the writer as it was.
  pub write_frame_lem :
      (x : Frame) (p : Option PendingPayload) (n : ℕ) (b : W)
      → IsSound x
      → IsPending p
      → Room (length (frame_bytes x) + n) b
      → ((q : Option PendingPayload) × (b' : W) × CanWrite p x q
          × (write_frame x (record { pending = p; buffer = b })
              ≡ done (ok tt, record { pending = q; buffer = b' }))
          × Room n b'
          × (bytes b' ≡ bytes b ++ frame_bytes x))
        ⊎ ((e : FrameWriterError) × ((q : Option PendingPayload) → ¬ CanWrite p x q)
            × (write_frame x (record { pending = p; buffer = b })
                ≡ done (err e, record { pending = p; buffer = b })))
  write_frame_lem x p n b sound h room = go (admit p x) refl
    where
      go :
          (a : Result FrameWriterError (Option PendingPayload))
          → admit p x ≡ a
          → ((q : Option PendingPayload) × (b' : W) × CanWrite p x q
              × (write_frame x (at p b) ≡ done (ok tt, at q b'))
              × Room n b'
              × (bytes b' ≡ bytes b ++ frame_bytes x))
            ⊎ ((e : FrameWriterError) × ((q : Option PendingPayload) → ¬ CanWrite p x q)
                × (write_frame x (at p b) ≡ done (err e, at p b)))
      go (ok q) same =
          let (b', run, room', grown) = write_frame_ok x p q n b sound same room in
          inl (q, b', (admit_iff p q x h).0 same, run, room', grown)
      go (err e) same =
          inr (e, λ q c. cc (same, (admit_iff p q x h).1 c), write_frame_err x p b e same)

  -- A sequence of sound frames that is admitted as a whole is written as a whole: with room for
  -- its bytes, FrameWriter::write succeeds on each frame in order, the buffer grows by exactly
  -- these bytes, and the pending payload is the one that the checks leave.
  pub write_all_lem :
      (fs : List Frame) (p q : Option PendingPayload) (n : ℕ) (b : W)
      → All IsSound fs
      → admit_all p fs ≡ ok q
      → Room (length (frames_bytes fs) + n) b
      → (b' : W) × (write_all fs (record { pending = p; buffer = b })
          ≡ done (ok tt, record { pending = q; buffer = b' }))
        × Room n b'
        × (bytes b' ≡ bytes b ++ frames_bytes fs)
  unfolding write_all
  write_all_lem [] p q n b sound e room = (
    b,
    ap (λ r. done (ok tt, at r b)) (cc),
    subst (λ k. Room k b) (omega arith) room,
    sym (append-nil (bytes b)),
  )
  write_all_lem (x ∷ xs) p q n b (s, sound) e room =
      let (r, first, rest) = admit_all-cons p q x xs e in
      let room0 : Room (length (frame_bytes x) + (length (frames_bytes xs) + n)) b =
        subst (λ k. Room k b) (omega (arith, length-append (frame_bytes x) (frames_bytes xs)))
          room in
      let (b1, run1, room1, grown1) =
        write_frame_ok x p r (length (frames_bytes xs) + n) b s first room0 in
      let (b2, run2, room2, grown2) = write_all_lem xs r q n b1 sound rest room1 in
      (
        b2,
        rw run1 run2,
        room2,
        grown2
            ∙ ap (λ t. t ++ frames_bytes xs) grown1
            ∙ append_assoc (bytes b) (frame_bytes x) (frames_bytes xs),
      )

module _ {W R : Type 0} ⦃w : ChunkBufferWriter W⦄ ⦃r : ChunkBufferReader R⦄ {Room : ℕ → W → Type 0}
    {written : W → List ℕ} (writer_laws : IsWriter Room written w) {Inv : R → Type 0}
    {held : R → List ℕ} (reader_laws : IsReader Inv held r) where
  -- For every writer and reader that keep the promises of their traits, every sequence of sound
  -- frames that passes the checks of FrameWriter::write in order and leaves no payload pending,
  -- written into an empty buffer with room for it, and every reader that holds the bytes that were
  -- written, in whatever chunks: polling FrameReader::next_frame until it wants more ends within
  -- one more round than there are bytes, and the frames that it yields stand for the same
  -- messages, control frames and whole payloads in order, as those that were written.
  pub collect-write_all :
      (fs : List Frame) (n : ℕ) (b : W) (b' : R) {f : FrameWriter W}
      → All IsSound fs
      → admit_all none fs ≡ ok none
      → Room (length (frames_bytes fs) + n) b
      → written b ≡ []
      → write_all fs (record { pending = none; buffer = b }) ≡ done (ok tt, f)
      → Inv b'
      → held b' ≡ written f.buffer
      → (frames : List Frame) × (collect
            (suc (length (held b')))
            (record { buffer = b'; pending = none })
          ≡ done frames)
        × (assemble frames ≡ assemble fs)
  collect-write_all fs n b b' {f} sound e room fresh run inv same =
      let (b1, run1, _, grown) = write_all_lem writer_laws fs none none n b sound e room in
      let out : f ≡ record { pending = none; buffer = b1 } = cc (run, run1) in
      let (sendable, all) = admitted-all_bytes fs sound e in
      collect-assemble reader_laws b' (assemble fs) inv
        (same
          ∙ ap (λ (g : FrameWriter W). written g.buffer) out
          ∙ grown
          ∙ ap (λ t. t ++ frames_bytes fs) fresh
          ∙ all)
        sendable
