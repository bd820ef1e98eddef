-- ===== src/Session/Driving/Order.antt =====
-- `YamuxSession`: what it has sent, followed by what it has queued, is a sequence of frames that a
-- `FrameWriter` admits.
use yamux_low_mem.Prelude.{
  ℕ, ◌+◌, ◌≤◌, ◌<◌, ◌≡◌, refl, sym, ap, subst, ◌∙◌, ◌⊎◌, Bool, true, false, none, List, [], ◌∷◌,
  ◌++◌, append_assoc, length, All, All-append, All-split, pending, done, ok,
}
use yamux_low_mem.Chunk.Writer.Invariant.{Room, bytes}
use yamux_low_mem.Frame.{Frame}
use yamux_low_mem.Frame.Codec.{IsSound, frame_bytes}
use yamux_low_mem.Frame.Admitted.{admit_all, frames_bytes}
use yamux_low_mem.Stream.Sent.{admit_all-append}
use yamux_low_mem.Transport.{ByteStream}
use yamux_low_mem.Transport.Flushing.{IsSink, Answers}
use yamux_low_mem.Session.{YamuxSession}
use yamux_low_mem.Session.Driving.{send_queue}
use yamux_low_mem.Session.Driving.Delivery.{written, send_out_lem}

-- `given` are the frames that the transport was given so far.
pub record IsOrdered {T S R : Type 0} (sent : T → List ℕ) (given : List Frame)
    (x : YamuxSession T S R) : Type 0 where
  pub sound : All IsSound x.out_queue
  pub given_sound : All IsSound given
  pub admitted : admit_all none (given ++ x.out_queue) ≡ ok none
  pub bytes : written sent x.transport ≡ frames_bytes given

frames_bytes-append :
    (fs gs : List Frame) → frames_bytes (fs ++ gs) ≡ frames_bytes fs ++ frames_bytes gs
frames_bytes-append [] gs = refl
frames_bytes-append (f ∷ fs) gs =
    ap (λ q. frame_bytes f ++ q) (frames_bytes-append fs gs)
    ∙ sym (append_assoc (frame_bytes f) (frames_bytes fs) (frames_bytes gs))

module _ {E T S R : Type 0} ⦃s : ByteStream E T⦄ {sent : T → List ℕ} (laws : IsSink s sent) where
  -- What `send_queue` is to end with.
  pub record Handed (n : ℕ) (given : List Frame) (x : YamuxSession T S R) (any : Bool)
      (x' : YamuxSession T S R) : Type 0 where
    pub handed : List Frame
    pub queue : x.out_queue ≡ handed ++ x'.out_queue
    pub ordered : IsOrdered sent (given ++ handed) x'
    pub room : Room (length (frames_bytes x'.out_queue) + n) x'.transport.writer.buffer
    pub kept : x' ≡ record x { out_queue = x'.out_queue; transport = x'.transport }
    pub reader : x'.transport.reader ≡ x.transport.reader
    pub reported : ((any ≡ false) × (handed ≡ [])) ⊎ ((any ≡ true) × (0 < length handed))
    pub stop :
        (x'.out_queue ≡ [])
        ⊎ ((x.transport.max_writer_buffer ≤ length (bytes x'.transport.writer.buffer))
            × Answers s pending)

  -- With room for the frames that are queued: the loop of YamuxSession::poll_next that hands them
  -- over ends, and keeps the frames given so far and those in the queue a sequence that a
  -- FrameWriter admits, whose given part is all that was written.
  pub send_queue-IsOrdered :
      (n : ℕ) (given : List Frame) (x : YamuxSession T S R)
      → IsOrdered sent given x
      → Room (length (frames_bytes x.out_queue) + n) x.transport.writer.buffer
      → (any : Bool) × (x' : YamuxSession T S R) × (send_queue E x ≡ done (any, x'))
        × Handed n given x any x'
  unfolding send_queue
  send_queue-IsOrdered n given x o room =
      let (any, handed, rest, t, run, cut, out, room', kept, reported, stop) =
        send_out_lem laws x.out_queue n x.transport o.sound room in
      let parts = All-split IsSound handed rest (subst (All IsSound) cut o.sound) in
      (
        any,
        record x { out_queue = rest; transport = t },
        rw run refl,
        record {
          handed = handed;
          queue = cut;
          ordered = record {
            sound = parts.1;
            given_sound = All-append IsSound given handed o.given_sound parts.0;
            admitted =
                ap (admit_all none)
                  (append_assoc given handed rest ∙ ap (λ q. given ++ q) (sym cut))
                ∙ o.admitted;
            bytes =
                out
                ∙ ap (λ q. q ++ frames_bytes handed) o.bytes
                ∙ sym (frames_bytes-append given handed);
          };
          room = room';
          kept = refl;
          reader = ap (λ u. u.reader) kept;
          reported = reported;
          stop = stop;
        },
      )

-- Frames that are admitted by themselves may follow at the end of the queue.
pub IsOrdered-append :
    {T S R : Type 0} {sent : T → List ℕ} {given : List Frame} (x : YamuxSession T S R)
    (frames : List Frame)
    → IsOrdered sent given x
    → admit_all none frames ≡ ok none
    → All IsSound frames
    → IsOrdered sent given (record x { out_queue = x.out_queue ++ frames })
IsOrdered-append {given} x frames o admitted sound = record {
  sound = All-append IsSound x.out_queue frames o.sound sound;
  given_sound = o.given_sound;
  admitted =
      ap (admit_all none) (sym (append_assoc given x.out_queue frames))
      ∙ admit_all-append none none (given ++ x.out_queue) frames o.admitted
      ∙ admitted;
  bytes = o.bytes;
}
