-- ===== src/Session/Draining/Order.antt =====
-- What `YamuxSession::poll_next` takes of all heads: frames that a `FrameWriter` would admit.
use yamux_low_mem.Prelude.{
  ℕ, ◌<◌, ◌≡◌, refl, sym, ap, subst, ◌∙◌, Bool, none, List, [], ◌∷◌, ◌++◌, map, if◌then◌else◌,
  length, All, All-append, done, ok,
}
use yamux_low_mem.Prelude.Word.{u32_mod}
use yamux_low_mem.Chunk.View.{ChunkView}
use yamux_low_mem.Packet.{StreamId}
use yamux_low_mem.Frame.{Frame, stream, FrameStreamEvent}
use yamux_low_mem.Frame.Admitted.{admit_all}
use yamux_low_mem.Frame.Codec.{IsSound}
use yamux_low_mem.Stream.{Channel, YamuxStreamHead}
use yamux_low_mem.Stream.Sent.{IsReceiver, IsSmall, map-append, admit_all-append}
use yamux_low_mem.Session.Entries.{All-remove_all}
use yamux_low_mem.Session.{YamuxSession}
use yamux_low_mem.Session.Draining.{drain_all, drain_heads, remove_all}
use yamux_low_mem.Session.Draining.Head.{events_left, Drained, drain_lem, Sent-IsSmall}

module _ {S R : Type 0} (queued : R → List ChunkView) where
  -- A head under its own identifier, whose queued events can be sent as they are, one after the
  -- other, and whose local side sends chunks of at most one chunk capacity.
  pub record IsReady (entry : StreamId × YamuxStreamHead S R) : Type 0 where
    pub own : entry.1.id ≡ entry.0
    pub word : entry.0.value < u32_mod
    pub small : All IsSmall (queued entry.1.rx)
    pub admitted : admit_all none (map (stream entry.0) entry.1.outs) ≡ ok none
    pub sound : All IsSound (map (stream entry.0) entry.1.outs)

  -- The fuel is enough for a head.
  abbrev pub Enough : ℕ → ℕ → StreamId × YamuxStreamHead S R → Type 0
  Enough fuel polls entry =
      (events_left queued entry.1 < fuel) × (length (queued entry.1.rx) < polls)

  -- The frames of one head, when it is drained.
  head_frames :
      (id : StreamId) (h h' : YamuxStreamHead S R) (ended : Bool) (events : List FrameStreamEvent)
      → IsReady (id, h)
      → Drained queued h ended events h'
      → (admit_all none (map (stream id) events) ≡ ok none)
        × All IsSound (map (stream id) events)
        × IsReady (id, h')
  head_frames id h h' ended events r d =
      let both : map (stream id) events ≡ map (stream id) h.outs ++ map (stream id) d.sent.sent =
        ap (map (stream id)) d.sent.outs ∙ map-append (stream id) h.outs d.sent.sent in
      let sent_admitted : admit_all none (map (stream id) d.sent.sent) ≡ ok none =
        subst (λ i. admit_all none (map (stream i) d.sent.sent) ≡ ok none) r.own d.sent.admitted in
      (
        ap (admit_all none) both
            ∙ admit_all-append none none (map (stream id) h.outs) (map (stream id) d.sent.sent)
                r.admitted
            ∙ sent_admitted,
        subst (All IsSound) (sym both) (
            All-append IsSound (map (stream id) h.outs) (map (stream id) d.sent.sent) r.sound (
              subst (λ i. All IsSound (map (stream i) d.sent.sent)) r.own
                (d.sent.sound (subst (λ i. i.value < u32_mod) (sym r.own) r.word)))),
        record {
          own = d.sent.same_id ∙ r.own;
          word = r.word;
          small = Sent-IsSmall queued h (record h' { outs = events }) d.sent r.small;
          admitted = ap (λ o. admit_all none (map (stream id) o)) d.empty;
          sound = subst (λ o. All IsSound (map (stream id) o)) (sym d.empty) tt;
        },
      )

  -- All heads drained, one after the other: the frames of each head in a row under its identifier,
  -- and the identifiers of those that ended.
  pub data AllDrained
      : List (StreamId × YamuxStreamHead S R)
        → List (StreamId × YamuxStreamHead S R)
        → List Frame
        → List StreamId
        → Type 0 where
    no_heads : AllDrained [] [] [] []
    head_drained :
        {id : StreamId} {h h' : YamuxStreamHead S R} {ended : Bool} {events : List FrameStreamEvent}
        {rest heads : List (StreamId × YamuxStreamHead S R)} {frames : List Frame}
        {ids : List StreamId}
        → Drained queued h ended events h'
        → AllDrained rest heads frames ids
        → AllDrained
            ((id, h) ∷ rest)
            ((id, h') ∷ heads)
            (map (stream id) events ++ frames)
            (if ended then id ∷ ids else ids)

  -- What the frames of all heads are, together.
  AllDrained-admitted :
      (m heads : List (StreamId × YamuxStreamHead S R)) (frames : List Frame) (ids : List StreamId)
      → AllDrained m heads frames ids
      → All IsReady m
      → (admit_all none frames ≡ ok none) × All IsSound frames × All IsReady heads
  AllDrained-admitted _ _ _ _ no_heads r = (refl, tt, tt)
  AllDrained-admitted _ _ _ _
        (head_drained {id} {h} {h'} {ended} {events} {rest} {heads} {frames} {ids} d ds) (r, rs) =
      let (admitted, sound, ready_head) = head_frames id h h' ended events r d in
      let (admitted_rest, sound_rest, ready_rest) =
        AllDrained-admitted rest heads frames ids ds rs in
      (
        admit_all-append none none (map (stream id) events) frames admitted ∙ admitted_rest,
        All-append IsSound (map (stream id) events) frames sound sound_rest,
        (ready_head, ready_rest),
      )

module _ {S R : Type 0} ⦃ch : Channel S R⦄ {queued : R → List ChunkView}
    (laws : IsReceiver ch.poll_next queued) (fuel polls : ℕ) where
  drain_all-AllDrained :
      (m : List (StreamId × YamuxStreamHead S R))
      → All (IsReady queued) m
      → All (Enough queued fuel polls) m
      → (heads : List (StreamId × YamuxStreamHead S R)) × (frames : List Frame) × (ids : List
          StreamId)
        × (drain_all fuel polls m ≡ done (heads, (frames, ids)))
        × AllDrained queued m heads frames ids
  unfolding drain_all
  drain_all-AllDrained [] r enough = ([], [], [], refl, no_heads)
  drain_all-AllDrained ((id, h) ∷ m) (r, rs) ((left, more), enough) =
      let (ended, events, h', run, d) = drain_lem laws polls fuel h more left r.small in
      let (heads, frames, ids, runs, ds) = drain_all-AllDrained m rs enough in
      (_, _, _, rw (run, runs) refl, head_drained d ds)

module _ {T S R : Type 0} ⦃ch : Channel S R⦄ {queued : R → List ChunkView}
    (laws : IsReceiver ch.poll_next queued) where
  pub drain_heads_lem :
      (fuel polls : ℕ) (x : YamuxSession T S R)
      → All (IsReady queued) x.streams
      → All (Enough queued fuel polls) x.streams
      → (heads : List (StreamId × YamuxStreamHead S R)) × (frames : List Frame) × (ids : List
          StreamId)
        × (drain_heads fuel polls x
            ≡ done (record x { streams = remove_all ids heads; out_queue = x.out_queue ++ frames }))
        × AllDrained queued x.streams heads frames ids
        × (admit_all none frames ≡ ok none)
        × All IsSound frames
        × All (IsReady queued) (remove_all ids heads)
  unfolding drain_heads
  drain_heads_lem fuel polls x r enough =
      let (heads, frames, ids, run, ds) = drain_all-AllDrained laws fuel polls x.streams r enough in
      let (admitted, sound, still) = AllDrained-admitted queued x.streams heads frames ids ds r in
      (
        heads,
        frames,
        ids,
        rw run refl,
        ds,
        admitted,
        sound,
        All-remove_all (IsReady queued) ids heads still,
      )
