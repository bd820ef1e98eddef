-- ===== src/Session/Receiving/Invariant.antt =====
-- `YamuxSession::poll_next`: what its loop over received frames keeps.
use yamux_low_mem.Prelude.{
  ℕ, ◌<◌, ◌≡◌, refl, sym, ap, subst, ◌∙◌, inl, inr, true, Option, none, some, List, [], ◌∷◌, ◌++◌,
  map, arith, Bool-cases, All, All-append, done,
}
use yamux_low_mem.Prelude.Word.{u32_mod}
use yamux_low_mem.Chunk.View.{ChunkView}
use yamux_low_mem.Packet.{StreamId, Flags, ack_flags}
use yamux_low_mem.Frame.{
  Frame, FrameSessionEvent, session, stream, ping, go_away, FrameStreamEvent, data_header,
  data_chunk, window_update, event_flags, admit,
}
use yamux_low_mem.Frame.Codec.{IsSound}
use yamux_low_mem.Frame.Admitted.{admit_all}
use yamux_low_mem.Stream.{Channel, YamuxStreamHead, accept_head}
use yamux_low_mem.Stream.Sent.{IsSmall, map-append, admit_all-append}
use yamux_low_mem.Stream.Input.{IsWell}
use yamux_low_mem.Stream.Replies.{Replied, on_input-Replied, updates_admitted, updates-IsSound}
use yamux_low_mem.Stream.Handle.{YamuxStream}
use yamux_low_mem.Stream.Handle
use yamux_low_mem.Session.Entries.{All-insert, All-get}
use yamux_low_mem.Session.{YamuxSession, get, insert}
use yamux_low_mem.Session.Draining.Order.{IsReady}
use yamux_low_mem.Session.Driving.Order.{IsOrdered, IsOrdered-append}
use yamux_low_mem.Session.Receiving.{
  on_unknown, on_known, on_session_event, Verdict, proceed, closed, accepted, Ends, push_frame,
  on_frame,
}
use yamux_low_mem.Session.Receiving.Isolation.{opens, by_head}

-- An event of a sound frame has a well-formed chunk.
pub IsSound-IsWell : (id : StreamId) (e : FrameStreamEvent) → IsSound (stream id e) → IsWell e
IsSound-IsWell id (data_header flags size) s = tt
IsSound-IsWell id (data_chunk c) s = s
IsSound-IsWell id (window_update flags delta) s = tt

-- The identifier of a frame that opens a stream is a `u32`.
opens-word :
    (id : StreamId) (e : FrameStreamEvent)
    → opens e ≡ true
    → IsSound (stream id e)
    → id.value < u32_mod
unfolding event_flags
opens-word id (data_header flags size) o s = s.0
opens-word id (data_chunk c) o s = absurd (cc)
opens-word id (window_update flags delta) o s = s.0

module _ {S R : Type 0} (queued : R → List ChunkView) where
  -- A head stays ready when it takes an event.
  Replied-IsReady :
      (id : StreamId) (h h' : YamuxStreamHead S R)
      → IsReady queued (id, h)
      → Replied h h'
      → IsReady queued (id, h')
  Replied-IsReady id h h' r s =
      let both : map (stream id) h'.outs ≡ map (stream id) h.outs ++ map (stream id) s.replies =
        ap (map (stream id)) s.outs ∙ map-append (stream id) h.outs s.replies in
      record {
        own = s.same_id ∙ r.own;
        word = r.word;
        small = subst (λ q. All IsSmall (queued q)) (sym s.same_rx) r.small;
        admitted =
            ap (admit_all none) both
            ∙ admit_all-append none none (map (stream id) h.outs) (map (stream id) s.replies)
                r.admitted
            ∙ updates_admitted id s.replies s.updates;
        sound = subst (All IsSound) (sym both) (
            All-append IsSound (map (stream id) h.outs) (map (stream id) s.replies) r.sound
              (updates-IsSound id s.replies r.word s.updates));
      }

  -- The head of an accepted stream is ready.
  accept_head-IsReady :
      (id : StreamId) (tx : S) (rx : R)
      → id.value < u32_mod
      → All IsSmall (queued rx)
      → IsReady queued (id, accept_head id tx rx)
  unfolding accept_head admit
  accept_head-IsReady id tx rx word small = record {
    own = refl;
    word = word;
    small = small;
    admitted = refl;
    sound = ((word, omega arith), tt);
  }

with_streams :
    {T S R : Type 0} {sent : T → List ℕ} {given : List Frame} (x : YamuxSession T S R)
    (m : List (StreamId × YamuxStreamHead S R))
    → IsOrdered sent given x
    → IsOrdered sent given (record x { streams = m })
with_streams x m o = record {
  sound = o.sound;
  given_sound = o.given_sound;
  admitted = o.admitted;
  bytes = o.bytes;
}

module _ {T S R S' R' : Type 0} ⦃ch : Channel S R⦄ (queued : R → List ChunkView) (sent : T → List ℕ)
    (given : List Frame) where
  -- What the loop is to keep for a frame.
  abbrev Keeps : Frame → Ends S R S' R' → YamuxSession T S R → Type 0
  Keeps frame ends x =
      (v : Verdict (YamuxStream S' R')) × (x' : YamuxSession T S R) × (on_frame frame ends x
        ≡ done (v, x'))
      × All (IsReady queued) x'.streams
      × IsOrdered sent given x'
      × (x' ≡ record x { streams = x'.streams; out_queue = x'.out_queue })

  Keeps-session :
      (event : FrameSessionEvent) (ends : Ends S R S' R') (x : YamuxSession T S R)
      → IsSound (session event)
      → All (IsReady queued) x.streams
      → IsOrdered sent given x
      → Keeps (session event) ends x
  unfolding on_frame on_session_event admit
  Keeps-session (go_away code) ends x s r o = (closed, x, refl, r, o, refl)
  Keeps-session (ping flags code) ends x s r o = elim (Bool-cases flags.syn) [
    | inl asks ↦ (
      proceed,
      push_frame (session (ping ack_flags code)) x,
      rw asks refl,
      r,
      IsOrdered-append x (session (ping ack_flags code) ∷ []) o refl (s, tt),
      refl,
    )
    | inr answers ↦ (proceed, x, rw answers refl, r, o, refl)
  ]

  Keeps-known :
      (id : StreamId) (event : FrameStreamEvent) (h : YamuxStreamHead S R) (ends : Ends S R S' R')
      (x : YamuxSession T S R)
      → IsWell event
      → get id x.streams ≡ some h
      → All (IsReady queued) x.streams
      → IsOrdered sent given x
      → Keeps (stream id event) ends x
  unfolding on_known
  Keeps-known id event h ends x well known r o =
      let (a, h', run, s) = on_input-Replied event h well in
      let ready_head : IsReady queued (id, h') =
        Replied-IsReady queued id h h' (All-get (IsReady queued) id h x.streams r known) s in
      let m : List (StreamId × YamuxStreamHead S R) = insert id h' x.streams in
      (
        proceed,
        record x { streams = m },
        by_head id event ends x (some h) known ∙ rw run refl,
        All-insert (IsReady queued) id h' x.streams ready_head r,
        with_streams x m o,
        refl,
      )

  Keeps-unknown :
      (id : StreamId) (event : FrameStreamEvent) (ends : Ends S R S' R') (x : YamuxSession T S R)
      → IsSound (stream id event)
      → All IsSmall (queued ends.rx)
      → get id x.streams ≡ none
      → All (IsReady queued) x.streams
      → IsOrdered sent given x
      → Keeps (stream id event) ends x
  unfolding on_unknown Handle.accept_stream
  Keeps-unknown id event ends x s small unknown r o = go (event_flags event) refl
    where
      go : (f : Option Flags) → event_flags event ≡ f → Keeps (stream id event) ends x
      go none e =
          (proceed, x, by_head id event ends x none unknown ∙ rw (e, on_unknown) refl, r, o, refl)
      go (some f) e = elim (Bool-cases f.syn) [
        | inr no_syn ↦ (
          proceed,
          x,
          by_head id event ends x none unknown ∙ rw (e, on_unknown, no_syn) refl,
          r,
          o,
          refl,
        )
        | inl syn ↦
            let word : id.value < u32_mod = opens-word id event (rw (e, opens) syn) s in
            let h : YamuxStreamHead S R = accept_head id ends.tx2 ends.rx in
            let (a, h', run, replied) = on_input-Replied event h (IsSound-IsWell id event s) in
            let ready_head : IsReady queued (id, h') =
              Replied-IsReady queued id h h'
                (accept_head-IsReady queued id ends.tx2 ends.rx word small) replied in
            let m : List (StreamId × YamuxStreamHead S R) = insert id h' x.streams in
            let handle : YamuxStream S' R' =
              (Handle.accept_stream id ends.tx ends.rx2 ends.tx2 ends.rx).1 in
            (
              accepted handle,
              record x { streams = m },
              by_head id event ends x none unknown ∙ rw (e, on_unknown, syn, run) refl,
              All-insert (IsReady queued) id h' x.streams ready_head r,
              with_streams x m o,
              refl,
            )
      ]

  -- For a sound frame, with chunks of at most one chunk capacity to come from the local side of a
  -- new stream: from ready heads, and from frames, given and queued, that a FrameWriter admits,
  -- the loop of YamuxSession::poll_next over received frames ends without a panic for the frame,
  -- and keeps both; nothing else of the session changes.
  pub on_frame-IsOrdered :
      (frame : Frame) (ends : Ends S R S' R') (x : YamuxSession T S R)
      → IsSound frame
      → All IsSmall (queued ends.rx)
      → All (IsReady queued) x.streams
      → IsOrdered sent given x
      → (v : Verdict (YamuxStream S' R')) × (x' : YamuxSession T S R) × (on_frame frame ends x
          ≡ done (v, x'))
        × All (IsReady queued) x'.streams
        × IsOrdered sent given x'
        × (x' ≡ record x { streams = x'.streams; out_queue = x'.out_queue })
  on_frame-IsOrdered (session event) ends x s small r o = Keeps-session event ends x s r o
  on_frame-IsOrdered (stream id event) ends x s small r o = go (get id x.streams) refl
    where
      go :
          (h : Option (YamuxStreamHead S R)) → get id x.streams ≡ h → Keeps (stream id event) ends x
      go none unknown = Keeps-unknown id event ends x s small unknown r o
      go (some h) known = Keeps-known id event h ends x (IsSound-IsWell id event s) known r o
