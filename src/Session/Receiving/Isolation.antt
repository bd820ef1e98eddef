-- ===== src/Session/Receiving/Isolation.antt =====
-- `YamuxSession::poll_next`: a frame of a stream reaches the head of that stream, and no other.
use yamux_low_mem.Prelude.{
  ◌≡◌, refl, ap, ◌∙◌, ◌≢◌, inl, inr, Bool, true, false, Option, none, some, Bool-cases, done,
  Result,
}
use yamux_low_mem.Packet.{StreamId, Flags}
use yamux_low_mem.Frame.{stream, FrameStreamEvent, event_flags}
use yamux_low_mem.Stream.{Channel, YamuxStreamHead, YamuxStreamHeadError, on_input, accept_head}
use yamux_low_mem.Stream.Input.{IsWell}
use yamux_low_mem.Stream.Replies.{on_input-Replied}
use yamux_low_mem.Stream.Handle.{YamuxStream}
use yamux_low_mem.Stream.Handle
use yamux_low_mem.Session.{YamuxSession, get, insert}
use yamux_low_mem.Session.Streams.{get-insert, get-insert_other}
use yamux_low_mem.Session.Receiving.{
  Verdict, proceed, accepted, Ends, on_known, on_unknown, on_stream_event, on_frame,
}

-- Whether an event opens a stream that the session does not know.
abbrev pub opens : FrameStreamEvent → Bool
opens event = elim (event_flags event) [ none ↦ false | some flags ↦ flags.syn ]

module _ {T S R S' R' : Type 0} ⦃ch : Channel S R⦄ where
  -- What becomes of an event of the stream `id`.
  pub data Delivered (id : StreamId) (event : FrameStreamEvent) (ends : Ends S R S' R')
      (x x' : YamuxSession T S R) : Verdict (YamuxStream S' R') → Type 0 where
    delivered :
        {h h' : YamuxStreamHead S R} {a : Result YamuxStreamHeadError (Unit {0})}
        → get id x.streams ≡ some h
        → on_input event h ≡ done (a, h')
        → get id x'.streams ≡ some h'
        → Delivered id event ends x x' proceed
    opened :
        {handle : YamuxStream S' R'} {h' : YamuxStreamHead S R}
        {a : Result YamuxStreamHeadError (Unit {0})}
        → get id x.streams ≡ none
        → opens event ≡ true
        → handle.id ≡ id
        → on_input event (accept_head id ends.tx2 ends.rx) ≡ done (a, h')
        → get id x'.streams ≡ some h'
        → Delivered id event ends x x' (accepted handle)
    dropped :
        get id x.streams ≡ none
        → opens event ≡ false
        → x' ≡ x
        → Delivered id event ends x x' proceed

  -- What `on_frame` is to end with, for a frame of the stream `id`.
  abbrev Isolated :
      StreamId → FrameStreamEvent → Ends S R S' R' → StreamId → YamuxSession T S R → Type 0
  Isolated id event ends other x =
      (v : Verdict (YamuxStream S' R')) × (x' : YamuxSession T S R) × (on_frame (stream id event)
          ends x
        ≡ done (v, x'))
      × Delivered id event ends x x' v
      × (get other x'.streams ≡ get other x.streams)
      × (x' ≡ record x { streams = x'.streams })

  -- The head that the session has, or the lack of one, decides.
  pub by_head :
      (id : StreamId) (event : FrameStreamEvent) (ends : Ends S R S' R') (x : YamuxSession T S R)
      (o : Option (YamuxStreamHead S R))
      → get id x.streams ≡ o
      → on_frame (stream id event) ends x
        ≡ elim o [ some head ↦ on_known id event head x | none ↦ on_unknown id event ends x ]
  unfolding on_frame on_stream_event
  by_head id event ends x o e =
      ap (λ o. elim o [ some head ↦ on_known id event head x | none ↦ on_unknown id event ends x ])
        e

  to_known :
      (id : StreamId) (event : FrameStreamEvent) (ends : Ends S R S' R') (other : StreamId)
      (x : YamuxSession T S R) (h : YamuxStreamHead S R)
      → IsWell event
      → id.value ≢ other.value
      → get id x.streams ≡ some h
      → Isolated id event ends other x
  unfolding on_known
  to_known id event ends other x h well ne known =
      let (a, h', run, _) = on_input-Replied event h well in
      (
        proceed,
        record x { streams = insert id h' x.streams },
        by_head id event ends x (some h) known ∙ rw run refl,
        delivered known run (get-insert id h' x.streams),
        get-insert_other id other h' x.streams ne,
        refl,
      )

  to_unknown :
      (id : StreamId) (event : FrameStreamEvent) (ends : Ends S R S' R') (other : StreamId)
      (x : YamuxSession T S R)
      → IsWell event
      → id.value ≢ other.value
      → get id x.streams ≡ none
      → Isolated id event ends other x
  unfolding on_unknown Handle.accept_stream
  to_unknown id event ends other x well ne unknown = go (event_flags event) refl
    where
      go : (f : Option Flags) → event_flags event ≡ f → Isolated id event ends other x
      go none e = (
        proceed,
        x,
        by_head id event ends x none unknown ∙ rw (e, on_unknown) refl,
        dropped unknown (rw (e, opens) refl) refl,
        refl,
        refl,
      )
      go (some f) e = elim (Bool-cases f.syn) [
        | inr no_syn ↦ (
          proceed,
          x,
          by_head id event ends x none unknown ∙ rw (e, on_unknown, no_syn) refl,
          dropped unknown (rw (e, opens) no_syn) refl,
          refl,
          refl,
        )
        | inl syn ↦
            let (a, h', run, _) = on_input-Replied event (accept_head id ends.tx2 ends.rx) well in
            let handle : YamuxStream S' R' =
              (Handle.accept_stream id ends.tx ends.rx2 ends.tx2 ends.rx).1 in
            (
              accepted handle,
              record x { streams = insert id h' x.streams },
              by_head id event ends x none unknown ∙ rw (e, on_unknown, syn, run) refl,
              opened unknown (rw (e, opens) syn) refl run (get-insert id h' x.streams),
              get-insert_other id other h' x.streams ne,
              refl,
            )
      ]

  -- For a frame of a stream, with a well-formed chunk if it has one, and for another stream: the
  -- loop of YamuxSession::poll_next ends without a panic for the frame, and hands its event to the
  -- head of its stream, or to a new head under its identifier if the session has none and the
  -- event has the SYN flag, whose handle is then returned, or drops it; the head of the other
  -- stream, the queue of frames and the transport stay as they are.
  pub on_frame-Isolated :
      (id : StreamId) (event : FrameStreamEvent) (ends : Ends S R S' R') (other : StreamId)
      (x : YamuxSession T S R)
      → IsWell event
      → id.value ≢ other.value
      → (v : Verdict (YamuxStream S' R')) × (x' : YamuxSession T S R) × (on_frame
            (stream id event)
            ends
            x
          ≡ done (v, x'))
        × Delivered id event ends x x' v
        × (get other x'.streams ≡ get other x.streams)
        × (x' ≡ record x { streams = x'.streams })
  on_frame-Isolated id event ends other x well ne = go (get id x.streams) refl
    where
      go :
          (o : Option (YamuxStreamHead S R)) → get id x.streams ≡ o → Isolated id event ends other x
      go none unknown = to_unknown id event ends other x well ne unknown
      go (some h) known = to_known id event ends other x h well ne known
