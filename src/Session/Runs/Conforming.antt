-- ===== src/Session/Runs/Conforming.antt =====
-- `YamuxSession`: what it has written, in every state that it can reach.
use yamux_low_mem.Prelude.{
  ℕ, suc, ◌+◌, ◌<◌, ◌≡◌, refl, sym, ap, subst, ◌∙◌, inl, inr, Bool, true, Option, none, List, [],
  ◌∷◌, ◌++◌, append-nil, arith, length, All, Poll, ready, pending, done, Result, err,
}
use yamux_low_mem.Prelude.Word.{u32_mod}
use yamux_low_mem.Chunk.View.{ChunkView}
use yamux_low_mem.Chunk.Writer as Writer
use yamux_low_mem.Chunk.Writer.Invariant.{Room, bytes}
use yamux_low_mem.Chunk.Reader.{reader}
use yamux_low_mem.Chunk.Reader as Reader
use yamux_low_mem.Chunk.Reader.Invariant as ReaderInvariant
use yamux_low_mem.Packet.{StreamId}
use yamux_low_mem.Frame.{Frame, session, go_away, admit}
use yamux_low_mem.Frame.Codec.{IsSound}
use yamux_low_mem.Frame.Admitted.{admit_all, frames_bytes}
use yamux_low_mem.Frame.Progress as Progress
use yamux_low_mem.Stream.{Channel, open_head}
use yamux_low_mem.Stream.Sent.{IsReceiver, IsSmall}
use yamux_low_mem.Stream.Handle.{YamuxStream}
use yamux_low_mem.Stream.Handle
use yamux_low_mem.Transport.{
  ByteStream, YamuxTransport, YamuxTransportError, poll_write, poll_close, io_error, io,
  new_transport,
}
use yamux_low_mem.Transport.Flushing.{IsSink, poll_write_lem}
use yamux_low_mem.Transport.Reading.{IsSource}
use yamux_low_mem.Session.{YamuxSession, new_session, open_stream, close}
use yamux_low_mem.Session.Entries.{All-insert, All-get}
use yamux_low_mem.Session.Receiving.{Ends}
use yamux_low_mem.Session.Draining.Order.{IsReady}
use yamux_low_mem.Session.Driving.{finish, write_fuel, poll_next}
use yamux_low_mem.Session.Driving.Delivery.{written}
use yamux_low_mem.Session.Driving.Order.{IsOrdered-append, send_queue-IsOrdered}
use yamux_low_mem.Session.Driving.Closing.{poll_next-finish}
use yamux_low_mem.Session.Driving.Whole.{poll_next-IsOrdered}
use yamux_low_mem.Session.Runs.{
  IsConforming, Step, opens, closing, user_writes, polls, polls_closing, Reachable, starts, steps,
}

module _ {T S R : Type 0} (queued : R → List ChunkView) (sent : T → List ℕ) where
  new_session-IsConforming :
      (t : T) (is_server : Bool) (max : ℕ)
      → sent t ≡ []
      → IsConforming {S = S} queued sent (new_session t is_server max)
  unfolding new_session new_transport Writer.new Reader.new
  new_session-IsConforming t is_server max empty = record {
    given = [];
    ordered = record {
      sound = tt;
      given_sound = tt;
      admitted = refl;
      bytes = append-nil (sent t) ∙ empty;
    };
    heads = tt;
    reading = record { buffer = ReaderInvariant.new-IsValid; eight = tt; pending = tt };
  }

  open_head-IsReady :
      (id : StreamId) (tx : S) (rx : R)
      → id.value < u32_mod
      → All IsSmall (queued rx)
      → IsReady queued (id, open_head id tx rx)
  unfolding open_head admit
  open_head-IsReady id tx rx word small = record {
    own = refl;
    word = word;
    small = small;
    admitted = refl;
    sound = ((word, omega arith), tt);
  }

  -- The heads change, and all else stays.
  with_heads-IsConforming :
      (x x' : YamuxSession T S R)
      → IsConforming queued sent x
      → x'.transport ≡ x.transport
      → x'.out_queue ≡ x.out_queue
      → All (IsReady queued) x'.streams
      → IsConforming queued sent x'
  with_heads-IsConforming x x' g same queue heads = record {
    given = g.given;
    ordered = record {
      sound = subst (All IsSound) (sym queue) g.ordered.sound;
      given_sound = g.ordered.given_sound;
      admitted = ap (λ q. admit_all none (g.given ++ q)) queue ∙ g.ordered.admitted;
      bytes = ap (written sent) same ∙ g.ordered.bytes;
    };
    heads = heads;
    reading =
        subst (λ t. Progress.IsRunning ReaderInvariant.IsValid ReaderInvariant.bytes t.reader)
          (sym same) g.reading;
  }

module _ {E T S R S' R' : Type 0} ⦃s : ByteStream E T⦄ where
  finish_either :
      (x : YamuxSession T S R) (a : Poll (Result (YamuxTransportError E) (Unit {0})))
      (t : YamuxTransport T)
      → poll_close {E = E} (write_fuel x.transport) x.transport ≡ done (a, t)
      → (b : Poll (Option (YamuxStream S' R'))) × (finish E {S' = S'} {R' = R'} x
          ≡ done (b, record x { transport = t }))
  unfolding finish
  finish_either x pending t run = (pending, rw run refl)
  finish_either x (ready r) t run = (ready none, rw run refl)

module _ {E T : Type 0} ⦃s : ByteStream E T⦄ {sent : T → List ℕ} (writes : IsSink s sent)
    (closes : (t : T) → sent ((s.poll_close t).1) ≡ sent t) where
  -- The transport after `poll_close`: nothing that was given is lost.
  poll_close-written :
      (n : ℕ) (t : YamuxTransport T)
      → Room n t.writer.buffer
      → (a : Poll (Result (YamuxTransportError E) (Unit {0}))) × (t' : YamuxTransport T)
        × (poll_close {E = E} (write_fuel t) t ≡ done (a, t'))
        × (written sent t' ≡ written sent t)
        × (t'.reader ≡ t.reader)
  unfolding poll_close
  poll_close-written n t room =
      let (a, t', run, _, same, _, kept, stop) =
        poll_write_lem writes t room.valid (omega (arith, room.fits)) in
      let polled : poll_write {E = E} (write_fuel t) t ≡ done (a, t') =
        ap (λ k. poll_write {E = E} (suc k) t) room.valid.counted ∙ run in
      let fresh : t'.reader ≡ t.reader = ap (λ u. u.reader) kept in
      elim stop [
        | inl (flushed, _) ↦ (
          io_error (s.poll_close t'.stream).0,
          record t' { stream = (s.poll_close t'.stream).1 },
          rw (polled, flushed) refl,
          ap (λ q. q ++ bytes t'.writer.buffer) (closes t'.stream) ∙ same,
          fresh,
        )
        | inr (inl (waits, _)) ↦ (pending, t', rw (polled, waits) refl, same, fresh)
        | inr (inr (e, failed, _)) ↦ (ready (err (io e)), t', rw (polled, failed) refl, same, fresh)
      ]

module _ {E T S R S' R' : Type 0} ⦃s : ByteStream E T⦄ ⦃ch : Channel S R⦄
    (queued : R → List ChunkView) {avail sent : T → List ℕ} (writes : IsSink s sent)
    (reads_from : IsSource s avail sent) (takes : IsReceiver ch.poll_next queued)
    (closes : (t : T) → sent ((s.poll_close t).1) ≡ sent t) where
  closed-IsConforming :
      (x x' : YamuxSession T S R) (a : Poll (Option (YamuxStream S' R')))
      (frames reads drains fuel n : ℕ) (ends : Ends S R S' R')
      → x.manual_close ≡ true
      → Room (length (frames_bytes x.out_queue) + n) x.transport.writer.buffer
      → poll_next E frames reads drains fuel ends x ≡ done (a, x')
      → IsConforming queued sent x
      → IsConforming queued sent x'
  closed-IsConforming x x' a frames reads drains fuel n ends manual room run g =
      let (any, x1, sends, h) = send_queue-IsOrdered writes n g.given x g.ordered room in
      let (b, t, closed, same, fresh) = poll_close-written writes closes _ x1.transport h.room in
      let (c, ends_with) = finish_either {S' = S'} {R' = R'} x1 b t closed in
      let ran =
        poll_next-finish E frames reads drains fuel ends any x x1 sends
          (ap (λ y. y.manual_close) h.kept ∙ manual)
        ∙ ends_with in
      let x2 : YamuxSession T S R = record x1 { transport = t } in
      let is : x2 ≡ x' = cc in
      subst (IsConforming queued sent) is (record {
        given = g.given ++ h.handed;
        ordered = record {
          sound = h.ordered.sound;
          given_sound = h.ordered.given_sound;
          admitted = h.ordered.admitted;
          bytes = same ∙ h.ordered.bytes;
        };
        heads = subst (All (IsReady queued)) (sym (ap (λ y. y.streams) h.kept)) g.heads;
        reading =
            subst (Progress.IsRunning ReaderInvariant.IsValid ReaderInvariant.bytes)
              (sym (fresh ∙ h.reader)) g.reading;
      })

  Step-IsConforming :
      {x x' : YamuxSession T S R}
      → Step E S' R' queued avail sent x x'
      → IsConforming queued sent x
      → IsConforming queued sent x'
  unfolding open_stream close Handle.open_stream admit
  Step-IsConforming {x} (opens tx rx2 tx2 rx word small) g =
      let id : StreamId = record { value = x.next_stream_id } in
      with_heads-IsConforming queued sent x _ g refl refl (
        All-insert (IsReady queued) id (open_head id tx2 rx) x.streams
          (open_head-IsReady queued sent id tx2 rx word small) g.heads)
  Step-IsConforming {x} (closing code small) g =
      let goodbye : List Frame = session (go_away code) ∷ [] in
      let o = IsOrdered-append x goodbye g.ordered refl (small, tt) in
      record {
        given = g.given;
        ordered = record {
          sound = o.sound;
          given_sound = o.given_sound;
          admitted = o.admitted;
          bytes = o.bytes;
        };
        heads = g.heads;
        reading = g.reading;
      }
  Step-IsConforming {x} (user_writes id h rx known small) g =
      let r : IsReady queued (id, h) = All-get (IsReady queued) id h x.streams g.heads known in
      with_heads-IsConforming queued sent x _ g refl refl (
        All-insert (IsReady queued) id (record h { rx = rx }) x.streams
          (record {
            own = r.own;
            word = r.word;
            small = small;
            admitted = r.admitted;
            sound = r.sound;
          })
          g.heads)
  Step-IsConforming {x} {x'}
        (polls a frames reads drains fuel n ends small is_open room arrives serve run) g =
      let (b, x2, handed, ran, ordered, heads, reading) =
        poll_next-IsOrdered queued writes reads_from takes frames reads drains fuel n ends g.given x
          small g.heads g.ordered g.reading is_open room arrives serve in
      let is : x2 ≡ x' = cc in
      subst (IsConforming queued sent) is
        (record { given = g.given ++ handed; ordered = ordered; heads = heads; reading = reading })
  Step-IsConforming {x} {x'} (polls_closing a frames reads drains fuel n ends manual room run) g =
      closed-IsConforming x x' a frames reads drains fuel n ends manual room run g

  -- Over a byte stream that keeps the promises of IsSink and IsSource and writes nothing when it
  -- is closed, and over channels that keep that of IsReceiver: take a session from its
  -- construction through calls of open_stream and close, writes of the users of its streams and
  -- calls of poll_next that end, in any order, where identifiers and codes are u32, the users
  -- queue well-formed chunks of at most one chunk capacity, and each call of poll_next finds what
  -- poll_next-IsOrdered asks of buffer, bytes and fuel, or room for the queue if the session is to
  -- close. In every state that it reaches, the bytes that were written are those of a sequence of
  -- frames that, with the frames in the queue, a FrameWriter admits from its start, and all heads
  -- and the reader are as poll_next needs them.
  pub Reachable-IsConforming :
      (x : YamuxSession T S R) → Reachable E S' R' queued avail sent x → IsConforming queued sent x
  Reachable-IsConforming _ (starts t is_server max empty) =
      new_session-IsConforming queued sent t is_server max empty
  Reachable-IsConforming _ (steps {x} {x'} reached step) =
      Step-IsConforming step (Reachable-IsConforming x reached)
