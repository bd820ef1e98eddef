-- ===== src/Session/Streams.antt =====
-- `YamuxSession::open_stream`: identifiers of the session's own parity, and the map of heads.
use yamux_low_mem.Prelude.{
  ℕ, ◌+◌, ◌-◌, ◌%◌, ◌≤◌, ◌<◌, ◌⊎◌, ◌≡◌, refl, ap, ◌≢◌, inl, inr, true, false, some, List, [], ◌∷◌,
  arith, ◌==◌, if◌then◌else◌, eq→==, Bool-cases,
}
use yamux_low_mem.Prelude.Word.{u32_mod}
use yamux_low_mem.Packet.{StreamId}
use yamux_low_mem.Stream.{open_head, YamuxStreamHead}
use yamux_low_mem.Stream.Handle.{YamuxStream}
use yamux_low_mem.Stream.Handle
use yamux_low_mem.Session.{YamuxSession, get, insert, id_after, open_stream}

-- An identifier of the side that `odd` says, and not that of the session itself.
pub record IsOwn (odd : ℕ) (id : ℕ) : Type 0 where
  pub in_range : id < u32_mod
  pub not_session : 0 < id
  pub own : id % 2 ≡ odd

-- The next identifier of the same parity; after the last one, the first that is not 0.
id_after_lem :
    (odd id : ℕ)
    → IsOwn odd id
    → (id_after id ≡ id + 2) ⊎ ((u32_mod ≤ id + 2) × (id_after id ≡ 2 - odd))
unfolding id_after
id_after_lem odd id h = ground (arith, h.in_range, h.not_session, h.own)

id_after-IsOwn : (odd id : ℕ) → IsOwn odd id → IsOwn odd (id_after id)
unfolding id_after
id_after-IsOwn odd id h = ground (arith, h.in_range, h.not_session, h.own)

differ : (a b : ℕ) → a ≢ b → (a == b) ≡ false
differ a b ne = elim (Bool-cases (a == b)) [
  | inl same ↦ absurd (ne (ground arith))
  | inr other ↦ other
]

pub same_number : (a b : ℕ) → (a == b) ≡ true → a ≡ b
same_number a b e = ground arith

pub get-insert :
    {V : Type 0} (id : StreamId) (v : V) (m : List (StreamId × V)) → get id (insert id v m) ≡ some v
unfolding get insert
get-insert id v [] = rw (eq→== id.value id.value refl) refl
get-insert id v ((k, w) ∷ m) = elim (Bool-cases (k.value == id.value)) [
  | inl hit ↦ rw hit (rw (eq→== id.value id.value refl) refl)
  | inr miss ↦ rw miss (rw miss (get-insert id v m))
]

pub get-insert_other :
    {V : Type 0} (id other : StreamId) (v : V) (m : List (StreamId × V))
    → id.value ≢ other.value
    → get other (insert id v m) ≡ get other m
unfolding get insert
get-insert_other id other v [] ne = rw (differ id.value other.value ne) refl
get-insert_other id other v ((k, w) ∷ m) ne = elim (Bool-cases (k.value == id.value)) [
  | inl hit ↦
      let away : (k.value == other.value) ≡ false =
        differ k.value other.value (λ e. ne (omega (arith, same_number k.value id.value hit))) in
      rw (hit, away) (rw (differ id.value other.value ne) refl)
  | inr miss ↦
      rw miss
        (ap (λ r. if k.value == other.value then some w else r) (get-insert_other id other v m ne))
]

module _ {T S R S' R' : Type 0} where
  -- From a next identifier that is a u32, not 0, and of the session's parity, and for another
  -- identifier: the stream that YamuxSession::open_stream returns has the next identifier, and the
  -- session's next identifier moves on by 2, or, where that would leave the u32, to the first of
  -- its parity that is not 0; so it is again a u32, not 0 and of that parity. The map then has
  -- under the new stream's identifier a head with that identifier and with the given ends of the
  -- channels, and under the other what it had before; nothing else of the session changes.
  pub open_stream_lem :
      (odd : ℕ) (tx : S') (rx2 : R') (tx2 : S) (rx : R) (x : YamuxSession T S R) (other : StreamId)
      → IsOwn odd x.next_stream_id
      → x.next_stream_id ≢ other.value
      → (stream : YamuxStream S' R') × (x' : YamuxSession T S R) × (open_stream tx rx2 tx2 rx x
          ≡ (stream, x'))
        × (stream.id.value ≡ x.next_stream_id)
        × IsOwn odd x'.next_stream_id
        × ((x'.next_stream_id ≡ x.next_stream_id + 2)
            ⊎ ((u32_mod ≤ x.next_stream_id + 2) × (x'.next_stream_id ≡ 2 - odd)))
        × ((head : YamuxStreamHead S R) × (get stream.id x'.streams ≡ some head)
            × (head.id ≡ stream.id)
            × (head.tx ≡ some tx2)
            × (head.rx ≡ rx))
        × (get other x'.streams ≡ get other x.streams)
        × (x' ≡ record x { next_stream_id = x'.next_stream_id; streams = x'.streams })
  unfolding open_stream Handle.open_stream open_head
  open_stream_lem odd tx rx2 tx2 rx x other own ne =
      let id : StreamId = record { value = x.next_stream_id } in
      let head : YamuxStreamHead S R = (Handle.open_stream id tx rx2 tx2 rx).0 in
      (
        _,
        _,
        refl,
        refl,
        id_after-IsOwn odd x.next_stream_id own,
        id_after_lem odd x.next_stream_id own,
        (head, get-insert id head x.streams, refl, refl, refl),
        get-insert_other id other head x.streams ne,
        refl,
      )
