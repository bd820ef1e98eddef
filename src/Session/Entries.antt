-- ===== src/Session/Entries.antt =====
-- The map of heads in `YamuxSession`: what holds of all its entries.
use yamux_low_mem.Prelude.{
  ◌≡◌, ap, ap₂, subst, inl, inr, true, some, List, [], ◌∷◌, ◌==◌, Bool-cases, All,
}
use yamux_low_mem.Packet.{StreamId}
use yamux_low_mem.Session.{get, insert, remove}
use yamux_low_mem.Session.Draining.{remove_all}
use yamux_low_mem.Session.Streams.{same_number}

pub All-insert :
    {V : Type 0} (P : StreamId × V → Type 0) (id : StreamId) (v : V) (m : List (StreamId × V))
    → P (id, v)
    → All P m
    → All P (insert id v m)
unfolding insert
All-insert P id v [] p h = (p, tt)
All-insert P id v ((k, w) ∷ m) p (q, h) = elim (Bool-cases (k.value == id.value)) [
  | inl hit ↦ rw hit (p, h)
  | inr miss ↦ rw miss (q, All-insert P id v m p h)
]

same_id : (a b : StreamId) → (a.value == b.value) ≡ true → a ≡ b
same_id a b e = ap {B = StreamId} (λ n. record { value = n }) (same_number a.value b.value e)

-- What a map has under an identifier is one of its entries.
pub All-get :
    {V : Type 0} (P : StreamId × V → Type 0) (id : StreamId) (v : V) (m : List (StreamId × V))
    → All P m
    → get id m ≡ some v
    → P (id, v)
unfolding get
All-get {V} P id v [] h e = absurd (cc)
All-get {V} P id v ((k, w) ∷ m) (p, h) e = elim (Bool-cases (k.value == id.value)) [
  | inl hit ↦
      let found : some w ≡ some v = rw hit at e in
      let same : w ≡ v = cc in
      subst (λ (q : StreamId × V). P q) (ap₂ (λ i y. (i, y)) (same_id k id hit) same) p
  | inr miss ↦ All-get P id v m h (rw miss at e)
]

-- Removing heads leaves the others.
All-remove :
    {V : Type 0} (P : StreamId × V → Type 0) (id : StreamId) (m : List (StreamId × V))
    → All P m
    → All P (remove id m)
unfolding remove
All-remove P id [] h = h
All-remove P id ((k, v) ∷ m) (p, h) = elim (Bool-cases (k.value == id.value)) [
  | inl hit ↦ rw hit (All-remove P id m h)
  | inr miss ↦ rw miss (p, All-remove P id m h)
]

pub All-remove_all :
    {V : Type 0} (P : StreamId × V → Type 0) (ids : List StreamId) (m : List (StreamId × V))
    → All P m
    → All P (remove_all ids m)
unfolding remove_all
All-remove_all P [] m h = h
All-remove_all P (id ∷ ids) m h = All-remove_all P ids (remove id m) (All-remove P id m h)
