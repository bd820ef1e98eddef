-- ===== src/Stream/Sent.antt =====
-- `YamuxStreamHead::poll_next`: what the head sends for one chunk of the local side.
use yamux_low_mem.Prelude.{
  All-append, All, subst, Poll, ready, ℕ, ◌+◌, ◌-◌, ◌%◌, ◌≤◌, ◌<◌, ◌≡◌, refl, sym, ap, ap₂, ◌∙◌,
  ◌⊎◌, inl, inr, Option, none, some, List, [], ◌∷◌, ◌++◌, map, append-nil, append_assoc, arith,
  ◌==◌, Bool-cases, length, length-append, length-eq-zero, done, ok, err,
}
use yamux_low_mem.Prelude.Word.{u32_mod}
use yamux_low_mem.Chunk.View.{ChunkView}
use yamux_low_mem.Chunk.View.Laws as ViewLaws
use yamux_low_mem.Chunk.View.Laws.{content}
use yamux_low_mem.Chunk.Owned.{default_chunk_capacity}
use yamux_low_mem.Packet.{StreamId, empty_flags, fin_flags}
use yamux_low_mem.Frame.{
  Frame, stream, FrameStreamEvent, data_header, data_chunk, window_update, admit, PendingPayload,
}
use yamux_low_mem.Frame.Codec.{IsSound}
use yamux_low_mem.Frame.Admitted.{admit_iff, last_chunk, admit_all}
use yamux_low_mem.Frame.Stands.{admit_all-cons}
use yamux_low_mem.Packet.{bit}
use yamux_low_mem.Stream.{YamuxStreamHead, slice_len, try_close_local, forward}

-- What the code relies on of the receiving end of a channel: it yields what is queued, in order,
-- and then waits, or has ended.
pub record IsReceiver {R : Type 0} (poll : R → Poll (Option ChunkView) × R)
    (queued : R → List ChunkView) : Type 0 where
  pub poll_some :
      (r : R) (c : ChunkView) (cs : List ChunkView)
      → queued r ≡ c ∷ cs
      → (r' : R) × (poll r ≡ (ready (some c), r')) × (queued r' ≡ cs)
  pub poll_none :
      (r : R)
      → queued r ≡ []
      → (r' : R) × (queued r' ≡ []) × ((poll r ≡ (Poll.pending, r')) ⊎ (poll r ≡ (ready none, r')))

-- A chunk that `YamuxStream::poll_write` can have made.
abbrev pub IsSmall : ChunkView → Type 0
IsSmall c = ViewLaws.IsValid c × (length (content c) ≤ default_chunk_capacity)

-- The payload bytes among a stream's events, and the number of FIN flags.
abbrev pub payload_bytes : List FrameStreamEvent → List ℕ
payload_bytes [] = []
payload_bytes (data_header flags size ∷ es) = payload_bytes es
payload_bytes (data_chunk c ∷ es) = content c ++ payload_bytes es
payload_bytes (window_update flags delta ∷ es) = payload_bytes es

abbrev pub contents : List ChunkView → List ℕ
contents [] = []
contents (c ∷ cs) = content c ++ contents cs

abbrev pub frames : {S R : Type 0} → YamuxStreamHead S R → List Frame
frames h = map (stream h.id) h.outs

pub slice_len_lem : {c : ChunkView} → ViewLaws.IsValid c → slice_len c ≡ done (length (content c))
unfolding slice_len
slice_len_lem v = rw (ViewLaws.deref_lem v)

payload_bytes-append :
    (es fs : List FrameStreamEvent)
    → payload_bytes (es ++ fs) ≡ payload_bytes es ++ payload_bytes fs
payload_bytes-append [] fs = refl
payload_bytes-append (data_header flags size ∷ es) fs = payload_bytes-append es fs
payload_bytes-append (data_chunk c ∷ es) fs =
    ap (λ t. content c ++ t) (payload_bytes-append es fs)
    ∙ sym (append_assoc (content c) (payload_bytes es) (payload_bytes fs))
payload_bytes-append (window_update flags delta ∷ es) fs = payload_bytes-append es fs

pub map-append :
    {A B : Type 0} (f : A → B) (xs ys : List A) → map f (xs ++ ys) ≡ map f xs ++ map f ys
map-append f [] ys = refl
map-append f (x ∷ xs) ys = ap (◌∷◌ (f x)) (map-append f xs ys)

pub admit_all-append :
    (p q : Option PendingPayload) (xs ys : List Frame)
    → admit_all p xs ≡ ok q
    → admit_all p (xs ++ ys) ≡ admit_all q ys
admit_all-append p q [] ys e = ap (λ r. admit_all r ys) (cc)
admit_all-append p q (x ∷ xs) ys e =
    let (r, first, rest) = admit_all-cons p q x xs e in
    rw (first, admit_all) (admit_all-append r q xs ys rest)

abbrev pub has_fin : FrameStreamEvent → ℕ
has_fin (data_header flags size) = bit flags.fin
has_fin (data_chunk c) = 0
has_fin (window_update flags delta) = bit flags.fin

abbrev pub fin_count : List FrameStreamEvent → ℕ
fin_count [] = 0
fin_count (e ∷ es) = has_fin e + fin_count es

pub fin_count-append :
    (es fs : List FrameStreamEvent) → fin_count (es ++ fs) ≡ fin_count es + fin_count fs
fin_count-append [] fs = omega arith
fin_count-append (e ∷ es) fs = omega (arith, fin_count-append es fs)

contents-append : (cs ds : List ChunkView) → contents (cs ++ ds) ≡ contents cs ++ contents ds
contents-append [] ds = refl
contents-append (c ∷ cs) ds =
    ap (λ t. content c ++ t) (contents-append cs ds)
    ∙ sym (append_assoc (content c) (contents cs) (contents ds))

-- The two events that are sent for a chunk pass the writer's checks.
announced :
    (id : StreamId) (c : ChunkView)
    → ViewLaws.IsValid c
    → length (content c) < u32_mod
    → admit_all none (
        stream id (data_header empty_flags (length (content c) % u32_mod))
        ∷ stream id (data_chunk c)
        ∷ [])
      ≡ ok none
unfolding admit
announced id c valid small =
    let p : PendingPayload = record { stream_id = id; remain = length (content c) % u32_mod } in
    let last : admit (some p) (stream id (data_chunk c)) ≡ ok none =
      (admit_iff (some p) none (stream id (data_chunk c)) (omega arith)).1
        (last_chunk refl (omega (arith, ViewLaws.len_lem valid))) in
    ap (λ a. elim a [ err x ↦ err x | ok q ↦ ok q ]) last

module _ {S R : Type 0} (queued : R → List ChunkView) where
  -- What the head did between `h` and `h'`: `taken` are the chunks that it took from the local
  -- side, and `sent` the events that it appended for them.
  pub record Sent (h h' : YamuxStreamHead S R) : Type 0 where
    pub taken : List ChunkView
    pub sent : List FrameStreamEvent
    pub same_id : h'.id ≡ h.id
    pub queue : queued h.rx ≡ taken ++ queued h'.rx
    pub outs : h'.outs ≡ h.outs ++ sent
    pub order : payload_bytes sent ≡ contents taken
    pub credit : h'.window.send + length (contents taken) ≡ h.window.send
    pub admitted : admit_all none (map (stream h.id) sent) ≡ ok none
    pub fins : fin_count sent + bit h'.state.local ≡ bit h.state.local
    pub few : length sent + bit h'.state.local ≤ (length taken + length taken) + bit h.state.local
    pub sound : h.id.value < u32_mod → All IsSound (map (stream h.id) sent)

  pub Sent-trans : (h h1 h2 : YamuxStreamHead S R) → Sent h h1 → Sent h1 h2 → Sent h h2
  Sent-trans h h1 h2 s t = record {
    taken = s.taken ++ t.taken;
    sent = s.sent ++ t.sent;
    same_id = t.same_id ∙ s.same_id;
    queue =
        s.queue
        ∙ ap (λ q. s.taken ++ q) t.queue
        ∙ sym (append_assoc s.taken t.taken (queued h2.rx));
    outs = t.outs ∙ ap (λ o. o ++ t.sent) s.outs ∙ append_assoc h.outs s.sent t.sent;
    order =
        payload_bytes-append s.sent t.sent
        ∙ ap₂ ◌++◌ s.order t.order
        ∙ sym (contents-append s.taken t.taken);
    credit = omega (
      arith,
      s.credit,
      t.credit,
      ap length (contents-append s.taken t.taken),
      length-append (contents s.taken) (contents t.taken),
    );
    admitted =
        ap (admit_all none) (map-append (stream h.id) s.sent t.sent)
        ∙ admit_all-append none none (map (stream h.id) s.sent) (map (stream h.id) t.sent)
            s.admitted
        ∙ ap (λ id. admit_all none (map (stream id) t.sent)) (sym s.same_id)
        ∙ t.admitted;
    fins = omega (arith, s.fins, t.fins, fin_count-append s.sent t.sent);
    few = omega (arith, s.few, t.few, length-append s.sent t.sent, length-append s.taken t.taken);
    sound = λ small. subst (All IsSound) (sym (map-append (stream h.id) s.sent t.sent)) (
        All-append IsSound (map (stream h.id) s.sent) (map (stream h.id) t.sent) (s.sound small) (
          subst (λ id. All IsSound (map (stream id) t.sent)) s.same_id
            (t.sound (subst (λ id. id.value < u32_mod) (sym s.same_id) small))));
  }

  -- The receiver advanced by `taken`, and the local half closed or left closed.
  pub closing :
      (h : YamuxStreamHead S R) (r : R) (taken : List ChunkView)
      → queued h.rx ≡ taken ++ queued r
      → contents taken ≡ []
      → Sent h (try_close_local (record h { rx = r }))
  unfolding try_close_local admit
  closing h r taken e empty = elim (Bool-cases h.state.local) [
    | inl is_open ↦ rw is_open (record {
      taken = taken;
      sent = window_update fin_flags 0 ∷ [];
      same_id = refl;
      queue = e;
      outs = refl;
      order = sym empty;
      credit = omega (arith, ap length empty);
      admitted = refl;
      fins = refl;
      few = omega arith;
      sound = λ small. ((small, omega arith), tt);
    })
    | inr is_closed ↦ rw is_closed (record {
      taken = taken;
      sent = [];
      same_id = refl;
      queue = e;
      outs = sym (append-nil h.outs);
      order = sym empty;
      credit = omega (arith, ap length empty);
      admitted = refl;
      fins = refl;
      few = omega arith;
      sound = λ small. tt;
    })
  ]

  pub waiting :
      (h : YamuxStreamHead S R) (r : R) → queued h.rx ≡ queued r → Sent h (record h { rx = r })
  waiting h r e = record {
    taken = [];
    sent = [];
    same_id = refl;
    queue = e;
    outs = sym (append-nil h.outs);
    order = refl;
    credit = omega arith;
    admitted = refl;
    fins = omega arith;
    few = omega arith;
    sound = λ small. tt;
  }

  sending :
      (h : YamuxStreamHead S R) (r : R) (c : ChunkView)
      → queued h.rx ≡ c ∷ queued r
      → ViewLaws.IsValid c
      → length (content c) < u32_mod
      → length (content c) ≤ h.window.send
      → Sent h (record h {
        rx = r;
        window = record h.window { send = h.window.send - length (content c) };
        outs = h.outs ++ data_header empty_flags (length (content c) % u32_mod) ∷ data_chunk c ∷ [];
      })
  sending h r c e valid small enough = record {
    taken = c ∷ [];
    sent = data_header empty_flags (length (content c) % u32_mod) ∷ data_chunk c ∷ [];
    same_id = refl;
    queue = e;
    outs = refl;
    order = refl;
    credit = omega (arith, length-append (content c) []);
    admitted = announced h.id c valid small;
    fins = omega arith;
    few = omega arith;
    sound = λ id. ((id, omega arith), (valid, tt));
  }

  pub forwarded :
      (h : YamuxStreamHead S R) (r : R) (c : ChunkView)
      → queued h.rx ≡ c ∷ queued r
      → IsSmall c
      → default_chunk_capacity ≤ h.window.send
      → Sent h (forward c (length (content c)) (record h { rx = r }))
  unfolding forward
  forwarded h r c e (valid, small) enough = elim (Bool-cases (length (content c) == 0)) [
    | inl none_left ↦
        let gone : content c ≡ [] = length-eq-zero (content c) (ground arith) in
        rw none_left (closing h r (c ∷ []) e (append-nil (content c) ∙ gone))
    | inr some_left ↦
        rw some_left (sending h r c e valid (omega (arith, small)) (omega (arith, small, enough)))
  ]
