-- ===== src/Prelude/Word.antt =====
-- Arithmetic on `usize` (64 bits, wrapping as in a release build), and accesses to a `Vec<u8>`
-- that panic out of range.
use yamux_low_mem.Prelude.{
  min, sym, le→leb, ℕ, zero, suc, ◌+◌, ◌-◌, ◌%◌, ◌^◌, ◌≤◌, ◌<◌, ◌≡◌, refl, ap, ◌∙◌, arith, List, [],
  ◌∷◌, ◌++◌, some, get_elem?, drop-drop, leb, if◌then◌else◌, ◌&&◌, Exec, done, panic, length, take,
  drop, length-append, length-take, length-drop,
}

abbrev pub usize_mod : ℕ
usize_mod = 2 ^ 64

abbrev pub IsByte : ℕ → Type 0
IsByte x = x < 2 ^ 8

abbrev pub u32_mod : ℕ
u32_mod = 2 ^ 32

unfoldable pub add_usize : ℕ → ℕ → ℕ
add_usize a b = (a + b) % usize_mod

unfoldable pub sub_usize : ℕ → ℕ → ℕ
sub_usize a b = (a + usize_mod - b) % usize_mod

-- `usize::saturating_sub`.
abbrev pub saturating_sub : ℕ → ℕ → ℕ
saturating_sub a b = a - b

pub add_usize_lem : (a b : ℕ) → a + b < usize_mod → add_usize a b ≡ a + b
unfolding add_usize
add_usize_lem a b h = omega arith

pub sub_usize_lem : (a b : ℕ) → b ≤ a → a < usize_mod → sub_usize a b ≡ a - b
unfolding sub_usize
sub_usize_lem a b h k = omega arith

take-nil {ℓ} : (A : Type ℓ) (n : ℕ) → take {A = A} n [] ≡ []
take-nil A zero = refl
take-nil A (suc n) = refl

module _ {ℓ} {A : Type ℓ} where
  -- The items from index `a` up to index `b`.
  abbrev pub window : List A → ℕ → ℕ → List A
  window xs a b = take (b - a) (drop a xs)

  -- `&xs[a..b]`.
  unfoldable pub slice : List A → ℕ → ℕ → Exec (List A)
  slice xs a b = if leb a b && leb b (length xs) then done (window xs a b) else panic

  -- `xs[a..a + ys.len()].copy_from_slice(ys)`.
  unfoldable pub copy_at : List A → ℕ → List A → Exec (List A)
  copy_at xs a ys =
      if leb (a + length ys) (length xs)
      then done (take a xs ++ (ys ++ drop (a + length ys) xs))
      else panic

  pub slice_lem :
      (xs : List A) (a b : ℕ) → a ≤ b → b ≤ length xs → slice xs a b ≡ done (window xs a b)
  unfolding slice
  slice_lem xs a b h k = rw (le→leb a b h, le→leb b (length xs) k)

  pub copy_at_lem :
      (xs : List A) (a : ℕ) (ys : List A)
      → a + length ys ≤ length xs
      → copy_at xs a ys ≡ done (take a xs ++ (ys ++ drop (a + length ys) xs))
  unfolding copy_at
  copy_at_lem xs a ys h = ground arith

  pub copy_at_panics :
      (xs : List A) (a : ℕ) (ys : List A) → length xs < a + length ys → copy_at xs a ys ≡ panic
  unfolding copy_at
  copy_at_panics xs a ys h = ground arith

  pub length-window : (xs : List A) (a b : ℕ) → b ≤ length xs → length (window xs a b) ≡ b - a
  length-window xs a b h = omega (arith, length-take (b - a) (drop a xs), length-drop a xs)

  pub length-copied :
      (xs : List A) (a : ℕ) (ys : List A)
      → a + length ys ≤ length xs
      → length (take a xs ++ (ys ++ drop (a + length ys) xs)) ≡ length xs
  length-copied xs a ys h = omega (
    arith,
    length-append (take a xs) (ys ++ drop (a + length ys) xs),
    length-append ys (drop (a + length ys) xs),
    length-take a xs,
    length-drop (a + length ys) xs,
  )

  take-append : (xs ys : List A) (k n : ℕ) → n ≡ length xs + k → take n (xs ++ ys) ≡ xs ++ take k ys
  take-append [] ys k n h = ap (λ m. take m ys) (omega arith)
  take-append (x ∷ xs) ys k zero h = absurd (omega arith)
  take-append (x ∷ xs) ys k (suc n) h = ap (◌∷◌ x) (take-append xs ys k n (omega arith))

  take-append_all : (xs ys : List A) → take (length xs) (xs ++ ys) ≡ xs
  take-append_all [] ys = refl
  take-append_all (x ∷ xs) ys = ap (◌∷◌ x) (take-append_all xs ys)

  -- Items copied in behind a window extend it.
  pub window-copied :
      (c n : ℕ) (xs ys : List A) (rest : List A)
      → c ≤ n
      → n ≤ length xs
      → window (take n xs ++ (ys ++ rest)) c (n + length ys) ≡ window xs c n ++ ys
  window-copied zero n xs ys rest h k =
      take-append (take n xs) (ys ++ rest) (length ys) (n + length ys - 0)
        (omega (arith, length-take n xs))
      ∙ ap (λ zs. take n xs ++ zs) (take-append_all ys rest)
      ∙ ap (λ m. take m xs ++ ys) (omega arith)
  window-copied (suc c) zero xs ys rest h k = absurd (omega arith)
  window-copied (suc c) (suc n) [] ys rest h k = absurd (omega arith)
  window-copied (suc c) (suc n) (x ∷ xs) ys rest h k =
      ap (λ m. take m (drop c (take n xs ++ (ys ++ rest)))) (omega arith)
      ∙ window-copied c n xs ys rest (omega arith) (omega arith)
      ∙ ap (λ m. take m (drop c xs) ++ ys) (omega arith)

  -- The first item of a window, and what is left.
  pub window-head :
      (a b : ℕ) (xs : List A)
      → a < b
      → b ≤ length xs
      → (x : A) × (get_elem? xs a ≡ some x) × (window xs a b ≡ x ∷ window xs (a + 1) b)
  window-head a zero xs h k = absurd (omega arith)
  window-head a (suc b) [] h k = absurd (omega arith)
  window-head zero (suc b) (x ∷ xs) h k = (
    x,
    refl,
    ap (λ m. take m (x ∷ xs)) {x = suc b - 0} {y = suc b} (omega arith)
        ∙ ap (λ m. x ∷ take m xs) (omega arith),
  )
  window-head (suc a) (suc b) (x ∷ xs) h k =
      let (y, e, w) = window-head a b xs (omega arith) (omega arith) in
      (
        y,
        e,
        ap (λ m. take m (drop a xs)) (omega arith)
            ∙ w
            ∙ ap (λ m. y ∷ take m (drop (a + 1) xs)) {y = suc b - (suc a + 1)} (omega arith)
            ∙ ap (λ m. y ∷ take (suc b - (suc a + 1)) (drop m (x ∷ xs))) {x = suc (a + 1)}
                (omega arith),
      )

  take-add : (p q : ℕ) (xs : List A) → take (p + q) xs ≡ take p xs ++ take q (drop p xs)
  take-add zero q xs = ap (λ m. take m xs) (omega arith)
  take-add (suc p) zero [] = ap (λ m. take m []) {y = suc p} (omega arith)
  take-add (suc p) (suc q) [] = ap (λ m. take m []) {y = suc (p + suc q)} (omega arith)
  take-add (suc p) q (x ∷ xs) =
      ap (λ m. take m (x ∷ xs)) {y = suc (p + q)} (omega arith) ∙ ap (◌∷◌ x) (take-add p q xs)

  -- A window cut in two.
  pub window-split :
      (a m b : ℕ) (xs : List A) → a ≤ m → m ≤ b → window xs a b ≡ window xs a m ++ window xs m b
  window-split a m b xs h k =
      ap (λ n. take n (drop a xs)) {y = (m - a) + (b - m)} (omega arith)
      ∙ take-add (m - a) (b - m) (drop a xs)
      ∙ ap (λ zs. window xs a m ++ take (b - m) zs)
          (drop-drop a (m - a) xs ∙ ap (λ n. drop n xs) {y = m} (omega arith))

  drop-take : (k n : ℕ) (xs : List A) → drop k (take n xs) ≡ take (n - k) (drop k xs)
  drop-take zero n xs = ap (λ m. take m xs) {y = n - zero} (omega arith)
  drop-take (suc k) zero xs = ap (λ m. take m (drop (suc k) xs)) {x = 0} (omega arith)
  drop-take (suc k) (suc n) [] = sym (take-nil A (suc n - suc k))
  drop-take (suc k) (suc n) (x ∷ xs) =
      drop-take k n xs ∙ ap (λ m. take m (drop k xs)) {y = suc n - suc k} (omega arith)

  take-take : (k n : ℕ) (xs : List A) → take k (take n xs) ≡ take (min k n) xs
  take-take zero n xs = ap (λ m. take m xs) {x = 0} (omega arith)
  take-take (suc k) zero xs = ap (λ m. take m xs) {x = 0} (omega arith)
  take-take (suc k) (suc n) [] = sym (take-nil A (min (suc k) (suc n)))
  take-take (suc k) (suc n) (x ∷ xs) =
      ap (◌∷◌ x) (take-take k n xs) ∙ ap (λ m. take m (x ∷ xs)) {x = suc (min k n)} (omega arith)

  -- Dropping from a window moves its start.
  pub window-drop : (a k b : ℕ) (xs : List A) → window xs (a + k) b ≡ drop k (window xs a b)
  window-drop a k b xs =
      ap (λ m. take m (drop (a + k) xs)) {y = b - a - k} (omega arith)
      ∙ ap (take (b - a - k)) (sym (drop-drop a k xs))
      ∙ sym (drop-take k (b - a) (drop a xs))

  -- Taking from a window moves its end.
  pub window-take :
      (a k b : ℕ) (xs : List A) → a + k ≤ b → window xs a (a + k) ≡ take k (window xs a b)
  window-take a k b xs h =
      ap (λ m. take m (drop a xs)) {y = min k (b - a)} (omega arith)
      ∙ sym (take-take k (b - a) (drop a xs))
