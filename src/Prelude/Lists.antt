-- ===== src/Prelude/Lists.antt =====
-- Lists measured, cut and indexed by native numbers, under the library's names.
use Prim.Native.Nat.{ℕ, zero, suc, ◌+◌, ◌-◌, ◌≤◌, min}
use mathlib.Core.Path.{◌≡◌, refl, ap, ap₂}
use mathlib.Core.List.{List, [], ◌∷◌, ◌++◌}
use mathlib.Core.Logic.{◌⊎◌, inl, inr}
use mathlib.Core.Option.{Option, none, some}
use native.Mathlib.Omega.{arith}

module _ {ℓ} {A : Type ℓ} where
  abbrev pub length : List A → ℕ
  length [] = 0
  length (x ∷ xs) = suc (length xs)

  abbrev pub get_elem? : List A → ℕ → Option A
  get_elem? [] i = none
  get_elem? (x ∷ xs) zero = some x
  get_elem? (x ∷ xs) (suc i) = get_elem? xs i

  abbrev pub take : ℕ → List A → List A
  take zero xs = []
  take (suc n) [] = []
  take (suc n) (x ∷ xs) = x ∷ take n xs

  abbrev pub drop : ℕ → List A → List A
  drop zero xs = xs
  drop (suc n) [] = []
  drop (suc n) (x ∷ xs) = drop n xs

  abbrev pub replicate : ℕ → A → List A
  replicate zero a = []
  replicate (suc n) a = a ∷ replicate n a

  abbrev pub All {κ} : (A → Type κ) → List A → Type κ
  All P [] = Unit {κ}
  All P (x ∷ xs) = P x × All P xs

  pub length-append : (xs ys : List A) → length (xs ++ ys) ≡ length xs + length ys
  length-append [] ys = omega arith
  length-append (x ∷ xs) ys = omega (arith, length-append xs ys)

  pub take-append-drop : (n : ℕ) (xs : List A) → take n xs ++ drop n xs ≡ xs
  take-append-drop zero xs = refl
  take-append-drop (suc n) [] = refl
  take-append-drop (suc n) (x ∷ xs) = ap (◌∷◌ x) (take-append-drop n xs)

  pub length-take : (n : ℕ) (xs : List A) → length (take n xs) ≡ min n (length xs)
  length-take zero xs = omega arith
  length-take (suc n) [] = omega arith
  length-take (suc n) (x ∷ xs) = omega (arith, length-take n xs)

  pub length-drop : (n : ℕ) (xs : List A) → length (drop n xs) ≡ length xs - n
  length-drop zero xs = omega arith
  length-drop (suc n) [] = omega arith
  length-drop (suc n) (x ∷ xs) = omega (arith, length-drop n xs)

  pub length-replicate : (n : ℕ) (a : A) → length (replicate n a) ≡ n
  length-replicate zero a = refl
  length-replicate (suc n) a = ap suc (length-replicate n a)

  -- A cut at or behind the end takes all.
  pub take_all : (n : ℕ) (xs : List A) → length xs ≤ n → take n xs ≡ xs
  take_all zero [] h = refl
  take_all zero (x ∷ xs) h = absurd (omega arith)
  take_all (suc n) [] h = refl
  take_all (suc n) (x ∷ xs) h = ap (◌∷◌ x) (take_all n xs (omega arith))

  pub drop_all : (n : ℕ) (xs : List A) → length xs ≤ n → drop n xs ≡ []
  drop_all zero [] h = refl
  drop_all zero (x ∷ xs) h = absurd (omega arith)
  drop_all (suc n) [] h = refl
  drop_all (suc n) (x ∷ xs) h = drop_all n xs (omega arith)

  -- A cut behind the end is a cut at the end.
  pub take-min : (xs : List A) (n m : ℕ) → m ≡ min n (length xs) → take m xs ≡ take n xs
  take-min [] zero zero h = refl
  take-min [] (suc n) zero h = refl
  take-min [] n (suc m) h = absurd (omega arith)
  take-min (x ∷ xs) zero zero h = refl
  take-min (x ∷ xs) zero (suc m) h = absurd (omega arith)
  take-min (x ∷ xs) (suc n) zero h = absurd (omega arith)
  take-min (x ∷ xs) (suc n) (suc m) h = ap (◌∷◌ x) (take-min xs n m (omega arith))

  pub drop-min : (xs : List A) (n m : ℕ) → m ≡ min n (length xs) → drop m xs ≡ drop n xs
  drop-min [] zero zero h = refl
  drop-min [] (suc n) zero h = refl
  drop-min [] n (suc m) h = absurd (omega arith)
  drop-min (x ∷ xs) zero zero h = refl
  drop-min (x ∷ xs) zero (suc m) h = absurd (omega arith)
  drop-min (x ∷ xs) (suc n) zero h = absurd (omega arith)
  drop-min (x ∷ xs) (suc n) (suc m) h = drop-min xs n m (omega arith)

  pub length-eq-zero : (xs : List A) → length xs ≡ 0 → xs ≡ []
  length-eq-zero [] h = refl
  length-eq-zero (x ∷ xs) h = absurd (omega arith)

  -- Two cuts in a row.
  pub drop-drop : (m n : ℕ) (xs : List A) → drop n (drop m xs) ≡ drop (m + n) xs
  drop-drop zero n xs = ap (λ k. drop k xs) (omega arith)
  drop-drop (suc m) n [] = drop-nil n (suc m + n)
    where
      drop-nil : (a b : ℕ) → drop a [] ≡ drop b []
      drop-nil zero zero = refl
      drop-nil zero (suc b) = refl
      drop-nil (suc a) zero = refl
      drop-nil (suc a) (suc b) = refl
  drop-drop (suc m) n (x ∷ xs) = rw suc-add (drop-drop m n xs)
    where
      suc-add : suc m + n ≡ suc (m + n)
      suc-add = omega arith

  -- All but the last item, and the last one: `VecDeque::back`.
  abbrev pub split_back : List A → Option (List A × A)
  split_back [] = none
  split_back (x ∷ xs) = elim (split_back xs) [
    | none ↦ some ([], x)
    | some (ys, y) ↦ some (x ∷ ys, y)
  ]

  pub split_back-snoc : (xs : List A) (x : A) → split_back (xs ++ x ∷ []) ≡ some (xs, x)
  split_back-snoc [] x = refl
  split_back-snoc (y ∷ xs) x = rw (split_back-snoc xs x)

  -- A list is empty, or it has a last item.
  pub snoc_cases : (xs : List A) → (xs ≡ []) ⊎ ((ys : List A) × (y : A) × (xs ≡ ys ++ y ∷ []))
  snoc_cases [] = inl refl
  snoc_cases (x ∷ xs) = elim (snoc_cases xs) [
    | inl e ↦ inr ([], x, ap (◌∷◌ x) e)
    | inr (ys, y, e) ↦ inr (x ∷ ys, y, ap (◌∷◌ x) e)
  ]

  pub All-append {κ} : (P : A → Type κ) (xs ys : List A) → All P xs → All P ys → All P (xs ++ ys)
  All-append P [] ys h k = k
  All-append P (x ∷ xs) ys (p, h) k = (p, All-append P xs ys h k)

  pub All-split {κ} : (P : A → Type κ) (xs ys : List A) → All P (xs ++ ys) → All P xs × All P ys
  All-split P [] ys h = (tt, h)
  All-split P (x ∷ xs) ys (p, h) = let (l, r) = All-split P xs ys h in ((p, l), r)

  pub snoc-ne : (xs : List A) (x : A) → xs ++ x ∷ [] ≡ [] → ⊥
  snoc-ne [] x e = cc
  snoc-ne (y ∷ xs) x e = cc

  pub drop-append_le :
      (n : ℕ) (xs ys : List A) → n ≤ length xs → drop n (xs ++ ys) ≡ drop n xs ++ ys
  drop-append_le zero xs ys h = refl
  drop-append_le (suc n) [] ys h = absurd (omega arith)
  drop-append_le (suc n) (x ∷ xs) ys h = drop-append_le n xs ys (omega arith)

  -- Of two ways to cut a list, the one with the shorter front cuts the front of the other.
  pub append_cut :
      (xs ys zs ws : List A)
      → xs ++ ys ≡ zs ++ ws
      → length xs ≤ length zs
      → (us : List A) × (zs ≡ xs ++ us) × (ys ≡ us ++ ws)
  append_cut [] ys zs ws e h = (zs, refl, e)
  append_cut (x ∷ xs) ys [] ws e h = absurd (omega arith)
  append_cut (x ∷ xs) ys (z ∷ zs) ws e h =
      let (us, front, back) = append_cut xs ys zs ws (cc) (omega arith) in
      let same : z ≡ x = cc in (us, ap₂ ◌∷◌ same front, back)
