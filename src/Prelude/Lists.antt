-- ===== src/Prelude/Lists.antt =====
-- C arrays as lists indexed by native numbers, under the library's names.
use Prim.Native.Nat.{ℕ, zero, suc, ◌+◌, ◌≤◌, ◌<◌, min}
use mathlib.Core.Path.{◌≡◌, refl, ap}
use mathlib.Core.Logic.{◌≢◌, ◌⊎◌, inl, inr}
use mathlib.Core.List.{List, [], ◌∷◌, ◌++◌}
use mathlib.Core.Option.{Option, none, some}
use native.Mathlib.Omega.{arith}

module _ {ℓ} {A : Type ℓ} where
  abbrev pub length : List A → ℕ
  length [] = 0
  length (x ∷ xs) = suc (length xs)

  abbrev pub get_elem? : List A → ℕ → Option A
  get_elem? [] i = none
  get_elem? (x ∷ xs) zero = some x
  get_elem? (x ∷ xs) (suc i) = get_elem? xs i

  -- A write out of range changes nothing: where the source could make one, the model faults first.
  abbrev pub set : List A → ℕ → A → List A
  set [] i v = []
  set (x ∷ xs) zero v = v ∷ xs
  set (x ∷ xs) (suc i) v = x ∷ set xs i v

  abbrev pub take : ℕ → List A → List A
  take zero xs = []
  take (suc n) [] = []
  take (suc n) (x ∷ xs) = x ∷ take n xs

  abbrev pub replicate : ℕ → A → List A
  replicate zero a = []
  replicate (suc n) a = a ∷ replicate n a

module _ {ℓ} {A : Type ℓ} where
  pub length-append : (xs ys : List A) → length (xs ++ ys) ≡ length xs + length ys
  length-append [] ys = omega arith
  length-append (x ∷ xs) ys = omega (arith, length-append xs ys)

  pub length-set : (xs : List A) (i : ℕ) (v : A) → length (set xs i v) ≡ length xs
  length-set [] i v = refl
  length-set (x ∷ xs) zero v = refl
  length-set (x ∷ xs) (suc i) v = ap suc (length-set xs i v)

  pub length-replicate : (n : ℕ) (a : A) → length (replicate n a) ≡ n
  length-replicate zero a = refl
  length-replicate (suc n) a = ap suc (length-replicate n a)

  pub get_elem?-replicate_lt : (n i : ℕ) (a : A) → i < n → get_elem? (replicate n a) i ≡ some a
  get_elem?-replicate_lt zero i a h = elim h [ ]
  get_elem?-replicate_lt (suc n) zero a h = refl
  get_elem?-replicate_lt (suc n) (suc i) a h = get_elem?-replicate_lt n i a (omega arith)

  pub get_elem?-replicate : (n i : ℕ) {a v : A} → get_elem? (replicate n a) i ≡ some v → v ≡ a
  get_elem?-replicate zero i e = cc
  get_elem?-replicate (suc n) zero e = cc
  get_elem?-replicate (suc n) (suc i) e = get_elem?-replicate n i e

  pub length-take : (n : ℕ) (xs : List A) → length (take n xs) ≡ min n (length xs)
  length-take zero xs = omega arith
  length-take (suc n) [] = omega arith
  length-take (suc n) (x ∷ xs) = omega (arith, length-take n xs)

  -- An index in range has an element.
  pub get_elem?-some : (xs : List A) (i : ℕ) → i < length xs → (a : A) × (get_elem? xs i ≡ some a)
  get_elem?-some [] i h = elim h [ ]
  get_elem?-some (x ∷ xs) zero h = (x, refl)
  get_elem?-some (x ∷ xs) (suc i) h = get_elem?-some xs i (omega arith)

  pub get_elem?-none : (xs : List A) (i : ℕ) → length xs ≤ i → get_elem? xs i ≡ none
  get_elem?-none [] i h = refl
  get_elem?-none (x ∷ xs) zero h = absurd (omega arith)
  get_elem?-none (x ∷ xs) (suc i) h = get_elem?-none xs i (omega arith)

  pub get_elem?-lt : (xs : List A) (i : ℕ) {v : A} → get_elem? xs i ≡ some v → i < length xs
  get_elem?-lt [] i e = cc
  get_elem?-lt (x ∷ xs) zero e = omega arith
  get_elem?-lt (x ∷ xs) (suc i) e = let lt = get_elem?-lt xs i e in omega arith

  pub get_elem?-set_self :
      (xs : List A) (i : ℕ) (v : A) → i < length xs → get_elem? (set xs i v) i ≡ some v
  get_elem?-set_self [] i v h = elim h [ ]
  get_elem?-set_self (x ∷ xs) zero v h = refl
  get_elem?-set_self (x ∷ xs) (suc i) v h = get_elem?-set_self xs i v (omega arith)

  pub get_elem?-ge : (xs : List A) (i : ℕ) → get_elem? xs i ≡ none → length xs ≤ i
  get_elem?-ge [] i e = omega arith
  get_elem?-ge (x ∷ xs) zero e = cc
  get_elem?-ge (x ∷ xs) (suc i) e = let le = get_elem?-ge xs i e in omega arith

  -- What a list holds after a write is the new element or an old one.
  pub get_elem?-set_cases :
      (xs : List A) (i j : ℕ) (v : A) {a : A}
      → get_elem? (set xs i v) j ≡ some a
      → ((j ≡ i) × (a ≡ v)) ⊎ ((j ≢ i) × (get_elem? xs j ≡ some a))
  get_elem?-set_cases [] i j v e = cc
  get_elem?-set_cases (x ∷ xs) zero zero v e = inl (refl, cc)
  get_elem?-set_cases (x ∷ xs) zero (suc j) v e = inr (omega arith, e)
  get_elem?-set_cases (x ∷ xs) (suc i) zero v e = inr (omega arith, e)
  get_elem?-set_cases (x ∷ xs) (suc i) (suc j) v e = elim (get_elem?-set_cases xs i j v e) [
    | inl (same, new) ↦ inl (ap suc same, new)
    | inr (apart, old) ↦ inr (omega (arith, apart), old)
  ]

  pub get_elem?-set_ne :
      (xs : List A) (i j : ℕ) (v : A) → i ≢ j → get_elem? (set xs i v) j ≡ get_elem? xs j
  get_elem?-set_ne [] i j v h = refl
  get_elem?-set_ne (x ∷ xs) zero zero v h = absurd (h refl)
  get_elem?-set_ne (x ∷ xs) zero (suc j) v h = refl
  get_elem?-set_ne (x ∷ xs) (suc i) zero v h = refl
  get_elem?-set_ne (x ∷ xs) (suc i) (suc j) v h = get_elem?-set_ne xs i j v (λ e. h (ap suc e))

  pub get_elem?-take :
      (n : ℕ) (xs : List A) (j : ℕ) → j < n → get_elem? (take n xs) j ≡ get_elem? xs j
  get_elem?-take zero xs j h = elim h [ ]
  get_elem?-take (suc n) [] j h = refl
  get_elem?-take (suc n) (x ∷ xs) zero h = refl
  get_elem?-take (suc n) (x ∷ xs) (suc j) h = get_elem?-take n xs j (omega arith)

  -- Two lists of one length with the same elements in range are equal.
  pub get_elem?_ext :
      (xs ys : List A)
      → length xs ≡ length ys
      → ((i : ℕ) → i < length xs → get_elem? xs i ≡ get_elem? ys i)
      → xs ≡ ys
  get_elem?_ext [] [] h e = refl
  get_elem?_ext [] (y ∷ ys) h e = absurd (omega arith)
  get_elem?_ext (x ∷ xs) [] h e = absurd (omega arith)
  get_elem?_ext (x ∷ xs) (y ∷ ys) h e =
      cc (e 0 (omega arith), get_elem?_ext xs ys (omega arith) (λ i k. e (suc i) (omega arith)))

  -- The list without the element at an index.
  abbrev pub erase_at : List A → ℕ → List A
  erase_at [] i = []
  erase_at (x ∷ xs) zero = xs
  erase_at (x ∷ xs) (suc i) = x ∷ erase_at xs i

  pub length-erase_at :
      (xs : List A) (i : ℕ) → i < length xs → length (erase_at xs i) + 1 ≡ length xs
  length-erase_at [] i h = elim h [ ]
  length-erase_at (x ∷ xs) zero h = omega arith
  length-erase_at (x ∷ xs) (suc i) h = omega (arith, length-erase_at xs i (omega arith))

  pub get_elem?-erase_at_lt :
      (xs : List A) (i j : ℕ) → j < i → get_elem? (erase_at xs i) j ≡ get_elem? xs j
  get_elem?-erase_at_lt [] i j h = refl
  get_elem?-erase_at_lt (x ∷ xs) zero j h = elim h [ ]
  get_elem?-erase_at_lt (x ∷ xs) (suc i) zero h = refl
  get_elem?-erase_at_lt (x ∷ xs) (suc i) (suc j) h = get_elem?-erase_at_lt xs i j (omega arith)

  pub get_elem?-erase_at_ge :
      (xs : List A) (i j : ℕ) → i ≤ j → get_elem? (erase_at xs i) j ≡ get_elem? xs (suc j)
  get_elem?-erase_at_ge [] i j h = refl
  get_elem?-erase_at_ge (x ∷ xs) zero j h = refl
  get_elem?-erase_at_ge (x ∷ xs) (suc i) zero h = absurd (omega arith)
  get_elem?-erase_at_ge (x ∷ xs) (suc i) (suc j) h = get_elem?-erase_at_ge xs i j (omega arith)
