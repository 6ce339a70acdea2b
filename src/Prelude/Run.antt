-- ===== src/Prelude/Run.antt =====
-- The outcome of C code that may run into undefined behaviour, and linked lists whose last pointer
-- may not be NULL.
use mathlib.Core.Path.{◌≡◌, refl}
use mathlib.Core.Logic.{◌⊎◌, inl, inr}
use mathlib.Core.Option.{Option, none, some}
use mathlib.Core.List.{List, [], ◌∷◌}

-- `fault` is undefined behaviour: an access out of range, or through a pointer that is NULL,
-- freed or never initialised. `spent` means that a loop had less fuel than it takes rounds.
pub data Outcome {ℓ} (A : Type ℓ) : Type ℓ where
  done : A → Outcome A
  fault : Outcome A
  spent : Outcome A

infixl 5 ◌>>=◌
abbrev pub ◌>>=◌ {ℓ κ} : {A : Type ℓ} {B : Type κ} → Outcome A → (A → Outcome B) → Outcome B
done a >>= f = f a
fault >>= f = fault
spent >>= f = spent

pub Outcome-cases {ℓ} :
    {A : Type ℓ} (m : Outcome A) → ((a : A) × (m ≡ done a)) ⊎ ((m ≡ fault) ⊎ (m ≡ spent))
Outcome-cases (done a) = inl (a, refl)
Outcome-cases fault = inr (inl refl)
Outcome-cases spent = inr (inr refl)

-- What a pointer or an index reaches, if it reaches anything.
abbrev pub deref {ℓ} : {A : Type ℓ} → Option A → Outcome A
deref none = fault
deref (some a) = done a

pub >>=-eq-done {ℓ κ} :
    {A : Type ℓ} {B : Type κ} (m : Outcome A) (f : A → Outcome B) {b : B}
    → (m >>= f) ≡ done b
    → (a : A) × (m ≡ done a) × (f a ≡ done b)
>>=-eq-done (done a) f h = (a, refl, h)
>>=-eq-done fault f h = cc
>>=-eq-done spent f h = cc

pub of_deref {ℓ} : {A : Type ℓ} {o : Option A} {a : A} → deref o ≡ done a → o ≡ some a
of_deref {o = none} e = cc
of_deref {o = some b} e = cc

-- The return code of most functions of the source: 0 is `success` and -1 is `failure`.
pub data Code : Type 0 where
  success failure : Code

pub Code-cases : (c : Code) → (c ≡ success) ⊎ (c ≡ failure)
Code-cases success = inl refl
Code-cases failure = inr refl

-- A linked list: `null` is the pointer NULL, `wild` one that must not be followed.
pub data Chain {ℓ} (A : Type ℓ) : Type ℓ where
  null : Chain A
  wild : Chain A
  node : A → Chain A → Chain A

module _ {ℓ} {A : Type ℓ} where
  -- The chain of a list, ended by NULL.
  abbrev pub chain : List A → Chain A
  chain [] = null
  chain (x ∷ xs) = node x (chain xs)

  -- The nodes of a chain, in order.
  abbrev pub nodes : Chain A → List A
  nodes null = []
  nodes wild = []
  nodes (node x c) = x ∷ nodes c

  pub nodes-chain : (xs : List A) → nodes (chain xs) ≡ xs
  nodes-chain [] = refl
  nodes-chain (x ∷ xs) = λ i. x ∷ nodes-chain xs i
