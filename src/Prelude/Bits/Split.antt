-- ===== src/Prelude/Bits/Split.antt =====
-- The same laws in the form that arithmetic reads: split both words at one bit.
use native.Mathlib.Nat.{pow-suc, mod-lt, div-add-mod', one-le-pow}
use btlos.Prelude.{
  ℕ, zero, suc, ◌+◌, ◌-◌, ◌*◌, ◌/◌, ◌%◌, ◌^◌, ◌≤◌, ◌<◌, bit_and, bit_or, ◌≡◌, refl, arith,
}
use btlos.Prelude.Bits.Step.{bit_or_step, bit_and_step}
use btlos.Prelude.Bits.Fields.{bit_or-fields, bit_and-fields}

whole : (k a : ℕ) → a / 2 ^ k * 2 ^ k + a % 2 ^ k ≡ a
whole k a = div-add-mod' a (2 ^ k)

in_field : (k a : ℕ) → a % 2 ^ k < 2 ^ k
in_field k a = mod-lt a (one-le-pow k 2 (omega arith))

pub bit_or_split :
    (k a b : ℕ)
    → bit_or a b ≡ bit_or (a / 2 ^ k) (b / 2 ^ k) * 2 ^ k + bit_or (a % 2 ^ k) (b % 2 ^ k)
bit_or_split k a b = ground (
  arith,
  whole k a,
  whole k b,
  bit_or-fields k (a / 2 ^ k) (b / 2 ^ k) (a % 2 ^ k) (b % 2 ^ k) (in_field k a) (in_field k b),
)

pub bit_and_split :
    (k a b : ℕ)
    → bit_and a b ≡ bit_and (a / 2 ^ k) (b / 2 ^ k) * 2 ^ k + bit_and (a % 2 ^ k) (b % 2 ^ k)
bit_and_split k a b = ground (
  arith,
  whole k a,
  whole k b,
  bit_and-fields k (a / 2 ^ k) (b / 2 ^ k) (a % 2 ^ k) (b % 2 ^ k) (in_field k a) (in_field k b),
)

below-Bits : (n a : ℕ) → a ≤ n → (bit_or a 0 ≡ a) × (bit_and a 0 ≡ 0) × (bit_or 0 a ≡ a)
below-Bits n zero h = (refl, refl, refl)
below-Bits zero (suc a) h = absurd (omega arith)
below-Bits (suc n) (suc a) h = omega (
  arith,
  bit_or_step (suc a) 0,
  bit_and_step (suc a) 0,
  bit_or_step 0 (suc a),
  below-Bits n (suc a / 2) (omega arith),
)

pub bit_or-zero : (a : ℕ) → bit_or a 0 ≡ a
bit_or-zero a = (below-Bits a a (omega arith)).0

pub bit_and-zero : (a : ℕ) → bit_and a 0 ≡ 0
bit_and-zero a = (below-Bits a a (omega arith)).1

pub zero-bit_or : (a : ℕ) → bit_or 0 a ≡ a
zero-bit_or a = (below-Bits a a (omega arith)).2

bit_and_full : (k r : ℕ) → r < 2 ^ k → bit_and r (2 ^ k - 1) ≡ r
bit_and_full zero r h = omega (arith, bit_and-zero r)
bit_and_full (suc k) r h = ground (
  arith,
  bit_and_step r (2 ^ suc k - 1),
  pow-suc 2 k,
  one-le-pow k 2,
  bit_and_full k (r / 2) (omega (arith, pow-suc 2 k)),
)

-- A mask of `k` low bits.
pub bit_and_mask : (k a : ℕ) → bit_and a (2 ^ k - 1) ≡ a % 2 ^ k
bit_and_mask k a = ground (
  arith,
  one-le-pow k 2,
  whole k a,
  bit_and-fields k (a / 2 ^ k) 0 (a % 2 ^ k) (2 ^ k - 1) (in_field k a)
      (omega (arith, one-le-pow k 2)),
  bit_and-zero (a / 2 ^ k),
  bit_and_full k (a % 2 ^ k) (in_field k a),
)

pub bit_or_one : (a : ℕ) → a < 2 → bit_or a 1 ≡ 1
bit_or_one zero h = refl
bit_or_one (suc zero) h = refl
bit_or_one (suc (suc a)) h = absurd (omega arith)
