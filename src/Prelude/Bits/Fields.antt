-- ===== src/Prelude/Bits/Fields.antt =====
-- `|` and `&` act on the high and on the low bits of a word by themselves.

use btlos.Prelude.Bits.Step.{bit_or_step, bit_and_step}
use native.Mathlib.Nat.{pow-suc}
use btlos.Prelude.{ℕ, zero, suc, ◌+◌, ◌*◌, ◌/◌, ◌^◌, ◌<◌, bit_and, bit_or}
use btlos.Prelude.{◌≡◌, ap, arith}

-- A word of two fields, the lower of `k` bits.
fields-suc : (k q r : ℕ) → q * 2 ^ suc k + r ≡ 2 * (q * 2 ^ k) + r
fields-suc k q r = omega (arith, ap (λ (t : ℕ). q * t) (pow-suc 2 k))

pub bit_or-fields :
    (k p q r s : ℕ)
    → r < 2 ^ k
    → s < 2 ^ k
    → (bit_or (p * 2 ^ k + r) (q * 2 ^ k + s) ≡ bit_or p q * 2 ^ k + bit_or r s)
      × (bit_or r s < 2 ^ k)
bit_or-fields zero p q zero zero hr hs = ground arith
bit_or-fields zero p q zero (suc s) hr hs = absurd (omega arith)
bit_or-fields zero p q (suc r) s hr hs = absurd (omega arith)
bit_or-fields (suc k) p q r s hr hs = ground (
  arith,
  bit_or_step (p * 2 ^ suc k + r) (q * 2 ^ suc k + s),
  bit_or_step r s,
  fields-suc k p r,
  fields-suc k q s,
  fields-suc k (bit_or p q) (bit_or r s),
  pow-suc 2 k,
  bit_or-fields k p q (r / 2) (s / 2) (omega (arith, pow-suc 2 k)) (omega (arith, pow-suc 2 k)),
)

pub bit_and-fields :
    (k p q r s : ℕ)
    → r < 2 ^ k
    → s < 2 ^ k
    → (bit_and (p * 2 ^ k + r) (q * 2 ^ k + s) ≡ bit_and p q * 2 ^ k + bit_and r s)
      × (bit_and r s < 2 ^ k)
bit_and-fields zero p q zero zero hr hs = ground arith
bit_and-fields zero p q zero (suc s) hr hs = absurd (omega arith)
bit_and-fields zero p q (suc r) s hr hs = absurd (omega arith)
bit_and-fields (suc k) p q r s hr hs = ground (
  arith,
  bit_and_step (p * 2 ^ suc k + r) (q * 2 ^ suc k + s),
  bit_and_step r s,
  fields-suc k p r,
  fields-suc k q s,
  fields-suc k (bit_and p q) (bit_and r s),
  pow-suc 2 k,
  bit_and-fields k p q (r / 2) (s / 2) (omega (arith, pow-suc 2 k)) (omega (arith, pow-suc 2 k)),
)
