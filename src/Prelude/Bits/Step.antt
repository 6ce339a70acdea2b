-- ===== src/Prelude/Bits/Step.antt =====
-- One binary digit of `|` and `&`: the library computes both from the lowest digit up, with a bound on the
-- number of digits, and a larger bound changes nothing.
use Prim.Native.Nat.{digits, bitwise, bit_and-bitwise, bit_or-bitwise}
use btlos.Prelude.{
  ℕ, zero, suc, ◌+◌, ◌-◌, ◌*◌, ◌/◌, ◌%◌, ◌≤◌, min, max, bit_and, bit_or, ◌≡◌, refl, ap, ◌∙◌, arith,
}

module _ (rest : ℕ → ℕ) (op : ℕ → ℕ → ℕ) where
  -- One digit more than enough.
  one_more :
      (bound : ℕ) (x y : ℕ) → x ≤ bound → digits rest op (suc bound) x y ≡ digits rest op bound x y
  one_more bound zero y le = by_bound bound
    where
      by_bound : (n : ℕ) → digits rest op (suc n) 0 y ≡ digits rest op n 0 y
      by_bound zero = refl
      by_bound (suc n) = refl
  one_more zero (suc x) y le = absurd (omega (arith, le))
  one_more (suc bound) (suc x) y le =
      ap (λ high. high * 2 + op (suc x % 2) (y % 2))
        (one_more bound (suc x / 2) (y / 2) (omega (arith, le)))

  -- Any number of digits more than enough.
  more :
      (extra bound x y : ℕ)
      → x ≤ bound
      → digits rest op (bound + extra) x y ≡ digits rest op bound x y
  more zero bound x y le = ap (λ n. digits rest op n x y) (omega arith)
  more (suc extra) bound x y le =
      ap (λ n. digits rest op n x y) {y = suc (bound + extra)} (omega arith)
      ∙ one_more (bound + extra) x y (omega (arith, le))
      ∙ more extra bound x y le

  lowest_digit :
      (x y : ℕ)
      → bitwise rest op (suc x) y ≡ bitwise rest op (suc x / 2) (y / 2) * 2 + op (suc x % 2) (y % 2)
  lowest_digit x y =
      let half = suc x / 2 in
      ap (λ high. high * 2 + op (suc x % 2) (y % 2))
        (ap (λ n. digits rest op n half (y / 2)) (omega arith)
          ∙ more (x - half) half half (y / 2) (omega arith))

pub bit_and_step : (x y : ℕ) → bit_and x y ≡ bit_and (x / 2) (y / 2) * 2 + min (x % 2) (y % 2)
bit_and_step zero y = simp bit_and-bitwise (omega arith)
bit_and_step (suc x) y = simp bit_and-bitwise (lowest_digit (λ b. 0) min x y)

pub bit_or_step : (x y : ℕ) → bit_or x y ≡ bit_or (x / 2) (y / 2) * 2 + max (x % 2) (y % 2)
bit_or_step zero y = simp bit_or-bitwise (omega arith)
bit_or_step (suc x) y = simp bit_or-bitwise (lowest_digit (λ b. b) max x y)
