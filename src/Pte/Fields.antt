-- ===== src/Pte/Fields.antt =====
-- The macros of include/mm.h on entries and addresses as arithmetic.
use mathlib.Core.Path.{ap₂}
use btlos.Prelude.{
  ℕ, ◌+◌, ◌-◌, ◌*◌, ◌/◌, ◌%◌, ◌^◌, ◌≡◌, ◌<◌, ◌↔◌, true, bit_and, bit_or, arith, ◌∙◌,
}
use native.Mathlib.Nat.{one-le-pow}
use btlos.Prelude.Bits.{
  bit_or-fields, bit_or_split, bit_and_split, bit_and_mask, bit_and-zero, bit_or-zero, zero-bit_or,
  bit_or_one,
}
use btlos.Pte.{
  paging_offst, paging_pgn, paging_fpn, paging_swp, page_present, present_mask, swapped_mask,
  set_bit, clr_bit, set_val, pte_fpn_mask, pte_swptyp_mask, pte_swpoff_mask,
}

pub paging_offst_lem : (x : ℕ) → paging_offst x ≡ x % 256
unfolding paging_offst
paging_offst_lem x = omega (arith, bit_and_mask 8 x)

pub paging_pgn_lem : (x : ℕ) → paging_pgn x ≡ x / 256 % 16384
unfolding paging_pgn
paging_pgn_lem x =
    omega (arith, bit_and_split 8 x 0x3fff00, bit_and_mask 14 (x / 256), bit_and-zero (x % 256))

pub paging_fpn_lem : (x : ℕ) → paging_fpn x ≡ x / 256 % 4
unfolding paging_fpn
paging_fpn_lem x =
    omega (arith, bit_and_split 8 x 0x300, bit_and_mask 2 (x / 256), bit_and-zero (x % 256))

pub paging_swp_lem : (x : ℕ) → paging_swp x ≡ x / 256 % 64 * 8
unfolding paging_swp
paging_swp_lem x =
    omega (arith, bit_and_split 8 x 0x3f00, bit_and_mask 6 (x / 256), bit_and-zero (x % 256))

present_bit : (x : ℕ) → bit_and x present_mask ≡ x / 2 ^ 31 % 2 * 2 ^ 31
present_bit x =
    omega
      (arith, bit_and_split 31 x (2 ^ 31), bit_and_mask 1 (x / 2 ^ 31), bit_and-zero (x % 2 ^ 31))

pub page_present_iff : (x : ℕ) → (page_present x ≡ true) ↔ (x / 2 ^ 31 % 2 ≡ 1)
unfolding page_present
page_present_iff x = ground (arith, present_bit x)

-- `pte | BIT (31)`
pub set_present : (x : ℕ) → x < 2 ^ 32 → set_bit x present_mask ≡ x % 2 ^ 31 + 2 ^ 31
set_present x h = omega (
  arith,
  bit_or_split 31 x (2 ^ 31),
  bit_or_one (x / 2 ^ 31) (omega arith),
  bit_or-zero (x % 2 ^ 31),
)

pub clear_present : (x : ℕ) → clr_bit x present_mask ≡ x % 2 ^ 31
clear_present x = bit_and_mask 31 x

-- `pte & ~BIT (30)` and `pte | BIT (30)`
pub clear_swapped : (x : ℕ) → x < 2 ^ 32 → clr_bit x swapped_mask ≡ x / 2 ^ 31 * 2 ^ 31 + x % 2 ^ 30
clear_swapped x h = omega (
  arith,
  bit_and_split 30 x (2 ^ 32 - 1 - 2 ^ 30),
  bit_and_split 1 (x / 2 ^ 30) 2,
  bit_and_mask 1 (x / 2 ^ 30 / 2),
  bit_and-zero (x / 2 ^ 30 % 2),
  bit_and_mask 30 (x % 2 ^ 30),
)

pub set_swapped :
    (x : ℕ) → x < 2 ^ 32 → set_bit x swapped_mask ≡ x / 2 ^ 31 * 2 ^ 31 + 2 ^ 30 + x % 2 ^ 30
set_swapped x h = omega (
  arith,
  bit_or_split 30 x (2 ^ 30),
  bit_or_split 1 (x / 2 ^ 30) 1,
  bit_or-zero (x / 2 ^ 30 / 2),
  bit_or_one (x / 2 ^ 30 % 2) (omega arith),
  bit_or-zero (x % 2 ^ 30),
)

-- `SETVAL` of the low `13` bits (the frame number) and of the low `5` bits (the swap type).
low_or : (k a l : ℕ) → l < 2 ^ k → bit_or (a * 2 ^ k) l ≡ a * 2 ^ k + l
low_or k a l h =
    ground (
      arith,
      bit_or-fields k a 0 0 l (one-le-pow k 2 (omega arith)) h,
      bit_or-zero a,
      zero-bit_or l,
    )

pub set_fpn : (x f : ℕ) → x < 2 ^ 32 → set_val x f pte_fpn_mask 0 ≡ x / 2 ^ 13 * 2 ^ 13 + f % 2 ^ 13
set_fpn x f h = ap₂ bit_or cleared value ∙ low_or 13 (x / 2 ^ 13) (f % 2 ^ 13) (omega arith)
  where
    cleared : clr_bit x pte_fpn_mask ≡ x / 2 ^ 13 * 2 ^ 13
    cleared = omega (
      arith,
      bit_and_split 13 x (2 ^ 32 - 2 ^ 13),
      bit_and_mask 19 (x / 2 ^ 13),
      bit_and-zero (x % 2 ^ 13),
    )

    value : bit_and (f * 1 % 2 ^ 32) pte_fpn_mask ≡ f % 2 ^ 13
    value = omega (arith, bit_and_mask 13 (f * 1 % 2 ^ 32))

pub set_swptyp :
    (x f : ℕ) → x < 2 ^ 32 → set_val x f pte_swptyp_mask 0 ≡ x / 2 ^ 5 * 2 ^ 5 + f % 2 ^ 5
set_swptyp x f h = ap₂ bit_or cleared value ∙ low_or 5 (x / 2 ^ 5) (f % 2 ^ 5) (omega arith)
  where
    cleared : clr_bit x pte_swptyp_mask ≡ x / 2 ^ 5 * 2 ^ 5
    cleared = omega (
      arith,
      bit_and_split 5 x (2 ^ 32 - 2 ^ 5),
      bit_and_mask 27 (x / 2 ^ 5),
      bit_and-zero (x % 2 ^ 5),
    )

    value : bit_and (f * 1 % 2 ^ 32) pte_swptyp_mask ≡ f % 2 ^ 5
    value = omega (arith, bit_and_mask 5 (f * 1 % 2 ^ 32))

-- `SETVAL` of the bits 5 to 25 (the swap offset).
pub set_swpoff :
    (x o : ℕ)
    → x < 2 ^ 32
    → set_val x o pte_swpoff_mask 5 ≡ x / 2 ^ 26 * 2 ^ 26 + o % 2 ^ 21 * 2 ^ 5 + x % 2 ^ 5
set_swpoff x o h = ap₂ bit_or cleared value ∙ joined
  where
    cleared : clr_bit x pte_swpoff_mask ≡ x / 2 ^ 26 * 2 ^ 26 + x % 2 ^ 5
    cleared = omega (
      arith,
      bit_and_split 26 x (2 ^ 32 - 1 - 0x3ff_ffe0),
      bit_and_mask 6 (x / 2 ^ 26),
      bit_and_split 5 (x % 2 ^ 26) 31,
      bit_and-zero (x % 2 ^ 26 / 2 ^ 5),
      bit_and_mask 5 (x % 2 ^ 26 % 2 ^ 5),
    )

    value : bit_and (o * 2 ^ 5 % 2 ^ 32) pte_swpoff_mask ≡ o % 2 ^ 21 * 2 ^ 5
    value = omega (
      arith,
      bit_and_split 5 (o * 2 ^ 5 % 2 ^ 32) 0x3ff_ffe0,
      bit_and_mask 21 (o * 2 ^ 5 % 2 ^ 32 / 2 ^ 5),
      bit_and-zero (o * 2 ^ 5 % 2 ^ 32 % 2 ^ 5),
    )

    joined :
        bit_or (x / 2 ^ 26 * 2 ^ 26 + x % 2 ^ 5) (o % 2 ^ 21 * 2 ^ 5)
        ≡ x / 2 ^ 26 * 2 ^ 26 + o % 2 ^ 21 * 2 ^ 5 + x % 2 ^ 5
    joined = ground (
      arith,
      bit_or-fields 5 (x / 2 ^ 26 * 2 ^ 21) (o % 2 ^ 21) (x % 2 ^ 5) 0 (omega arith) (omega arith),
      low_or 21 (x / 2 ^ 26) (o % 2 ^ 21) (omega arith),
      bit_or-zero (x % 2 ^ 5),
    )
