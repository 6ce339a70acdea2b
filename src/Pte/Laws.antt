-- ===== src/Pte/Laws.antt =====
-- What an entry holds after `pte_set_fpn` and `pte_set_swap` of src/mm.c, and what the readers of
-- include/mm.h find in it.
use btlos.Prelude.{ℕ, ◌+◌, ◌*◌, ◌/◌, ◌%◌, ◌^◌, ◌≡◌, ◌≢◌, ◌<◌, true, arith}
use btlos.Pte.{
  paging_offst, paging_pgn, paging_fpn, paging_swp, page_present, pte_set_fpn, pte_set_swap,
  clr_bit, present_mask, paging_pagesz, paging_max_pgn,
}
use btlos.Pte.Fields.{
  paging_offst_lem, paging_pgn_lem, paging_fpn_lem, paging_swp_lem, page_present_iff, set_present,
  clear_present, clear_swapped, set_swapped, set_fpn, set_swptyp, set_swpoff,
}

-- The entry that `pte_set_fpn` writes: present, not swapped, bits 13 to 29 kept.
pub pte_set_fpn_lem :
    (pte fpn : ℕ)
    → pte < 2 ^ 32
    → pte_set_fpn pte fpn ≡ 2 ^ 31 + pte / 2 ^ 13 % 2 ^ 17 * 2 ^ 13 + fpn % 2 ^ 13
unfolding pte_set_fpn
pte_set_fpn_lem pte fpn h =
    rw
      (
        set_present pte h,
        clear_swapped (pte % 2 ^ 31 + 2 ^ 31) (omega arith),
        set_fpn ((pte % 2 ^ 31 + 2 ^ 31) / 2 ^ 31 * 2 ^ 31 + (pte % 2 ^ 31 + 2 ^ 31) % 2 ^ 30) fpn
            (omega arith),
      )
      (omega arith)

pub pte_set_swap_lem :
    (pte swptyp swpoff : ℕ)
    → pte < 2 ^ 32
    → pte_set_swap pte swptyp swpoff
      ≡ 2 ^ 31 + 2 ^ 30 + pte / 2 ^ 26 % 2 ^ 4 * 2 ^ 26 + swpoff % 2 ^ 21 * 2 ^ 5 + swptyp % 2 ^ 5
unfolding pte_set_swap
pte_set_swap_lem pte swptyp swpoff h =
    let y = (pte % 2 ^ 31 + 2 ^ 31) / 2 ^ 31 * 2 ^ 31 + 2 ^ 30 + (pte % 2 ^ 31 + 2 ^ 31) % 2 ^ 30 in
    let z = y / 2 ^ 5 * 2 ^ 5 + swptyp % 2 ^ 5 in
    rw
      (
        set_present pte h,
        set_swapped (pte % 2 ^ 31 + 2 ^ 31) (omega arith),
        set_swptyp y swptyp (omega arith),
        set_swpoff z swpoff (omega arith),
      )
      (omega arith)

-- An entry of 32 bits is after `pte_set_fpn` again one: it is present and not swapped, it holds the
-- low 13 bits of the frame number, and bits 13 to 29 are as they were.
pub pte_set_fpn-fields :
    (pte fpn : ℕ)
    → pte < 2 ^ 32
    → let e = pte_set_fpn pte fpn in
      (e < 2 ^ 32)
      × (page_present e ≡ true)
      × (e / 2 ^ 30 % 2 ≡ 0)
      × (e % 2 ^ 13 ≡ fpn % 2 ^ 13)
      × (e / 2 ^ 13 % 2 ^ 17 ≡ pte / 2 ^ 13 % 2 ^ 17)
pte_set_fpn-fields pte fpn h = (
  omega (arith, pte_set_fpn_lem pte fpn h),
  (page_present_iff (pte_set_fpn pte fpn)).1 (omega (arith, pte_set_fpn_lem pte fpn h)),
  omega (arith, pte_set_fpn_lem pte fpn h),
  omega (arith, pte_set_fpn_lem pte fpn h),
  omega (arith, pte_set_fpn_lem pte fpn h),
)

-- An entry of 32 bits is after `pte_set_swap` again one: it is present and swapped, it holds the
-- low 5 bits of the type and the low 21 bits of the offset, and bits 26 to 29 are as they were.
pub pte_set_swap-fields :
    (pte swptyp swpoff : ℕ)
    → pte < 2 ^ 32
    → let e = pte_set_swap pte swptyp swpoff in
      (e < 2 ^ 32)
      × (page_present e ≡ true)
      × (e / 2 ^ 30 % 2 ≡ 1)
      × (e % 2 ^ 5 ≡ swptyp % 2 ^ 5)
      × (e / 2 ^ 5 % 2 ^ 21 ≡ swpoff % 2 ^ 21)
      × (e / 2 ^ 26 % 2 ^ 4 ≡ pte / 2 ^ 26 % 2 ^ 4)
pte_set_swap-fields pte swptyp swpoff h = (
  omega (arith, pte_set_swap_lem pte swptyp swpoff h),
  (page_present_iff (pte_set_swap pte swptyp swpoff)).1
      (omega (arith, pte_set_swap_lem pte swptyp swpoff h)),
  omega (arith, pte_set_swap_lem pte swptyp swpoff h),
  omega (arith, pte_set_swap_lem pte swptyp swpoff h),
  omega (arith, pte_set_swap_lem pte swptyp swpoff h),
  omega (arith, pte_set_swap_lem pte swptyp swpoff h),
)

-- The frame number that is read from an entry after `pte_set_fpn` is bits 8 and 9 of the one below
-- 2 ^ 13 that was written, so it is another one unless it is 0.
pub paging_fpn-pte_set_fpn :
    (pte fpn : ℕ)
    → pte < 2 ^ 32
    → fpn < 2 ^ 13
    → (paging_fpn (pte_set_fpn pte fpn) ≡ fpn / 256 % 4)
      × (fpn ≢ 0 → paging_fpn (pte_set_fpn pte fpn) ≢ fpn)
paging_fpn-pte_set_fpn pte fpn h small = (
  omega (arith, pte_set_fpn_lem pte fpn h, paging_fpn_lem (pte_set_fpn pte fpn)),
  λ n. omega (arith, pte_set_fpn_lem pte fpn h, paging_fpn_lem (pte_set_fpn pte fpn)),
)

-- After a page is sent to a swap frame as `pg_getpage` does it, the swap frame that is read from
-- its entry is 0 for an even frame and 256 for an odd one.
pub paging_swp-pte_set_swap :
    (pte frame : ℕ)
    → pte < 2 ^ 32
    → paging_swp (clr_bit (pte_set_swap pte 0 (frame * 256)) present_mask) ≡ frame % 2 * 256
paging_swp-pte_set_swap pte frame h =
    let e = pte_set_swap pte 0 (frame * 256) in
    rw (clear_present e)
      (omega (arith, pte_set_swap_lem pte 0 (frame * 256) h, paging_swp_lem (e % 2 ^ 31)))

-- A virtual address of 22 bits is its page number, below 16384, times 256 and its offset, below
-- 256.
pub page_offset :
    (addr : ℕ)
    → addr < 2 ^ 22
    → (paging_pgn addr * paging_pagesz + paging_offst addr ≡ addr)
      × (paging_pgn addr < paging_max_pgn)
      × (paging_offst addr < paging_pagesz)
page_offset addr h = (
  omega (arith, paging_pgn_lem addr, paging_offst_lem addr),
  omega (arith, paging_pgn_lem addr),
  omega (arith, paging_offst_lem addr),
)
