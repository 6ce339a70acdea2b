-- ===== src/Pte.antt =====
-- The page table entry: the macros of include/bitops.h and include/mm.h, and the functions of
-- src/mm.c that write an entry. An entry is a `uint32_t`, a number below 2 ^ 32.
pub mod Fields
pub mod Laws
mod Tests
use btlos.Prelude.{
  ℕ, ◌+◌, ◌-◌, ◌*◌, ◌/◌, ◌%◌, ◌^◌, Bool, bit_and, bit_or, ◌==◌, if◌then◌else◌, not, Code, success,
  failure,
}

-- `BIT (nr)`
abbrev pub bit : ℕ → ℕ
bit nr = 2 ^ nr

-- `GENMASK (h, l)`: the ones from bit `l` to bit `h`.
abbrev pub genmask : ℕ → ℕ → ℕ
genmask h l = bit_and ((2 ^ 32 - 1) * 2 ^ l % 2 ^ 32) ((2 ^ 32 - 1) / 2 ^ (32 - h - 1))

-- `NBITS2` to `NBITS32` and `NBITS`: the position of the highest one.
abbrev nbits2 : ℕ → ℕ
nbits2 n = if bit_and n 2 == 0 then 0 else 1

abbrev nbits4 : ℕ → ℕ
nbits4 n = if bit_and n 0xc == 0 then nbits2 n else 2 + nbits2 (n / 2 ^ 2)

abbrev nbits8 : ℕ → ℕ
nbits8 n = if bit_and n 0xf0 == 0 then nbits4 n else 4 + nbits4 (n / 2 ^ 4)

abbrev nbits16 : ℕ → ℕ
nbits16 n = if bit_and n 0xff00 == 0 then nbits8 n else 8 + nbits8 (n / 2 ^ 8)

abbrev nbits32 : ℕ → ℕ
nbits32 n = if bit_and n 0xffff_0000 == 0 then nbits16 n else 16 + nbits16 (n / 2 ^ 16)

abbrev pub nbits : ℕ → ℕ
nbits n = if n == 0 then 0 else nbits32 n

-- `SETBIT`, `CLRBIT`, `SETVAL` and `GETVAL`.
abbrev pub set_bit : ℕ → ℕ → ℕ
set_bit v mask = bit_or v mask

abbrev pub clr_bit : ℕ → ℕ → ℕ
clr_bit v mask = bit_and v (2 ^ 32 - 1 - mask)

abbrev pub set_val : ℕ → ℕ → ℕ → ℕ → ℕ
set_val v value mask offst = bit_or (clr_bit v mask) (bit_and (value * 2 ^ offst % 2 ^ 32) mask)

abbrev pub get_val : ℕ → ℕ → ℕ → ℕ
get_val v mask offst = bit_and v mask / 2 ^ offst

abbrev pub paging_pagesz : ℕ
paging_pagesz = 256

abbrev pub paging_cpu_bus_width : ℕ
paging_cpu_bus_width = 22

abbrev pub paging_max_pgn : ℕ
paging_max_pgn = 16384

-- `PAGING_MEMRAMSZ` and `PAGING_MEMSWPSZ`
abbrev pub paging_memramsz : ℕ
paging_memramsz = bit 10

abbrev pub paging_memswpsz : ℕ
paging_memswpsz = bit 14

abbrev pub present_mask : ℕ
present_mask = bit 31

abbrev pub swapped_mask : ℕ
swapped_mask = bit 30

abbrev pub dirty_mask : ℕ
dirty_mask = bit 28

-- `PAGING_PTE_FPN_MASK`, `PAGING_PTE_SWPTYP_MASK` and `PAGING_PTE_SWPOFF_MASK`, with their low bits.
abbrev pub pte_fpn_mask : ℕ
pte_fpn_mask = genmask 12 0

abbrev pub pte_swptyp_mask : ℕ
pte_swptyp_mask = genmask 4 0

abbrev pub pte_swpoff_mask : ℕ
pte_swpoff_mask = genmask 25 5

-- `PAGING_ADDR_FPN_LOBIT`, also the low bit of `PAGING_PGN` and of `PAGING_SWP`.
abbrev pub addr_fpn_lobit : ℕ
addr_fpn_lobit = nbits paging_pagesz

-- `PAGING_OFFST`, `PAGING_PGN`, `PAGING_FPN` and `PAGING_SWP`.
unfoldable pub paging_offst : ℕ → ℕ
paging_offst x = get_val x (genmask (nbits paging_pagesz - 1) 0) 0

unfoldable pub paging_pgn : ℕ → ℕ
paging_pgn x = get_val x (genmask (paging_cpu_bus_width - 1) addr_fpn_lobit) addr_fpn_lobit

unfoldable pub paging_fpn : ℕ → ℕ
paging_fpn x = get_val x (genmask (nbits paging_memramsz - 1) addr_fpn_lobit) addr_fpn_lobit

unfoldable pub paging_swp : ℕ → ℕ
paging_swp x = get_val x (genmask (nbits paging_memswpsz - 1) addr_fpn_lobit) 5

-- `PAGING_PAGE_PRESENT`, as a test.
unfoldable pub page_present : ℕ → Bool
page_present pte = not (bit_and pte present_mask == 0)

-- The frame number and the swap offset are `int` values that are not negative.
pub pte_set_fpn : ℕ → ℕ → ℕ
pte_set_fpn pte fpn = set_val (clr_bit (set_bit pte present_mask) swapped_mask) fpn pte_fpn_mask 0

pub pte_set_swap : ℕ → ℕ → ℕ → ℕ
pte_set_swap pte swptyp swpoff =
    set_val (set_val (set_bit (set_bit pte present_mask) swapped_mask) swptyp pte_swptyp_mask 0)
      swpoff pte_swpoff_mask 5

-- The two settings of `init_pte`, with the return code beside the new entry.
online : ℕ → ℕ → Code × ℕ
online pte fpn = if fpn == 0 then (failure, pte) else (
  success,
  set_val (clr_bit (clr_bit (set_bit pte present_mask) swapped_mask) dirty_mask) fpn pte_fpn_mask 0,
)

offline : ℕ → ℕ → ℕ → ℕ
offline pte swptyp swpoff =
    set_val
      (set_val (clr_bit (set_bit (set_bit pte present_mask) swapped_mask) dirty_mask) swptyp
        pte_swptyp_mask 0)
      swpoff pte_swpoff_mask 5

pub init_pte : (pte pre fpn drt swp swptyp swpoff : ℕ) → Code × ℕ
unfolding online offline
init_pte pte pre fpn drt swp swptyp swpoff =
    if pre == 0
    then (success, pte)
    else if swp == 0
    then online pte fpn
    else (success, offline pte swptyp swpoff)
