-- ===== src/Vm/Bounds.antt =====
-- The test of `__read` and `__write` in src/mm-vm.c, and the rounding of include/mm.h.
use btlos.Prelude.{done, ℕ, suc, ◌+◌, ◌*◌, ◌^◌, ◌≡◌, ◌/◌, ◌<◌, ◌≤◌, true, false, arith}
use btlos.Prelude.Int.{pos, negsuc}
use btlos.Mm.{Symbol}
use btlos.Vm.{page_alignsz, out_of_region}

-- A size from 0 on is rounded up to a multiple of the page size less than a page above it.
pub page_alignsz_lem :
    (n : ℕ)
    → n + 256 < 2 ^ 31
    → (k : ℕ) × (page_alignsz (pos n) ≡ done (pos (k * 256))) × (n ≤ k * 256) × (k * 256 < n + 256)
unfolding page_alignsz
page_alignsz_lem n small = ((n + 255) / 256, ground (arith, small), omega arith, omega arith)

-- In a region of addresses below 2 ^ 63 that is not reversed, the test of `__read` and `__write`
-- lets through an offset from 0 up to the size of the region, so one more than the region has
-- bytes, and refuses every other between -2 ^ 31 and 2 ^ 31.
pub out_of_region_lem :
    (s : Symbol) (n : ℕ)
    → s.rg_start ≤ s.rg_end
    → s.rg_end < 2 ^ 63
    → n < 2 ^ 31
    → (s.rg_start + n ≤ s.rg_end → out_of_region s (pos n) ≡ false)
      × (s.rg_end < s.rg_start + n → out_of_region s (pos n) ≡ true)
      × (suc n ≤ s.rg_start → out_of_region s (negsuc n) ≡ true)
      × (s.rg_start < suc n → out_of_region s (negsuc n) ≡ true)
unfolding out_of_region
out_of_region_lem s n ordered small int =
    (λ h. ground arith, λ h. ground arith, λ h. ground arith, λ h. ground arith)
