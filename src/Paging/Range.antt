-- ===== src/Paging/Range.antt =====
-- `vmap_page_range` of src/mm.c.
use btlos.Prelude.{
  ℕ, ◌+◌, ◌*◌, ◌%◌, ◌^◌, ◌≡◌, ◌<◌, ◌≤◌, refl, false, some, List, [], ◌∷◌, ◌++◌, done, success,
  arith, chain, get_elem?, length,
}
use btlos.Prelude.Int.{pos, ◌+ℤ◌}
use btlos.Pte.{paging_pgn, page_present, paging_max_pgn, paging_pagesz}
use btlos.Pte.Laws.{page_offset}
use btlos.Lru.Laws.{erase}
use btlos.Mm.{Caller}
use btlos.Paging.{vmap_page_range}
use btlos.Paging.Getpage.{pg_getpage-free_frame, enlisted, with_frames}

-- Every page of the list of entries is off line, and every entry and frame number in its bounds.
pub record AllOffline (pgd : List ℕ) : Type 0 where
  pub offline :
      (pgn : ℕ)
      → pgn < paging_max_pgn
      → (pte : ℕ) × (get_elem? pgd pgn ≡ some pte) × (page_present pte ≡ false) × (pte < 2 ^ 32)

pub record Mapped (c c' : Caller) (rest : List ℕ) : Type 0 where
  pub table : c'.mm.pgd ≡ c.mm.pgd
  pub areas : c'.mm.mmap ≡ c.mm.mmap
  pub symbols : c'.mm.symrgtbl ≡ c.mm.symrgtbl
  pub frames : c'.mram.free_fp_list ≡ chain rest
  pub storage : c'.mram.storage ≡ c.mram.storage
  pub swap : c'.active_mswp ≡ c.active_mswp

pub data Small : List ℕ → Type 0 where
  none_left : Small []
  one_more : (f : ℕ) (fs : List ℕ) → f < 2 ^ 13 → Small fs → Small (f ∷ fs)

in_range : (addr : ℕ) → addr < 2 ^ 22 → addr % 2 ^ 32 ≡ addr
in_range addr h = omega arith

next_page : (addr : ℕ) → pos addr +ℤ pos paging_pagesz ≡ pos (addr + 256)
next_page addr = ground arith

-- In a process whose pages are all not present, mapping as many pages as `taken` has frames, below
-- 2 ^ 13 each and with addresses below 2 ^ 22, takes these frames off RAM's list and succeeds; the
-- page table, the storage of RAM and swap are as before.
pub vmap_page_range-Mapped :
    (junk : ℕ) (c : Caller) (addr : ℕ) (taken rest xs : List ℕ)
    → AllOffline c.mm.pgd
    → Small taken
    → addr + length taken * 256 ≤ 2 ^ 22
    → c.mram.free_fp_list ≡ chain (taken ++ rest)
    → c.mm.lru_pgn ≡ chain xs
    → (c' : Caller) × (vmap_page_range junk c (pos addr) (length taken) ≡ done (success, c'))
      × Mapped c c' rest
unfolding vmap_page_range
vmap_page_range-Mapped junk c addr [] rest xs off small fits free lru = (
  c,
  refl,
  record { table = refl; areas = refl; symbols = refl; frames = free; storage = refl; swap = refl },
)
vmap_page_range-Mapped junk c addr (f ∷ taken) rest xs off (one_more _ _ lf small) fits free lru =
    let (pte, entry, absent, bound) =
      off.offline (paging_pgn addr) (page_offset addr (omega arith)).1 in
    let c1 = enlisted (with_frames c (taken ++ rest)) (paging_pgn addr) xs in
    let (c', runs, m) =
      vmap_page_range-Mapped junk c1 (addr + 256) taken rest
        (paging_pgn addr ∷ erase (paging_pgn addr) xs) (record { offline = off.offline }) small
        (omega arith) refl refl in
    (
      c',
      rw
          (
            in_range addr (omega arith),
            pg_getpage-free_frame junk c (paging_pgn addr) pte f (taken ++ rest) xs
                (page_offset addr (omega arith)).1 entry absent bound lf free lru,
            next_page addr,
          )
          runs,
      record {
        table = m.table;
        areas = m.areas;
        symbols = m.symbols;
        frames = m.frames;
        storage = m.storage;
        swap = m.swap;
      },
    )
