-- ===== src/Vm/Extend.antt =====
-- `__alloc` of src/mm-vm.c where the limit has to move.
use btlos.Prelude.{
  ℕ, ◌+◌, ◌-◌, ◌*◌, ◌/◌, ◌^◌, ◌≡◌, ◌<◌, ◌≤◌, refl, ◌∙◌, ap, some, List, ◌∷◌, ◌++◌, done, success,
  chain, arith, set, get_elem?, get_elem?-lt, get_elem?-set_self, length, gt→leb,
}
use btlos.Prelude.Int.{pos, to_int-pos, to_int-u64, ◌-ℤ◌}
use btlos.Mm.{Region, Mm, Caller, Symbol, Area}
use btlos.Mm.Laws.{get_vma_by_num-first, set_symbol_lem, with_symbol, with_area}
use btlos.Region.Find.{NoRoom, get_free_vmrg_area-none}
use btlos.Paging.Range.{AllOffline, Small, Mapped, vmap_page_range-Mapped}
use btlos.Vm.{
  pgalloc, alloc, grow, extend, claim, page_alignsz, vm_map_ram, inc_vma_limit,
  get_vm_area_node_at_brk, validate_overlap_vm_area,
}
use btlos.Vm.Grow.{gap_lem, stop_lem, moved_lem}

-- The size that `__alloc` asks for, and the pages that `inc_vma_limit` counts for it.
missing_lem : (b e n : ℕ) → b ≤ e → e < b + n → pos n -ℤ pos (e - b) ≡ pos (b + n - e)
missing_lem b e n le lt = ground arith

align_lem :
    (n k : ℕ) → n + 256 < 2 ^ 31 → (n + 255) / 256 ≡ k → page_alignsz (pos n) ≡ done (pos (k * 256))
unfolding page_alignsz
align_lem n k small e = ground (arith, e, small)

pages_lem : (k : ℕ) → k * 256 / 256 ≡ k
pages_lem k = omega arith

inc_vma_limit-Mapped :
    (junk : ℕ) (c : Caller) (a : Area) (rest : List Area) (taken left xs : List ℕ)
    → let moved = with_area c.mm (record a { vm_end = a.vm_end + length taken * 256 }) rest in
      c.mm.mmap ≡ a ∷ rest
      → AllOffline c.mm.pgd
      → Small taken
      → a.vm_end + length taken * 256 ≤ 2 ^ 22
      → c.mram.free_fp_list ≡ chain (taken ++ left)
      → c.mm.lru_pgn ≡ chain xs
      → (c' : Caller) × (inc_vma_limit junk c (pos 0) (pos (length taken * 256))
          ≡ done (success, c'))
        × Mapped (record c { mm = moved }) c' left
unfolding inc_vma_limit get_vm_area_node_at_brk validate_overlap_vm_area vm_map_ram
inc_vma_limit-Mapped junk c a rest taken left xs area off small fits free lru =
    let moved = with_area c.mm (record a { vm_end = a.vm_end + length taken * 256 }) rest in
    let (c', runs, m) =
      vmap_page_range-Mapped junk (record c { mm = moved }) a.vm_end taken left xs
        (record { offline = off.offline }) small fits free lru in
    (
      c',
      rw
          (
            get_vma_by_num-first c.mm a rest area,
            area,
            align_lem (length taken * 256) (length taken) (omega (arith, fits)) (omega arith),
            moved_lem a.vm_end (length taken * 256) (omega (arith, fits)),
            pages_lem (length taken),
            to_int-pos a.vm_end (omega (arith, fits)),
          )
          runs,
      m,
    )

first_area :
    (mm : Mm) (a : Area) (rest : List Area) → mm.mmap ≡ a ∷ rest → get_elem? mm.mmap 0 ≡ some a
first_area mm a rest e = ap (λ l. get_elem? l 0) e

alloc-moved :
    (fuel junk : ℕ) (c c1 : Caller) (i n k : ℕ) (s : Symbol) (a a1 : Area) (rest : List Area)
    (xs : List Region)
    → c.mm.mmap ≡ a ∷ rest
    → a.vm_freerg_list ≡ chain xs
    → NoRoom n xs
    → length xs < fuel
    → a.sbrk ≤ a.vm_end
    → a.vm_end < a.sbrk + n
    → a.vm_end < 2 ^ 30
    → n < 2 ^ 30
    → (a.sbrk + n - a.vm_end + 255) / 256 ≡ k
    → inc_vma_limit junk c (pos 0) (pos (k * 256)) ≡ done (success, c1)
    → c1.mm.mmap ≡ a1 ∷ rest
    → a1.sbrk ≡ a.sbrk
    → get_elem? c1.mm.symrgtbl i ≡ some s
    → alloc fuel junk c (pos 0) (pos i) (pos n)
      ≡ done (
        success,
        some (pos a.sbrk),
        record c1 {
          mm =
              with_symbol
                (with_area c1.mm (record a1 { sbrk = a.sbrk + n }) rest)
                i
                s
                a.sbrk
                (a.sbrk + n);
        },
      )
unfolding alloc grow extend claim
alloc-moved fuel junk c c1 i n k s a a1 rest xs area free none_fits enough low past end_low n_low
      count grew area1 kept here1 =
    rw
      (
        get_free_vmrg_area-none fuel c.mm a rest n xs area free (omega (arith, n_low)) enough
            none_fits,
        get_vma_by_num-first c.mm a rest area,
        first_area c.mm a rest area,
        gap_lem a.sbrk a.vm_end low (omega (arith, end_low)),
        gt→leb {a = n + 0} {b = a.vm_end - a.sbrk + 0} (omega (arith, past)),
        missing_lem a.sbrk a.vm_end n low past,
        align_lem (a.sbrk + n - a.vm_end) k (omega (arith, n_low)) count,
        grew,
        area1,
        kept,
        to_int-u64 a.sbrk (omega (arith, low, end_low)),
        stop_lem a.sbrk n (omega (arith, low, end_low, n_low)),
        moved_lem a.sbrk n (omega (arith, low, end_low, n_low)),
        set_symbol_lem (with_area c1.mm (record a1 { sbrk = a.sbrk + n }) rest) i s a.sbrk
            (a.sbrk + n) here1,
        to_int-pos a.sbrk (omega (arith, low, end_low)),
      )
      refl

-- Where no free region has room, an allocation of `n` bytes that does not fit below the limit moves
-- the limit by as many whole pages as are missing, takes that many frames off RAM's list, and gives
-- the space from the old `sbrk` on to its symbol, whose address it returns; `sbrk` moves up by `n`.
-- The free regions are not reversed and below 2 ^ 63, and the search has fuel for one round more
-- than there are; the pages are not present, the frames below 2 ^ 13, and the new limit at most 2 ^
-- 22. The other symbols and the page table are as they were.
pub alloc-extend :
    (fuel junk : ℕ) (c : Caller) (i n : ℕ) (s : Symbol) (a : Area) (rest : List Area)
    (xs : List Region) (taken left pages : List ℕ)
    → c.mm.mmap ≡ a ∷ rest
    → a.vm_freerg_list ≡ chain xs
    → NoRoom n xs
    → length xs < fuel
    → get_elem? c.mm.symrgtbl i ≡ some s
    → a.sbrk ≤ a.vm_end
    → a.vm_end < a.sbrk + n
    → (a.sbrk + n - a.vm_end + 255) / 256 ≡ length taken
    → a.vm_end + length taken * 256 ≤ 2 ^ 22
    → AllOffline c.mm.pgd
    → Small taken
    → c.mram.free_fp_list ≡ chain (taken ++ left)
    → c.mm.lru_pgn ≡ chain pages
    → (c' : Caller) × (alloc fuel junk c (pos 0) (pos i) (pos n)
        ≡ done (success, some (pos a.sbrk), c'))
      × (c'.mm.mmap ≡ record a { vm_end = a.vm_end + length taken * 256; sbrk = a.sbrk + n } ∷ rest)
      × (get_elem? c'.mm.symrgtbl i ≡ some (record s { rg_start = a.sbrk; rg_end = a.sbrk + n }))
      × (c'.mm.symrgtbl ≡ set c.mm.symrgtbl i (record s { rg_start = a.sbrk; rg_end = a.sbrk + n }))
      × (c'.mram.free_fp_list ≡ chain left)
      × (c'.mm.pgd ≡ c.mm.pgd)
unfolding alloc grow extend claim
alloc-extend fuel junk c i n s a rest xs taken left pages area free none_fits enough here low past
      count fits off small frames lru =
    let k = length taken in
    let a1 = record a { vm_end = a.vm_end + k * 256 } in
    let a2 = record a1 { sbrk = a.sbrk + n } in
    let (c1, runs, m) =
      inc_vma_limit-Mapped junk c a rest taken left pages area off small fits frames lru in
    let here1 : get_elem? c1.mm.symrgtbl i ≡ some s = ap (λ t. get_elem? t i) m.symbols ∙ here in
    let c2 = record c1 { mm = with_symbol (with_area c1.mm a2 rest) i s a.sbrk (a.sbrk + n) } in
    (
      c2,
      alloc-moved fuel junk c c1 i n k s a a1 rest xs area free none_fits enough low past
          (omega (arith, fits)) (omega (arith, low, past, count, fits)) count runs m.areas refl
          here1,
      refl,
      get_elem?-set_self c1.mm.symrgtbl i _ (get_elem?-lt c1.mm.symrgtbl i here1),
      ap (λ l. set l i (record s { rg_start = a.sbrk; rg_end = a.sbrk + n })) m.symbols,
      m.frames,
      m.table,
    )

-- The same of the function that the instruction calls.
pub pgalloc-extend :
    (fuel junk : ℕ) (c : Caller) (i n : ℕ) (s : Symbol) (a : Area) (rest : List Area)
    (xs : List Region) (taken left pages : List ℕ)
    → c.mm.mmap ≡ a ∷ rest
    → a.vm_freerg_list ≡ chain xs
    → NoRoom n xs
    → length xs < fuel
    → get_elem? c.mm.symrgtbl i ≡ some s
    → a.sbrk ≤ a.vm_end
    → a.vm_end < a.sbrk + n
    → (a.sbrk + n - a.vm_end + 255) / 256 ≡ length taken
    → a.vm_end + length taken * 256 ≤ 2 ^ 22
    → AllOffline c.mm.pgd
    → Small taken
    → c.mram.free_fp_list ≡ chain (taken ++ left)
    → c.mm.lru_pgn ≡ chain pages
    → i < 2 ^ 31
    → (c' : Caller) × (pgalloc fuel junk c n i ≡ done (success, c'))
      × (c'.mm.symrgtbl ≡ set c.mm.symrgtbl i (record s { rg_start = a.sbrk; rg_end = a.sbrk + n }))
unfolding pgalloc
pgalloc-extend fuel junk c i n s a rest xs taken left pages area free none_fits enough here low past
      count fits off small frames lru int =
    let (c', runs, areas, symbol, symbols, frames_left, table) =
      alloc-extend fuel junk c i n s a rest xs taken left pages area free none_fits enough here low
        past count fits off small frames lru in
    (
      c',
      rw (to_int-pos i int, to_int-pos n (omega (arith, low, past, count, fits)), runs) refl,
      symbols,
    )
