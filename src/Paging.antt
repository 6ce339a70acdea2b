-- ===== src/Paging.antt =====
-- The page accesses of src/mm-vm.c: `pg_getpage`, `pg_getval` and `pg_setval`, and `vmap_page_range` of
-- src/mm.c. `junk` is the byte in a local variable that is not set.
pub mod Getpage
pub mod Evict
pub mod Values
pub mod Range
pub mod Keeps
mod Tests
use btlos.Prelude.{
  ℕ, zero, suc, ◌+◌, ◌*◌, ◌^◌, Bool, Option, none, some, Outcome, done, fault, ◌>>=◌, deref, Code,
  success, failure, get_elem?, set, ltb, if◌then◌else◌,
}
use btlos.Prelude.Int.{ℤ, pos, u32, ◌+ℤ◌}
use btlos.Memphy.{Memphy, get_freefp, swap_cp_page, read, write}
use btlos.Pte.{
  paging_fpn, paging_swp, paging_pgn, paging_offst, page_present, pte_set_fpn, pte_set_swap,
  set_bit, clr_bit, present_mask, paging_max_pgn, paging_pagesz, addr_fpn_lobit,
}
use btlos.Lru.{enlist_pgn_node, find_victim_page}
use btlos.Mm.{Mm, Caller}

-- The entry of the page at `pgn` is written into the table.
abbrev pub set_pte : Mm → ℕ → ℕ → Mm
set_pte mm pgn pte = record mm { pgd = set mm.pgd pgn pte }

-- The part of `pg_getpage` for which RAM has no free frame left, from the search of the victim. The
-- entry that it returns is the page's new one; both copies go from RAM to swap.
evict : ℕ → Caller → ℕ → ℕ → Outcome (Option ℕ × Caller)
evict junk c pgn pte = do
  (victim, lru) ← find_victim_page c.mm.lru_pgn
  let c1 = record c { mm = record (c.mm) { lru_pgn = lru } }
  elim victim [
    | none ↦ done (none, c1)
    | some vicpgn ↦ do
      vicpte ← deref (get_elem? c1.mm.pgd vicpgn)
      (frame, mswp) ← get_freefp c1.active_mswp
      elim frame [
        | none ↦ done (none, record c1 { active_mswp = mswp })
        | some swpfpn ↦ do
          (mram, mswp) ← swap_cp_page junk c1.mram (paging_fpn vicpte) mswp swpfpn
          (mram, mswp) ← swap_cp_page junk mram (paging_swp pte) mswp (paging_fpn vicpte)
          let new = set_bit (pte_set_fpn pte (paging_fpn vicpte)) present_mask
          let old = clr_bit (pte_set_swap vicpte 0 (swpfpn * 2 ^ addr_fpn_lobit)) present_mask
          done (
            some new,
            record {
              mm = set_pte (set_pte (c1.mm) vicpgn old) pgn new;
              mram = mram;
              active_mswp = mswp;
            },
          )
      ]
  ]

-- The entry to use for a page that is not present. With a free frame it is not written to the table.
bring_in : ℕ → Caller → ℕ → ℕ → Outcome (Option ℕ × Caller)
bring_in junk c pgn pte = do
  (frame, mram) ← get_freefp c.mram
  let c1 = record c { mram = mram }
  elim frame [ some fpn ↦ done (some (pte_set_fpn pte fpn), c1) | none ↦ evict junk c1 pgn pte ]

-- The end of `pg_getpage`: the page is enlisted and its frame number returned.
use_page : ℕ → Option ℕ × Caller → Outcome (Option ℕ × Caller)
use_page pgn (none, c) = done (none, c)
use_page pgn (some pte, c) = do
  lru ← enlist_pgn_node c.mm.lru_pgn pgn
  done (some (paging_fpn pte), record c { mm = record (c.mm) { lru_pgn = lru } })

-- `none` is the return code -1.
pub pg_getpage : ℕ → Caller → ℕ → Outcome (Option ℕ × Caller)
unfolding evict bring_in use_page
pg_getpage junk c pgn =
    if ltb pgn paging_max_pgn
    then (do
      pte ← deref (get_elem? c.mm.pgd pgn)
      (if page_present pte then done (some pte, c) else bring_in junk c pgn pte) >>= use_page pgn)
    else done (none, c)

-- `phyaddr` of `pg_getval` and `pg_setval`.
abbrev pub phyaddr : ℕ → ℕ → ℤ
phyaddr fpn off = pos (fpn * 2 ^ addr_fpn_lobit + off)

pub pg_getval : ℕ → Caller → ℤ → Outcome (Option ℕ × Caller)
pg_getval junk c addr = do
  (frame, c1) ← pg_getpage junk c (paging_pgn (u32 addr))
  elim frame [
    | none ↦ done (none, c1)
    | some fpn ↦ do
      (got, mram) ← read c1.mram (phyaddr fpn (paging_offst (u32 addr)))
      done (got, record c1 { mram = mram })
  ]

pub pg_setval : ℕ → Caller → ℤ → ℕ → Outcome (Code × Caller)
pg_setval junk c addr value = do
  (frame, c1) ← pg_getpage junk c (paging_pgn (u32 addr))
  elim frame [
    | none ↦ done (failure, c1)
    | some fpn ↦ do
      (code, mram) ← write c1.mram (phyaddr fpn (paging_offst (u32 addr))) value
      done (code, record c1 { mram = mram })
  ]

-- `vmap_page_range`, with `left` pages to go.
pub vmap_page_range : ℕ → Caller → ℤ → ℕ → Outcome (Code × Caller)
vmap_page_range junk c addr zero = done (success, c)
vmap_page_range junk c addr (suc left) = do
  (frame, c1) ← pg_getpage junk c (paging_pgn (u32 addr))
  elim frame [
    | none ↦ done (failure, c1)
    | some fpn ↦ vmap_page_range junk c1 (addr +ℤ pos paging_pagesz) left
  ]
