-- ===== src/Paging/Evict.antt =====
-- `pg_getpage` of src/mm-vm.c where RAM has no free frame and a page was used before.
use native.Mathlib.Decide.{dec_lt}
use btlos.Prelude.{
  ℕ, ◌+◌, ◌*◌, ◌^◌, ◌≡◌, ◌≢◌, ◌<◌, ◌≤◌, refl, ◌∙◌, false, none, some, List, [], ◌∷◌, ◌++◌, done,
  null, chain, arith, get_elem?, lt→ltb,
}
use btlos.Memphy.Access.{IsDevice}
use btlos.Memphy.Copy.{swap_cp_page-Copied}
use btlos.Memphy.Free.{get_freefp-null, get_freefp-chain}
use btlos.Pte.{
  paging_fpn, paging_swp, page_present, pte_set_fpn, set_bit, present_mask, paging_max_pgn, clr_bit,
  pte_set_swap, addr_fpn_lobit,
}
use btlos.Pte.Fields.{paging_fpn_lem}
use btlos.Lru.Laws.{erase, enlist_pgn_node-chain, find_victim_page-last}
use btlos.Mm.{Caller}
use btlos.Paging.{pg_getpage, bring_in, evict, use_page, set_pte}

module _ (junk : ℕ) (c : Caller) (pgn pte vicpte p v : ℕ) (xs : List ℕ) (lt : pgn < paging_max_pgn)
    (entry : get_elem? c.mm.pgd pgn ≡ some pte) (absent : page_present pte ≡ false)
    (no_frame : c.mram.free_fp_list ≡ null) (pages : c.mm.lru_pgn ≡ chain (p ∷ xs ++ v ∷ []))
    (victim : get_elem? c.mm.pgd v ≡ some vicpte) where
  -- Where neither RAM nor swap has a free frame the call fails, but the victim has already been
  -- taken off the list of recently used pages; nothing else changes.
  pub pg_getpage-swap_full :
      c.active_mswp.free_fp_list ≡ null
      → pg_getpage junk c pgn
        ≡ done (none, record c { mm = record (c.mm) { lru_pgn = chain (p ∷ xs) } })
  unfolding pg_getpage bring_in evict use_page
  pg_getpage-swap_full full =
      rw
        (
          lt→ltb lt,
          entry,
          absent,
          get_freefp-null c.mram no_frame,
          pages,
          (find_victim_page-last xs p v).0,
          victim,
          get_freefp-null c.active_mswp full,
        )
        refl

  -- Where RAM has no free frame, the last of the recently used pages is evicted: for devices of
  -- random access and at least 1024 bytes, with the frames of the copies on them and `f` not the
  -- number that is read from the victim's entry, the call succeeds, takes frame `f` of swap and
  -- saves the victim's frame there. But RAM stays as it was, so the page that is needed is not
  -- brought in; instead another frame of swap is overwritten from RAM.
  pub pg_getpage-evict :
      (f : ℕ) (fs : List ℕ)
      → c.active_mswp.free_fp_list ≡ chain (f ∷ fs)
      → IsDevice c.mram
      → IsDevice c.active_mswp
      → 1024 ≤ c.mram.maxsz
      → 1024 ≤ c.active_mswp.maxsz
      → f ≢ paging_fpn vicpte
      → f * 256 + 256 ≤ c.active_mswp.maxsz
      → paging_swp pte * 256 + 256 ≤ c.mram.maxsz
      → (frame : ℕ) × (c' : Caller) × (pg_getpage junk c pgn ≡ done (some frame, c'))
        × (c'.mram ≡ c.mram)
        × (c'.mm.lru_pgn ≡ chain (pgn ∷ erase pgn (p ∷ xs)))
        × (c'.active_mswp.free_fp_list ≡ chain fs)
        × ((j : ℕ)
            → j < 256
            → get_elem? c'.active_mswp.storage (f * 256 + j)
              ≡ get_elem? c.mram.storage (paging_fpn vicpte * 256 + j))
        × ((j : ℕ)
            → j < 256
            → get_elem? c'.active_mswp.storage (paging_fpn vicpte * 256 + j)
              ≡ get_elem? c.mram.storage (paging_swp pte * 256 + j))
  unfolding pg_getpage bring_in evict use_page
  pg_getpage-evict f fs free ram swap big big_swap apart out_fits in_fits =
      let swap' = record (c.active_mswp) { free_fp_list = chain fs } in
      let dev : IsDevice swap' = record { cells = swap.cells; random = swap.random } in
      let k = paging_fpn vicpte in
      let small : k < 4 = omega (arith, paging_fpn_lem vicpte) in
      let (out1, e1, copied1) =
        swap_cp_page-Copied junk c.mram k f ram (omega (arith, small, big)) swap' dev out_fits in
      let (out2, e2, copied2) =
        swap_cp_page-Copied junk c.mram (paging_swp pte) k ram in_fits out1 copied1.valid
          (omega (arith, small, big_swap, copied1.same_size)) in
      let new = set_bit (pte_set_fpn pte k) present_mask in
      let old = clr_bit (pte_set_swap vicpte 0 (f * 2 ^ addr_fpn_lobit)) present_mask in
      let c' : Caller = record {
        mm = record (set_pte (set_pte (c.mm) v old) pgn new) {
          lru_pgn = chain (pgn ∷ erase pgn (p ∷ xs));
        };
        mram = c.mram;
        active_mswp = out2;
      } in
      (
        paging_fpn new,
        c',
        rw
            (
              lt→ltb lt,
              entry,
              absent,
              get_freefp-null c.mram no_frame,
              pages,
              (find_victim_page-last xs p v).0,
              victim,
              get_freefp-chain c.active_mswp f fs free,
              e1,
              e2,
              enlist_pgn_node-chain (p ∷ xs) pgn,
            )
            refl,
        refl,
        refl,
        copied2.same_frames ∙ copied1.same_frames,
        (λ j l. elim (dec_lt f k) [
          | yes below ↦ copied2.below (f * 256 + j) (omega arith) ∙ copied1.copied j (omega arith) l
          | no above ↦
              copied2.above (f * 256 + j) (omega (arith, apart)) ∙ copied1.copied j (omega arith) l
        ]),
        (λ j l. copied2.copied j (omega arith) l),
      )
