-- ===== src/Vm/Collect.antt =====
-- Where `free_pcb_memph` of src/mm-vm.c puts the frames of a process.
use btlos.Prelude.{
  ℕ, suc, ◌+◌, ◌≡◌, refl, sym, ap, ◌∙◌, Bool, not, some, List, [], ◌∷◌, done, ◌>>=◌, success, Chain,
  node, arith, length, get_elem?, if◌then◌else◌, Bool-cases, inl, inr,
}
use btlos.Memphy.Free.{put_freefp_lem}
use btlos.Pte.{paging_fpn, paging_swp, page_present, paging_max_pgn}
use btlos.Mm.{Caller}
use btlos.Vm.{free_pages, free_pcb_memph}

-- The numbers that `number` gives for the entries that are `chosen`, put in front of a list one after
-- the other.
pub put_back : (chosen : ℕ → Bool) (number : ℕ → ℕ) → List ℕ → Chain ℕ → Chain ℕ
put_back chosen number [] list = list
put_back chosen number (pte ∷ ptes) list =
    put_back chosen number ptes (if chosen pte then node (number pte) list else list)

abbrev pub collected : Caller → List ℕ → Caller
collected c ptes = record c {
  mram = record (c.mram) {
    free_fp_list = put_back (λ pte. not (page_present pte)) paging_fpn ptes c.mram.free_fp_list;
  };
  active_mswp = record (c.active_mswp) {
    free_fp_list = put_back page_present paging_swp ptes c.active_mswp.free_fp_list;
  };
}

free_pages-collected :
    (c : Caller) (k : ℕ) (ptes : List ℕ)
    → ((j : ℕ) → get_elem? c.mm.pgd (k + j) ≡ get_elem? ptes j)
    → free_pages (length ptes) k c ≡ done (collected c ptes)
unfolding free_pages put_back
free_pages-collected c k [] at = refl
free_pages-collected c k (pte ∷ ptes) at =
    let first : get_elem? c.mm.pgd k ≡ some pte = ap (get_elem? c.mm.pgd) (omega arith) ∙ at 0 in
    let next : (j : ℕ) → get_elem? c.mm.pgd (k + 1 + j) ≡ get_elem? ptes j =
      λ j. ap (get_elem? c.mm.pgd) (omega arith) ∙ at (suc j) in
    elim (Bool-cases (page_present pte)) [
      | inl here ↦
          rw (first, here, put_freefp_lem c.active_mswp (paging_swp pte))
            (free_pages-collected
              (record c {
                active_mswp = record (c.active_mswp) {
                  free_fp_list = node (paging_swp pte) c.active_mswp.free_fp_list;
                };
              })
              (k + 1) ptes next)
      | inr absent ↦
          rw (first, absent, put_freefp_lem c.mram (paging_fpn pte))
            (free_pages-collected
              (record c {
                mram = record (c.mram) { free_fp_list = node (paging_fpn pte) c.mram.free_fp_list };
              })
              (k + 1) ptes next)
    ]

free_pages-all :
    (c : Caller) (n : ℕ) → length c.mm.pgd ≡ n → free_pages n 0 c ≡ done (collected c c.mm.pgd)
free_pages-all c n e =
    rw (sym e) (free_pages-collected c 0 c.mm.pgd (λ j. ap (get_elem? c.mm.pgd) (omega arith)))

-- For a page table of 16384 entries `free_pcb_memph` succeeds; the pages that are not present give
-- back the frame numbers of their entries to RAM, and those that are present give back a frame of
-- swap.
pub free_pcb_memph-collected :
    (c : Caller)
    → length c.mm.pgd ≡ paging_max_pgn
    → free_pcb_memph c ≡ done (success, collected c c.mm.pgd)
unfolding free_pcb_memph
free_pcb_memph-collected c size =
    ap (λ o. o >>= λ c1. done (success, c1)) (free_pages-all c paging_max_pgn size)
