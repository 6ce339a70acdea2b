-- ===== src/Paging/Getpage.antt =====
-- `pg_getpage` of src/mm-vm.c where no page is evicted.
use btlos.Prelude.{
  ℕ, ◌/◌, ◌%◌, ◌^◌, ◌≡◌, ◌<◌, ◌≤◌, refl, ◌∙◌, ap, true, false, none, some, List, ◌∷◌, done, null,
  chain, get_elem?, Bool-cases, inl, inr, ltb, lt→ltb, le→ltb,
}
use btlos.Memphy.Free.{get_freefp-chain, get_freefp-null}
use btlos.Pte.{paging_fpn, page_present, pte_set_fpn, paging_max_pgn}
use btlos.Pte.Laws.{paging_fpn-pte_set_fpn}
use btlos.Lru.{find_victim_page}
use btlos.Lru.Laws.{erase, enlist_pgn_node-chain}
use btlos.Mm.{Caller}
use btlos.Paging.{pg_getpage, use_page, bring_in, evict}

-- The caller after `pgn` is the most recently used page of `xs`.
abbrev pub enlisted : Caller → ℕ → List ℕ → Caller
enlisted c pgn xs = record c { mm = record (c.mm) { lru_pgn = chain (pgn ∷ erase pgn xs) } }

abbrev pub with_frames : Caller → List ℕ → Caller
with_frames c fs = record c { mram = record (c.mram) { free_fp_list = chain fs } }

use_page_lem :
    (c : Caller) (pgn pte : ℕ) (xs : List ℕ)
    → c.mm.lru_pgn ≡ chain xs
    → use_page pgn (some pte, c) ≡ done (some (paging_fpn pte), enlisted c pgn xs)
unfolding use_page
use_page_lem c pgn pte xs e = rw (e, enlist_pgn_node-chain xs pgn)

-- A page below 16384 that is present keeps its entry: the call returns the entry's frame number,
-- and changes the list of recently used pages only, where the page moves to the front.
pub pg_getpage-present :
    (junk : ℕ) (c : Caller) (pgn pte : ℕ) (xs : List ℕ)
    → pgn < paging_max_pgn
    → get_elem? c.mm.pgd pgn ≡ some pte
    → page_present pte ≡ true
    → c.mm.lru_pgn ≡ chain xs
    → pg_getpage junk c pgn ≡ done (some (paging_fpn pte), enlisted c pgn xs)
unfolding pg_getpage
pg_getpage-present junk c pgn pte xs lt entry here lru =
    rw (lt→ltb lt, entry, here) (use_page_lem c pgn pte xs lru)

-- A page that is not present takes the first free frame `f` of RAM, below 2 ^ 13, off the list and
-- becomes the most recently used one. The page table is not changed, so the page is still not
-- present and its next access takes another frame; and the frame number that is returned is bits 8
-- and 9 of `f`.
pub pg_getpage-free_frame :
    (junk : ℕ) (c : Caller) (pgn pte f : ℕ) (fs xs : List ℕ)
    → pgn < paging_max_pgn
    → get_elem? c.mm.pgd pgn ≡ some pte
    → page_present pte ≡ false
    → pte < 2 ^ 32
    → f < 2 ^ 13
    → c.mram.free_fp_list ≡ chain (f ∷ fs)
    → c.mm.lru_pgn ≡ chain xs
    → pg_getpage junk c pgn ≡ done (some (f / 256 % 4), enlisted (with_frames c fs) pgn xs)
unfolding pg_getpage bring_in
pg_getpage-free_frame junk c pgn pte f fs xs lt entry absent small fits free lru =
    rw (lt→ltb lt, entry, absent, get_freefp-chain c.mram f fs free)
      (use_page_lem (with_frames c fs) pgn (pte_set_fpn pte f) xs lru
        ∙ ap (λ n. done (some n, enlisted (with_frames c fs) pgn xs))
            ((paging_fpn-pte_set_fpn pte f small fits).0))

-- For a page that is not present, with no free frame in RAM and no page to evict, the call fails
-- and changes nothing.
pub pg_getpage-no_victim :
    (junk : ℕ) (c : Caller) (pgn pte : ℕ)
    → get_elem? c.mm.pgd pgn ≡ some pte
    → page_present pte ≡ false
    → c.mram.free_fp_list ≡ null
    → c.mm.lru_pgn ≡ null
    → pg_getpage junk c pgn ≡ done (none, c)
unfolding pg_getpage bring_in evict find_victim_page use_page
pg_getpage-no_victim junk c pgn pte entry absent free lru =
    elim (Bool-cases (ltb pgn paging_max_pgn)) [
      | inl inside ↦ rw (inside, entry, absent, get_freefp-null c.mram free, lru) refl
      | inr outside ↦ rw outside
    ]

-- A page number out of range is refused.
pub pg_getpage-refused :
    (junk : ℕ) (c : Caller) (pgn : ℕ)
    → paging_max_pgn ≤ pgn
    → pg_getpage junk c pgn ≡ done (none, c)
unfolding pg_getpage
pg_getpage-refused junk c pgn ge = rw (le→ltb ge)
