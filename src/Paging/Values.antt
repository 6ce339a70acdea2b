-- ===== src/Paging/Values.antt =====
-- `pg_setval` and `pg_getval` of src/mm-vm.c: a byte written through one address and read through another.
use btlos.Prelude.{
  ℕ, ◌+◌, ◌*◌, ◌/◌, ◌%◌, ◌^◌, ◌≡◌, ◌<◌, ◌≤◌, refl, sym, ◌∙◌, ap, false, some, List, ◌∷◌, done,
  success, arith, chain, get_elem?, get_elem?-set_self,
}
use btlos.Prelude.Int.{pos, u32}
use btlos.Memphy.{read}
use btlos.Memphy.Access.{IsDevice, written, write-in_range, written-IsDevice, read_lem}
use btlos.Pte.{paging_offst, paging_pgn, page_present}
use btlos.Pte.Laws.{page_offset}
use btlos.Lru.Laws.{erase}
use btlos.Mm.{Caller}
use btlos.Paging.{pg_getpage, pg_getval, pg_setval}
use btlos.Paging.Getpage.{pg_getpage-free_frame, enlisted, with_frames}

u32-small : (addr : ℕ) → addr < 2 ^ 22 → u32 (pos addr) ≡ addr
u32-small addr h = omega arith

pub pg_setval-write :
    (junk : ℕ) (c c' : Caller) (addr v fpn : ℕ)
    → addr < 2 ^ 22
    → pg_getpage junk c (paging_pgn addr) ≡ done (some fpn, c')
    → IsDevice c'.mram
    → fpn * 256 + paging_offst addr < c'.mram.maxsz
    → pg_setval junk c (pos addr) v
      ≡ done (success, record c' { mram = written c'.mram (fpn * 256 + paging_offst addr) v })
unfolding pg_setval
pg_setval-write junk c c' addr v fpn small page dev lt = rw (
  u32-small addr small,
  page,
  u32-small addr small,
  write-in_range c'.mram (fpn * 256 + paging_offst addr) v dev lt,
)

pub pg_getval-read :
    (junk : ℕ) (c c' : Caller) (addr v fpn : ℕ)
    → addr < 2 ^ 22
    → pg_getpage junk c (paging_pgn addr) ≡ done (some fpn, c')
    → read c'.mram (pos (fpn * 256 + paging_offst addr)) ≡ done (some v, c'.mram)
    → pg_getval junk c (pos addr) ≡ done (some v, c')
unfolding pg_getval
pg_getval-read junk c c' addr v fpn small page got =
    rw (u32-small addr small, page, u32-small addr small, got)

-- A byte written at `a` is what is read next at any `b` of the same offset in its page, if neither
-- page is present and the two free frames that are taken, below 2 ^ 13, have equal bits 8 and 9.
-- With `b` equal to `a` that is the round trip; with `b` in another page the two pages share a
-- physical page. Each of the two accesses takes a frame, and the page table stays as it was.
pub pg_setval-pg_getval :
    (junk : ℕ) (c : Caller) (a b v : ℕ) (pte_a pte_b f g : ℕ) (fs xs : List ℕ)
    → a < 2 ^ 22
    → b < 2 ^ 22
    → paging_offst a ≡ paging_offst b
    → get_elem? c.mm.pgd (paging_pgn a) ≡ some pte_a
    → get_elem? c.mm.pgd (paging_pgn b) ≡ some pte_b
    → page_present pte_a ≡ false
    → page_present pte_b ≡ false
    → pte_a < 2 ^ 32
    → pte_b < 2 ^ 32
    → c.mram.free_fp_list ≡ chain (f ∷ g ∷ fs)
    → f < 2 ^ 13
    → g < 2 ^ 13
    → f / 256 % 4 ≡ g / 256 % 4
    → c.mm.lru_pgn ≡ chain xs
    → IsDevice c.mram
    → 1024 ≤ c.mram.maxsz
    → (c1 c2 : Caller) × (pg_setval junk c (pos a) v ≡ done (success, c1))
      × (pg_getval junk c1 (pos b) ≡ done (some v, c2))
      × (c2.mm.pgd ≡ c.mm.pgd)
      × (c2.mram.free_fp_list ≡ chain fs)
pg_setval-pg_getval junk c a b v pte_a pte_b f g fs xs la lb off ea eb na nb sa sb free lf lg same
      lru dev big =
    let page = f / 256 % 4 in
    let phys = page * 256 + paging_offst a in
    let c_a = enlisted (with_frames c (g ∷ fs)) (paging_pgn a) xs in
    let c1 = record c_a { mram = written c_a.mram phys v } in
    let ys = paging_pgn a ∷ erase (paging_pgn a) xs in
    let c2 = enlisted (with_frames c1 fs) (paging_pgn b) ys in
    let dev_a : IsDevice c_a.mram = record { cells = dev.cells; random = dev.random } in
    let kept = written-IsDevice c_a.mram phys v dev_a in
    let dev_2 : IsDevice c2.mram = record { cells = kept.cells; random = kept.random } in
    let taken =
      pg_getpage-free_frame junk c1 (paging_pgn b) pte_b g fs ys (page_offset b lb).1 eb nb sb lg
        refl refl in
    (
      c1,
      c2,
      pg_setval-write junk c c_a a v page la
          (pg_getpage-free_frame junk c (paging_pgn a) pte_a f (g ∷ fs) xs (page_offset a la).1 ea
            na sa lf free lru)
          dev_a (omega (arith, (page_offset a la).2, big)),
      pg_getval-read junk c1 c2 b v page lb (taken ∙ ap (λ n. done (some n, c2)) (sym same)) (
          rw (sym off) (
            read_lem c2.mram (pos phys) dev_2
            ∙ ap (λ o. done (o, c2.mram))
                (get_elem?-set_self c.mram.storage phys v
                  (omega (arith, (page_offset a la).2, big, dev.cells))))),
      refl,
      refl,
    )
