-- ===== src/Paging/Keeps.antt =====
-- What the page accesses of src/mm-vm.c leave as it is: the areas and the symbols of the process.
use btlos.Prelude.{
  ℕ, zero, suc, ◌≡◌, refl, ◌∙◌, subst, inl, inr, Option, none, some, Outcome, done, >>=-eq-done,
  deref, Code, get_elem?, Bool-cases, ltb, Option-cases,
}
use btlos.Prelude.Int.{ℤ, pos, u32, ◌+ℤ◌}
use btlos.Pte.{
  page_present, paging_max_pgn, paging_pgn, paging_offst, paging_fpn, paging_swp, paging_pagesz,
}
use btlos.Memphy.{get_freefp, swap_cp_page, read, write}
use btlos.Lru.{enlist_pgn_node, find_victim_page}
use btlos.Mm.{Caller}
use btlos.Paging.{
  evict, bring_in, use_page, pg_getpage, phyaddr, pg_getval, pg_setval, vmap_page_range,
}

-- The tables of two states are the same.
pub record Kept (c c' : Caller) : Type 0 where
  pub areas : c'.mm.mmap ≡ c.mm.mmap
  pub symbols : c'.mm.symrgtbl ≡ c.mm.symrgtbl

pub Kept-trans : (a b c : Caller) → Kept a b → Kept b c → Kept a c
Kept-trans a b c k l = record { areas = l.areas ∙ k.areas; symbols = l.symbols ∙ k.symbols }

-- A result with the tables of `c`.
pub returned-Kept :
    {A : Type 0} (c x c' : Caller) {r r' : A}
    → x.mm.mmap ≡ c.mm.mmap
    → x.mm.symrgtbl ≡ c.mm.symrgtbl
    → Path (Outcome (A × Caller)) (done (r, x)) (done (r', c'))
    → Kept c c'
returned-Kept c x c' e f g =
    let at : x ≡ c' = cc in subst (Kept c) at (record { areas = e; symbols = f })

evict-Kept :
    (junk : ℕ) (c c' : Caller) (pgn pte : ℕ) {r : Option ℕ}
    → evict junk c pgn pte ≡ done (r, c')
    → Kept c c'
unfolding evict
evict-Kept junk c c' pgn pte {r} e =
    let (p, found, e1) = >>=-eq-done (find_victim_page c.mm.lru_pgn) _ e in
    elim (Option-cases p.0) [
      | inl gone ↦
          returned-Kept c (record c { mm = record (c.mm) { lru_pgn = p.1 } }) c' refl refl
            (rw gone at e1)
      | inr (v, here) ↦
          let (vicpte, got, e2) = >>=-eq-done (deref (get_elem? c.mm.pgd v)) _ (rw here at e1) in
          let (q, freed, e3) = >>=-eq-done (get_freefp c.active_mswp) _ e2 in
          elim (Option-cases q.0) [
            | inl full ↦
                returned-Kept c
                  (record c { mm = record (c.mm) { lru_pgn = p.1 }; active_mswp = q.1 }) c' refl
                  refl (rw full at e3)
            | inr (f, there) ↦
                let (m, out, e4) =
                  >>=-eq-done (swap_cp_page junk c.mram (paging_fpn vicpte) (q.1) f) _
                    (rw there at e3) in
                let (m', back, e5) =
                  >>=-eq-done (swap_cp_page junk (m.0) (paging_swp pte) (m.1) (paging_fpn vicpte)) _
                    e4 in
                returned-Kept c _ c' refl refl e5
          ]
    ]

use_page-Kept :
    (pgn : ℕ) (r : Option ℕ) (c c' : Caller) {r' : Option ℕ}
    → use_page pgn (r, c) ≡ done (r', c')
    → Kept c c'
unfolding use_page
use_page-Kept pgn none c c' e = returned-Kept c c c' refl refl e
use_page-Kept pgn (some pte) c c' e =
    let (lru, got, rest) = >>=-eq-done (enlist_pgn_node c.mm.lru_pgn pgn) _ e in
    returned-Kept c (record c { mm = record (c.mm) { lru_pgn = lru } }) c' refl refl rest

bring_in-Kept :
    (junk : ℕ) (c c' : Caller) (pgn pte : ℕ) {r : Option ℕ}
    → bring_in junk c pgn pte ≡ done (r, c')
    → Kept c c'
unfolding bring_in
bring_in-Kept junk c c' pgn pte e =
    let (p, got, e1) = >>=-eq-done (get_freefp c.mram) _ e in
    elim (Option-cases p.0) [
      | inl none_free ↦
          let k = evict-Kept junk (record c { mram = p.1 }) c' pgn pte (rw none_free at e1) in
          record { areas = k.areas; symbols = k.symbols }
      | inr (f, here) ↦ returned-Kept c (record c { mram = p.1 }) c' refl refl (rw here at e1)
    ]

pub pg_getpage-Kept :
    (junk : ℕ) (c c' : Caller) (pgn : ℕ) {r : Option ℕ}
    → pg_getpage junk c pgn ≡ done (r, c')
    → Kept c c'
unfolding pg_getpage
pg_getpage-Kept junk c c' pgn e = elim (Bool-cases (ltb pgn paging_max_pgn)) [
  | inr out ↦ returned-Kept c c c' refl refl (rw out at e)
  | inl inside ↦
      let (pte, got, e1) = >>=-eq-done (deref (get_elem? c.mm.pgd pgn)) _ (rw inside at e) in
      elim (Bool-cases (page_present pte)) [
        | inl present ↦ use_page-Kept pgn (some pte) c c' (rw present at e1)
        | inr away ↦
            let (p, brought, e2) = >>=-eq-done (bring_in junk c pgn pte) _ (rw away at e1) in
            Kept-trans c (p.1) c' (bring_in-Kept junk c (p.1) pgn pte brought)
              (use_page-Kept pgn (p.0) (p.1) c' e2)
      ]
]

pub vmap_page_range-Kept :
    (junk : ℕ) (c c' : Caller) (addr : ℤ) (left : ℕ) {code : Code}
    → vmap_page_range junk c addr left ≡ done (code, c')
    → Kept c c'
unfolding vmap_page_range
vmap_page_range-Kept junk c c' addr zero e = returned-Kept c c c' refl refl e
vmap_page_range-Kept junk c c' addr (suc left) e =
    let (p, got, e1) = >>=-eq-done (pg_getpage junk c (paging_pgn (u32 addr))) _ e in
    let k = pg_getpage-Kept junk c (p.1) (paging_pgn (u32 addr)) got in
    elim (Option-cases p.0) [
      | inl failed ↦
          Kept-trans c (p.1) c' k (returned-Kept (p.1) (p.1) c' refl refl (rw failed at e1))
      | inr (f, here) ↦
          Kept-trans c (p.1) c' k
            (vmap_page_range-Kept junk (p.1) c' (addr +ℤ pos paging_pagesz) left (rw here at e1))
    ]

pub pg_getval-Kept :
    (junk : ℕ) (c c' : Caller) (addr : ℤ) {r : Option ℕ}
    → pg_getval junk c addr ≡ done (r, c')
    → Kept c c'
unfolding pg_getval
pg_getval-Kept junk c c' addr e =
    let (p, got, e1) = >>=-eq-done (pg_getpage junk c (paging_pgn (u32 addr))) _ e in
    let k = pg_getpage-Kept junk c (p.1) (paging_pgn (u32 addr)) got in
    elim (Option-cases p.0) [
      | inl failed ↦
          Kept-trans c (p.1) c' k (returned-Kept (p.1) (p.1) c' refl refl (rw failed at e1))
      | inr (f, here) ↦
          let (q, value, e2) =
            >>=-eq-done (read (p.1.mram) (phyaddr f (paging_offst (u32 addr)))) _ (rw here at e1) in
          Kept-trans c (p.1) c' k
            (returned-Kept (p.1) (record (p.1) { mram = q.1 }) c' refl refl e2)
    ]

pub pg_setval-Kept :
    (junk : ℕ) (c c' : Caller) (addr : ℤ) (v : ℕ) {code : Code}
    → pg_setval junk c addr v ≡ done (code, c')
    → Kept c c'
unfolding pg_setval
pg_setval-Kept junk c c' addr v e =
    let (p, got, e1) = >>=-eq-done (pg_getpage junk c (paging_pgn (u32 addr))) _ e in
    let k = pg_getpage-Kept junk c (p.1) (paging_pgn (u32 addr)) got in
    elim (Option-cases p.0) [
      | inl failed ↦
          Kept-trans c (p.1) c' k (returned-Kept (p.1) (p.1) c' refl refl (rw failed at e1))
      | inr (f, here) ↦
          let (q, wrote, e2) =
            >>=-eq-done (write (p.1.mram) (phyaddr f (paging_offst (u32 addr))) v) _
              (rw here at e1) in
          Kept-trans c (p.1) c' k
            (returned-Kept (p.1) (record (p.1) { mram = q.1 }) c' refl refl e2)
    ]
