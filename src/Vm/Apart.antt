-- ===== src/Vm/Apart.antt =====
-- `__alloc` and `__free` of src/mm-vm.c on all their branches, and the addresses that they hand out.
use btlos.Prelude.{
  ℕ, ◌+◌, ◌^◌, ◌≡◌, ◌≤◌, ◌<◌, refl, sym, subst, ap, ◌∙◌, ◌⊎◌, inl, inr, Option, some, List, [], ◌∷◌,
  Outcome, done, >>=-eq-done, Chain, null, node, chain, arith, get_elem?, Code, failure, Code-cases,
  Option-cases, Bool-cases,
}
use btlos.Prelude.Int.{ℤ, pos, to_int, to_int-u64, u64, leb_ℤ, ◌-ℤ◌}
use btlos.Mm.{Region, Area, Symbol, Mm, Caller, minus_one, set_symbol, add64, behind, max_symtbl_sz}
use btlos.Mm.Laws.{with_area, set_symbol-found, get_vma_by_num-first}
use btlos.Region.{region, get_free_vmrg_area}
use btlos.Region.Cover.{cover, cover-empty, Covered, get_free_vmrg_area-Covered}
use btlos.Paging.Keeps.{vmap_page_range-Kept}
use btlos.Vm.{
  alloc, free, grow, extend, claim, inc_vma_limit, get_vm_area_node_at_brk,
  validate_overlap_vm_area, vm_map_ram, page_alignsz, sub64,
}
use native.Mathlib.Decide.{dec_lt}
use btlos.Vm.Release.{released, free-valid, free-empty, free-out, free-refused}
use btlos.Vm.Grow.{stop_lem, moved_lem}
use btlos.Vm.Owned.{above, Owned, Owned-set, Owned-Kept}

above-split : (x b n : ℕ) → cover x b (b + n) + above x (b + n) ≡ above x b
above-split x b n = ground arith

-- The addresses of the process, with `sbrk` at `limit` at most.
abbrev pub Within : Caller → ℕ → Type 0
Within c limit = (b : Area) × Owned c b × (b.sbrk ≤ limit)

returned-Owned :
    (x c' : Caller) (limit : ℕ) {code code' : Code} {addr addr' : Option ℤ}
    → Within x limit
    → Path (Outcome (Code × Option ℤ × Caller)) (done (code, addr, x)) (done (code', addr', c'))
    → Within c' limit
returned-Owned x c' limit w e = let at : x ≡ c' = cc in subst (λ y. Within y limit) at w

behind-null : (xs : List Region) → behind (chain xs) null ≡ chain xs
behind-null [] = refl
behind-null (x ∷ xs) = refl

module _ (c : Caller) (a : Area) (v : Owned c a) where
  -- `sbrk` moves up, and the symbol gets the space.
  claim-Owned :
      (i n : ℕ) (mm : Mm)
      → a.sbrk + n < 2 ^ 31
      → claim c.mm 0 (pos i) (to_int a.sbrk) (pos n) ≡ done mm
      → Within (record c { mm = mm }) (a.sbrk + n)
  unfolding claim
  claim-Owned i n mm small e =
      let b : Area = record a { sbrk = a.sbrk + n } in
      let e1 : set_symbol (with_area c.mm b []) (pos i) a.sbrk (a.sbrk + n) ≡ done mm =
        rw (v.areas, to_int-u64 a.sbrk v.low, stop_lem a.sbrk n small, moved_lem a.sbrk n small) at
          e in
      let (s, here, is) = set_symbol-found (with_area c.mm b []) mm i a.sbrk (a.sbrk + n) e1 in
      (
        b,
        subst (λ m. Owned (record c { mm = m }) b) is
            (Owned-set c a b i s a.sbrk (a.sbrk + n) v v.free here v.list v.sound small
              (omega arith) (inr (omega (arith, small)))
              (λ x. omega (arith, above-split x a.sbrk n))),
        omega arith,
      )

  moved-Owned :
      (stop : ℕ)
      → Owned
          (record c { mm = with_area c.mm (record a { vm_end = stop }) [] })
          (record a { vm_end = stop })
  moved-Owned stop = record {
    free = v.free;
    areas = refl;
    list = v.list;
    sound = v.sound;
    low = v.low;
    symbols = v.symbols;
    once = v.once;
  }

  -- Only the limit of the area changes, whether or not the pages can be mapped.
  inc_vma_limit-Owned :
      (junk : ℕ) (size : ℤ) (c' : Caller) {code : Code}
      → inc_vma_limit junk c (pos 0) size ≡ done (code, c')
      → (b : Area) × Owned c' b × (b.sbrk ≡ a.sbrk)
  unfolding inc_vma_limit get_vm_area_node_at_brk validate_overlap_vm_area vm_map_ram
  inc_vma_limit-Owned junk size c' e =
      let stop = add64 a.vm_end (u64 size) in
      let (inc_amt, aligned, e1) = >>=-eq-done (page_alignsz size) _ e in
      let k =
        vmap_page_range-Kept junk (record c { mm = with_area c.mm (record a { vm_end = stop }) [] })
          c' _ _ (rw (get_vma_by_num-first c.mm a [] v.areas, v.areas) at e1) in
      (record a { vm_end = stop }, Owned-Kept _ c' _ k (moved-Owned stop), refl)

module _ (c : Caller) (a : Area) (v : Owned c a) where
  extend-Owned :
      (junk i n : ℕ) (gap : ℤ) (c' : Caller) {code : Code} {addr : Option ℤ}
      → a.sbrk + n < 2 ^ 31
      → extend junk c (pos 0) (pos i) (pos n) 0 (to_int a.sbrk) gap ≡ done (code, addr, c')
      → Within c' (a.sbrk + n)
  unfolding extend
  extend-Owned junk i n gap c' {code} {addr} small e =
      let (size, aligned, e0) = >>=-eq-done (page_alignsz (pos n -ℤ gap)) _ e in
      let (p, ran, e1) = >>=-eq-done (inc_vma_limit junk c (pos 0) size) _ e0 in
      let (b, w, same) = inc_vma_limit-Owned c a v junk size (p.1) ran in
      elim (Code-cases p.0) [
        | inr failed ↦
            returned-Owned (p.1) c' (a.sbrk + n) (b, w, omega (arith, same)) (rw failed at e1)
        | inl moved ↦
            let (mm, claimed, e2) =
              >>=-eq-done (claim (p.1.mm) 0 (pos i) (to_int a.sbrk) (pos n)) _ (rw moved at e1) in
            let (b', w', le) =
              claim-Owned (p.1) b w i n mm (omega (arith, small, same)) (rw same claimed) in
            returned-Owned (record (p.1) { mm = mm }) c' (a.sbrk + n)
              (b', w', omega (arith, le, same)) e2
      ]

  grow-Owned :
      (junk i n : ℕ) (c' : Caller) {code : Code} {addr : Option ℤ}
      → a.sbrk + n < 2 ^ 31
      → grow junk c (pos 0) (pos i) (pos n) ≡ done (code, addr, c')
      → Within c' (a.sbrk + n)
  unfolding grow
  grow-Owned junk i n c' small e =
      let gap = to_int (sub64 a.vm_end a.sbrk) in
      let e1 = rw (get_vma_by_num-first c.mm a [] v.areas, ap (λ l. get_elem? l 0) v.areas) at e in
      elim (Bool-cases (leb_ℤ (pos n) gap)) [
        | inr extends ↦ extend-Owned junk i n gap c' small (rw extends at e1)
        | inl inside ↦
            let (mm, claimed, e2) =
              >>=-eq-done (claim c.mm 0 (pos i) (to_int a.sbrk) (pos n)) _ (rw inside at e1) in
            returned-Owned (record c { mm = mm }) c' (a.sbrk + n)
              (claim-Owned c a v i n mm small claimed) e2
      ]

module _ (c : Caller) (a : Area) (v : Owned c a) where
  with_free-Owned :
      (size : ℕ) (small : size < 2 ^ 31) (list : Chain Region) (rg : Region)
      → Covered size small v.free (region minus_one minus_one) rg list
      → Owned
          (record c { mm = with_area c.mm (record a { vm_freerg_list = list }) [] })
          (record a { vm_freerg_list = list })
  with_free-Owned size small list rg f = record {
    free = f.left;
    areas = refl;
    list = f.is;
    sound = f.sound;
    low = v.low;
    symbols = v.symbols;
    once = λ x. omega (arith, f.covers x, v.once x, cover-empty x minus_one);
  }

  -- A free region, or an empty one, goes to a symbol.
  found-Owned :
      (size i : ℕ) (small : size < 2 ^ 31) (list : Chain Region) (rg : Region) (mm : Mm)
      → Covered size small v.free (region minus_one minus_one) rg list
      → set_symbol
          (with_area c.mm (record a { vm_freerg_list = list }) [])
          (pos i)
          rg.rg_start
          rg.rg_end
        ≡ done mm
      → Within (record c { mm = mm }) a.sbrk
  found-Owned size i small list rg mm f e =
      let b : Area = record a { vm_freerg_list = list } in
      let (s, here, is) = set_symbol-found (with_area c.mm b []) mm i rg.rg_start rg.rg_end e in
      let bounds : (rg.rg_start ≤ rg.rg_end) × ((rg.rg_start ≡ rg.rg_end) ⊎ (rg.rg_end < 2 ^ 63)) =
        elim f.found [ inl same ↦ rw same (omega arith, inl refl) | inr (le, lt) ↦ (le, inr lt) ] in
      (
        b,
        subst (λ m. Owned (record c { mm = m }) b) is
            (Owned-set c a b i s rg.rg_start rg.rg_end v f.left here f.is f.sound v.low (bounds.0)
              (bounds.1) (λ x. omega (arith, f.covers x, cover-empty x minus_one))),
        omega arith,
      )

  pub alloc-Owned :
      (fuel junk i n : ℕ) (c' : Caller) {code : Code} {addr : Option ℤ}
      → a.sbrk + n < 2 ^ 31
      → alloc fuel junk c (pos 0) (pos i) (pos n) ≡ done (code, addr, c')
      → Within c' (a.sbrk + n)
  unfolding alloc
  alloc-Owned fuel junk i n c' small e =
      let (p, ran, e1) = >>=-eq-done (get_free_vmrg_area fuel c.mm (pos 0) (pos n)) _ e in
      let (list, is, f) =
        get_free_vmrg_area-Covered n (omega (arith, small)) fuel c.mm (p.2) a v.free v.areas v.list
          v.sound (p.0) (p.1) ran in
      elim (Code-cases p.0) [
        | inl found ↦
            let (mm, wrote, e2) =
              >>=-eq-done (set_symbol (p.2) (pos i) (p.1.rg_start) (p.1.rg_end)) _
                (rw found at e1) in
            let (b, w, le) =
              found-Owned n i (omega (arith, small)) list (p.1) mm f (rw is at wrote) in
            returned-Owned (record c { mm = mm }) c' (a.sbrk + n) (b, w, omega (arith, le)) e2
        | inr failed ↦
            grow-Owned (record c { mm = with_area c.mm (record a { vm_freerg_list = list }) [] })
              (record a { vm_freerg_list = list })
              (with_free-Owned n (omega (arith, small)) list (p.1) f) junk i n c' small
              (rw is at (rw failed at e1))
      ]

  released-Owned :
      (i : ℕ) (s : Symbol)
      → get_elem? c.mm.symrgtbl i ≡ some s
      → s.rg_start < s.rg_end
      → Within (released c i s a []) a.sbrk
  released-Owned i s here ordered =
      let (next, le, bound) = v.symbols i s here in
      let b : Area = record a {
        vm_freerg_list = node (region s.rg_start s.rg_end) (behind a.vm_freerg_list s.rg_next);
      } in
      let list : b.vm_freerg_list ≡ chain (region s.rg_start s.rg_end ∷ v.free) =
        ap (λ l. node (region s.rg_start s.rg_end) (behind l s.rg_next)) v.list
        ∙ ap (λ l. node (region s.rg_start s.rg_end) (behind (chain v.free) l)) next
        ∙ ap (node (region s.rg_start s.rg_end)) (behind-null v.free) in
      let low : s.rg_end < 2 ^ 63 = elim bound [
        | inl same ↦ absurd (omega (arith, same, ordered))
        | inr lt ↦ lt
      ] in
      (
        b,
        Owned-set c a b i s minus_one minus_one v (region s.rg_start s.rg_end ∷ v.free) here list
            (le, low, v.sound) v.low (omega arith) (inl refl)
            (λ x. omega (arith, cover-empty x minus_one)),
        omega arith,
      )

  pub free-Owned :
      (i : ℕ) (c' : Caller) {code : Code}
      → free c (pos 0) (pos i) ≡ done (code, c')
      → Within c' a.sbrk
  free-Owned i c' e = elim (dec_lt max_symtbl_sz i) [
    | yes above_table ↦ kept (free-refused c i above_table)
    | no inside ↦
        let le : i ≤ max_symtbl_sz = omega (arith, inside) in
        elim (Option-cases (get_elem? c.mm.symrgtbl i)) [
          | inl out ↦ cc (sym (free-out c i le out) ∙ e)
          | inr (s, here) ↦ elim (dec_lt s.rg_start s.rg_end) [
            | yes ordered ↦
                let w = released-Owned i s here ordered in
                let at : released c i s a [] ≡ c' =
                  cc (sym (free-valid c i s a [] v.areas le here ordered) ∙ e) in
                subst (λ x. Within x a.sbrk) at w
            | no empty ↦
                kept (free-empty c i s le here (omega (arith, empty, (v.symbols i s here).1)))
          ]
        ]
  ]
    where
      kept : free c (pos 0) (pos i) ≡ done (failure, c) → Within c' a.sbrk
      kept f =
          let at : c ≡ c' = cc (sym f ∙ e) in subst (λ x. Within x a.sbrk) at (a, v, omega arith)
