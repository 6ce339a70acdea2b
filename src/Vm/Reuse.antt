-- ===== src/Vm/Reuse.antt =====
-- A region that is freed and allocated again: `__free` and `__alloc` of src/mm-vm.c.
use btlos.Prelude.{
  ℕ, suc, ◌+◌, ◌^◌, ◌≡◌, ◌<◌, refl, some, List, ◌∷◌, done, success, null, node, chain, length, ap,
  sym, arith, get_elem?, get_elem?-lt, get_elem?-set_self, length-set,
}
use btlos.Prelude.Int.{pos, to_int-pos}
use btlos.Mm.{Region, Caller, Symbol, Area, behind, minus_one, max_symtbl_sz}
use btlos.Mm.Laws.{set_symbol_lem, with_symbol, with_area}
use btlos.Region.{region}
use btlos.Region.Find.{NoRoom, get_free_vmrg_area-exact}
use btlos.Vm.{alloc, free}
use btlos.Vm.Release.{free-valid, released}

abbrev used : Symbol → ℕ → ℕ → Symbol
used s b e = record s { rg_start = b; rg_end = e }

-- Where no other free region has room for it, a symbol of `n + 1` bytes at `b`, below 2 ^ 31, that
-- is freed and allocated again with the same size gets the same region back, and `b` is returned;
-- the area with its list of free regions is then as it was before. That list has one region or
-- more, as `init_mm` leaves it, none reversed and all below 2 ^ 63, and the search has fuel for one
-- round more than there are regions after `__free`.
pub alloc-free :
    (fuel junk : ℕ) (c : Caller) (i b n : ℕ) (a : Area) (rest : List Area) (r : Region)
    (xs : List Region)
    → let s : Symbol = record { rg_start = b; rg_end = b + suc n; rg_next = null } in
      c.mm.mmap ≡ a ∷ rest
      → a.vm_freerg_list ≡ chain (r ∷ xs)
      → NoRoom (suc n) (r ∷ xs)
      → length (r ∷ xs) < fuel
      → i < max_symtbl_sz
      → get_elem? c.mm.symrgtbl i ≡ some s
      → b + suc n < 2 ^ 31
      → (c1 c2 : Caller) × (free c (pos 0) (pos i) ≡ done (success, c1))
        × (alloc (suc fuel) junk c1 (pos 0) (pos i) (pos (suc n))
            ≡ done (success, some (pos b), c2))
        × (get_elem? c2.mm.symrgtbl i ≡ some s)
        × (c2.mm.mmap ≡ a ∷ rest)
unfolding alloc
alloc-free fuel junk c i b n a rest r xs area others none_fits enough lt here small =
    let s : Symbol = record { rg_start = b; rg_end = b + suc n; rg_next = null } in
    let gone : Symbol = record s { rg_start = minus_one; rg_end = minus_one } in
    let c1 = released c i s a rest in
    let a1 : Area = record a {
      vm_freerg_list = node (region b (b + suc n)) (behind a.vm_freerg_list null);
    } in
    let a2 : Area = record a { vm_freerg_list = chain (r ∷ xs) } in
    let c2 = record c1 { mm = with_symbol (with_area c1.mm a2 rest) i gone b (b + suc n) } in
    let there = get_elem?-lt c.mm.symrgtbl i here in
    let empty = get_elem?-set_self c.mm.symrgtbl i gone there in
    (
      c1,
      c2,
      free-valid c i s a rest area (omega (arith, lt)) here (omega arith),
      rw
          (
            get_free_vmrg_area-exact fuel c1.mm a1 rest b n r xs refl
                (ap (λ l. node (region b (b + suc n)) (behind l null)) others) small enough
                none_fits,
            set_symbol_lem (with_area c1.mm a2 rest) i gone b (b + suc n) empty,
            to_int-pos b (omega arith),
          )
          refl,
      get_elem?-set_self c1.mm.symrgtbl i s (omega (arith, length-set c.mm.symrgtbl i gone, there)),
      ap (λ l. record a { vm_freerg_list = l } ∷ rest) (sym others),
    )
