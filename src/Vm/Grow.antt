-- ===== src/Vm/Grow.antt =====
-- `__alloc` of src/mm-vm.c where no free region fits and the limit need not move.
use btlos.Prelude.{
  ℕ, ◌+◌, ◌-◌, ◌^◌, ◌%◌, ◌≡◌, ◌<◌, ◌≤◌, refl, none, some, List, ◌∷◌, done, success, chain, length,
  arith, get_elem?, le→leb,
}
use btlos.Prelude.Int.{pos, to_int, to_int-pos, to_int-u64, u64, ◌+ℤ◌}
use btlos.Mm.{Region, Caller, Symbol, Area, add64}
use btlos.Mm.Laws.{get_vma_by_num-first, set_symbol_lem, with_symbol, with_area}
use btlos.Region.Find.{NoRoom, get_free_vmrg_area-none}
use btlos.Vm.{alloc, pgalloc, grow, claim, sub64}

pub gap_lem : (b e : ℕ) → b ≤ e → e < 2 ^ 31 → to_int (sub64 e b) ≡ pos (e - b)
gap_lem b e le small = ground arith

pub stop_lem : (b n : ℕ) → b + n < 2 ^ 31 → u64 (to_int b +ℤ pos n) ≡ b + n
stop_lem b n h = ground arith

pub moved_lem : (b n : ℕ) → b + n < 2 ^ 31 → add64 b (n % 2 ^ 64) ≡ b + n
moved_lem b n h = omega arith

-- The state after symbol `i`, with value `s`, has got `n` bytes from `sbrk` of the first area `a`.
abbrev pub grown : Caller → ℕ → Symbol → Area → List Area → ℕ → Caller
grown c i s a rest n = record c {
  mm = with_symbol (with_area c.mm (record a { sbrk = a.sbrk + n }) rest) i s a.sbrk (a.sbrk + n);
}

-- Where no free region has room and the limit is below 2 ^ 31, an allocation that fits between
-- `sbrk` and the limit moves `sbrk` up by its size and gives the space to its symbol. It takes no
-- frame, and does not return the address. The free regions are not reversed and below 2 ^ 63, and
-- the search has fuel for one round more than there are.
pub alloc-gap :
    (fuel junk : ℕ) (c : Caller) (i n : ℕ) (s : Symbol) (a : Area) (rest : List Area)
    (xs : List Region)
    → c.mm.mmap ≡ a ∷ rest
    → a.vm_freerg_list ≡ chain xs
    → NoRoom n xs
    → length xs < fuel
    → get_elem? c.mm.symrgtbl i ≡ some s
    → a.vm_end < 2 ^ 31
    → a.sbrk + n ≤ a.vm_end
    → alloc fuel junk c (pos 0) (pos i) (pos n) ≡ done (success, none, grown c i s a rest n)
unfolding alloc grow claim
alloc-gap fuel junk c i n s a rest xs area free none_fits enough here small fits =
    rw
      (
        get_free_vmrg_area-none fuel c.mm a rest n xs area free (omega (arith, fits, small)) enough
            none_fits,
        get_vma_by_num-first c.mm a rest area,
        area,
        gap_lem a.sbrk a.vm_end (omega arith) small,
        le→leb {a = n + 0} {b = a.vm_end - a.sbrk + 0} (omega (arith, fits)),
        to_int-u64 a.sbrk (omega (arith, fits, small)),
        stop_lem a.sbrk n (omega (arith, fits, small)),
        moved_lem a.sbrk n (omega (arith, fits, small)),
        set_symbol_lem (with_area c.mm (record a { sbrk = a.sbrk + n }) rest) i s a.sbrk
            (a.sbrk + n) here,
      )
      refl

-- The same of the function that the instruction calls.
pub pgalloc-gap :
    (fuel junk : ℕ) (c : Caller) (i n : ℕ) (s : Symbol) (a : Area) (rest : List Area)
    (xs : List Region)
    → c.mm.mmap ≡ a ∷ rest
    → a.vm_freerg_list ≡ chain xs
    → NoRoom n xs
    → length xs < fuel
    → get_elem? c.mm.symrgtbl i ≡ some s
    → a.vm_end < 2 ^ 31
    → a.sbrk + n ≤ a.vm_end
    → i < 2 ^ 31
    → pgalloc fuel junk c n i ≡ done (success, grown c i s a rest n)
unfolding pgalloc
pgalloc-gap fuel junk c i n s a rest xs area free none_fits enough here small fits low =
    rw
      (
        to_int-pos i low,
        to_int-pos n (omega (arith, fits, small)),
        alloc-gap fuel junk c i n s a rest xs area free none_fits enough here small fits,
      )
      refl
