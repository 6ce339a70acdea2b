-- ===== src/Vm/Unallocated.antt =====
-- `__read`, `__write` and `__free` of src/mm-vm.c on a symbol that has no region.
use btlos.Prelude.{ℕ, ◌+◌, ◌≡◌, ◌<◌, refl, none, some, done, failure, arith, get_elem?, le→ltb}
use btlos.Prelude.Int.{ℤ, pos, to_int, to_int-pos}
use btlos.Mm.{Caller, Symbol, max_symtbl_sz}
use btlos.Vm.{read, write, free, pgfree_data, pgwrite}
use btlos.Vm.Release.{find_region-empty}

-- Reading, writing and freeing through a symbol below 30 without a region all fail, whatever the
-- offset, and change nothing.
pub unallocated :
    (junk : ℕ) (c : Caller) (i v : ℕ) (offset : ℤ) (s : Symbol)
    → i < max_symtbl_sz
    → get_elem? c.mm.symrgtbl i ≡ some s
    → s.rg_start ≡ s.rg_end
    → (read junk c (pos 0) (pos i) offset ≡ done (none, c))
      × (write junk c (pos 0) (pos i) offset v ≡ done (failure, c))
      × (free c (pos 0) (pos i) ≡ done (failure, c))
unfolding read write free
unallocated junk c i v offset s lt here same =
    let e = find_region-empty c.mm i s (omega arith) here same in
    (rw e refl, rw e refl, rw (le→ltb {a = max_symtbl_sz} {b = i + 0} (omega arith), e) refl)

pub pgfree_data-unallocated :
    (c : Caller) (i : ℕ) (s : Symbol)
    → i < max_symtbl_sz
    → get_elem? c.mm.symrgtbl i ≡ some s
    → s.rg_start ≡ s.rg_end
    → pgfree_data c i ≡ done (failure, c)
unfolding pgfree_data
pgfree_data-unallocated c i s lt here same =
    rw (to_int-pos i (omega (arith, lt)), (unallocated 0 c i 0 (pos 0) s lt here same).2) refl

pub pgwrite-unallocated :
    (junk : ℕ) (c : Caller) (i v offset : ℕ) (s : Symbol)
    → i < max_symtbl_sz
    → get_elem? c.mm.symrgtbl i ≡ some s
    → s.rg_start ≡ s.rg_end
    → pgwrite junk c v i offset ≡ done (failure, c)
unfolding pgwrite
pgwrite-unallocated junk c i v offset s lt here same =
    rw (to_int-pos i (omega (arith, lt)), (unallocated junk c i v (to_int offset) s lt here same).1)
      refl
