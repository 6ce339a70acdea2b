-- ===== src/Vm/Tests.antt =====
-- Allocations and accesses in a process with one symbol of 100 bytes at address 0.
use btlos.Prelude.{
  zero, suc, chain, ℕ, ◌+◌, ◌*◌, ◌≡◌, ◌<◌, ◌≤◌, refl, sym, of_some, inl, inr, true, false, none,
  some, [], ◌∷◌, done, success, failure, null, node, arith, get_elem?, replicate, length-replicate,
}
use btlos.Prelude.Int.{pos, negsuc}
use btlos.Memphy.{Memphy}
use btlos.Mm.{Region, Caller, Symbol, Area, minus_one, init_mm}
use btlos.Vm.{alloc, free, out_of_region, free_pcb_memph}
use btlos.Region.Cover.{cover, cover-empty}
use btlos.Region.Find.{NoRoom}
use btlos.Vm.Owned.{Owned, Fine, above}
use btlos.Vm.Safety.{
  allocs, fresh, unused-replicate, owners-unused, first_area, init_mm-Owned, symbols-apart,
}
use btlos.Vm.Bounds.{out_of_region_lem}
use btlos.Vm.Release.{released, free-twice}
use btlos.Vm.Grow.{grown, alloc-gap}
use btlos.Paging.Range.{AllOffline, none_left, one_more}
use btlos.Pte.{page_present}
use btlos.Vm.Extend.{alloc-extend}
use btlos.Vm.Reuse.{alloc-free}
use btlos.Vm.Collect.{collected, free_pcb_memph-collected}

abbrev ram : Memphy
ram = record {
  storage = [];
  maxsz = 0;
  rdmflg = true;
  cursor = 0;
  free_fp_list = null;
  used_fp_list = null;
}

-- The free list is the empty region that `init_mm` leaves.
abbrev pub nothing : Region
nothing = record { rg_start = 0; rg_end = 0 }

abbrev pub area : Area
area = record {
  vm_id = 1;
  vm_start = 0;
  vm_end = 256;
  sbrk = 100;
  vm_freerg_list = node nothing null;
}

pub full : (n : ℕ) → 0 < n → NoRoom n (nothing ∷ [])
full n some_bytes = (omega arith, omega arith, omega (arith, some_bytes), tt)

abbrev pub hundred : Symbol
hundred = record { rg_start = 0; rg_end = 100; rg_next = null }

abbrev pub unset : Symbol
unset = record { rg_start = minus_one; rg_end = minus_one; rg_next = null }

abbrev reversed : Symbol
reversed = record { rg_start = 100; rg_end = 0; rg_next = null }

-- A process with the symbol 0 as given, and no other.
abbrev pub process : Symbol → Caller
process s = record {
  mm = record {
    pgd = replicate 16384 0;
    mmap = area ∷ [];
    symrgtbl = s ∷ replicate 29 unset;
    lru_pgn = null;
  };
  mram = ram;
  active_mswp = ram;
}

free-twice_example :
    (free (process hundred) (pos 0) (pos 0)
      ≡ done (success, released (process hundred) 0 hundred area []))
    × (free (released (process hundred) 0 hundred area []) (pos 0) (pos 0)
        ≡ done (failure, released (process hundred) 0 hundred area []))
free-twice_example =
    free-twice (process hundred) 0 hundred area [] refl (omega arith) refl (omega arith)

alloc-gap_example :
    alloc 5 0 (process hundred) (pos 0) (pos 1) (pos 50)
    ≡ done (success, none, grown (process hundred) 1 unset area [] 50)
alloc-gap_example =
    alloc-gap 5 0 (process hundred) 1 50 unset area [] (nothing ∷ []) refl refl
      (full 50 (omega arith)) (omega arith) refl (omega arith) (omega arith)

alloc-free_example :
    (c1 c2 : Caller) × (free (process hundred) (pos 0) (pos 0) ≡ done (success, c1))
    × (alloc 4 0 c1 (pos 0) (pos 0) (pos 100) ≡ done (success, some (pos 0), c2))
    × (get_elem? c2.mm.symrgtbl 0 ≡ some hundred)
    × (c2.mm.mmap ≡ area ∷ [])
alloc-free_example =
    alloc-free 3 0 (process hundred) 0 0 99 area [] nothing [] refl refl (full 100 (omega arith))
      (omega arith) (omega arith) refl (omega arith)

out_of_region_lem_example :
    (0 + 100 ≤ 100 → out_of_region hundred (pos 100) ≡ false)
    × (100 < 0 + 100 → out_of_region hundred (pos 100) ≡ true)
    × (101 ≤ 0 → out_of_region hundred (negsuc 100) ≡ true)
    × (0 < 101 → out_of_region hundred (negsuc 100) ≡ true)
out_of_region_lem_example = out_of_region_lem hundred 100 (omega arith) (omega arith) (omega arith)

free_pcb_memph-collected_example :
    free_pcb_memph (process hundred)
    ≡ done (success, collected (process hundred) (replicate 16384 0))
free_pcb_memph-collected_example =
    free_pcb_memph-collected (process hundred) (length-replicate {A = ℕ} 16384 0)

entry : (n i : ℕ) → i < n → get_elem? {A = ℕ} (replicate n 0) i ≡ some 0
entry zero i lt = absurd (omega (arith, lt))
entry (suc n) zero lt = refl
entry (suc n) (suc i) lt = entry n i (omega (arith, lt))

zero-absent : page_present 0 ≡ false
unfolding page_present
zero-absent = refl

pub blank : AllOffline (replicate 16384 0)
blank = record { offline = λ pgn lt. (0, entry 16384 pgn lt, zero-absent, omega arith) }

-- The process with two free frames more than it needs.
abbrev roomy : Caller
roomy = record (process hundred) { mram = record ram { free_fp_list = chain (1 ∷ 2 ∷ 3 ∷ 4 ∷ []) } }

alloc-extend_example :
    (c' : Caller) × (alloc 9 0 roomy (pos 0) (pos 1) (pos 500) ≡ done (success, some (pos 100), c'))
    × (c'.mm.mmap ≡ record area { vm_end = 256 + 2 * 256; sbrk = 100 + 500 } ∷ [])
    × (get_elem? c'.mm.symrgtbl 1 ≡ some (record unset { rg_start = 100; rg_end = 100 + 500 }))
    × (c'.mm.symrgtbl
        ≡ hundred ∷ record unset { rg_start = 100; rg_end = 100 + 500 } ∷ replicate 28 unset)
    × (c'.mram.free_fp_list ≡ chain (3 ∷ 4 ∷ []))
    × (c'.mm.pgd ≡ replicate 16384 0)
alloc-extend_example =
    alloc-extend 9 0 roomy 1 500 unset area [] (nothing ∷ []) (1 ∷ 2 ∷ []) (3 ∷ 4 ∷ []) [] refl refl
      (full 500 (omega arith)) (omega arith) refl (omega arith) (omega arith) refl (omega arith)
      blank (one_more 1 (2 ∷ []) (omega arith) (one_more 2 [] (omega arith) none_left)) refl refl

hundred-Fine : (i : ℕ) (s : Symbol) → get_elem? (process hundred).mm.symrgtbl i ≡ some s → Fine s
hundred-Fine zero s e = rw (sym (of_some e)) (refl, omega arith, inr (omega arith))
hundred-Fine (suc i) s e = rw (unused-replicate 29 i s e) (refl, omega arith, inl refl)

pub hundred-Owned : Owned (process hundred) area
hundred-Owned = record {
  free = nothing ∷ [];
  areas = refl;
  list = refl;
  sound = (omega arith, omega arith, tt);
  low = omega arith;
  symbols = hundred-Fine;
  once = λ x. rw (owners-unused x 29) (omega (arith, below_or_above x, cover-empty x 0));
}
  where
    below_or_above : (x : ℕ) → cover x 0 100 + 0 + 0 + above x 100 ≤ 1
    below_or_above x = ground arith

-- Symbol 1 is allocated behind symbol 0.
symbols-apart_example : ¬ ((0 ≤ 99) × (99 < 100) × (100 ≤ 99) × (99 < 150))
symbols-apart_example =
    symbols-apart (process hundred) (grown (process hundred) 1 unset area [] 50) area hundred-Owned
      (allocs area 5 0 1 50 fresh refl (omega arith) (
        alloc-gap 5 0 (process hundred) 1 50 unset area [] (nothing ∷ []) refl refl
          (full 50 (omega arith)) (omega arith) refl (omega arith) (omega arith)))
      0 1 hundred (record { rg_start = 100; rg_end = 150; rg_next = null }) (omega arith) refl refl
      99

init_mm-Owned_example : Owned (record (process hundred) { mm = init_mm [] null null }) first_area
init_mm-Owned_example =
    init_mm-Owned (record (process hundred) { mm = init_mm [] null null }) [] null refl
