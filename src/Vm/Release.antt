-- ===== src/Vm/Release.antt =====
-- `__free` of src/mm-vm.c.
use btlos.Prelude.{
  ℕ, ◌+◌, ◌≡◌, ◌≢◌, ◌<◌, ◌≤◌, refl, none, some, List, ◌∷◌, done, fault, lt→ltb, success, failure,
  node, arith, set, get_elem?, get_elem?-lt, get_elem?-set_self, le→ltb, ne→==,
}
use btlos.Prelude.Int.{pos}
use btlos.Mm.{Mm, Caller, Symbol, Area, minus_one, behind, max_symtbl_sz}
use btlos.Mm.Laws.{
  get_vma_by_num-first, get_symrg_byid-found, get_symrg_byid-empty, get_symrg_byid-out,
  set_symbol_lem, with_symbol, enlist_vm_freerg_list_lem,
}
use btlos.Region.{region}
use btlos.Vm.{free, find_region}

pub find_region-found :
    (mm : Mm) (a : Area) (rest : List Area) (i : ℕ) (s : Symbol)
    → mm.mmap ≡ a ∷ rest
    → i ≤ max_symtbl_sz
    → get_elem? mm.symrgtbl i ≡ some s
    → s.rg_start ≢ s.rg_end
    → find_region mm (pos 0) (pos i) ≡ done (some s)
unfolding find_region
find_region-found mm a rest i s area le e ne =
    rw (get_symrg_byid-found mm i s le e ne, get_vma_by_num-first mm a rest area, ne→== ne) refl

pub find_region-empty :
    (mm : Mm) (i : ℕ) (s : Symbol)
    → i ≤ max_symtbl_sz
    → get_elem? mm.symrgtbl i ≡ some s
    → s.rg_start ≡ s.rg_end
    → find_region mm (pos 0) (pos i) ≡ done none
unfolding find_region
find_region-empty mm i s le e same = rw (get_symrg_byid-empty mm i s le e same) refl

-- The state after symbol `i`, with value `s`, is freed into the first area `a`.
abbrev pub released : Caller → ℕ → Symbol → Area → List Area → Caller
released c i s a rest = record c {
  mm = record (c.mm) {
    symrgtbl = set c.mm.symrgtbl i (record s { rg_start = minus_one; rg_end = minus_one });
    mmap =
        record a {
          vm_freerg_list = node (region s.rg_start s.rg_end) (behind a.vm_freerg_list s.rg_next);
        }
        ∷ rest;
  };
}

pub free-valid :
    (c : Caller) (i : ℕ) (s : Symbol) (a : Area) (rest : List Area)
    → c.mm.mmap ≡ a ∷ rest
    → i ≤ max_symtbl_sz
    → get_elem? c.mm.symrgtbl i ≡ some s
    → s.rg_start < s.rg_end
    → free c (pos 0) (pos i) ≡ done (success, released c i s a rest)
unfolding free
free-valid c i s a rest area lt here ordered =
    rw
      (
        le→ltb {a = max_symtbl_sz} {b = i + 0} (omega arith),
        find_region-found c.mm a rest i s area lt here (omega arith),
        set_symbol_lem c.mm i s minus_one minus_one here,
        (enlist_vm_freerg_list_lem (with_symbol c.mm i s minus_one minus_one) a rest
              (region s.rg_start s.rg_end) s.rg_next area).0
            ordered,
      )
      refl

pub free-empty :
    (c : Caller) (i : ℕ) (s : Symbol)
    → i ≤ max_symtbl_sz
    → get_elem? c.mm.symrgtbl i ≡ some s
    → s.rg_start ≡ s.rg_end
    → free c (pos 0) (pos i) ≡ done (failure, c)
unfolding free
free-empty c i s lt here same =
    rw
      (
        le→ltb {a = max_symtbl_sz} {b = i + 0} (omega arith),
        find_region-empty c.mm i s lt here same,
      )
      refl

pub free-out :
    (c : Caller) (i : ℕ)
    → i ≤ max_symtbl_sz
    → get_elem? c.mm.symrgtbl i ≡ none
    → free c (pos 0) (pos i) ≡ fault
unfolding free find_region
free-out c i le e =
    rw (le→ltb {a = max_symtbl_sz} {b = i + 0} (omega (arith, le)), get_symrg_byid-out c.mm i le e)
      refl

pub free-refused :
    (c : Caller) (i : ℕ) → max_symtbl_sz < i → free c (pos 0) (pos i) ≡ done (failure, c)
unfolding free
free-refused c i lt = rw (lt→ltb {a = max_symtbl_sz} {b = i + 0} (omega (arith, lt))) refl

-- Freeing a symbol with a region that is neither empty nor reversed resets the symbol and puts the
-- region in front of the free list; freeing it again fails and changes nothing.
pub free-twice :
    (c : Caller) (i : ℕ) (s : Symbol) (a : Area) (rest : List Area)
    → c.mm.mmap ≡ a ∷ rest
    → i < max_symtbl_sz
    → get_elem? c.mm.symrgtbl i ≡ some s
    → s.rg_start < s.rg_end
    → (free c (pos 0) (pos i) ≡ done (success, released c i s a rest))
      × (free (released c i s a rest) (pos 0) (pos i) ≡ done (failure, released c i s a rest))
free-twice c i s a rest area lt here ordered = (
  free-valid c i s a rest area (omega (arith, lt)) here ordered,
  free-empty (released c i s a rest) i (record s { rg_start = minus_one; rg_end = minus_one })
      (omega (arith, lt)) (get_elem?-set_self c.mm.symrgtbl i _ (get_elem?-lt c.mm.symrgtbl i here))
      refl,
)

-- Freeing a symbol below 30 whose region is reversed fails, but the symbol is reset and the region
-- is put in no list.
pub free-reversed :
    (c : Caller) (i : ℕ) (s : Symbol) (a : Area) (rest : List Area)
    → c.mm.mmap ≡ a ∷ rest
    → i < max_symtbl_sz
    → get_elem? c.mm.symrgtbl i ≡ some s
    → s.rg_end < s.rg_start
    → free c (pos 0) (pos i)
      ≡ done (failure, record c { mm = with_symbol (c.mm) i s minus_one minus_one })
unfolding free
free-reversed c i s a rest area lt here reversed =
    rw
      (
        le→ltb {a = max_symtbl_sz} {b = i + 0} (omega arith),
        find_region-found c.mm a rest i s area (omega arith) here (omega arith),
        set_symbol_lem c.mm i s minus_one minus_one here,
        (enlist_vm_freerg_list_lem (with_symbol c.mm i s minus_one minus_one) a rest
              (region s.rg_start s.rg_end) s.rg_next area).1
            (omega arith),
      )
      refl
