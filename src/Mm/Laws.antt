-- ===== src/Mm/Laws.antt =====
-- The look-ups of areas and symbols in src/mm-vm.c, and the list of free regions.
use btlos.Prelude.{
  ℕ, suc, ◌∙◌, sym, inl, inr, Option-cases, ◌+◌, ◌≡◌, ◌≢◌, ◌≤◌, ◌<◌, refl, none, some, List, [],
  ◌∷◌, done, fault, success, failure, Chain, null, node, replicate, arith, length, set, get_elem?,
  get_elem?-none, gt→leb, le→leb,
}
use btlos.Prelude.Int.{pos, negsuc}
use btlos.Mm.{
  behind, Mm, Area, Region, walk_vma, get_vma_by_num, Symbol, symbol, get_symrg_byid, max_symtbl_sz,
  set_symbol, enlist_vm_freerg_list, init_mm, minus_one,
}

walk_vma-none : (rest : List Area) (i : ℕ) → walk_vma rest i ≡ none
unfolding walk_vma
walk_vma-none [] i = refl
walk_vma-none (a ∷ rest) i = walk_vma-none rest (i + 1)

-- Whatever the list of areas is, if it is not empty, `get_vma_by_num` finds the first area for an
-- identifier up to 0 and none for any other.
pub get_vma_by_num_lem :
    (mm : Mm) (a : Area) (rest : List Area) (n : ℕ)
    → mm.mmap ≡ a ∷ rest
    → (get_vma_by_num mm (pos 0) ≡ some 0)
      × (get_vma_by_num mm (negsuc n) ≡ some 0)
      × (get_vma_by_num mm (pos (suc n)) ≡ none)
unfolding get_vma_by_num
get_vma_by_num_lem mm a rest n e =
    (ground (arith, e), ground (arith, e), ground (arith, e, walk_vma-none (a ∷ rest) 0))

-- In a table of 30 symbols `get_symrg_byid` returns the symbol of an index if its region is not
-- empty, and no symbol if it is; it refuses an index that is negative or above 30, and reads behind
-- the table at 30.
pub get_symrg_byid_lem :
    (mm : Mm) (i n : ℕ) (s : Symbol)
    → length mm.symrgtbl ≡ max_symtbl_sz
    → symbol mm (pos i) ≡ some s
    → (s.rg_start ≢ s.rg_end → get_symrg_byid mm (pos i) ≡ done (some s))
      × (s.rg_start ≡ s.rg_end → get_symrg_byid mm (pos i) ≡ done none)
      × (get_symrg_byid mm (negsuc n) ≡ done none)
      × (get_symrg_byid mm (pos (n + 31)) ≡ done none)
      × (get_symrg_byid mm (pos 30) ≡ fault)
unfolding get_symrg_byid
get_symrg_byid_lem mm i n s h e = (
  λ ne. ground (arith, e, ne, h, get_elem?-none mm.symrgtbl i),
  λ same. ground (arith, e, same, h, get_elem?-none mm.symrgtbl i),
  refl,
  ground arith,
  ground (arith, get_elem?-none mm.symrgtbl 30, h),
)

pub get_vma_by_num-first :
    (mm : Mm) (a : Area) (rest : List Area)
    → mm.mmap ≡ a ∷ rest
    → get_vma_by_num mm (pos 0) ≡ some 0
get_vma_by_num-first mm a rest e = (get_vma_by_num_lem mm a rest 0 e).0

pub get_symrg_byid-found :
    (mm : Mm) (i : ℕ) (s : Symbol)
    → i ≤ max_symtbl_sz
    → get_elem? mm.symrgtbl i ≡ some s
    → s.rg_start ≢ s.rg_end
    → get_symrg_byid mm (pos i) ≡ done (some s)
unfolding get_symrg_byid
get_symrg_byid-found mm i s le e ne = ground (arith, e, ne, le)

pub get_symrg_byid-empty :
    (mm : Mm) (i : ℕ) (s : Symbol)
    → i ≤ max_symtbl_sz
    → get_elem? mm.symrgtbl i ≡ some s
    → s.rg_start ≡ s.rg_end
    → get_symrg_byid mm (pos i) ≡ done none
unfolding get_symrg_byid
get_symrg_byid-empty mm i s le e same = ground (arith, e, same, le)

pub get_symrg_byid-out :
    (mm : Mm) (i : ℕ)
    → i ≤ max_symtbl_sz
    → get_elem? mm.symrgtbl i ≡ none
    → get_symrg_byid mm (pos i) ≡ fault
unfolding get_symrg_byid
get_symrg_byid-out mm i le e = ground (arith, e, le)

-- The symbol `i`, with value `s`, gets a region.
abbrev pub with_symbol : Mm → ℕ → Symbol → ℕ → ℕ → Mm
with_symbol mm i s start stop = record mm {
  symrgtbl = set mm.symrgtbl i (record s { rg_start = start; rg_end = stop });
}

pub set_symbol_lem :
    (mm : Mm) (i : ℕ) (s : Symbol) (start stop : ℕ)
    → get_elem? mm.symrgtbl i ≡ some s
    → set_symbol mm (pos i) start stop ≡ done (with_symbol mm i s start stop)
unfolding set_symbol
set_symbol_lem mm i s start stop e = rw e

-- A symbol that is written to is one of the table.
pub set_symbol-found :
    (mm mm' : Mm) (i start stop : ℕ)
    → set_symbol mm (pos i) start stop ≡ done mm'
    → (s : Symbol) × (get_elem? mm.symrgtbl i ≡ some s) × (with_symbol mm i s start stop ≡ mm')
unfolding set_symbol
set_symbol-found mm mm' i start stop e = elim (Option-cases (get_elem? mm.symrgtbl i)) [
  | inl out ↦ cc (rw out at e)
  | inr (s, here) ↦ (s, here, cc (sym (set_symbol_lem mm i s start stop here) ∙ e))
]

abbrev pub with_area : Mm → Area → List Area → Mm
with_area mm a rest = record mm { mmap = a ∷ rest }

-- A region that is neither empty nor reversed goes in front of the list of free regions of the
-- first area; any other is refused, and nothing changes.
pub enlist_vm_freerg_list_lem :
    (mm : Mm) (a : Area) (rest : List Area) (rg : Region) (next : Chain Region)
    → mm.mmap ≡ a ∷ rest
    → (rg.rg_start < rg.rg_end
        → enlist_vm_freerg_list mm rg next
          ≡ done (
            success,
            with_area mm
                (record a { vm_freerg_list = node rg (behind a.vm_freerg_list next) })
                rest,
          ))
      × (rg.rg_end ≤ rg.rg_start → enlist_vm_freerg_list mm rg next ≡ done (failure, mm))
unfolding enlist_vm_freerg_list
enlist_vm_freerg_list_lem mm a rest rg next e = (
  λ h. rw (e, gt→leb {a = rg.rg_end} {b = rg.rg_start} h) refl,
  λ h. rw (e, le→leb {a = rg.rg_end} {b = rg.rg_start} h) refl,
)

pub init_mm_lem :
    (pgd : List ℕ) (freerg : Chain Region) (lru : Chain ℕ)
    → ((init_mm pgd freerg lru).mmap
        ≡ record {
          vm_id = 1;
          vm_start = 0;
          vm_end = 0;
          sbrk = 0;
          vm_freerg_list = node (record { rg_start = 0; rg_end = 0 }) freerg;
        }
          ∷ [])
      × ((init_mm pgd freerg lru).symrgtbl
          ≡ replicate max_symtbl_sz
              (record { rg_start = minus_one; rg_end = minus_one; rg_next = null }))
unfolding init_mm
init_mm_lem pgd freerg lru = (refl, refl)

pub init_mm-kept :
    (pgd : List ℕ) (freerg : Chain Region) (lru : Chain ℕ)
    → ((init_mm pgd freerg lru).pgd ≡ pgd) × ((init_mm pgd freerg lru).lru_pgn ≡ lru)
unfolding init_mm
init_mm-kept pgd freerg lru = (refl, refl)
