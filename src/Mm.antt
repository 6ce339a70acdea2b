-- ===== src/Mm.antt =====
-- The data of a process's virtual memory, include/os-mm.h, with the look-ups of src/mm-vm.c and
-- the initialisation of src/mm.c.
pub mod Laws
mod Tests
use btlos.Prelude.{
  ℕ, zero, suc, ◌+◌, ◌-◌, ◌^◌, ◌%◌, Bool, Option, none, some, List, [], ◌∷◌, Outcome, done, fault,
  ◌>>=◌, deref, Code, success, failure, Chain, null, wild, node, get_elem?, set, replicate, leb,
  ◌==◌, if◌then◌else◌, ◌||◌,
}
use btlos.Prelude.Int.{ℤ, pos, negsuc, is_negative, ltb_ℤ, u64, to_int}
use btlos.Memphy.{Memphy}

-- A node of a list of `struct vm_rg_struct`. Addresses are `unsigned long`, below 2 ^ 64.
pub record Region : Type 0 where
  pub rg_start : ℕ
  pub rg_end : ℕ

-- An entry of the symbol table, the same structure with its pointer.
pub record Symbol : Type 0 where
  pub rg_start : ℕ
  pub rg_end : ℕ
  pub rg_next : Chain Region

-- `struct vm_area_struct`, less the pointer back to its owner.
pub record Area : Type 0 where
  pub vm_id : ℕ
  pub vm_start : ℕ
  pub vm_end : ℕ
  pub sbrk : ℕ
  pub vm_freerg_list : Chain Region

-- `struct mm_struct`; `mmap` is the list of areas along `vm_next`.
pub record Mm : Type 0 where
  pub pgd : List ℕ
  pub mmap : List Area
  pub symrgtbl : List Symbol
  pub lru_pgn : Chain ℕ

-- What the functions reach through `caller`: `caller->mm`, `caller->mram`, `caller->active_mswp`. The
-- `mm` that some take as well is always `caller->mm`.
pub record Caller : Type 0 where
  pub mm : Mm
  pub mram : Memphy
  pub active_mswp : Memphy

abbrev pub max_symtbl_sz : ℕ
max_symtbl_sz = 30

-- The value -1 as an `unsigned long`.
abbrev pub minus_one : ℕ
minus_one = 2 ^ 64 - 1

abbrev pub add64 : ℕ → ℕ → ℕ
add64 a b = (a + b) % 2 ^ 64

-- The loop of `get_vma_by_num` while `vmait < vmaid`: `vmait` is never increased, so the walk ends
-- only at the end of the list.
walk_vma : List Area → ℕ → Option ℕ
walk_vma [] i = none
walk_vma (a ∷ rest) i = walk_vma rest (i + 1)

-- A pointer into the list of areas is its position.
pub get_vma_by_num : Mm → ℤ → Option ℕ
unfolding walk_vma
get_vma_by_num mm vmaid = elim mm.mmap [
  | [] ↦ none
  | a ∷ rest ↦ if ltb_ℤ (pos 0) vmaid then walk_vma (a ∷ rest) 0 else some 0
]

-- The bounds of `get_symrg_byid` and `__free`: they let through index 30, behind the table's end.
abbrev pub bad_rgid : ℤ → Bool
bad_rgid rgid = is_negative rgid || ltb_ℤ (pos max_symtbl_sz) rgid

-- `symrgtbl[rgid]`
abbrev pub symbol : Mm → ℤ → Option Symbol
symbol mm (pos i) = get_elem? mm.symrgtbl i
symbol mm (negsuc i) = none

pub get_symrg_byid : Mm → ℤ → Outcome (Option Symbol)
get_symrg_byid mm rgid =
    if bad_rgid rgid
    then done none
    else do s ← deref (symbol mm rgid); done (if s.rg_start == s.rg_end then none else some s)

-- `symrgtbl[rgid].rg_start = start; symrgtbl[rgid].rg_end = end`, which keeps `rg_next`.
pub set_symbol : Mm → ℤ → ℕ → ℕ → Outcome Mm
set_symbol mm rgid start stop = do
  s ← deref (symbol mm rgid)
  elim rgid [
    | negsuc i ↦ fault
    | pos i ↦
        done (record mm {
          symrgtbl = set mm.symrgtbl i (record s { rg_start = start; rg_end = stop });
        })
  ]

abbrev pub set_area : Mm → ℕ → Area → Mm
set_area mm i a = record mm { mmap = set mm.mmap i a }

-- What follows a region that is put in front of a list, whose own `rg_next` is `next`.
abbrev pub behind : Chain Region → Chain Region → Chain Region
behind null next = next
behind wild next = wild
behind (node r rest) next = node r rest

-- `enlist_vm_freerg_list` on the first area, with the region in a node of its own whose `rg_next` is
-- `next`.
pub enlist_vm_freerg_list : Mm → Region → Chain Region → Outcome (Code × Mm)
enlist_vm_freerg_list mm rg next = do
  a ← deref (get_elem? mm.mmap 0)
  let list = node rg (behind a.vm_freerg_list next)
  if leb rg.rg_end rg.rg_start
      then done (failure, mm)
      else done (success, set_area mm 0 (record a { vm_freerg_list = list }))

-- A node of a list of regions, in none yet.
init_vm_rg : ℤ → ℤ → Symbol
init_vm_rg rg_start rg_end = record { rg_start = u64 rg_start; rg_end = u64 rg_end; rg_next = null }

-- The list with the node in front, which loses its own `rg_next`.
enlist_vm_rg_node : Chain Region → Symbol → Chain Region
enlist_vm_rg_node rglist rgnode =
    node (record { rg_start = rgnode.rg_start; rg_end = rgnode.rg_end }) rglist

-- `init_mm`. The page table and the two list heads that it leaves unset hold what `malloc` gives.
pub init_mm : (pgd : List ℕ) → (freerg : Chain Region) → (lru : Chain ℕ) → Mm
unfolding init_vm_rg enlist_vm_rg_node
init_mm pgd freerg lru = record {
  pgd = pgd;
  mmap =
      record {
        vm_id = 1;
        vm_start = 0;
        vm_end = 0;
        sbrk = 0;
        vm_freerg_list = enlist_vm_rg_node freerg (init_vm_rg (to_int 0) (to_int 0));
      }
      ∷ [];
  symrgtbl =
      replicate max_symtbl_sz (record { rg_start = minus_one; rg_end = minus_one; rg_next = null });
  lru_pgn = lru;
}
