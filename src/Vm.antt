-- ===== src/Vm.antt =====
-- The regions of a process in src/mm-vm.c: `__alloc`, `__free`, `__read`, `__write`, what they call, and
-- the functions that the instructions call, with `vm_map_ram` of src/mm.c. What is done in `int` is exact: no
-- sum is taken to overflow, but for `PAGING_PAGE_ALIGNSZ`, whose overflow is a fault. `junk` is the byte in a local variable that is not set.
pub mod Bounds
pub mod Release
pub mod Grow
pub mod Reuse
pub mod Extend
pub mod Collect
pub mod Unallocated
pub mod Owned
pub mod Apart
pub mod Safety
pub mod Calls
pub mod Within
pub mod Tests
use btlos.Prelude.{
  ℕ, zero, suc, ◌+◌, ◌*◌, ◌-◌, ◌^◌, ◌%◌, Bool, Option, none, some, Outcome, done, fault, ◌>>=◌,
  deref, Code, success, failure, get_elem?, ltb, ◌==◌, if◌then◌else◌, ◌||◌,
}
use btlos.Prelude.Int.{ℤ, pos, negsuc, pos_part, sub_ℕ, ◌+ℤ◌, ◌-ℤ◌, quot, leb_ℤ, u64, to_int}
use btlos.Memphy.{put_freefp}
use btlos.Pte.{paging_fpn, paging_swp, page_present, paging_pagesz, paging_max_pgn}
use btlos.Mm.{
  Region, Mm, Caller, Symbol, minus_one, add64, get_vma_by_num, bad_rgid, get_symrg_byid,
  set_symbol, set_area, enlist_vm_freerg_list,
}
use btlos.Region.{region, get_free_vmrg_area}
use btlos.Paging.{pg_getval, pg_setval, vmap_page_range}

-- `n * k` for an `int` n.
abbrev pub scale : ℤ → ℕ → ℤ
scale (pos n) k = pos (n * k)
scale (negsuc n) k = sub_ℕ 0 (suc n * k)

-- `PAGING_PAGE_ALIGNSZ` of an `int`; the sum `sz + PAGING_PAGESZ` must not overflow.
pub page_alignsz : ℤ → Outcome ℤ
page_alignsz sz =
    if leb_ℤ (pos (2 ^ 31)) (sz +ℤ pos paging_pagesz)
    then fault
    else done (scale (quot (sz +ℤ pos paging_pagesz -ℤ pos 1) paging_pagesz) paging_pagesz)

abbrev pub sub64 : ℕ → ℕ → ℕ
sub64 a b = (a + (2 ^ 64 - b)) % 2 ^ 64

-- A loop up to a negative number takes no round. The range of the region is not used.
pub vm_map_ram : ℕ → Caller → (astart aend mapstart incpgnum : ℤ) → Outcome (Code × Caller)
vm_map_ram junk c astart aend mapstart incpgnum =
    vmap_page_range junk c mapstart (pos_part incpgnum)

get_vm_area_node_at_brk : Caller → ℤ → ℤ → Outcome Region
get_vm_area_node_at_brk c vmaid size = do
  i ← deref (get_vma_by_num c.mm vmaid)
  a ← deref (get_elem? c.mm.mmap i)
  done (region a.sbrk (add64 a.sbrk (u64 size)))

validate_overlap_vm_area : Caller → (vmaid vmastart vmaend : ℤ) → Code
validate_overlap_vm_area c vmaid vmastart vmaend = success

-- The limit stays where it is moved, also on failure.
pub inc_vma_limit : ℕ → Caller → ℤ → ℤ → Outcome (Code × Caller)
unfolding get_vm_area_node_at_brk validate_overlap_vm_area
inc_vma_limit junk c vmaid inc_sz = do
  inc_amt ← page_alignsz inc_sz
  let incnumpage = quot inc_amt paging_pagesz
  area ← get_vm_area_node_at_brk c vmaid inc_sz
  i ← deref (get_vma_by_num c.mm vmaid)
  a ← deref (get_elem? c.mm.mmap i)
  let start = to_int area.rg_start
  let stop = to_int area.rg_end
  let c1 = record c { mm = set_area (c.mm) i (record a { vm_end = add64 a.vm_end (u64 inc_sz) }) }
  elim (validate_overlap_vm_area c vmaid start stop) [
    | failure ↦ done (failure, c)
    | success ↦ vm_map_ram junk c1 start stop (to_int a.vm_end) incnumpage
  ]

-- `sbrk` moves up by the size, and the symbol gets the space from where it was.
claim : Mm → ℕ → ℤ → ℤ → ℤ → Outcome Mm
claim mm i rgid old_sbrk size = do
  a ← deref (get_elem? mm.mmap i)
  set_symbol (set_area mm i (record a { sbrk = add64 a.sbrk (u64 size) })) rgid (u64 old_sbrk)
      (u64 (old_sbrk +ℤ size))

-- The end of `__alloc`, where the limit has to be moved by whole pages.
extend : ℕ → Caller → ℤ → ℤ → ℤ → ℕ → ℤ → ℤ → Outcome (Code × Option ℤ × Caller)
extend junk c vmaid rgid size i old_sbrk gap = do
  inc_sz ← page_alignsz (size -ℤ gap)
  (grown, c1) ← inc_vma_limit junk c vmaid inc_sz
  elim grown [
    | failure ↦ done (failure, none, c1)
    | success ↦ do
      mm ← claim c1.mm i rgid old_sbrk size
      done (success, some old_sbrk, record c1 { mm = mm })
  ]

-- `__alloc` from the point where no free region fits. The second part is the value of `*alloc_addr`,
-- which the case of a large enough gap does not set.
grow : ℕ → Caller → ℤ → ℤ → ℤ → Outcome (Code × Option ℤ × Caller)
grow junk c vmaid rgid size = do
  i ← deref (get_vma_by_num c.mm vmaid)
  a ← deref (get_elem? c.mm.mmap i)
  let gap = to_int (sub64 a.vm_end a.sbrk)
  if leb_ℤ size gap
      then (do
        mm ← claim c.mm i rgid (to_int a.sbrk) size
        done (success, none, record c { mm = mm }))
      else extend junk c vmaid rgid size i (to_int a.sbrk) gap

-- `fuel` is for the loop of `get_free_vmrg_area`.
pub alloc : ℕ → ℕ → Caller → ℤ → ℤ → ℤ → Outcome (Code × Option ℤ × Caller)
alloc fuel junk c vmaid rgid size = do
  (found, rg, mm) ← get_free_vmrg_area fuel c.mm vmaid size
  elim found [
    | success ↦ do
      mm' ← set_symbol mm rgid rg.rg_start rg.rg_end
      done (success, some (to_int rg.rg_start), record c { mm = mm' })
    | failure ↦ grow junk (record c { mm = mm }) vmaid rgid size
  ]

-- The test that `__free`, `__read` and `__write` share; `none` is their first error.
pub find_region : Mm → ℤ → ℤ → Outcome (Option Symbol)
find_region mm vmaid rgid = do
  currg ← get_symrg_byid mm rgid
  done (elim currg [
    | none ↦ none
    | some s ↦ elim (get_vma_by_num mm vmaid) [
      | none ↦ none
      | some i ↦ if s.rg_start == s.rg_end then none else some s
    ]
  ])

pub free : Caller → ℤ → ℤ → Outcome (Code × Caller)
free c vmaid rgid = if bad_rgid rgid then done (failure, c) else do
  currg ← find_region c.mm vmaid rgid
  elim currg [
    | none ↦ done (failure, c)
    | some s ↦ do
      mm ← set_symbol c.mm rgid minus_one minus_one
      (code, mm') ← enlist_vm_freerg_list mm (region s.rg_start s.rg_end) s.rg_next
      done (code, record c { mm = mm' })
  ]

-- The second test of `__read` and `__write`.
pub out_of_region : Symbol → ℤ → Bool
out_of_region s offset =
    let addr = add64 s.rg_start (u64 offset) in ltb addr s.rg_start || ltb s.rg_end addr

pub read : ℕ → Caller → ℤ → ℤ → ℤ → Outcome (Option ℕ × Caller)
read junk c vmaid rgid offset = do
  currg ← find_region c.mm vmaid rgid
  elim currg [
    | none ↦ done (none, c)
    | some s ↦
        if out_of_region s offset
        then done (none, c)
        else pg_getval junk c (to_int (add64 s.rg_start (u64 offset)))
  ]

pub write : ℕ → Caller → ℤ → ℤ → ℤ → ℕ → Outcome (Code × Caller)
write junk c vmaid rgid offset value = do
  currg ← find_region c.mm vmaid rgid
  elim currg [
    | none ↦ done (failure, c)
    | some s ↦
        if out_of_region s offset
        then done (failure, c)
        else pg_setval junk c (to_int (add64 s.rg_start (u64 offset))) value
  ]

-- What the instructions call. The arguments are of type `uint32_t`.
pub pgalloc : ℕ → ℕ → Caller → ℕ → ℕ → Outcome (Code × Caller)
pgalloc fuel junk c size reg_index = do
  (code, alloc_addr, c1) ← alloc fuel junk c (pos 0) (to_int reg_index) (to_int size)
  done (code, c1)

pub pgfree_data : Caller → ℕ → Outcome (Code × Caller)
pgfree_data c reg_index = free c (pos 0) (to_int reg_index)

pub pgwrite : ℕ → Caller → ℕ → ℕ → ℕ → Outcome (Code × Caller)
pgwrite junk c value destination offset =
    write junk c (pos 0) (to_int destination) (to_int offset) value

-- The value that is read is written to the region `destination`, also when there is none; whether that
-- succeeds is not reported.
pub pgread : ℕ → Caller → ℕ → ℕ → ℕ → Outcome (Code × Caller)
pgread junk c source offset destination = do
  (got, c1) ← read junk c (pos 0) (to_int source) (to_int offset)
  let (val, value) : Code × ℕ = elim got [ none ↦ (failure, junk) | some v ↦ (success, v) ]
  (stored, c2) ← pgwrite junk c1 value destination 0
  done (val, c2)

-- The loop of `free_pcb_memph`, with `left` pages to go.
free_pages : ℕ → ℕ → Caller → Outcome Caller
free_pages zero pagenum c = done c
free_pages (suc left) pagenum c = do
  pte ← deref (get_elem? c.mm.pgd pagenum)
  free_pages left (pagenum + 1) (
      if page_present pte
      then record c { active_mswp = put_freefp c.active_mswp (paging_swp pte) }
      else record c { mram = put_freefp c.mram (paging_fpn pte) })

pub free_pcb_memph : Caller → Outcome (Code × Caller)
unfolding free_pages
free_pcb_memph c = do c1 ← free_pages paging_max_pgn 0 c; done (success, c1)
