-- ===== src/Region.antt =====
-- `get_free_vmrg_area` of src/mm-vm.c: a region of a given size from the list of free regions.
pub mod Rounds
pub mod Fit
pub mod Carve
pub mod Find
pub mod Cover
mod Tests
use btlos.Prelude.{
  ℕ, zero, suc, ◌+◌, ◌^◌, ◌%◌, Bool, Option, none, some, List, Outcome, done, fault, spent, ◌>>=◌,
  deref, Code, success, failure, Chain, null, wild, node, get_elem?, leb, ltb, ◌==◌, if◌then◌else◌,
}
use btlos.Prelude.Int.{ℤ, u64}
use btlos.Mm.{Region, Area, Mm, add64, minus_one, get_vma_by_num, set_area}

abbrev pub region : ℕ → ℕ → Region
region start stop = record { rg_start = start; rg_end = stop }

-- The chosen node when all of its space is used: its successor moves into it, or it is left empty.
unfoldable pub used_up : Region → Chain Region → Outcome (Chain Region)
used_up r null = done (node (region r.rg_end r.rg_end) null)
used_up r wild = fault
used_up r (node next rest) = done (node next rest)

-- The `while` loop with fuel, from the list behind `rgit`: the new region and that list afterwards. It
-- goes on after it has found a region.
unfoldable pub fit_loop : ℕ → ℕ → Region → Chain Region → Outcome (Region × Chain Region)
fit_loop zero size newrg list = spent
fit_loop (suc fuel) size newrg null = done (newrg, null)
fit_loop (suc fuel) size newrg wild = fault
fit_loop (suc fuel) size newrg (node r rest) =
    let stop = add64 r.rg_start size in
    let found = region r.rg_start stop in
    let shrink = fit_loop fuel size found (node (region stop r.rg_end) rest) in
    let remove = (used_up r rest >>= λ list. fit_loop fuel size found list) in
    let pass = (fit_loop fuel size newrg rest >>= λ (rg, list). done (rg, node r list)) in
    if leb stop r.rg_end then (if ltb stop r.rg_end then shrink else remove) else pass

-- The return code is `failure` where no region was found; the third part is the area's new list.
pub fit : ℕ → ℕ → Chain Region → Outcome (Code × Region × Chain Region)
fit fuel size null = done (failure, region minus_one minus_one, null)
fit fuel size list = do
  (rg, list') ← fit_loop fuel size (region minus_one minus_one) list
  done (if rg.rg_start == minus_one then failure else success, rg, list')

pub get_free_vmrg_area : ℕ → Mm → ℤ → ℤ → Outcome (Code × Region × Mm)
get_free_vmrg_area fuel mm vmaid size = elim (get_vma_by_num mm vmaid) [
  | none ↦ done (failure, region minus_one minus_one, mm)
  | some i ↦ do
    a ← deref (get_elem? mm.mmap i)
    (code, rg, list) ← fit fuel (u64 size) a.vm_freerg_list
    done (code, rg, set_area mm i (record a { vm_freerg_list = list }))
]
