-- ===== src/Os/Memory.antt =====
-- The processes of src/os.c whose requests for memory fit, whatever devices of physical memory they share.
use btlos.Prelude.{
  ℕ, ◌≡◌, ◌≢◌, ◌≤◌, ◌<◌, refl, sym, ap, subst, some, done, >>=-eq-done, get_elem?, arith, ◌+◌, ◌^◌,
  null,
}
use btlos.Memphy.{Memphy}
use btlos.Mm.{Symbol, Caller, init_mm}
use btlos.Vm.Owned.{Owned-Kept}
use btlos.Vm.Safety.{fresh, first_area, init_mm-Owned, symbols-apart}
use btlos.Cpu.{Stat, run}
use btlos.Cpu.Fit.{asks, Small, Fit, run-Fit}
use btlos.Loader.{Loaded}
use btlos.Os.{Process, Os, pcb, run_process}
use btlos.Os.Loading.{Garbage, process_of}

abbrev caller_of : Process → Memphy → Memphy → Caller
caller_of p mram mswp = record { mm = p.mm; mram = mram; active_mswp = mswp }

-- Each address belongs to one symbol at most, and there is room for what the rest of the program asks for.
abbrev pub FitProcess : Process → Type 0
FitProcess p =
    (mram mswp : Memphy) → Fit (record { code = p.code; pc = p.pc; caller = caller_of p mram mswp })

pub run_process-FitProcess :
    (fuel junk : ℕ) (os os' : Os) (p q : Process) (stat : Stat)
    → FitProcess p
    → run_process fuel junk os p ≡ done (stat, q, os')
    → FitProcess q × (os'.ready ≡ os.ready)
unfolding run_process
run_process-FitProcess fuel junk os os' p q stat h e =
    let (r, did, e1) = >>=-eq-done (run fuel junk (pcb os p)) _ e in
    let (v, same) = run-Fit fuel junk (pcb os p) (r.1) (h os.mram os.active_mswp) did in
    let q_is : record p { pc = r.1.pc; mm = r.1.caller.mm } ≡ q = cc e1 in
    let os_is : record os { mram = r.1.caller.mram; active_mswp = r.1.caller.active_mswp } ≡ os' =
      cc e1 in
    (
      subst FitProcess q_is (λ mram mswp. record {
        small = subst Small same v.small;
        area = v.area;
        owned =
            Owned-Kept (r.1.caller) (record { mm = r.1.caller.mm; mram = mram; active_mswp = mswp })
              v.area (record { areas = refl; symbols = refl }) v.owned;
        room = subst (λ l. v.area.sbrk + asks (r.1.pc) l < 2 ^ 31) same v.room;
      }),
      ap (λ (x : Os). x.ready) (sym os_is),
    )

-- What is loaded asks for less than 2 ^ 31 bytes in all, and its numbers are not negative as an `int`.
pub record FitLoaded (p : Loaded) : Type 0 where
  pub small : Small p.code
  pub room : asks p.pc p.code < 2 ^ 31

pub process_of-FitProcess :
    (g : Garbage) (prio : ℕ) (p : Loaded)
    → g.freerg ≡ null
    → FitLoaded p
    → FitProcess (process_of g prio p)
process_of-FitProcess g prio p none_free v mram mswp = record {
  small = v.small;
  area = first_area;
  owned =
      init_mm-Owned (caller_of (process_of g prio p) mram mswp) g.pgd g.lru
        (ap (λ l. init_mm g.pgd l g.lru) none_free);
  room = omega (arith, v.room);
}

pub FitProcess-apart :
    (p : Process)
    → FitProcess p
    → (mram : Memphy) (i j : ℕ) (s t : Symbol) → i ≢ j
    → get_elem? p.mm.symrgtbl i ≡ some s
    → get_elem? p.mm.symrgtbl j ≡ some t
    → (x : ℕ) → ¬ ((s.rg_start ≤ x) × (x < s.rg_end) × (t.rg_start ≤ x) × (x < t.rg_end))
FitProcess-apart p h mram =
    let v = h mram mram in
    symbols-apart (caller_of p mram mram) (caller_of p mram mram) v.area v.owned fresh
