-- ===== src/Os.antt =====
-- The threads of src/os.c as they are compiled with MLQ_SCHED and MM_PAGING: one turn of the loop of `cpu_routine`
-- and of `ld_routine`, from one `next_slot` to the next. Within a turn no step of another thread is seen.
pub mod Idle
pub mod Slice
pub mod Finish
pub mod Unique
pub mod Each
pub mod Apart
pub mod Loading
pub mod Memory
mod Tests
use btlos.Prelude.{
  ℕ, zero, suc, ◌+◌, ◌≡◌, ◌<◌, Bool, true, false, Option, none, some, List, [], ◌∷◌, Outcome, done,
  spent, ◌>>=◌, Chain, length, ltb, ◌==◌, if◌then◌else◌,
}
use btlos.Prelude.Int.{ℤ, pos, negsuc, ◌-ℤ◌, is_zero}
use btlos.Memphy.{Memphy}
use btlos.Mm.{Region, Mm, init_mm}
use btlos.Sched.{Mlq, get_mlq_proc, put_mlq_proc}
use btlos.Cpu.{Inst, Pcb, Stat, executed, no_more, exited, run}

-- `struct pcb_t`, less what only obsolete code uses. `mram` and `active_mswp` are the same for all processes.
pub record Process : Type 0 where
  pub pid : ℕ
  pub prio : ℕ
  pub code : List Inst
  pub pc : ℕ
  pub mm : Mm

-- What the threads share: the ready queues, the devices of physical memory, and `done`.
pub record Os : Type 0 where
  pub ready : Mlq Process
  pub mram : Memphy
  pub active_mswp : Memphy
  pub done : Bool

-- The local variables of `cpu_routine`; `none` is the pointer NULL.
pub record Core : Type 0 where
  pub proc : Option Process
  pub time_left : ℤ

-- How a turn of a thread ends: with `next_slot`, with `detach_event`, or with `exit`.
pub data Turned : Type 0 where
  waits detaches exits : Turned

-- `get_proc`, with the fuel of its loop.
pub get_proc : ℕ → Os → Outcome (Option Process × Os)
get_proc fuel os = elim (get_mlq_proc fuel os.ready) [
  | none ↦ spent
  | some r ↦ do (proc, ready) ← r; done (proc, record os { ready = ready })
]

-- `put_proc` and `add_proc`
pub put_proc : Os → Process → Outcome Os
put_proc os p = do ready ← put_mlq_proc (λ q. q.prio) os.ready p; done (record os { ready = ready })

-- What `run` reaches of a process.
abbrev pub pcb : Os → Process → Pcb
pcb os p = record {
  code = p.code;
  pc = p.pc;
  caller = record { mm = p.mm; mram = os.mram; active_mswp = os.active_mswp };
}

-- `run` on a process, with the memory it shares.
pub run_process : ℕ → ℕ → Os → Process → Outcome (Stat × Process × Os)
run_process fuel junk os p = do
  (stat, q) ← run fuel junk (pcb os p)
  done (
    stat,
    record p { pc = q.pc; mm = q.caller.mm },
    record os { mram = q.caller.mram; active_mswp = q.caller.active_mswp },
  )

-- The first branches of the loop body for a CPU that has a process: it keeps the process, or has another
-- from `get_proc`.
unfoldable pub renew : ℕ → Os → Core → Process → Outcome (Core × Os)
renew fuel os core p =
    if p.pc == length p.code
    then (do (next, os1) ← get_proc fuel os; done (record { proc = next; time_left = pos 0 }, os1))
    else if is_zero core.time_left
    then (do
      os1 ← put_proc os p
      (next, os2) ← get_proc fuel os1
      done (record core { proc = next }, os2))
    else done (core, os)

-- The end of the loop body, with a process to run. Where `run` ends the program the rest does not happen.
pub work : ℕ → ℕ → ℤ → Os → ℤ → Process → Outcome (Turned × Core × Os)
work fuel junk time_slot os time_left p = do
  let left = if is_zero time_left then time_slot else time_left
  (stat, q, os1) ← run_process fuel junk os p
  done (
    elim stat [ exited ↦ exits | _ ↦ waits ],
    record { proc = some q; time_left = left -ℤ pos 1 },
    os1,
  )

-- The loop body from the second look at the process on.
pub recheck : ℕ → ℕ → ℤ → Os → Core → Outcome (Turned × Core × Os)
recheck fuel junk time_slot os core = elim core.proc [
  | none ↦ done (if os.done then detaches else waits, core, os)
  | some p ↦ work fuel junk time_slot os core.time_left p
]

-- One turn of `cpu_routine`.
unfoldable pub cpu_slot : ℕ → ℕ → ℤ → Os → Core → Outcome (Turned × Core × Os)
cpu_slot fuel junk time_slot os core = elim core.proc [
  | none ↦ do
    (next, os1) ← get_proc fuel os
    elim next [
      | none ↦ done (waits, core, os1)
      | some p ↦ recheck fuel junk time_slot os1 (record core { proc = some p })
    ]
  | some p ↦ do (core1, os1) ← renew fuel os core p; recheck fuel junk time_slot os1 core1
]

-- A CPU before its first turn.
abbrev pub idle_core : Core
idle_core = record { proc = none; time_left = pos 0 }

-- At most `n` turns of one CPU, as long as it waits.
pub cpu_slots : ℕ → ℕ → ℤ → ℕ → Os → Core → Outcome (Turned × Core × Os)
cpu_slots fuel junk time_slot zero os core = done (waits, core, os)
cpu_slots fuel junk time_slot (suc n) os core = do
  (turned, core1, os1) ← cpu_slot fuel junk time_slot os core
  elim turned [
    | waits ↦ cpu_slots fuel junk time_slot n os1 core1
    | detaches ↦ done (detaches, core1, os1)
    | exits ↦ done (exits, core1, os1)
  ]
