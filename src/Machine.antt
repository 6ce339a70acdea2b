-- ===== src/Machine.antt =====
-- The whole program of src/os.c while it runs: the threads of the CPUs and of the loader, whose turns overlap, with
-- the clock of src/timer.c that they are devices of. A step of a CPU is the part of its turn from one access to
-- what the threads share to the next.
mod Tests
pub mod Once
pub mod Memory
pub mod Each
pub mod Main
pub mod Lockstep
pub mod Turn
pub mod Apart
use btlos.Prelude.{
  ℕ, ◌-◌, ◌≡◌, Bool, false, Option, none, some, List, Outcome, done, ◌>>=◌, length, get_elem?, set,
  ◌==◌, if◌then◌else◌,
}
use btlos.Prelude.Int.{ℤ, pos, is_zero}
use btlos.Timer.{
  Stage, working, waiting, Device, Timer, current_time, next_slot, leave_slot, detach_event,
  timer_routine, with_device,
}
use btlos.Loader.{Word}
use btlos.Os.{Process, Os, Core, Turned, waits, detaches, exits, get_proc, put_proc, recheck}
use btlos.Os.Loading.{Job, Ld, Garbage, ld_slot}

-- Where a CPU is in the body of its loop: at its head, between `put_proc` and `get_proc`, or at the second
-- look at its process.
pub data Place : Type 0 where
  head taking checking : Place

-- How a step ends: further on in the turn, or with the turn.
pub data Moved : Type 0 where
  goes_on : Place → Moved
  turned : Turned → Moved

-- The body of the loop of `cpu_routine` up to the next access to what is shared, from its head.
head_step : ℕ → Os → Core → Option Process → Outcome (Moved × Core × Os)
head_step fuel os core none = do
  (next, os1) ← get_proc fuel os
  done (elim next [
    | none ↦ (turned waits, core, os1)
    | some p ↦ (goes_on checking, record core { proc = some p }, os1)
  ])
head_step fuel os core (some p) =
    if p.pc == length p.code
    then (do
      (next, os1) ← get_proc fuel os
      done (goes_on checking, record { proc = next; time_left = pos 0 }, os1))
    else if is_zero core.time_left
    then (do os1 ← put_proc os p; done (goes_on taking, core, os1))
    else done (goes_on checking, core, os)

-- One step of a CPU from its place.
pub cpu_step : ℕ → ℕ → ℤ → Os → Place → Core → Outcome (Moved × Core × Os)
unfolding head_step
cpu_step fuel junk time_slot os head core = head_step fuel os core core.proc
cpu_step fuel junk time_slot os taking core = do
  (next, os1) ← get_proc fuel os
  done (goes_on checking, record core { proc = next }, os1)
cpu_step fuel junk time_slot os checking core = do
  (t, core1, os1) ← recheck fuel junk time_slot os core
  done (turned t, core1, os1)

-- Behind a turn the CPU is at the head again.
abbrev pub place_after : Moved → Place
place_after (goes_on at) = at
place_after (turned t) = head

-- The device of a thread after its step; there is none after `exit`, which ends the whole program.
abbrev pub device_after : Moved → Device → Option Device
device_after (goes_on at) d = some d
device_after (turned waits) d = some (next_slot d)
device_after (turned detaches) d = some (detach_event d)
device_after (turned exits) d = none

pub record Cpu : Type 0 where
  pub place : Place
  pub core : Core

-- What stays the same: `time_slot`, the entries of `ld_processes`, the conversions of `fscanf`, and what memory
-- from `malloc` holds while a job is loaded.
pub record World (Input : Type 0) : Type 0 where
  pub fuel : ℕ
  pub junk : ℕ
  pub time_slot : ℤ
  pub scan_u : Input → Option ℕ × Input
  pub scan_s : Input → Option Word × Input
  pub garbage : ℕ → Garbage
  pub jobs : List (Job Input)

pub record Machine : Type 0 where
  pub timer : Timer
  pub os : Os
  pub cpus : List Cpu
  pub ld : Ld

-- The device of CPU `i`: each is attached in front of those before it, the loader last.
abbrev pub cpu_device : Machine → ℕ → ℕ
cpu_device m i = length m.cpus - i

abbrev pub ld_device : ℕ
ld_device = 0

pub data Step {Input : Type 0} (w : World Input) (m : Machine) : Machine → Type 0 where
  clock : {t : Timer} → timer_routine m.timer ≡ some t → Step w m (record m { timer = t })
  leave :
      (i : ℕ) (d : Device)
      → get_elem? m.timer.dev_list i ≡ some d
      → d.stage ≡ waiting
      → d.id.done ≡ false
      → Step w m (record m { timer = with_device m.timer i (leave_slot d) })
  cpu :
      (i : ℕ) (c : Cpu) (d : Device) {moved : Moved} {core' : Core} {os' : Os} {d' : Device}
      → get_elem? m.cpus i ≡ some c
      → get_elem? m.timer.dev_list (cpu_device m i) ≡ some d
      → d.stage ≡ working
      → cpu_step w.fuel w.junk w.time_slot m.os c.place c.core ≡ done (moved, core', os')
      → device_after moved d ≡ some d'
      → Step w m (record m {
        timer = with_device m.timer (cpu_device m i) d';
        os = os';
        cpus = set m.cpus i (record { place = place_after moved; core = core' });
      })
  loader :
      (d : Device) {t : Turned} {ld' : Ld} {os' : Os} {d' : Device}
      → get_elem? m.timer.dev_list ld_device ≡ some d
      → d.stage ≡ working
      → ld_slot w.scan_u w.scan_s w.garbage w.jobs (current_time m.timer) m.os m.ld
        ≡ done (t, ld', os')
      → device_after (turned t) d ≡ some d'
      → Step w m (record m { timer = with_device m.timer ld_device d'; os = os'; ld = ld' })

pub data Reach {Input : Type 0} (w : World Input) (m0 : Machine) : Machine → Type 0 where
  begin : Reach w m0 m0
  next : {m m' : Machine} → Reach w m0 m → Step w m m' → Reach w m0 m'
