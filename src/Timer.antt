-- ===== src/Timer.antt =====
-- src/timer.c: the clock and the devices, which are the threads of src/os.c. Every part that holds a lock is one
-- step, since nothing else reads or writes what it does; a thread that waits on a condition looks at it again
-- when it is woken, so a wait is a step that is possible once its condition holds.
pub mod Sound
pub mod Clock
pub mod Lockstep
pub mod Round
mod Tests
use btlos.Prelude.{
  ℕ, zero, suc, ◌+◌, ◌%◌, ◌^◌, ◌≡◌, ◌<◌, Bool, true, false, Option, none, some, List, [], ◌∷◌,
  length, get_elem?, set, ltb, ◌==◌, if◌then◌else◌, not, ◌&&◌, ◌||◌,
}

-- The fields `done` and `fsh` of `struct timer_id_t`; the others are its locks and conditions.
pub record TimerId : Type 0 where
  pub done : Bool
  pub fsh : Bool

-- Where the thread of a device is: at work in a slot, in the loop at the end of `next_slot`, or behind
-- `detach_event`.
pub data Stage : Type 0 where
  working waiting detached : Stage

-- A node of `dev_list` with the thread that owns it. `slots` is not in the source: it counts the calls of
-- `next_slot` that have returned.
pub record Device : Type 0 where
  pub id : TimerId
  pub stage : Stage
  pub slots : ℕ

-- The part of its loop in which `timer_routine` is.
pub data Phase : Type 0 where
  checking releasing ended : Phase

-- `temp` is the position in `dev_list` of the pointer of that name. `_time` is `ticks` as an `uint64_t`.
pub record Timer : Type 0 where
  pub dev_list : List Device
  pub ticks : ℕ
  pub timer_started : Bool
  pub timer_stop : Bool
  pub phase : Phase
  pub temp : ℕ
  pub fsh : ℕ
  pub event : ℕ

abbrev pub current_time : Timer → ℕ
current_time s = s.ticks % 2 ^ 64

abbrev pub new_device : Device
new_device = record { id = record { done = false; fsh = false }; stage = working; slots = 0 }

-- `none` is the pointer NULL. The new device is the first of the list.
pub attach_event : Timer → Option Timer
attach_event s =
    if s.timer_started then none else some (record s { dev_list = new_device ∷ s.dev_list })

-- The test at the head of the loop, and the start of a round.
next_round : Timer → Timer
next_round s =
    if s.timer_stop
    then record s { phase = ended }
    else record s { phase = checking; temp = 0; fsh = 0; event = 0 }

-- The thread that `start_timer` creates stands at the head of its loop.
pub start_timer : Timer → Timer
unfolding next_round
start_timer s = next_round (record s { timer_started = true })

-- The first half of `next_slot`.
pub next_slot : Device → Device
next_slot d = record d { id = record (d.id) { done = true }; stage = waiting }

-- The return from `next_slot`, when `done` is 0.
pub leave_slot : Device → Device
leave_slot d = record d { stage = working; slots = d.slots + 1 }

pub detach_event : Device → Device
detach_event d = record d { id = record (d.id) { fsh = true }; stage = detached }

-- The loop body over the devices in the first `for`, behind its wait.
count_device : Timer → Device → Timer
count_device s d = record s {
  fsh = if d.id.fsh then s.fsh + 1 else s.fsh;
  event = s.event + 1;
  temp = s.temp + 1;
}

-- The loop body of the second `for`.
release_device : Timer → Device → Timer
release_device s d = record s {
  dev_list = set s.dev_list s.temp (record d { id = record (d.id) { done = false } });
  temp = s.temp + 1;
}

-- The step of `timer_routine` at a device.
at_device : Timer → Phase → Device → Option Timer
unfolding count_device release_device
at_device s checking d = if not d.id.done && not d.id.fsh then none else some (count_device s d)
at_device s releasing d = some (release_device s d)
at_device s ended d = none

-- The step of `timer_routine` behind the last device.
behind_devices : Timer → Phase → Option Timer
unfolding next_round
behind_devices s checking = some (record s { ticks = s.ticks + 1; phase = releasing; temp = 0 })
behind_devices s releasing =
    some (if s.fsh == s.event then record s { phase = ended } else next_round s)
behind_devices s ended = none

-- One step of `timer_routine`; `none` where it waits for a device or has ended.
pub timer_routine : Timer → Option Timer
unfolding at_device behind_devices
timer_routine s = elim (get_elem? s.dev_list s.temp) [
  | some d ↦ at_device s s.phase d
  | none ↦ behind_devices s s.phase
]

abbrev pub with_device : Timer → ℕ → Device → Timer
with_device s i d = record s { dev_list = set s.dev_list i d }

-- The state between two steps of the threads. `main` calls `stop_timer` only when it has joined the
-- threads of all devices.
pub data Step (s : Timer) : Timer → Type 0 where
  clock : {t : Timer} → timer_routine s ≡ some t → Step s t
  enter :
      (i : ℕ) (d : Device)
      → get_elem? s.dev_list i ≡ some d
      → d.stage ≡ working
      → Step s (with_device s i (next_slot d))
  leave :
      (i : ℕ) (d : Device)
      → get_elem? s.dev_list i ≡ some d
      → d.stage ≡ waiting
      → d.id.done ≡ false
      → Step s (with_device s i (leave_slot d))
  detach :
      (i : ℕ) (d : Device)
      → get_elem? s.dev_list i ≡ some d
      → d.stage ≡ working
      → Step s (with_device s i (detach_event d))
  stop :
      ((i : ℕ) (d : Device) → get_elem? s.dev_list i ≡ some d → d.stage ≡ detached)
      → Step s (record s { timer_stop = true })

-- The state before any device is attached.
abbrev pub no_devices : Timer
no_devices = record {
  dev_list = [];
  ticks = 0;
  timer_started = false;
  timer_stop = false;
  phase = ended;
  temp = 0;
  fsh = 0;
  event = 0;
}

-- `n` calls of `attach_event` before the clock starts.
attached : ℕ → Timer → Timer
attached zero s = s
attached (suc n) s = elim (attach_event s) [ none ↦ attached n s | some t ↦ attached n t ]

-- What `main` has done when the threads run.
pub start : ℕ → Timer
unfolding attached attach_event start_timer
start n = start_timer (attached n no_devices)

pub data Reach (n : ℕ) : Timer → Type 0 where
  begin : Reach n (start n)
  next : {s t : Timer} → Reach n s → Step s t → Reach n t
