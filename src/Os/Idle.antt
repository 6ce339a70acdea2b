-- ===== src/Os/Idle.antt =====
-- The CPUs of src/os.c that have no process.
use btlos.Prelude.{ℕ, zero, suc, ◌*◌, ◌≡◌, ◌≤◌, refl, true, false, Option, none, some, done}
use btlos.Prelude.Int.{ℤ, pos}
use btlos.Sched.{Mlq, max_prio, queue_empty, get_mlq_proc, put_mlq_proc}
use btlos.Sched.Policy.{IsMlq}
use btlos.Sched.Turn.{Turn}
use btlos.Sched.Get.{get_mlq_proc-Turn}
use btlos.Sched.Sole.{get_mlq_proc-empty}
use btlos.Os.{Process, Os, waits, get_proc, put_proc, work, recheck, cpu_slot, idle_core, cpu_slots}

pub get_proc_lem :
    (fuel : ℕ) (os : Os) {next : Option Process} {ready : Mlq Process}
    → get_mlq_proc fuel os.ready ≡ some (done (next, ready))
    → get_proc fuel os ≡ done (next, record os { ready = ready })
unfolding get_proc
get_proc_lem fuel os e = rw (e, get_proc) refl

pub put_proc_lem :
    (os : Os) (p : Process) {ready : Mlq Process}
    → put_mlq_proc (λ q. q.prio) os.ready p ≡ done ready
    → put_proc os p ≡ done (record os { ready = ready })
unfolding put_proc
put_proc_lem os p e = rw e refl

pub get_proc-empty :
    (fuel : ℕ) (os : Os) → queue_empty os.ready ≡ true → get_proc fuel os ≡ done (none, os)
get_proc-empty fuel os e = get_proc_lem fuel os (get_mlq_proc-empty fuel os.ready e)

-- A CPU without a process, when no process waits, only waits for the next slot, any number of
-- turns, also when the loader has set `done`: it never stops.
pub idle-waits :
    (fuel junk : ℕ) (time_slot : ℤ) (n : ℕ) (os : Os)
    → queue_empty os.ready ≡ true
    → cpu_slots fuel junk time_slot n os idle_core ≡ done (waits, idle_core, os)
unfolding cpu_slots cpu_slot
idle-waits fuel junk time_slot zero os e = refl
idle-waits fuel junk time_slot (suc n) os e =
    rw (get_proc-empty fuel os e) (idle-waits fuel junk time_slot n os e)

-- A CPU without a process, when some process waits, takes the one that the policy of `get_mlq_proc`
-- chooses and runs it in the same turn with a whole time slot.
pub idle-dispatches :
    (fuel junk : ℕ) (time_slot : ℤ) (os : Os)
    → IsMlq os.ready
    → queue_empty os.ready ≡ false
    → 2 * max_prio ≤ fuel
    → (turn : Turn os.ready (get_mlq_proc fuel os.ready)) × (cpu_slot fuel junk time_slot os
          idle_core
        ≡ work fuel junk time_slot (record os { ready = turn.next }) (pos 0) turn.proc)
unfolding cpu_slot recheck
idle-dispatches fuel junk time_slot os v e enough =
    let turn = get_mlq_proc-Turn fuel os.ready v e enough in
    (turn, rw (get_proc_lem fuel os turn.returns) refl)
