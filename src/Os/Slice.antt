-- ===== src/Os/Slice.antt =====
-- A process on a CPU of src/os.c: its time slot, and its run to the end.
use btlos.Prelude.{
  ℕ, zero, suc, ◌+◌, ◌*◌, ◌^◌, ◌≡◌, ◌≢◌, ◌≤◌, ◌<◌, refl, ap, ◌∙◌, true, false, some, done, ◌>>=◌,
  arith, length, ne→==, ◌==◌, if◌then◌else◌,
}
use btlos.Prelude.Int.{ℤ, pos, ◌-ℤ◌}
use btlos.Sched.{max_prio, get_mlq_proc, put_mlq_proc}
use btlos.Sched.Policy.{IsMlq}
use btlos.Sched.Turn.{Turn}
use btlos.Sched.Get.{get_mlq_proc-Turn}
use btlos.Sched.Put.{Put, put_mlq_proc-Put}
use btlos.Sched.Sole.{held-not_empty}
use btlos.Queue.Fifo.{push, push-not_empty}
use btlos.Cpu.{Pcb, executed, exited, run}
use btlos.Cpu.Step.{only_calc, run-calc}
use btlos.Os.{
  Process, Os, waits, exits, pcb, run_process, renew, work, recheck, cpu_slot, cpu_slots,
}
use btlos.Os.Idle.{get_proc_lem, put_proc_lem}

-- A CPU whose process, of a priority below 140, has used up its time slot and is not at its end
-- puts it at the end of its queue, unless that is full with nine, takes the process that the policy
-- of `get_mlq_proc` chooses, and runs one instruction of that: it then has the process that `run`
-- leaves, and one slot less than a new time slot. It waits for the next slot, unless `run` ends the
-- program. Fuel for 280 rounds of the loop of `get_mlq_proc` is enough.
pub slice-over :
    (fuel junk : ℕ) (time_slot : ℤ) (os : Os) (p : Process)
    → IsMlq os.ready
    → p.prio < max_prio
    → p.pc ≢ length p.code
    → 2 * max_prio ≤ fuel
    → (put : Put (λ (q : Process). q.prio) os.ready p (put_mlq_proc (λ q. q.prio) os.ready p))
      × (turn : Turn put.next (get_mlq_proc fuel put.next)) × (cpu_slot fuel junk time_slot os
            (record { proc = some p; time_left = pos 0 })
          ≡ (do
            (stat, q, os1) ← run_process fuel junk (record os { ready = turn.next }) turn.proc
            done (
              elim stat [ exited ↦ exits | _ ↦ waits ],
              record { proc = some q; time_left = time_slot -ℤ pos 1 },
              os1,
            )))
unfolding cpu_slot renew recheck work
slice-over fuel junk time_slot os p v lt more enough =
    let put = put_mlq_proc-Put (λ (q : Process). q.prio) os.ready p v lt in
    let turn =
      get_mlq_proc-Turn fuel put.next put.valid
        (held-not_empty put.next p.prio (push put.before p) put.is (push-not_empty put.before p))
        enough in
    (
      put,
      turn,
      rw
          (
            ne→== more,
            put_proc_lem os p put.returns,
            get_proc_lem fuel (record os { ready = put.next }) turn.returns,
          )
          refl,
    )

-- A CPU that has slots left keeps its process.
renew-keeps :
    (fuel : ℕ) (os : Os) (left : ℕ) (p : Process)
    → p.pc ≢ length p.code
    → renew fuel os (record { proc = some p; time_left = pos (suc left) }) p
      ≡ done (record { proc = some p; time_left = pos (suc left) }, os)
unfolding renew
renew-keeps fuel os left p more =
    let left_some : (suc left == 0) ≡ false = ne→== (omega arith) in rw (ne→== more, left_some) refl

pub slot-keeps :
    (fuel junk : ℕ) (time_slot : ℤ) (os : Os) (left : ℕ) (p : Process)
    → p.pc ≢ length p.code
    → cpu_slot fuel junk time_slot os (record { proc = some p; time_left = pos (suc left) })
      ≡ work fuel junk time_slot os (pos (suc left)) p
unfolding cpu_slot recheck
slot-keeps fuel junk time_slot os left p more = rw (renew-keeps fuel os left p more) refl

-- A process that only calculates, at work.
run_process-calc :
    (fuel junk : ℕ) (os : Os) (p : Process)
    → only_calc p.code ≡ true
    → p.pc < length p.code
    → length p.code < 2 ^ 32
    → run_process fuel junk os p ≡ done (executed, record p { pc = p.pc + 1 }, os)
unfolding run_process
run_process-calc fuel junk os p only lt small =
    rw (run-calc fuel junk (pcb os p) only lt)
      (ap (λ k. done (executed, record p { pc = k }, os)) (omega (arith, lt, small)))

pub work-calc :
    (fuel junk : ℕ) (time_slot : ℤ) (os : Os) (given left : ℕ) (p : Process)
    → (if given == 0 then time_slot else pos given) ≡ pos (suc left)
    → only_calc p.code ≡ true
    → p.pc < length p.code
    → length p.code < 2 ^ 32
    → work fuel junk time_slot os (pos given) p
      ≡ done (waits, record { proc = some (record p { pc = p.pc + 1 }); time_left = pos left }, os)
unfolding work
work-calc fuel junk time_slot os given left p e only lt small =
    rw (e, run_process-calc fuel junk os p only lt small)
      (ap
        (λ l. done (waits, record { proc = some (record p { pc = p.pc + 1 }); time_left = l }, os))
        (ground arith))

-- A process that only calculates, with `left` slots and as many instructions to go, runs that many
-- instructions in as many turns of its CPU, without the ready queue being looked at, and then has
-- no slot left.
pub slice-runs :
    (fuel junk : ℕ) (time_slot : ℤ) (left : ℕ) (os : Os) (p : Process)
    → only_calc p.code ≡ true
    → p.pc + left ≤ length p.code
    → length p.code < 2 ^ 32
    → cpu_slots fuel junk time_slot left os (record { proc = some p; time_left = pos left })
      ≡ done (waits, record { proc = some (record p { pc = p.pc + left }); time_left = pos 0 }, os)
unfolding cpu_slots
slice-runs fuel junk time_slot zero os p only fits small =
    ap (λ k. done (waits, record { proc = some (record p { pc = k }); time_left = pos 0 }, os))
      (omega arith)
slice-runs fuel junk time_slot (suc left) os p only fits small =
    rw
      (
        slot-keeps fuel junk time_slot os left p (omega (arith, fits)),
        work-calc fuel junk time_slot os (suc left) left p (ground arith) only (omega (arith, fits))
            small,
      )
      (slice-runs fuel junk time_slot left os (record p { pc = p.pc + 1 }) only
          (omega (arith, fits)) small
        ∙ ap
            (λ k. done (waits, record { proc = some (record p { pc = k }); time_left = pos 0 }, os))
            (omega arith))

-- The end of a turn with a new time slot, where `run` executes an instruction.
pub recheck-runs :
    (fuel junk : ℕ) (time_slot : ℤ) (os : Os) (p : Process) (q : Pcb)
    → run fuel junk (pcb os p) ≡ done (executed, q)
    → recheck fuel junk time_slot os (record { proc = some p; time_left = pos 0 })
      ≡ done (
        waits,
        record {
          proc = some (record p { pc = q.pc; mm = q.caller.mm });
          time_left = time_slot -ℤ pos 1;
        },
        record os { mram = q.caller.mram; active_mswp = q.caller.active_mswp },
      )
unfolding recheck work run_process
recheck-runs fuel junk time_slot os p q ran = rw ran refl
