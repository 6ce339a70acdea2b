-- ===== src/Os/Finish.antt =====
-- The last process of a CPU of src/os.c, from its first slot to the end of the thread.
use btlos.Prelude.{
  ℕ, zero, suc, ◌+◌, ◌*◌, ◌^◌, ◌≡◌, ◌≤◌, ◌<◌, refl, ◌∙◌, true, none, some, done, arith, length,
  ne→==, eq→==,
}
use btlos.Prelude.Int.{pos}
use btlos.Sched.{Mlq, max_prio, queue_empty}
use btlos.Sched.Policy.{IsMlq}
use btlos.Sched.Sole.{put-get}
use btlos.Cpu.Step.{only_calc}
use btlos.Os.{Process, Os, waits, detaches, renew, recheck, cpu_slot, cpu_slots}
use btlos.Os.Idle.{get_proc_lem, put_proc_lem, get_proc-empty}
use btlos.Os.Slice.{slot-keeps, work-calc}

-- The parts that stay as they are through a run.
module _ (fuel junk t : ℕ) (enough : 2 * max_prio ≤ fuel) where
  -- A slot of the only process that is left.
  sole_slot :
      (os : Os) (k : ℕ) (p : Process)
      → IsMlq os.ready
      → queue_empty os.ready ≡ true
      → p.prio < max_prio
      → only_calc p.code ≡ true
      → p.pc < length p.code
      → length p.code < 2 ^ 32
      → (k' : ℕ) × (ready : Mlq Process) × IsMlq ready
        × (queue_empty ready ≡ true)
        × (cpu_slot fuel junk (pos (suc t)) os (record { proc = some p; time_left = pos k })
            ≡ done (
              waits,
              record { proc = some (record p { pc = p.pc + 1 }); time_left = pos k' },
              record os { ready = ready },
            ))
  unfolding cpu_slot renew recheck
  sole_slot os (suc k) p v e prio only lt small = (
    k,
    os.ready,
    v,
    e,
    slot-keeps fuel junk (pos (suc t)) os k p (omega (arith, lt))
        ∙ work-calc fuel junk (pos (suc t)) os (suc k) k p (ground arith) only lt small,
  )
  sole_slot os zero p v e prio only lt small =
      let back = put-get (λ (q : Process). q.prio) fuel os.ready p v e prio enough in
      (
        t,
        back.next,
        back.valid,
        back.empties,
        rw
            (
              ne→== {a = p.pc} {b = length p.code} (omega (arith, lt)),
              put_proc_lem os p back.puts,
              get_proc_lem fuel (record os { ready = back.held }) back.gets,
            )
            (work-calc fuel junk (pos (suc t)) (record os { ready = back.next }) 0 t p refl only lt
              small),
      )

  -- At the end of its program the process is let go, and the thread ends.
  last_slot :
      (os : Os) (k : ℕ) (p : Process)
      → queue_empty os.ready ≡ true
      → os.done ≡ true
      → p.pc ≡ length p.code
      → cpu_slot fuel junk (pos (suc t)) os (record { proc = some p; time_left = pos k })
        ≡ done (detaches, record { proc = none; time_left = pos 0 }, os)
  unfolding cpu_slot renew recheck
  last_slot os k p e over at = rw (eq→== at, get_proc-empty fuel os e, over) refl

  -- The last process, of a priority below 140, that only calculates and has `left` instructions to
  -- go: with no other process waiting and the loader at its end, the CPU runs it to its end and
  -- stops after `left + 1` turns, however often its time slot, of 1 or more, runs out in between.
  -- No process waits then.
  pub sole-finishes :
      (left : ℕ) (os : Os) (k : ℕ) (p : Process)
      → IsMlq os.ready
      → queue_empty os.ready ≡ true
      → os.done ≡ true
      → p.prio < max_prio
      → only_calc p.code ≡ true
      → p.pc + left ≡ length p.code
      → length p.code < 2 ^ 32
      → (ready : Mlq Process) × IsMlq ready
        × (queue_empty ready ≡ true)
        × (cpu_slots fuel junk
              (pos (suc t))
              (suc left)
              os
              (record { proc = some p; time_left = pos k })
            ≡ done
                (detaches, record { proc = none; time_left = pos 0 }, record os { ready = ready }))
  unfolding cpu_slots
  sole-finishes zero os k p v e over prio only at small =
      (os.ready, v, e, rw (last_slot os k p e over (omega (arith, at))) refl)
  sole-finishes (suc left) os k p v e over prio only at small =
      let (k1, ready1, v1, e1, step) = sole_slot os k p v e prio only (omega (arith, at)) small in
      let (ready2, v2, e2, rest) =
        sole-finishes left (record os { ready = ready1 }) k1 (record p { pc = p.pc + 1 }) v1 e1 over
          prio only (omega (arith, at)) small in
      (ready2, v2, e2, rw step rest)
