-- ===== src/Os/Tests.antt =====
-- Runs of the threads of src/os.c.
use btlos.Prelude.{
  ◌>>=◌, ◌∙◌, ◌≤◌, ◌+◌, ℕ, zero, suc, ◌≡◌, refl, sym, true, none, some, List, [], ◌∷◌, done, null,
  arith, get_elem?, of_some,
}
use btlos.Prelude.Int.{pos, ◌-ℤ◌}
use btlos.Memphy.{Memphy}
use btlos.Mm.{init_mm}
use btlos.Sched.{Mlq, queue_empty, get_mlq_proc, put_mlq_proc}
use btlos.Sched.Policy.{IsMlq}
use btlos.Sched.Turn.{Turn}
use btlos.Sched.Put.{Put}
use btlos.Sched.Boot.{boot, boot-IsMlq, boot-empty, boot-total}
use btlos.Cpu.{calc_op, Inst, exited}
use btlos.Cpu.Step.{only_calc, is_calc}
use btlos.Loader.Print.{Printable, settle, print}
use btlos.Loader.Token.{Token, scan_u, scan_s, print_u, print_s, number_law, word_law}
use btlos.Os.{Process, Os, waits, detaches, exits, run_process, cpu_slot, cpu_slots, idle_core}
use btlos.Os.Idle.{idle-waits}
use btlos.Os.Slice.{slice-over}
use btlos.Os.Finish.{sole-finishes}
use btlos.Os.Slice.{slot-keeps, work-calc}
use btlos.Os.Unique.{is_pid}
use btlos.Os.Apart.{System, Distinct}
use btlos.Os.Loading.{Job, Garbage, ld_slot, ld_slot-adds}

abbrev calc : Inst
calc = record { opcode = calc_op; arg_0 = 0; arg_1 = 0; arg_2 = 0 }

abbrev worker : Process
worker = record {
  pid = 1;
  prio = 5;
  code = calc ∷ calc ∷ calc ∷ [];
  pc = 0;
  mm = init_mm [] null null;
}

abbrev memory : Memphy
memory = record {
  storage = [];
  maxsz = 0;
  rdmflg = true;
  cursor = 0;
  free_fp_list = null;
  used_fp_list = null;
}

abbrev machine : Mlq Process → Os
machine ready = record { ready = ready; mram = memory; active_mswp = memory; done = true }

idle-waits_example :
    cpu_slots 0 0 (pos 2) 7 (machine (boot worker)) idle_core
    ≡ done (waits, idle_core, machine (boot worker))
idle-waits_example = idle-waits 0 0 (pos 2) 7 (machine (boot worker)) (boot-empty worker)

slice-over_example :
    (put : Put
      (λ (q : Process). q.prio)
      (boot worker)
      worker
      (put_mlq_proc (λ q. q.prio) (boot worker) worker))
    × (turn : Turn put.next (get_mlq_proc 280 put.next)) × (cpu_slot 280 0
          (pos 2)
          (machine (boot worker))
          (record { proc = some worker; time_left = pos 0 })
        ≡ (do
          (stat, q, os1) ← run_process 280 0 (machine turn.next) turn.proc
          done (
            elim stat [ exited ↦ exits | _ ↦ waits ],
            record { proc = some q; time_left = pos 2 -ℤ pos 1 },
            os1,
          )))
slice-over_example =
    slice-over 280 0 (pos 2) (machine (boot worker)) worker (boot-IsMlq worker) (omega arith)
      (omega arith) (omega arith)

sole-finishes_example :
    (ready : Mlq Process) × IsMlq ready
    × (queue_empty ready ≡ true)
    × (cpu_slots 280 0
          (pos 2)
          4
          (machine (boot worker))
          (record { proc = some worker; time_left = pos 1 })
        ≡ done (detaches, record { proc = none; time_left = pos 0 }, machine ready))
unfolding only_calc is_calc
sole-finishes_example =
    sole-finishes 280 0 1 (omega arith) 3 (machine (boot worker)) 1 worker (boot-IsMlq worker)
      (boot-empty worker) refl (omega arith) refl refl (omega arith)

abbrev garbage : Garbage
garbage = record { inst = calc; priority = 0; size = 0; pgd = []; freerg = null; lru = null }

abbrev job : Job (List Token)
job = record { path = some (print print_u print_s 3 (calc ∷ []) []); start_time = 2; prio = 5 }

ld_slot-adds_example :
    (p : Process) × (p.pid ≡ 1)
    × (p.prio ≡ 5)
    × (p.pc ≡ 0)
    × (p.code ≡ settle calc (calc ∷ []))
    × (p.mm ≡ init_mm [] null null)
    × (put : Put
        (λ (q : Process). q.prio)
        (boot worker)
        p
        (put_mlq_proc (λ q. q.prio) (boot worker) p))
    × (ld_slot scan_u scan_s
          (λ i. garbage)
          (job ∷ [])
          2
          (machine (boot worker))
          (record { i = 0; proc = none; avail_pid = 1 })
        ≡ done (waits, record { i = 1; proc = none; avail_pid = 2 }, machine put.next))
ld_slot-adds_example =
    ld_slot-adds print_u print_s scan_u scan_s number_law word_law (λ i. garbage) (job ∷ []) job 2
      (machine (boot worker)) 0 1 3 (calc ∷ []) [] refl (omega arith) refl (omega arith)
      (omega arith) one_instruction (omega arith) (omega arith) (boot-IsMlq worker)
  where
    one_instruction : (k : ℕ) (ins : Inst) → get_elem? (calc ∷ []) k ≡ some ins → Printable ins
    one_instruction zero ins e = rw (sym (of_some e)) (record {
      known = λ f. cc;
      fits_0 = omega arith;
      fits_1 = omega arith;
      fits_2 = omega arith;
    })
    one_instruction (suc k) ins e = cc

-- Two CPUs, each with a process, of which the first has made a turn.
abbrev second_worker : Process
second_worker = record worker { pid = 2 }

abbrev two_cores : System
two_cores = record {
  os = machine (boot worker);
  cores =
      record { proc = some worker; time_left = pos 2 }
      ∷ record { proc = some second_worker; time_left = pos 2 }
      ∷ [];
}

two_cores-Distinct : Distinct two_cores
two_cores-Distinct = record {
  queues = boot-IsMlq worker;
  once = λ k. omega (arith, boot-total worker (is_pid k), one_or_none k);
}
  where
    one_or_none : (k : ℕ) → is_pid k worker + is_pid k second_worker ≤ 1
    one_or_none k = ground arith

first_turn :
    cpu_slot 280 0
      (pos 2)
      (machine (boot worker))
      (record { proc = some worker; time_left = pos 2 })
    ≡ done (
      waits,
      record { proc = some (record worker { pc = 1 }); time_left = pos 1 },
      machine (boot worker),
    )
unfolding only_calc is_calc
first_turn =
    slot-keeps 280 0 (pos 2) (machine (boot worker)) 1 worker (omega arith)
    ∙ work-calc 280 0 (pos 2) (machine (boot worker)) 2 1 worker refl refl (omega arith)
        (omega arith)
