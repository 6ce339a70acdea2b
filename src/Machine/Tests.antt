-- ===== src/Machine/Tests.antt =====
-- Two CPUs, each with a process, whose turns overlap.
use btlos.Prelude.{
  set, success, get_elem?-set_self, get_elem?-lt, length-set, ◌%◌, ◌^◌, get_elem?, get_elem?-set_ne,
  ◌<◌, ap, ◌∙◌, of_some, length, ◌==◌, if◌then◌else◌, replicate, length-replicate,
  get_elem?-replicate, ℕ, zero, suc, ◌+◌, ◌≡◌, ◌≢◌, ◌≤◌, refl, subst, sym, true, false, none, some,
  List, [], ◌∷◌, done, null, arith,
}
use btlos.Prelude.Int.{pos}
use btlos.Memphy.{Memphy, init_memphy}
use btlos.Mm.{Mm, Symbol, Caller, init_mm}
use btlos.Mm.Laws.{init_mm_lem, init_mm-kept}
use btlos.Vm.Safety.{unused, first_area}
use btlos.Queue.{Queue}
use btlos.Sched.{put_mlq_proc}
use btlos.Sched.Put.{Put}
use btlos.Sched.Init.{IsArrays, init_scheduler-IsMlq, init_scheduler-empty}
use btlos.Sched.Sole.{Returned, put-get}
use btlos.Sched.Boot.{boot, boot-IsMlq, boot-total}
use btlos.Timer.{Device, working, checking, current_time, new_device, next_slot, with_device}
use btlos.Timer.Lockstep.{start-device}
use btlos.Cpu.{calc_op, alloc_op, Inst}
use btlos.Cpu.Step.{run-alloc}
use btlos.Os.Slice.{recheck-runs}
use btlos.Vm.{pgalloc}
use btlos.Vm.Extend.{pgalloc-extend}
use btlos.Vm.Tests.{nothing, full, blank}
use btlos.Paging.Range.{AllOffline, none_left, one_more}
use btlos.Memphy.Free.{init_memphy-frames}
use btlos.Cpu.Safety.{Numbers}
use btlos.Loader.{Loaded, load}
use btlos.Loader.Print.{Printable, settle, print, load-print}
use btlos.Config.Token.{Token, scan_d, scan_lu, scan_s, print_lu, print_s}
use btlos.Config.Sample.{config, config_file, config_file-read}
use btlos.Os.{Process, Os, pcb, waits, idle_core, get_proc}
use btlos.Os.Memory.{FitLoaded}
use btlos.Os.Idle.{get_proc_lem}
use btlos.Os.Unique.{is_pid}
use btlos.Os.Loading.{Garbage, Job, ld_slot, ld_slot-adds}
use btlos.Machine
use btlos.Machine.{
  head, Cpu, World, Machine, Reach, begin, next, cpu, loader, goes_on, turned, cpu_step, head_step,
}
use btlos.Machine.Memory.{FitJobs}
use btlos.Machine.Main.Memory.{main-memory_apart}
use btlos.Machine.Main.{Unset, Files, jobs_of, world_of, started, main, main_lem, main-once}
use btlos.Machine.Apart.{copies, Numbered, cpus-apart}

abbrev calc : Inst
calc = record { opcode = calc_op; arg_0 = 0; arg_1 = 0; arg_2 = 0 }

abbrev worker : ℕ → Process
worker n = record { pid = n; prio = 5; code = calc ∷ calc ∷ []; pc = 0; mm = init_mm [] null null }

abbrev memory : Memphy
memory = record {
  storage = [];
  maxsz = 0;
  rdmflg = true;
  cursor = 0;
  free_fp_list = null;
  used_fp_list = null;
}

abbrev garbage : Garbage
garbage = record {
  inst = calc;
  priority = 0;
  size = 0;
  pgd = replicate 16384 0;
  freerg = null;
  lru = null;
}

abbrev world : World (List Token)
world = record {
  fuel = 280;
  junk = 0;
  time_slot = pos 2;
  scan_u = scan_lu;
  scan_s = scan_s;
  garbage = λ i. garbage;
  jobs = [];
}

abbrev at_work : Device
at_work = record { id = record { done = false; fsh = false }; stage = working; slots = 0 }

abbrev busy : ℕ → Cpu
busy n = record { place = head; core = record { proc = some (worker n); time_left = pos 1 } }

abbrev two_busy : Machine
two_busy = record {
  timer = record {
    dev_list = at_work ∷ at_work ∷ at_work ∷ [];
    ticks = 0;
    timer_started = true;
    timer_stop = false;
    phase = checking;
    temp = 0;
    fsh = 0;
    event = 0;
  };
  os = record { ready = boot (worker 9); mram = memory; active_mswp = memory; done = false };
  cpus = busy 1 ∷ busy 2 ∷ [];
  ld = record { i = 0; proc = none; avail_pid = 3 };
}

-- Both CPUs are at the second look at their processes.
abbrev overlapped : Machine
overlapped = record two_busy {
  cpus =
      record (busy 1) { place = Machine.checking }
      ∷ record (busy 2) { place = Machine.checking }
      ∷ [];
}

overlap : Reach world two_busy overlapped
unfolding cpu_step head_step
overlap =
    next (next begin (cpu 0 (busy 1) at_work refl refl refl refl refl))
      (cpu 1 (busy 2) at_work refl refl refl refl refl)

two_busy-Numbered : Numbered world two_busy.os two_busy.cpus two_busy.ld
two_busy-Numbered = record {
  queues = boot-IsMlq (worker 9);
  once = λ k. omega (arith, boot-total (worker 9) (is_pid k), one_or_none k);
  unused = λ k h. omega (arith, boot-total (worker 9) (is_pid k), later k h);
  numbers = omega arith;
}
  where
    one_or_none : (k : ℕ) → is_pid k (worker 1) + is_pid k (worker 2) ≤ 1
    one_or_none k = ground arith

    later : (k : ℕ) → 3 ≤ k → is_pid k (worker 1) + is_pid k (worker 2) ≡ 0
    later k h = ground arith

cpus-apart_example : (worker 1).pid ≢ (worker 2).pid
cpus-apart_example =
    cpus-apart world (omega arith) two_busy overlapped two_busy-Numbered overlap 0 1
      (record (busy 1) { place = Machine.checking }) (record (busy 2) { place = Machine.checking })
      (worker 1) (worker 2) (omega arith) refl refl (λ e. cc) (λ e. cc) refl refl

abbrev used_queue : Queue Process
used_queue = record { proc = replicate 10 (worker 9); size = 3; slots = 7 }

abbrev unset : Unset
unset = record {
  ready = record { queues = replicate 140 used_queue; current_prio = 0 };
  device = memory;
  next_fp = null;
  bytes = λ n. [];
  prio = 0;
  garbage = λ i. garbage;
}

unset-IsArrays : IsArrays unset.ready
unset-IsArrays = record {
  count = length-replicate 140 used_queue;
  at_zero = refl;
  cells = λ p q e. rw (get_elem?-replicate 140 p e) refl;
}

abbrev program : List Inst
program = record { opcode = alloc_op; arg_0 = 300; arg_1 = 0; arg_2 = 0 } ∷ []

abbrev program_file : List Token
program_file = print print_lu print_s 3 program []

-- The configuration is "input/c"; all other files are the program.
abbrev files : Files (List Token)
files = record {
  open_file = λ w. if length w == 7 then some config_file else some program_file;
  scan_d = scan_d;
  scan_lu = scan_lu;
  scan_u = scan_lu;
  scan_s = scan_s;
}

abbrev device : ℕ → Memphy
device n = init_memphy null [] memory n 1

abbrev running : Machine
running = started files unset config (device 1024) (device 4096)

running-main :
    main files 280 0 unset ((99 ∷ []) ∷ [])
    ≡ done (some (world_of files 280 0 unset config, running))
running-main =
    main_lem files 280 0 unset (99 ∷ []) config 1024 4096 (omega arith) config_file-read refl refl

abbrev now : ℕ
now = current_time running.timer

abbrev first_job : Job (List Token)
first_job = record { path = some program_file; start_time = 0; prio = 5 }

printable : (k : ℕ) (ins : Inst) → get_elem? program k ≡ some ins → Printable ins
printable zero ins e =
    rw (sym (of_some e))
      (record { known = λ f. cc; fits_0 = omega arith; fits_1 = omega arith; fits_2 = omega arith })
printable (suc k) ins e = cc

loads :
    (p : Process) × (p.pid ≡ 1)
    × (p.prio ≡ 5)
    × (p.pc ≡ 0)
    × (p.code ≡ settle calc program)
    × (p.mm ≡ init_mm (replicate 16384 0) null null)
    × (put : Put
        (λ (q : Process). q.prio)
        running.os.ready
        p
        (put_mlq_proc (λ q. q.prio) running.os.ready p))
    × (ld_slot scan_lu scan_s
          (λ i. garbage)
          (jobs_of files config.ld_processes)
          now
          running.os
          running.ld
        ≡ done (
          waits,
          record { i = 1; proc = none; avail_pid = 2 },
          record running.os { ready = put.next },
        ))
unfolding scan_lu scan_s
loads =
    ld_slot-adds print_lu print_s scan_lu scan_s (λ n h file. refl) (λ op h file. refl)
      (λ i. garbage) (jobs_of files config.ld_processes) first_job now running.os 0 1 3 program []
      refl (omega arith) refl (omega arith) (omega arith) printable (omega arith) (omega arith)
      (init_scheduler-IsMlq unset.ready unset-IsArrays)

-- The loader has put its first process into the ready queue.
abbrev loaded : Machine
loaded = record running {
  timer = with_device running.timer 0 (next_slot new_device);
  os = record running.os { ready = (loads.6).next };
  ld = record { i = 1; proc = none; avail_pid = 2 };
}

first_load : Reach (world_of files 280 0 unset config) running loaded
first_load = next begin (loader new_device (start-device 3 0 (omega arith)) refl (loads.7) refl)

main-once_example : copies 1 loaded.os loaded.cpus loaded.ld ≤ 1
main-once_example =
    main-once files 280 0 unset ((99 ∷ []) ∷ []) (world_of files 280 0 unset config) running loaded
      (omega arith) unset-IsArrays running-main (omega arith) first_load 1

-- The first CPU has then taken that process.
abbrev process : Process
process = loads.0

returned : Returned (λ (q : Process). q.prio) 280 running.os.ready process
returned =
    put-get (λ (q : Process). q.prio) 280 running.os.ready process
      (init_scheduler-IsMlq unset.ready unset-IsArrays) (init_scheduler-empty unset.ready)
      (omega (arith, loads.2)) (omega arith)

gets : get_proc 280 loaded.os ≡ done (some process, record loaded.os { ready = returned.next })
gets =
    let same : returned.held ≡ (loads.6).next = cc (returned.puts, (loads.6).returns) in
    get_proc_lem 280 loaded.os (rw (sym same) returned.gets)

abbrev dispatched : Machine
dispatched = record loaded {
  timer = with_device loaded.timer 2 new_device;
  os = record loaded.os { ready = returned.next };
  cpus =
      record { place = Machine.checking; core = record { proc = some process; time_left = pos 0 } }
      ∷ record { place = head; core = idle_core }
      ∷ [];
}

abbrev idle : Cpu
idle = record { place = head; core = idle_core }

dispatches :
    cpu_step 280 0 (pos 2) loaded.os head idle_core
    ≡ done (
      goes_on Machine.checking,
      record { proc = some process; time_left = pos 0 },
      record loaded.os { ready = returned.next },
    )
unfolding cpu_step head_step
dispatches = rw gets refl

dispatch : Reach (world_of files 280 0 unset config) running dispatched
dispatch = next first_load (
    cpu 0 idle new_device {moved = goes_on Machine.checking}
      {core' = record { proc = some process; time_left = pos 0 }} refl
      (get_elem?-set_ne running.timer.dev_list 0 2 (next_slot new_device) (omega arith)
        ∙ start-device 3 2 (omega arith))
      refl dispatches refl)

-- What the process reaches.
abbrev reached : Caller
reached = (pcb dispatched.os process).caller

areas : reached.mm.mmap ≡ first_area ∷ []
areas = ap (λ (m : Mm). m.mmap) (loads.5) ∙ (init_mm_lem (replicate 16384 0) null null).0

symbols : reached.mm.symrgtbl ≡ replicate 30 unused
symbols = ap (λ (m : Mm). m.symrgtbl) (loads.5) ∙ (init_mm_lem (replicate 16384 0) null null).1

symbol : get_elem? reached.mm.symrgtbl 0 ≡ some unused
symbol = ap (λ l. get_elem? l 0) symbols

-- RAM has four frames, of which the allocation takes two.
allocated :
    (c' : Caller) × (pgalloc 280 0 reached 300 0 ≡ done (success, c'))
    × (c'.mm.symrgtbl ≡ set reached.mm.symrgtbl 0 (record unused { rg_start = 0; rg_end = 300 }))
allocated =
    pgalloc-extend 280 0 reached 0 300 unused first_area [] (nothing ∷ []) (0 ∷ 1 ∷ []) (2 ∷ 3 ∷ [])
      [] areas refl (full 300 (omega arith)) (omega arith) symbol (omega arith) (omega arith) refl
      (omega arith) (subst AllOffline (sym table) blank)
      (one_more 0 (1 ∷ []) (omega arith) (one_more 1 [] (omega arith) none_left))
      (init_memphy-frames null [] memory 1024 1 (omega arith))
      (ap (λ (m : Mm). m.lru_pgn) (loads.5) ∙ (init_mm-kept (replicate 16384 0) null null).1)
      (omega arith)
  where
    table : reached.mm.pgd ≡ replicate 16384 0
    table = ap (λ (m : Mm). m.pgd) (loads.5) ∙ (init_mm-kept (replicate 16384 0) null null).0

abbrev behind : Process
behind = record process { pc = (process.pc + 1) % 2 ^ 32; mm = (allocated.0).mm }

abbrev os_behind : Os
os_behind = record dispatched.os {
  mram = (allocated.0).mram;
  active_mswp = (allocated.0).active_mswp;
}

allocates :
    cpu_step 280 0
      (pos 2)
      dispatched.os
      Machine.checking
      (record { proc = some process; time_left = pos 0 })
    ≡ done (turned waits, record { proc = some behind; time_left = pos 1 }, os_behind)
unfolding cpu_step settle
allocates =
    rw
      (recheck-runs 280 0 (pos 2) dispatched.os process
        (record (pcb dispatched.os process) {
          pc = (process.pc + 1) % 2 ^ 32;
          caller = allocated.0;
        })
        (run-alloc 280 0 (pcb dispatched.os process) 300 0 [] (allocated.0) (loads.3) (loads.4)
          (allocated.1)))
      refl

-- The first CPU has run the allocation.
abbrev worked : Machine
worked = record dispatched {
  timer = with_device dispatched.timer 2 (next_slot new_device);
  os = os_behind;
  cpus =
      record { place = head; core = record { proc = some behind; time_left = pos 1 } }
      ∷ record { place = head; core = idle_core }
      ∷ [];
}

first_run : Reach (world_of files 280 0 unset config) running worked
first_run = next dispatch (
    cpu 0
      (record {
        place = Machine.checking;
        core = record { proc = some process; time_left = pos 0 };
      })
      new_device {moved = turned waits} refl
      (get_elem?-set_self loaded.timer.dev_list 2 new_device (
        omega (
          arith,
          length-set running.timer.dev_list 0 (next_slot new_device),
          get_elem?-lt running.timer.dev_list 2 (start-device 3 2 (omega arith)),
        )))
      refl allocates refl)

abbrev program_loaded : ℕ → Loaded
program_loaded n = record { pid = n; priority = 3; code = program; pc = 0; bp = 1024 }

fit_program :
    (avail_pid next_pid : ℕ) (p : Loaded)
    → load scan_lu scan_s calc 0 0 avail_pid (some program_file) ≡ done (some (p, next_pid))
    → FitLoaded p
unfolding scan_lu scan_s settle
fit_program avail_pid next_pid p e =
    let same : program_loaded avail_pid ≡ p = cc (
      sym (
        load-print print_lu print_s scan_lu scan_s (λ n h file. refl) (λ op h file. refl) calc 0 0
          avail_pid 3 program [] (omega arith) (omega arith) printable)
      ∙ e) in
    subst FitLoaded same
      (record { small = record { numbers = numbers; short = omega arith }; room = omega arith })
  where
    numbers :
        (k : ℕ) (ins : Inst)
        → get_elem? program k ≡ some ins
        → Numbers ins.opcode ins.arg_0 ins.arg_1
    numbers zero ins f =
        subst (λ (i : Inst). Numbers i.opcode i.arg_0 i.arg_1) (of_some f)
          (omega arith, omega arith)
    numbers (suc k) ins f = cc

fit_jobs : FitJobs (world_of files 280 0 unset config)
fit_jobs zero job avail_pid next_pid p e f =
    fit_program avail_pid next_pid p (rw (sym (of_some e)) at f)
fit_jobs (suc zero) job avail_pid next_pid p e f =
    fit_program avail_pid next_pid p (rw (sym (of_some e)) at f)
fit_jobs (suc (suc i)) job avail_pid next_pid p e f = cc

-- The first symbol has its 300 bytes then.
main-memory_apart_example :
    ¬ ((0 ≤ 299) × (299 < 300) × (unused.rg_start ≤ 299) × (299 < unused.rg_end))
main-memory_apart_example =
    main-memory_apart files 280 0 unset ((99 ∷ []) ∷ []) (world_of files 280 0 unset config) running
      worked (omega arith) unset-IsArrays (λ i. refl) running-main (omega arith) fit_jobs first_run
      0 (record { place = head; core = record { proc = some behind; time_left = pos 1 } }) behind
      refl refl 0 1 (record unused { rg_start = 0; rg_end = 300 }) unused (omega arith) (at 0 refl)
      (at 1 refl) 299
  where
    at :
        (i : ℕ) {v : Symbol}
        → get_elem? (set (replicate 30 unused) 0 (record unused { rg_start = 0; rg_end = 300 })) i
          ≡ some v
        → get_elem? behind.mm.symrgtbl i ≡ some v
    at i e =
        ap (λ l. get_elem? l i)
          (allocated.2 ∙ ap (λ l. set l 0 (record unused { rg_start = 0; rg_end = 300 })) symbols)
        ∙ e
