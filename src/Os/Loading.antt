-- ===== src/Os/Loading.antt =====
-- `ld_routine` of src/os.c: one turn of the thread, from one `next_slot` to the next.
pub mod Fresh
pub mod Each
use btlos.Prelude.{
  ℕ, ◌+◌, ◌%◌, ◌^◌, ◌≡◌, ◌≢◌, ◌≤◌, ◌<◌, refl, ap, arith, ◌∙◌, true, Option, none, some, List,
  Outcome, done, ◌>>=◌, deref, Chain, length, get_elem?, ltb, le→ltb, lt→ltb, if◌then◌else◌,
}
use btlos.Mm.{Region, init_mm}
use btlos.Sched.{max_prio, put_mlq_proc}
use btlos.Sched.Policy.{IsMlq}
use btlos.Sched.Put.{Put, put_mlq_proc-Put}
use btlos.Cpu.{Opcode, other, Inst}
use btlos.Loader.{Word, Loaded, load}
use btlos.Loader.Print.{Printable, settle, print, opcode_name, load-print}
use btlos.Os.{Process, Os, Turned, waits, detaches, exits, put_proc}
use btlos.Os.Idle.{put_proc_lem}

-- An entry of the arrays of `ld_processes`, with what `fopen` gives for its path.
pub record Job (Input : Type 0) : Type 0 where
  pub path : Option Input
  pub start_time : ℕ
  pub prio : ℕ

-- The local variables of `ld_routine`, with `avail_pid`. `proc` is the process that is loaded and waits for
-- its time, if there is one.
pub record Ld : Type 0 where
  pub i : ℕ
  pub proc : Option Loaded
  pub avail_pid : ℕ

-- What the memory from `malloc` holds: of an instruction, of the fields that `fscanf` may leave, and of an
-- `mm_struct`.
pub record Garbage : Type 0 where
  pub inst : Inst
  pub priority : ℕ
  pub size : ℕ
  pub pgd : List ℕ
  pub freerg : Chain Region
  pub lru : Chain ℕ

-- The process that is put into the ready queue. `prio` of the job is an `unsigned long`, that of the process an
-- `uint32_t`.
abbrev pub process_of : Garbage → ℕ → Loaded → Process
process_of g prio p = record {
  pid = p.pid;
  prio = prio % 2 ^ 32;
  code = p.code;
  pc = p.pc;
  mm = init_mm g.pgd g.freerg g.lru;
}

-- The loop body behind `load`, up to the next `next_slot`.
pub admit :
    {Input : Type 0} → Garbage → ℕ → Os → Ld → Job Input → Loaded → Outcome (Turned × Ld × Os)
admit g now os ld job p =
    if ltb now job.start_time then done (waits, record ld { proc = some p }, os) else (do
      os1 ← put_proc os (process_of g job.prio p)
      done (waits, record ld { i = ld.i + 1; proc = none }, os1))

module _ {Input : Type 0} (scan_u : Input → Option ℕ × Input)
    (scan_s : Input → Option Word × Input) where
  -- One turn at the time `now`, where `jobs` are the `num_processes` entries, and `g i` is what memory from `malloc`
  -- holds while job `i` is loaded.
  pub ld_slot : (ℕ → Garbage) → List (Job Input) → ℕ → Os → Ld → Outcome (Turned × Ld × Os)
  ld_slot g jobs now os ld =
      if ltb ld.i (length jobs)
      then (do
        job ← deref (get_elem? jobs ld.i)
        elim ld.proc [
          | some p ↦ admit (g ld.i) now os ld job p
          | none ↦ do
            loaded ←
                load scan_u scan_s ((g ld.i).inst) ((g ld.i).priority) ((g ld.i).size) ld.avail_pid
                  job.path
            elim loaded [
              | none ↦ done (exits, ld, os)
              | some (p, next_pid) ↦
                  admit (g ld.i) now os (record ld { avail_pid = next_pid }) job p
            ]
        ])
      else done (detaches, ld, record os { done = true })

pub admit-Put :
    {Input : Type 0} (g : Garbage) (now : ℕ) (os : Os) (ld : Ld) (job : Job Input) (p : Loaded)
    → IsMlq os.ready
    → job.prio < max_prio
    → job.start_time ≤ now
    → (put : Put
        (λ (q : Process). q.prio)
        os.ready
        (process_of g job.prio p)
        (put_mlq_proc (λ q. q.prio) os.ready (process_of g job.prio p)))
      × (admit g now os ld job p
          ≡ done (waits, record ld { i = ld.i + 1; proc = none }, record os { ready = put.next }))
unfolding admit
admit-Put g now os ld job p v lt due =
    let put =
      put_mlq_proc-Put (λ (q : Process). q.prio) os.ready (process_of g job.prio p) v
        (omega (arith, lt)) in
    (
      put,
      rw
          (
            le→ltb {a = now} {b = job.start_time} due,
            put_proc_lem os (process_of g job.prio p) put.returns,
          )
          refl,
    )

-- The arguments are those of the printer and of the conversions that read it back.
module _ {Input : Type 0} (print_u : ℕ → Input → Input) (print_s : Word → Input → Input)
    (scan_u : Input → Option ℕ × Input) (scan_s : Input → Option Word × Input)
    (number : (n : ℕ) → n < 2 ^ 32 → (file : Input) → scan_u (print_u n file) ≡ (some n, file))
    (word : (op : Opcode)
      → op ≢ other
      → (file : Input)
      → scan_s (print_s (opcode_name op) file) ≡ (some (opcode_name op), file)) where
  -- A turn of the loader at a job whose time has come, of a priority below 140, reads the program
  -- from its file and puts a process of it, at its first instruction, with the next free number and
  -- its memory initialised by `init_mm`, at the end of the ready queue of the job's priority,
  -- unless that is full with nine; then the loader goes on to the next job.
  pub ld_slot-adds :
      (g : ℕ → Garbage) (jobs : List (Job Input)) (job : Job Input) (now : ℕ) (os : Os)
      (i avail_pid : ℕ) (priority : ℕ) (code : List Inst) (file : Input)
      → get_elem? jobs i ≡ some job
      → i < length jobs
      → job.path ≡ some (print print_u print_s priority code file)
      → priority < 2 ^ 32
      → length code < 2 ^ 32
      → ((k : ℕ) (ins : Inst) → get_elem? code k ≡ some ins → Printable ins)
      → job.prio < max_prio
      → job.start_time ≤ now
      → IsMlq os.ready
      → (p : Process) × (p.pid ≡ avail_pid)
        × (p.prio ≡ job.prio)
        × (p.pc ≡ 0)
        × (p.code ≡ settle ((g i).inst) code)
        × (p.mm ≡ init_mm ((g i).pgd) ((g i).freerg) ((g i).lru))
        × (put : Put (λ (q : Process). q.prio) os.ready p (put_mlq_proc (λ q. q.prio) os.ready p))
        × (ld_slot scan_u scan_s g jobs now os
              (record { i = i; proc = none; avail_pid = avail_pid })
            ≡ done (
              waits,
              record { i = i + 1; proc = none; avail_pid = (avail_pid + 1) % 2 ^ 32 },
              record os { ready = put.next },
            ))
  unfolding ld_slot
  ld_slot-adds g jobs job now os i avail_pid priority code file here inside opens fits short all
        prio due v =
      let loaded : Loaded = record {
        pid = avail_pid;
        priority = priority;
        code = settle ((g i).inst) code;
        pc = 0;
        bp = 2 ^ 10;
      } in
      let next_ld : Ld = record { i = i; proc = none; avail_pid = (avail_pid + 1) % 2 ^ 32 } in
      let reads =
        ap (load scan_u scan_s ((g i).inst) ((g i).priority) ((g i).size) avail_pid) opens
        ∙ load-print print_u print_s scan_u scan_s number word ((g i).inst) ((g i).priority)
            ((g i).size) avail_pid priority code file fits short all in
      let (put, e) = admit-Put (g i) now os next_ld job loaded v prio due in
      (
        process_of (g i) job.prio loaded,
        refl,
        omega (arith, prio),
        refl,
        refl,
        refl,
        put,
        rw (lt→ltb inside, here, reads) e,
      )
