-- ===== src/Machine/Memory.antt =====
-- The memory of the processes while the threads of src/os.c run, their turns overlapping.
use btlos.Prelude.{
  ℕ, ◌*◌, ◌≡◌, ◌≢◌, ◌≤◌, ◌<◌, sym, subst, inl, inr, some, List, done, null, get_elem?,
  get_elem?-set_cases,
}
use btlos.Mm.{Symbol}
use btlos.Sched.{max_prio}
use btlos.Sched.Each.{Each}
use btlos.Timer.{current_time}
use btlos.Loader.{Loaded, load}
use btlos.Os.{Process, Os}
use btlos.Os.Each.{OnCpu}
use btlos.Os.Memory.{
  FitProcess, FitLoaded, run_process-FitProcess, process_of-FitProcess, FitProcess-apart,
}
use btlos.Os.Loading.{Job, Ld}
use btlos.Os.Loading.Each.{OnLoader, ld_slot-Each}
use btlos.Machine.{Cpu, World, Machine, clock, leave, cpu, loader, Reach, begin, next, place_after}
use btlos.Machine.Apart.{Numbered, Reach-Numbered}
use btlos.Machine.Each.{cpu_step-Each}

-- Every process fits, wherever it is.
pub record AllFit (os : Os) (cpus : List Cpu) (ld : Ld) : Type 0 where
  pub ready : Each FitProcess os.ready
  pub running : (i : ℕ) (c : Cpu) → get_elem? cpus i ≡ some c → OnCpu FitProcess c.core.proc
  pub loaded : OnLoader FitProcess FitLoaded ld.proc

-- What the files of the jobs hold are programs that fit.
abbrev pub FitJobs : {Input : Type 0} → World Input → Type 0
FitJobs {Input} w =
    (i : ℕ) (job : Job Input) (avail_pid next_pid : ℕ) (p : Loaded)
    → get_elem? w.jobs i ≡ some job
    → load w.scan_u w.scan_s ((w.garbage i).inst) ((w.garbage i).priority) ((w.garbage i).size)
        avail_pid job.path
      ≡ done (some (p, next_pid))
    → FitLoaded p

module _ {Input : Type 0} (w : World Input) (enough : 2 * max_prio ≤ w.fuel)
    (none_free : (i : ℕ) → (w.garbage i).freerg ≡ null) (programs : FitJobs w) where
  Reach-AllFit :
      (m0 m : Machine)
      → Numbered w m0.os m0.cpus m0.ld
      → AllFit m0.os m0.cpus m0.ld
      → Reach w m0 m
      → AllFit m.os m.cpus m.ld
  Reach-AllFit m0 m v h begin = h
  Reach-AllFit m0 m v h (next {m = m1} r (clock e)) = Reach-AllFit m0 m1 v h r
  Reach-AllFit m0 m v h (next {m = m1} r (leave i d e f g)) = Reach-AllFit m0 m1 v h r
  Reach-AllFit m0 m v h (next {m = m1} r (cpu i c d {moved} {core'} {os'} here at works e f)) =
      let n = Reach-Numbered w enough m0 m1 v r in
      let a = Reach-AllFit m0 m1 v h r in
      let (ready, held) =
        cpu_step-Each FitProcess w.fuel w.junk w.time_slot enough
          (run_process-FitProcess w.fuel w.junk) m1.os os' c.place c.core core' n.queues a.ready
          (a.running i c here) e in
      record {
        ready = ready;
        running = λ j x at_j.
            elim (get_elem?-set_cases m1.cpus i j
              (record { place = place_after moved; core = core' }) at_j) [
                | inl (same, new) ↦ subst (λ (y : Cpu). OnCpu FitProcess y.core.proc) (sym new) held
                | inr (apart, old) ↦ a.running j x old
              ];
        loaded = a.loaded;
      }
  Reach-AllFit m0 m v h (next {m = m1} r (loader d {t} {ld'} {os'} at works e f)) =
      let n = Reach-Numbered w enough m0 m1 v r in
      let a = Reach-AllFit m0 m1 v h r in
      let (ready, held) =
        ld_slot-Each FitProcess FitLoaded w.scan_u w.scan_s w.garbage w.jobs
          (λ i prio p. process_of-FitProcess (w.garbage i) prio p (none_free i)) programs
          (current_time m1.timer) m1.os os' m1.ld ld' n.queues a.ready a.loaded e in
      record { ready = ready; running = a.running; loaded = held }

  -- Two symbols of a process that a CPU has never have an address in common.
  pub memory-apart :
      (m0 m : Machine)
      → Numbered w m0.os m0.cpus m0.ld
      → AllFit m0.os m0.cpus m0.ld
      → Reach w m0 m
      → (k : ℕ) (c : Cpu) (p : Process) → get_elem? m.cpus k ≡ some c
      → c.core.proc ≡ some p
      → (i j : ℕ) (s t : Symbol) → i ≢ j
      → get_elem? p.mm.symrgtbl i ≡ some s
      → get_elem? p.mm.symrgtbl j ≡ some t
      → (x : ℕ) → ¬ ((s.rg_start ≤ x) × (x < s.rg_end) × (t.rg_start ≤ x) × (x < t.rg_end))
  memory-apart m0 m v h r k c p here busy =
      FitProcess-apart p
        (subst (OnCpu FitProcess) busy ((Reach-AllFit m0 m v h r).running k c here)) m.os.mram
