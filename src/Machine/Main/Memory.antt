-- ===== src/Machine/Main/Memory.antt =====
-- The memory of the processes in what `main` of src/os.c starts.
use btlos.Prelude.{
  ℕ, ◌*◌, ◌^◌, ◌≡◌, ◌≢◌, ◌≤◌, ◌<◌, sym, ap, ◌∙◌, subst, some, List, done, null, length, get_elem?,
  get_elem?-replicate, arith,
}
use btlos.Prelude.Int.{rounds}
use btlos.Memphy.{Memphy}
use btlos.Mm.{Symbol}
use btlos.Sched.{max_prio}
use btlos.Sched.Init.{IsArrays, init_scheduler-waiting}
use btlos.Sched.Each.{All}
use btlos.Loader.{Word}
use btlos.Os.{Process}
use btlos.Os.Each.{OnCpu}
use btlos.Os.Memory.{FitProcess}
use btlos.Config.{Config}
use btlos.Machine.{Cpu, World, Machine, Reach}
use btlos.Machine.Memory.{AllFit, FitJobs, memory-apart}
use btlos.Machine.Main.{Unset, Files, started, main, main-Starts, main-Numbered}

module _ {Input : Type 0} (c : Files Input) where
  started-AllFit :
      (u : Unset) (cfg : Config) (mram mswp : Memphy)
      → (let m = started c u cfg mram mswp in AllFit m.os m.cpus m.ld)
  started-AllFit u cfg mram mswp = record {
    ready = λ p xs e. subst (All FitProcess) (sym (init_scheduler-waiting u.ready p xs e)) tt;
    running = λ i d e.
        subst (λ (x : Cpu). OnCpu FitProcess x.core.proc)
          (sym (get_elem?-replicate (rounds cfg.num_cpus) i e)) tt;
    loaded = tt;
  }

  -- From what `main` starts, however the turns of the threads overlap: two symbols of a process
  -- that a CPU has never have an address in common. The process may have moved between the CPUs and
  -- the queues before. It is for below 2 ^ 31 processes and any number of CPUs, where each program
  -- that a job's file holds has fewer than 2 ^ 32 instructions, allocates less than 2 ^ 31 bytes in
  -- all, names symbols below 2 ^ 31 in its allocations and releases, and the pointer that `init_mm`
  -- leaves unset happens to be NULL. The loop of `get_mlq_proc` has fuel for 280 rounds or more,
  -- and the ready queues are arrays as declared, with `current_prio` at 0.
  pub main-memory_apart :
      (fuel junk : ℕ) (u : Unset) (args : List Word) (w : World Input) (m0 m : Machine)
      → 2 * max_prio ≤ fuel
      → IsArrays u.ready
      → ((i : ℕ) → (u.garbage i).freerg ≡ null)
      → main c fuel junk u args ≡ done (some (w, m0))
      → length w.jobs < 2 ^ 31
      → FitJobs w
      → Reach w m0 m
      → (k : ℕ) (d : Cpu) (p : Process) → get_elem? m.cpus k ≡ some d
      → d.core.proc ≡ some p
      → (i j : ℕ) (s t : Symbol) → i ≢ j
      → get_elem? p.mm.symrgtbl i ≡ some s
      → get_elem? p.mm.symrgtbl j ≡ some t
      → (x : ℕ) → ¬ ((s.rg_start ≤ x) × (x < s.rg_end) × (t.rg_start ≤ x) × (x < t.rg_end))
  main-memory_apart fuel junk u args w m0 m enough v none_free e few programs r =
      let s = main-Starts c fuel junk u args w m0 e in
      let same = ap (λ (x : World Input). x.fuel) s.worlds in
      let garbage = (λ (i : ℕ). ap (λ (x : World Input). (x.garbage i).freerg) s.worlds) in
      memory-apart w (omega (arith, enough, same)) (λ i. sym (garbage i) ∙ none_free i) programs m0
        m (main-Numbered c fuel junk u args w m0 v e few)
        (subst (λ (x : Machine). AllFit x.os x.cpus x.ld) s.machines
          (started-AllFit u s.cfg s.mram s.mswp))
        r
