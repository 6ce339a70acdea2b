-- ===== src/Machine/Main.antt =====
-- `main` of src/os.c up to the start of the threads, and what holds whenever they run.
pub mod Memory
use btlos.Prelude.{
  ℕ, zero, suc, ◌+◌, ◌*◌, ◌^◌, ◌≡◌, ◌≤◌, ◌<◌, refl, sym, ap, subst, Bool, true, false, Option, none,
  some, List, [], ◌∷◌, ◌++◌, Outcome, done, fault, ◌>>=◌, >>=-eq-done, deref, Chain, arith, length,
  get_elem?, replicate, length-replicate, ltb, lt→ltb, if◌then◌else◌,
}
use btlos.Prelude.Int.{ℤ, pos, negsuc, rounds}
use btlos.Prelude.Total.{total}
use btlos.Memphy.{Memphy, init_memphy}
use btlos.Sched.{Mlq, max_prio, init_scheduler}
use btlos.Sched.Init.{IsArrays, init_scheduler-IsMlq, init_scheduler-total}
use btlos.Timer
use btlos.Loader.{Word}
use btlos.Os.{Process, idle_core}
use btlos.Os.Unique.{is_pid}
use btlos.Os.Loading.{Job, Garbage}
use btlos.Config.{Entry, Config, path_size, read_config}
use btlos.Machine.{head, World, Machine, Reach}
use btlos.Machine.Apart.{has, copies, Numbered, Reach-Numbered}
use btlos.Machine.Lockstep.{Reach-timer}

-- "input/"
abbrev pub input_folder : Word
input_folder = 105 ∷ 110 ∷ 112 ∷ 117 ∷ 116 ∷ 47 ∷ []

-- What is in memory before it is set: the arrays of the ready queues, a device, the pointer behind the only frame
-- of a device, the bytes of a device of a size, a priority, and what
-- `ld_routine` allocates for a job.
pub record Unset : Type 0 where
  pub ready : Mlq Process
  pub device : Memphy
  pub next_fp : Chain ℕ
  pub bytes : ℕ → List ℕ
  pub prio : ℕ
  pub garbage : ℕ → Garbage

-- The C library: `fopen`, and the conversions `%d`, `%lu`, `%u` and `%s` of `fscanf`.
pub record Files (Input : Type 0) : Type 0 where
  pub open_file : Word → Option Input
  pub scan_d : Input → Option ℤ × Input
  pub scan_lu : Input → Option ℕ × Input
  pub scan_u : Input → Option ℕ × Input
  pub scan_s : Input → Option Word × Input

-- `init_memphy` of a device of random access. With a negative size, for which `malloc` gives NULL, there is no frame
-- and every access is refused, as with the size 0.
memory_device : Unset → ℤ → Memphy
memory_device u (pos size) = init_memphy u.next_fp (u.bytes size) u.device size 1
memory_device u (negsuc size) = init_memphy u.next_fp [] u.device 0 1

guarded :
    {A : Type 0} (b : Bool) (x : Outcome A) {r : A} → (if b then x else fault) ≡ done r → x ≡ done r
guarded true x e = e
guarded false x e = cc

idle-total : (k n : ℕ) → total (has k) (replicate n (record { place = head; core = idle_core })) ≡ 0
idle-total k zero = refl
idle-total k (suc n) = omega (arith, idle-total k n)

module _ {Input : Type 0} (c : Files Input) where
  abbrev pub jobs_of : List Entry → List (Job Input)
  jobs_of [] = []
  jobs_of (e ∷ es) =
      record { path = c.open_file e.path; start_time = e.start_time; prio = e.prio } ∷ jobs_of es

  -- What does not change while the threads run. `fuel` and `junk` are those of the model.
  abbrev pub world_of : ℕ → ℕ → Unset → Config → World Input
  world_of fuel junk u cfg = record {
    fuel = fuel;
    junk = junk;
    time_slot = cfg.time_slot;
    scan_u = c.scan_u;
    scan_s = c.scan_s;
    garbage = u.garbage;
    jobs = jobs_of cfg.ld_processes;
  }

  -- The state when the threads start. Of the devices for swap only the first is reached by any.
  abbrev pub started : Unset → Config → Memphy → Memphy → Machine
  started u cfg mram mswp = record {
    timer = Timer.start (rounds cfg.num_cpus + 1);
    os = record { ready = init_scheduler u.ready; mram = mram; active_mswp = mswp; done = false };
    cpus = replicate (rounds cfg.num_cpus) (record { place = head; core = idle_core });
    ld = record { i = 0; proc = none; avail_pid = 1 };
  }

  start_threads : ℕ → ℕ → Unset → Config → Outcome (Option (World Input × Machine))
  start_threads fuel junk u cfg = do
    size ← deref (get_elem? cfg.memswpsz 0)
    done (
        some (
          world_of fuel junk u cfg,
          started u cfg (memory_device u cfg.memramsz) (memory_device u size),
        ))

  -- `main` behind `read_config`.
  with_config : ℕ → ℕ → Unset → Option Config → Outcome (Option (World Input × Machine))
  with_config fuel junk u none = done none
  with_config fuel junk u (some cfg) = start_threads fuel junk u cfg

  -- `main` with the arguments behind the program's name; `none` is its end before the threads start.
  pub main : ℕ → ℕ → Unset → List Word → Outcome (Option (World Input × Machine))
  main fuel junk u [] = done none
  main fuel junk u (arg ∷ more ∷ rest) = done none
  main fuel junk u (arg ∷ []) =
      if ltb (length (input_folder ++ arg)) path_size
      then (do
        cfg ← read_config c.scan_d c.scan_lu c.scan_s u.prio (c.open_file (input_folder ++ arg))
        with_config fuel junk u cfg)
      else fault

  -- What `main` starts from a configuration that is read.
  pub main_lem :
      (fuel junk : ℕ) (u : Unset) (arg : Word) (cfg : Config) (ram swap : ℕ)
      → length arg < 94
      → read_config c.scan_d c.scan_lu c.scan_s u.prio (c.open_file (input_folder ++ arg))
        ≡ done (some cfg)
      → cfg.memramsz ≡ pos ram
      → get_elem? cfg.memswpsz 0 ≡ some (pos swap)
      → main fuel junk u (arg ∷ [])
        ≡ done (
            some (
              world_of fuel junk u cfg,
              started u cfg
                  (init_memphy u.next_fp (u.bytes ram) u.device ram 1)
                  (init_memphy u.next_fp (u.bytes swap) u.device swap 1),
            ))
  unfolding main with_config start_threads memory_device
  main_lem fuel junk u arg cfg ram swap short reads ram_size swap_size =
      rw
        (
          lt→ltb {a = length (input_folder ++ arg)} {b = path_size} (omega (arith, short)),
          reads,
          ram_size,
          swap_size,
          memory_device,
        )
        refl

  -- A machine that `main` starts.
  record Starts (fuel junk : ℕ) (u : Unset) (w : World Input) (m : Machine) : Type 0 where
    cfg : Config
    mram : Memphy
    mswp : Memphy
    worlds : world_of fuel junk u cfg ≡ w
    machines : started u cfg mram mswp ≡ m

  start_threads-Starts :
      (fuel junk : ℕ) (u : Unset) (cfg : Config) (w : World Input) (m : Machine)
      → start_threads fuel junk u cfg ≡ done (some (w, m))
      → Starts fuel junk u w m
  unfolding start_threads
  start_threads-Starts fuel junk u cfg w m e =
      let (size, b, e2) = >>=-eq-done (deref (get_elem? cfg.memswpsz 0)) _ e in
      record {
        cfg = cfg;
        mram = memory_device u cfg.memramsz;
        mswp = memory_device u size;
        worlds = cc e2;
        machines = cc e2;
      }

  with_config-Starts :
      (fuel junk : ℕ) (u : Unset) (cfg : Option Config) (w : World Input) (m : Machine)
      → with_config fuel junk u cfg ≡ done (some (w, m))
      → Starts fuel junk u w m
  unfolding with_config
  with_config-Starts fuel junk u none w m e = cc
  with_config-Starts fuel junk u (some cfg) w m e = start_threads-Starts fuel junk u cfg w m e

  main-Starts :
      (fuel junk : ℕ) (u : Unset) (args : List Word) (w : World Input) (m : Machine)
      → main fuel junk u args ≡ done (some (w, m))
      → Starts fuel junk u w m
  unfolding main
  main-Starts fuel junk u [] w m e = cc
  main-Starts fuel junk u (arg ∷ more ∷ rest) w m e = cc
  main-Starts fuel junk u (arg ∷ []) w m e =
      let (cfg, reads, f) =
        >>=-eq-done
          (read_config c.scan_d c.scan_lu c.scan_s u.prio (c.open_file (input_folder ++ arg)))
          (with_config fuel junk u)
          (guarded (ltb (length (input_folder ++ arg)) path_size)
            (read_config c.scan_d c.scan_lu c.scan_s u.prio (c.open_file (input_folder ++ arg))
              >>= with_config fuel junk u)
            e) in
      with_config-Starts fuel junk u cfg w m f

  started-Numbered :
      (fuel junk : ℕ) (u : Unset) (cfg : Config) (mram mswp : Memphy)
      → IsArrays u.ready
      → length (jobs_of cfg.ld_processes) < 2 ^ 31
      → let m = started u cfg mram mswp in Numbered (world_of fuel junk u cfg) m.os m.cpus m.ld
  started-Numbered fuel junk u cfg mram mswp v few = record {
    queues = init_scheduler-IsMlq u.ready v;
    once = λ k. omega (arith, none_yet k);
    unused = λ k h. omega (arith, none_yet k);
    numbers = omega (arith, few);
  }
    where
      none_yet : (k : ℕ) → let m = started u cfg mram mswp in copies k m.os m.cpus m.ld ≡ 0
      none_yet k =
          omega (arith, init_scheduler-total (is_pid k) u.ready, idle-total k (rounds cfg.num_cpus))

  main-Numbered :
      (fuel junk : ℕ) (u : Unset) (args : List Word) (w : World Input) (m0 : Machine)
      → IsArrays u.ready
      → main fuel junk u args ≡ done (some (w, m0))
      → length w.jobs < 2 ^ 31
      → Numbered w m0.os m0.cpus m0.ld
  main-Numbered fuel junk u args w m0 v e few =
      let s = main-Starts fuel junk u args w m0 e in
      subst (λ (m : Machine). Numbered w m.os m.cpus m.ld) s.machines
        (subst
          (λ (x : World Input).
            length x.jobs < 2 ^ 31
            → (let m = started u s.cfg s.mram s.mswp in Numbered x m.os m.cpus m.ld))
          s.worlds (started-Numbered fuel junk u s.cfg s.mram s.mswp v) few)

  -- From what `main` starts, with any number of CPUs and below 2 ^ 31 processes to load, and
  -- however the turns of the CPUs, of the loader and the steps of the clock overlap: there is one
  -- process of a number at most, counted over the ready queues, the CPUs and the loader. Between
  -- `put_proc` and `get_proc` a CPU is counted without a process. The loop of `get_mlq_proc` has
  -- fuel for 280 rounds or more, and the ready queues are arrays as declared, with `current_prio`
  -- at 0.
  pub main-once :
      (fuel junk : ℕ) (u : Unset) (args : List Word) (w : World Input) (m0 m : Machine)
      → 2 * max_prio ≤ fuel
      → IsArrays u.ready
      → main fuel junk u args ≡ done (some (w, m0))
      → length w.jobs < 2 ^ 31
      → Reach w m0 m
      → (k : ℕ) → copies k m.os m.cpus m.ld ≤ 1
  main-once fuel junk u args w m0 m enough v e few r =
      let same = ap (λ (x : World Input). x.fuel) (main-Starts fuel junk u args w m0 e).worlds in
      (Reach-Numbered w (omega (arith, enough, same)) m0 m
        (main-Numbered fuel junk u args w m0 v e few) r).once

  -- Whatever the threads that `main` starts do, the clock and the threads as its devices, one more
  -- than there are CPUs, only make the steps of src/timer.c: so what is shown of these holds of the
  -- whole program.
  pub main-timer :
      (fuel junk : ℕ) (u : Unset) (args : List Word) (w : World Input) (m0 m : Machine)
      → main fuel junk u args ≡ done (some (w, m0))
      → Reach w m0 m
      → Timer.Reach (length m0.cpus + 1) m.timer
  main-timer fuel junk u args w m0 m e r =
      let s = main-Starts fuel junk u args w m0 e in
      Reach-timer w (length m0.cpus + 1) m0 m
        (subst (λ (x : Machine). Timer.Reach (length x.cpus + 1) x.timer) s.machines
          (subst (λ n. Timer.Reach (n + 1) (Timer.start (rounds s.cfg.num_cpus + 1)))
            (sym (
              length-replicate (rounds s.cfg.num_cpus) (record { place = head; core = idle_core })))
            Timer.begin))
        r
