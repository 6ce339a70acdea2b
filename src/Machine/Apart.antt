-- ===== src/Machine/Apart.antt =====
-- No process runs twice, however the turns of the threads of src/os.c overlap.
use btlos.Prelude.{
  ℕ, ◌+◌, ◌*◌, ◌^◌, ◌≡◌, ◌≢◌, ◌≤◌, ◌<◌, refl, sym, ap, ◌∙◌, inl, inr, some, List, done, arith,
  length, get_elem?, set, eq→==, ne→==,
}
use native.Mathlib.Decide.{dec_lt, ℕ_discrete}
use btlos.Prelude.Total.{total, total-set, total-two}
use btlos.Sched.{max_prio}
use btlos.Sched.Policy.{IsMlq}
use btlos.Timer.{current_time}
use btlos.Os.{Process, Os, Core}
use btlos.Os.Unique.{on_core, in_queues}
use btlos.Os.Loading.{Ld}
use btlos.Os.Loading.Fresh.{is_number, on_loader, loads_left, Loads, ld_slot-Loads}
use btlos.Machine.{
  Place, head, taking, checking, Moved, place_after, Cpu, World, Machine, clock, leave, cpu, loader,
  Reach, cpu_step, begin, next,
}
use btlos.Machine.Once.{holds, cpu_step-Kept}

abbrev pub has : ℕ → Cpu → ℕ
has k c = holds k c.place c.core

-- How much there is of process `k`.
abbrev pub copies : ℕ → Os → List Cpu → Ld → ℕ
copies k os cpus ld = in_queues k os + total (has k) cpus + on_loader k ld.proc

-- There is one process of a number at most, and none of a number that the loader has still to give.
pub record Numbered {Input : Type 0} (w : World Input) (os : Os) (cpus : List Cpu) (ld : Ld)
    : Type 0 where
  pub queues : IsMlq os.ready
  pub once : (k : ℕ) → copies k os cpus ld ≤ 1
  pub unused : (k : ℕ) → ld.avail_pid ≤ k → copies k os cpus ld ≡ 0
  pub numbers : ld.avail_pid + loads_left (length w.jobs) ld.i ld.proc < 2 ^ 32

holds_self :
    (k : ℕ) (at : Place) (core : Core) (p : Process)
    → at ≢ taking
    → core.proc ≡ some p
    → p.pid ≡ k
    → holds k at core ≡ 1
holds_self k head core p there e same = ap (on_core k) e ∙ rw (eq→== same) refl
holds_self k taking core p there e same = absurd (there refl)
holds_self k checking core p there e same = ap (on_core k) e ∙ rw (eq→== same) refl

is_number_le : (k n : ℕ) → is_number k n ≤ 1
is_number_le k n = ground arith

is_number-ne : (k n : ℕ) → n ≢ k → is_number k n ≡ 0
is_number-ne k n ne = rw (ne→== ne) refl

module _ {Input : Type 0} (w : World Input) (enough : 2 * max_prio ≤ w.fuel) where
  cpu-Numbered :
      (os os' : Os) (cpus : List Cpu) (ld : Ld) (i : ℕ) (c : Cpu) (moved : Moved) (core' : Core)
      → Numbered w os cpus ld
      → get_elem? cpus i ≡ some c
      → cpu_step w.fuel w.junk w.time_slot os c.place c.core ≡ done (moved, core', os')
      → Numbered w os' (set cpus i (record { place = place_after moved; core = core' })) ld
  cpu-Numbered os os' cpus ld i c moved core' v here e = record {
    queues =
        (cpu_step-Kept w.fuel w.junk 0 w.time_slot enough os os' c.place c.core core' v.queues
          e).valid;
    once = λ k. omega (arith, v.once k, less k);
    unused = λ k h. omega (arith, v.unused k h, less k);
    numbers = v.numbers;
  }
    where
      less :
          (k : ℕ)
          → copies k os' (set cpus i (record { place = place_after moved; core = core' })) ld
            ≤ copies k os cpus ld
      less k = omega (
        arith,
        total-set (has k) cpus i c (record { place = place_after moved; core = core' }) here,
        (cpu_step-Kept w.fuel w.junk k w.time_slot enough os os' c.place c.core core' v.queues
            e).less,
      )

  loader-Numbered :
      (os os' : Os) (cpus : List Cpu) (ld ld' : Ld)
      → Numbered w os cpus ld
      → Loads w.fuel w.junk w.time_slot enough w.scan_u w.scan_s w.garbage w.jobs os ld os' ld'
      → Numbered w os' cpus ld'
  loader-Numbered os os' cpus ld ld' v loads = elim loads.number [
    | inl (same, left, less) ↦ record {
      queues = loads.valid;
      once = λ k. omega (arith, v.once k, less k);
      unused = λ k h. omega (arith, v.unused k (omega (arith, h, same)), less k);
      numbers = omega (arith, v.numbers, same, left);
    }
    | inr (after, left, less) ↦ record {
      queues = loads.valid;
      once = λ k. elim (ℕ_discrete ld.avail_pid k) [
        | yes new ↦
            omega (arith, v.unused k (omega (arith, new)), less k, is_number_le k ld.avail_pid)
        | no old ↦ omega (arith, v.once k, less k, is_number-ne k ld.avail_pid old)
      ];
      unused = λ k h. omega (
        arith,
        v.unused k (omega (arith, h, after, left, v.numbers)),
        less k,
        is_number-ne k ld.avail_pid (λ e. omega (arith, e, h, after, left, v.numbers)),
      );
      numbers = omega (arith, v.numbers, after, left);
    }
  ]

  pub Reach-Numbered :
      (m0 m : Machine) → Numbered w m0.os m0.cpus m0.ld → Reach w m0 m → Numbered w m.os m.cpus m.ld
  Reach-Numbered m0 m v begin = v
  Reach-Numbered m0 m v (next r (clock e)) = Reach-Numbered m0 _ v r
  Reach-Numbered m0 m v (next r (leave i d e f g)) = Reach-Numbered m0 _ v r
  Reach-Numbered m0 m v (next {m = m1} r (cpu i c d {moved} {core'} {os'} here at works e f)) =
      cpu-Numbered m1.os os' m1.cpus m1.ld i c moved core' (Reach-Numbered m0 m1 v r) here e
  Reach-Numbered m0 m v (next {m = m1} r (loader d {t} {ld'} {os'} at works e f)) =
      loader-Numbered m1.os os' m1.cpus m1.ld ld' (Reach-Numbered m0 m1 v r) (
        ld_slot-Loads w.fuel w.junk w.time_slot enough w.scan_u w.scan_s w.garbage w.jobs
          (current_time m1.timer) m1.os os' m1.ld ld' (Reach-Numbered m0 m1 v r).queues e)

  -- However the turns of the threads overlap, from a state in which there is one process of a
  -- number at most and none of a number that is still to be given: two CPUs that are not between
  -- `put_proc` and `get_proc` have processes of different numbers. The loop of `get_mlq_proc` has
  -- fuel for 280 rounds or more.
  pub cpus-apart :
      (m0 m : Machine)
      → Numbered w m0.os m0.cpus m0.ld
      → Reach w m0 m
      → (i j : ℕ) (c d : Cpu) (p q : Process) → i ≢ j
      → get_elem? m.cpus i ≡ some c
      → get_elem? m.cpus j ≡ some d
      → c.place ≢ taking
      → d.place ≢ taking
      → c.core.proc ≡ some p
      → d.core.proc ≡ some q
      → p.pid ≢ q.pid
  cpus-apart m0 m v r i j c d p q ne e f at_c at_d g h same =
      let n = Reach-Numbered m0 m v r in
      let first = holds_self p.pid c.place c.core p at_c g refl in
      let second = holds_self p.pid d.place d.core q at_d h (sym same) in
      elim (dec_lt i j) [
        | yes lt ↦
            omega (arith, first, second, n.once p.pid, total-two (has p.pid) m.cpus i j c d lt e f)
        | no ge ↦ omega (
          arith,
          first,
          second,
          n.once p.pid,
          total-two (has p.pid) m.cpus j i d c (omega (arith, ne, ge)) f e,
        )
      ]
