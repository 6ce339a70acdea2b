-- ===== src/Os/Apart.antt =====
-- Several CPUs of src/os.c that take turns in any order, one whole turn after another.
use btlos.Prelude.{
  ℕ, ◌+◌, ◌*◌, ◌≡◌, ◌≢◌, ◌≤◌, refl, sym, ap, ◌∙◌, some, List, done, arith, get_elem?, set, ◌==◌,
  if◌then◌else◌, eq→==,
}
use native.Mathlib.Decide.{dec_lt}
use btlos.Prelude.Total.{total, total-set, total-two}
use btlos.Prelude.Int.{ℤ}
use btlos.Sched.{max_prio}
use btlos.Sched.Policy.{IsMlq}
use btlos.Os.{Process, Os, Core, Turned, cpu_slot}
use btlos.Os.Unique.{on_core, in_queues, cpu_slot-Kept}

-- What the CPUs share, and the local variables of each.
pub record System : Type 0 where
  pub os : Os
  pub cores : List Core

pub data Turns (fuel junk : ℕ) (time_slot : ℤ) (s0 : System) : System → Type 0 where
  at_start : Turns fuel junk time_slot s0 s0
  turn :
      {s : System} {turned : Turned} {core' : Core} {os' : Os} (i : ℕ) (core : Core)
      → Turns fuel junk time_slot s0 s
      → get_elem? s.cores i ≡ some core
      → cpu_slot fuel junk time_slot s.os core ≡ done (turned, core', os')
      → Turns fuel junk time_slot s0 (record { os = os'; cores = set s.cores i core' })

abbrev pub on_cores : ℕ → List Core → ℕ
on_cores k = total (λ c. on_core k c.proc)

-- Well-formed ready queues, and no two processes with one number.
pub record Distinct (s : System) : Type 0 where
  pub queues : IsMlq s.os.ready
  pub once : (k : ℕ) → in_queues k s.os + on_cores k s.cores ≤ 1

Turns-Distinct :
    {fuel junk : ℕ} {time_slot : ℤ} {s0 s : System}
    → 2 * max_prio ≤ fuel
    → Distinct s0
    → Turns fuel junk time_slot s0 s
    → Distinct s
Turns-Distinct enough v at_start = v
Turns-Distinct {fuel} {junk} {time_slot} enough v
      (turn {s} {turned} {core'} {os'} i core r here e) =
    let w = Turns-Distinct enough v r in
    record {
      queues = (cpu_slot-Kept fuel junk 0 time_slot enough s.os os' core core' w.queues e).valid;
      once = λ k. omega (
        arith,
        w.once k,
        total-set (λ (c : Core). on_core k c.proc) s.cores i core core' here,
        (cpu_slot-Kept fuel junk k time_slot enough s.os os' core core' w.queues e).less,
      );
    }

-- When several CPUs take their turns in any order, one whole turn after another, from a state with
-- well-formed ready queues in which no two processes that wait or run have one number: two CPUs
-- never run processes of one number. Time slots may be any number and processes any programs.
pub cores-apart :
    (fuel junk : ℕ) (time_slot : ℤ) (s0 s : System)
    → 2 * max_prio ≤ fuel
    → Distinct s0
    → Turns fuel junk time_slot s0 s
    → (i j : ℕ) (c d : Core) (p q : Process) → i ≢ j
    → get_elem? s.cores i ≡ some c
    → get_elem? s.cores j ≡ some d
    → c.proc ≡ some p
    → d.proc ≡ some q
    → p.pid ≢ q.pid
cores-apart fuel junk time_slot s0 s enough v r i j c d p q ne e f g h same =
    let w = Turns-Distinct enough v r in
    let first : on_core p.pid c.proc ≡ 1 = ap (on_core p.pid) g ∙ is_one p.pid refl in
    let second : on_core p.pid d.proc ≡ 1 = ap (on_core p.pid) h ∙ is_one q.pid (sym same) in
    elim (dec_lt i j) [
      | yes lt ↦ omega (
        arith,
        first,
        second,
        w.once p.pid,
        total-two (λ (c : Core). on_core p.pid c.proc) s.cores i j c d lt e f,
      )
      | no ge ↦ omega (
        arith,
        first,
        second,
        w.once p.pid,
        total-two (λ (c : Core). on_core p.pid c.proc) s.cores j i d c (omega (arith, ne, ge)) f e,
      )
    ]
  where
    is_one : (n : ℕ) → n ≡ p.pid → Path ℕ (if n == p.pid then 1 else 0) 1
    is_one n at = rw (eq→== at) refl
