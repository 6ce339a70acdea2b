-- ===== src/Os/Each.antt =====
-- What holds of every process of src/os.c, in the ready queues and on a CPU.
use btlos.Prelude.{
  ℕ, ◌*◌, ◌≡◌, ◌≤◌, sym, subst, ◌∙◌, inl, inr, Option, none, some, done, >>=-eq-done, arith,
  Option-cases, Bool-cases, if◌then◌else◌,
}
use native.Mathlib.Decide.{dec_lt}
use btlos.Prelude.Int.{ℤ, pos, is_zero, ◌-ℤ◌}
use btlos.Sched.{max_prio, queue_empty}
use btlos.Sched.Policy.{IsMlq}
use btlos.Sched.Get.{get_mlq_proc-Turn}
use btlos.Sched.Put.{put_mlq_proc-Put}
use btlos.Sched.Count.{put_mlq_proc-high}
use btlos.Sched.Each.{Each, Put-Each, Turn-Each}
use btlos.Cpu.{Stat}
use btlos.Os.{Process, Os, Core, Turned, get_proc, put_proc, run_process, work, recheck}
use btlos.Os.Idle.{get_proc_lem, put_proc_lem, get_proc-empty}

module _ (P : Process → Type 0) where
  abbrev pub OnCpu : Option Process → Type 0
  OnCpu none = Unit {0}
  OnCpu (some p) = P p

  pub get_proc-Each :
      (fuel : ℕ) (os os' : Os) (next : Option Process)
      → 2 * max_prio ≤ fuel
      → IsMlq os.ready
      → Each P os.ready
      → get_proc fuel os ≡ done (next, os')
      → Each P os'.ready × OnCpu next
  get_proc-Each fuel os os' next enough v each e = elim (Bool-cases (queue_empty os.ready)) [
    | inl empties ↦
        let f = sym (get_proc-empty fuel os empties) ∙ e in
        let same : os ≡ os' = cc f in
        let none_is : none ≡ next = cc f in
        (subst (λ (x : Os). Each P x.ready) same each, subst OnCpu none_is tt)
    | inr some_wait ↦
        let turn = get_mlq_proc-Turn fuel os.ready v some_wait enough in
        let f = sym (get_proc_lem fuel os turn.returns) ∙ e in
        let same : record os { ready = turn.next } ≡ os' = cc f in
        let proc_is : some turn.proc ≡ next = cc f in
        let (took, left) = Turn-Each P os.ready each turn in
        (subst (λ (x : Os). Each P x.ready) same left, subst OnCpu proc_is took)
  ]

  pub put_proc-Each :
      (os os' : Os) (p : Process)
      → IsMlq os.ready
      → Each P os.ready
      → P p
      → put_proc os p ≡ done os'
      → Each P os'.ready
  put_proc-Each os os' p v each h e = elim (dec_lt p.prio max_prio) [
    | yes lt ↦
        let put = put_mlq_proc-Put (λ (q : Process). q.prio) os.ready p v lt in
        let same : record os { ready = put.next } ≡ os' =
          cc (sym (put_proc_lem os p put.returns) ∙ e) in
        subst (λ (x : Os). Each P x.ready) same
          (Put-Each P (λ (q : Process). q.prio) os.ready p each h put)
    | no high ↦
        let same : os ≡ os' = cc (
          sym (
            put_proc_lem os p
              (put_mlq_proc-high (λ (q : Process). q.prio) os.ready p (omega (arith, high))))
          ∙ e) in
        subst (λ (x : Os). Each P x.ready) same each
  ]

  -- `run` keeps `P`.
  module _ (fuel junk : ℕ) (time_slot : ℤ)
      (runs : (os os' : Os) (p q : Process) (stat : Stat)
        → P p
        → run_process fuel junk os p ≡ done (stat, q, os')
        → P q × (os'.ready ≡ os.ready)) where
    work-Each :
        (os os' : Os) (left : ℤ) (p : Process) (core' : Core) {turned : Turned}
        → Each P os.ready
        → P p
        → work fuel junk time_slot os left p ≡ done (turned, core', os')
        → Each P os'.ready × OnCpu core'.proc
    unfolding work
    work-Each os os' left p core' each h e =
        let (r, ran, e1) = >>=-eq-done (run_process fuel junk os p) _ e in
        let (after, same) = runs os (r.2) p (r.1) (r.0) h ran in
        let core_is : record {
          proc = some (r.1);
          time_left = (if is_zero left then time_slot else left) -ℤ pos 1;
        }
            ≡ core' =
          cc e1 in
        let os_is : r.2 ≡ os' = cc e1 in
        (
          subst (λ (x : Os). Each P x.ready) os_is (subst (Each P) (sym same) each),
          subst (λ (c : Core). OnCpu c.proc) core_is after,
        )

    pub recheck-Each :
        (os os' : Os) (core core' : Core) {turned : Turned}
        → Each P os.ready
        → OnCpu core.proc
        → recheck fuel junk time_slot os core ≡ done (turned, core', os')
        → Each P os'.ready × OnCpu core'.proc
    unfolding recheck
    recheck-Each os os' core core' each h e = elim (Option-cases core.proc) [
      | inl idle ↦
          let f = rw idle at e in
          let core_is : record { proc = none; time_left = core.time_left } ≡ core' = cc f in
          let os_is : os ≡ os' = cc f in
          (
            subst (λ (x : Os). Each P x.ready) os_is each,
            subst (λ (c : Core). OnCpu c.proc) core_is tt,
          )
      | inr (p, busy) ↦
          work-Each os os' core.time_left p core' each (subst OnCpu busy h) (rw busy at e)
    ]
