-- ===== src/Machine/Each.antt =====
-- What holds of every process while the threads of src/os.c run, their turns overlapping.
use btlos.Prelude.{
  ℕ, ◌*◌, ◌≡◌, ◌≤◌, refl, sym, subst, inl, inr, Option, none, some, done, >>=-eq-done, length,
  Option-cases, Bool-cases, ◌==◌,
}
use btlos.Prelude.Int.{ℤ, pos, is_zero}
use btlos.Sched.{max_prio}
use btlos.Sched.Policy.{IsMlq}
use btlos.Sched.Each.{Each}
use btlos.Cpu.{Stat}
use btlos.Os.{Process, Os, Core, waits, get_proc, put_proc, run_process, recheck}
use btlos.Os.Each.{OnCpu, get_proc-Each, put_proc-Each, recheck-Each}
use btlos.Machine.{Place, head, taking, checking, Moved, goes_on, turned, head_step, cpu_step}

module _ (P : Process → Type 0) (fuel junk : ℕ) (time_slot : ℤ) (enough : 2 * max_prio ≤ fuel)
    (runs : (os os' : Os) (p q : Process) (stat : Stat)
      → P p
      → run_process fuel junk os p ≡ done (stat, q, os')
      → P q × (os'.ready ≡ os.ready)) where
  moved-Held :
      (os1 os2 : Os) (at at' : Moved) (c c' : Core)
      → ◌≡◌ {A = Moved × Core × Os} (at, c, os1) (at', c', os2)
      → Each P os1.ready
      → OnCpu P c.proc
      → Each P os2.ready × OnCpu P c'.proc
  moved-Held os1 os2 at at' c c' e each h =
      subst (λ (r : Moved × Core × Os). Each P (r.2.ready) × OnCpu P (r.1.proc)) e (each, h)

  head_step-Each :
      (os os' : Os) (core core' : Core) (proc : Option Process) {moved : Moved}
      → IsMlq os.ready
      → Each P os.ready
      → core.proc ≡ proc
      → OnCpu P proc
      → head_step fuel os core proc ≡ done (moved, core', os')
      → Each P os'.ready × OnCpu P core'.proc
  unfolding head_step
  head_step-Each os os' core core' none {moved} v each is h e =
      let (r, got, e1) = >>=-eq-done (get_proc fuel os) _ e in
      let (left, took) = get_proc-Each P fuel os (r.1) (r.0) enough v each got in
      elim (Option-cases (r.0)) [
        | inl none_waits ↦
            moved-Held (r.1) os' (turned waits) moved core core' (cc (rw none_waits at e1)) left
              (subst (OnCpu P) (sym is) tt)
        | inr (p, found) ↦
            moved-Held (r.1) os' (goes_on checking) moved (record core { proc = some p }) core'
              (cc (rw found at e1)) left (subst (OnCpu P) found took)
      ]
  head_step-Each os os' core core' (some p) {moved} v each is h e =
      elim (Bool-cases (p.pc == length p.code)) [
        | inl over ↦
            let (r, got, e1) = >>=-eq-done (get_proc fuel os) _ (rw over at e) in
            let (left, took) = get_proc-Each P fuel os (r.1) (r.0) enough v each got in
            moved-Held (r.1) os' (goes_on checking) moved (record { proc = r.0; time_left = pos 0 })
              core' (cc e1) left took
        | inr more ↦ elim (Bool-cases (is_zero core.time_left)) [
          | inl out ↦
              let (os1, puts, e1) = >>=-eq-done (put_proc os p) _ (rw (more, out) at e) in
              moved-Held os1 os' (goes_on taking) moved core core' (cc e1)
                (put_proc-Each P os os1 p v each h puts) (subst (OnCpu P) (sym is) h)
          | inr left ↦
              moved-Held os os' (goes_on checking) moved core core' (cc (rw (more, left) at e)) each
                (subst (OnCpu P) (sym is) h)
        ]
      ]

  pub cpu_step-Each :
      (os os' : Os) (at : Place) (core core' : Core) {moved : Moved}
      → IsMlq os.ready
      → Each P os.ready
      → OnCpu P core.proc
      → cpu_step fuel junk time_slot os at core ≡ done (moved, core', os')
      → Each P os'.ready × OnCpu P core'.proc
  unfolding cpu_step
  cpu_step-Each os os' head core core' v each h e =
      head_step-Each os os' core core' core.proc v each refl h e
  cpu_step-Each os os' taking core core' {moved} v each h e =
      let (r, got, e1) = >>=-eq-done (get_proc fuel os) _ e in
      let (left, took) = get_proc-Each P fuel os (r.1) (r.0) enough v each got in
      moved-Held (r.1) os' (goes_on checking) moved (record core { proc = r.0 }) core' (cc e1) left
        took
  cpu_step-Each os os' checking core core' {moved} v each h e =
      let (r, got, e1) = >>=-eq-done (recheck fuel junk time_slot os core) _ e in
      let (left, has) = recheck-Each P fuel junk time_slot runs os (r.2) core (r.1) each h got in
      moved-Held (r.2) os' (turned (r.0)) moved (r.1) core' (cc e1) left has
