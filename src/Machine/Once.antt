-- ===== src/Machine/Once.antt =====
-- How much of a process the steps of the threads of src/os.c leave, where their turns overlap.
use btlos.Prelude.{
  ℕ, ◌*◌, ◌≡◌, ◌≤◌, refl, ap, subst, inl, inr, Option, none, some, done, >>=-eq-done, arith, length,
  Option-cases, Bool-cases, ◌==◌,
}
use btlos.Prelude.Int.{ℤ, pos, is_zero}
use btlos.Sched.{max_prio}
use btlos.Sched.Policy.{IsMlq}
use btlos.Os.{Process, Os, Core, waits, get_proc, put_proc, recheck}
use btlos.Os.Unique.{is_pid, on_core, Kept, get_proc-Kept, put_proc-Kept, recheck-Kept}
use btlos.Machine.{
  Place, head, taking, checking, Moved, goes_on, turned, place_after, head_step, cpu_step,
}

-- 1 where a CPU has the process with the number `k`: between `put_proc` and `get_proc` it has none.
abbrev pub holds : ℕ → Place → Core → ℕ
holds k head core = on_core k core.proc
holds k taking core = 0
holds k checking core = on_core k core.proc

module _ (fuel junk k : ℕ) (time_slot : ℤ) (enough : 2 * max_prio ≤ fuel) where
  moved-Kept :
      (os os1 os2 : Os) (had : ℕ) (at at' : Moved) (c c' : Core)
      → ◌≡◌ {A = Moved × Core × Os} (at, c, os1) (at', c', os2)
      → Kept fuel junk k time_slot enough os had os1 (holds k (place_after at) c)
      → Kept fuel junk k time_slot enough os had os2 (holds k (place_after at') c')
  moved-Kept os os1 os2 had at at' c c' e kept =
      subst
        (λ (r : Moved × Core × Os).
          Kept fuel junk k time_slot enough os had (r.2) (holds k (place_after (r.0)) (r.1)))
        e kept

  head_step-Kept :
      (os os' : Os) (core core' : Core) (proc : Option Process) {moved : Moved}
      → IsMlq os.ready
      → core.proc ≡ proc
      → head_step fuel os core proc ≡ done (moved, core', os')
      → Kept fuel junk k time_slot enough os
          (on_core k proc)
          os'
          (holds k (place_after moved) core')
  unfolding head_step
  head_step-Kept os os' core core' none {moved} v is e =
      let (r, got, e1) = >>=-eq-done (get_proc fuel os) _ e in
      let kept = get_proc-Kept fuel junk k time_slot enough os (r.1) (r.0) v got in
      elim (Option-cases (r.0)) [
        | inl none_waits ↦
            moved-Kept os (r.1) os' 0 (turned waits) moved core core' (cc (rw none_waits at e1))
              (record {
                valid = kept.valid;
                less = omega (arith, kept.less, ap (on_core k) none_waits, ap (on_core k) is);
              })
        | inr (p, found) ↦
            moved-Kept os (r.1) os' 0 (goes_on checking) moved (record core { proc = some p }) core'
              (cc (rw found at e1))
              (record { valid = kept.valid; less = omega (arith, kept.less, ap (on_core k) found) })
      ]
  head_step-Kept os os' core core' (some p) {moved} v is e =
      elim (Bool-cases (p.pc == length p.code)) [
        | inl over ↦
            let (r, got, e1) = >>=-eq-done (get_proc fuel os) _ (rw over at e) in
            let kept = get_proc-Kept fuel junk k time_slot enough os (r.1) (r.0) v got in
            moved-Kept os (r.1) os' (is_pid k p) (goes_on checking) moved
              (record { proc = r.0; time_left = pos 0 }) core' (cc e1)
              (record { valid = kept.valid; less = omega (arith, kept.less) })
        | inr more ↦ elim (Bool-cases (is_zero core.time_left)) [
          | inl out ↦
              let (os1, puts, e1) = >>=-eq-done (put_proc os p) _ (rw (more, out) at e) in
              moved-Kept os os1 os' (is_pid k p) (goes_on taking) moved core core' (cc e1)
                (put_proc-Kept fuel junk k time_slot enough os os1 p v puts)
          | inr left ↦
              moved-Kept os os os' (is_pid k p) (goes_on checking) moved core core'
                (cc (rw (more, left) at e))
                (record { valid = v; less = omega (arith, ap (on_core k) is) })
        ]
      ]

  -- A step of a CPU leaves no more of process `k` than there was, and well-formed ready queues.
  pub cpu_step-Kept :
      (os os' : Os) (at : Place) (core core' : Core) {moved : Moved}
      → IsMlq os.ready
      → cpu_step fuel junk time_slot os at core ≡ done (moved, core', os')
      → Kept fuel junk k time_slot enough os
          (holds k at core)
          os'
          (holds k (place_after moved) core')
  unfolding cpu_step
  cpu_step-Kept os os' head core core' v e = head_step-Kept os os' core core' core.proc v refl e
  cpu_step-Kept os os' taking core core' {moved} v e =
      let (r, got, e1) = >>=-eq-done (get_proc fuel os) _ e in
      moved-Kept os (r.1) os' 0 (goes_on checking) moved (record core { proc = r.0 }) core' (cc e1)
        (get_proc-Kept fuel junk k time_slot enough os (r.1) (r.0) v got)
  cpu_step-Kept os os' checking core core' {moved} v e =
      let (r, got, e1) = >>=-eq-done (recheck fuel junk time_slot os core) _ e in
      moved-Kept os (r.2) os' (on_core k core.proc) (turned (r.0)) moved (r.1) core' (cc e1)
        (recheck-Kept fuel junk k time_slot enough os (r.2) core (r.1) v got)
