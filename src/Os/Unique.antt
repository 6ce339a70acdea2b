-- ===== src/Os/Unique.antt =====
-- Several CPUs of src/os.c that take turns in any order.
use btlos.Prelude.{
  ℕ, ◌+◌, ◌*◌, ◌≡◌, ◌≤◌, refl, sym, subst, ap, ◌∙◌, inl, inr, Option, none, some, done, >>=-eq-done,
  arith, length, Option-cases, Bool-cases, ◌==◌, if◌then◌else◌,
}
use native.Mathlib.Decide.{dec_lt}
use btlos.Prelude.Int.{ℤ, pos, is_zero, ◌-ℤ◌}
use btlos.Sched.{max_prio, queue_empty}
use btlos.Sched.Policy.{IsMlq}
use btlos.Sched.Get.{get_mlq_proc-Turn}
use btlos.Sched.Put.{put_mlq_proc-Put}
use btlos.Sched.Count.{total_queues, Put-total, Turn-total, put_mlq_proc-high}
use btlos.Cpu.{run}
use btlos.Os.{
  Process, Os, Core, Turned, get_proc, put_proc, pcb, run_process, renew, work, recheck, cpu_slot,
}
use btlos.Os.Idle.{get_proc_lem, put_proc_lem, get_proc-empty}

-- 1 for the process with the number `k`.
abbrev pub is_pid : ℕ → Process → ℕ
is_pid k p = if p.pid == k then 1 else 0

abbrev pub on_core : ℕ → Option Process → ℕ
on_core k none = 0
on_core k (some p) = is_pid k p

abbrev pub in_queues : ℕ → Os → ℕ
in_queues k os = total_queues (is_pid k) os.ready.queues

module _ (fuel junk k : ℕ) (time_slot : ℤ) (enough : 2 * max_prio ≤ fuel) where
  -- The ready queues stay well formed, and there is no more of process `k` than before.
  pub record Kept (os : Os) (had : ℕ) (os' : Os) (has : ℕ) : Type 0 where
    pub valid : IsMlq os'.ready
    pub less : in_queues k os' + has ≤ in_queues k os + had

  pub get_proc-Kept :
      (os os' : Os) (next : Option Process)
      → IsMlq os.ready
      → get_proc fuel os ≡ done (next, os')
      → Kept os 0 os' (on_core k next)
  get_proc-Kept os os' next v e = elim (Bool-cases (queue_empty os.ready)) [
    | inl empties ↦
        let f = sym (get_proc-empty fuel os empties) ∙ e in
        let same : os ≡ os' = cc f in
        let none_is : none ≡ next = cc f in
        subst (λ o. Kept os 0 os' (on_core k o)) none_is
          (subst (λ x. Kept os 0 x 0) same (record { valid = v; less = omega arith }))
    | inr some_wait ↦
        let turn = get_mlq_proc-Turn fuel os.ready v some_wait enough in
        let f = sym (get_proc_lem fuel os turn.returns) ∙ e in
        let same : record os { ready = turn.next } ≡ os' = cc f in
        let proc_is : some turn.proc ≡ next = cc f in
        subst (λ o. Kept os 0 os' (on_core k o)) proc_is
          (subst (λ x. Kept os 0 x (is_pid k turn.proc)) same
            (record {
              valid = turn.valid;
              less = omega (arith, Turn-total (is_pid k) os.ready v turn);
            }))
  ]

  pub put_proc-Kept :
      (os os' : Os) (p : Process)
      → IsMlq os.ready
      → put_proc os p ≡ done os'
      → Kept os (is_pid k p) os' 0
  put_proc-Kept os os' p v e = elim (dec_lt p.prio max_prio) [
    | yes lt ↦
        let put = put_mlq_proc-Put (λ (q : Process). q.prio) os.ready p v lt in
        let same : record os { ready = put.next } ≡ os' =
          cc (sym (put_proc_lem os p put.returns) ∙ e) in
        subst (λ x. Kept os (is_pid k p) x 0) same
          (record {
            valid = put.valid;
            less = omega (arith, Put-total (is_pid k) (λ (q : Process). q.prio) os.ready p v put);
          })
    | no high ↦
        let same : os ≡ os' = cc (
          sym (
            put_proc_lem os p
              (put_mlq_proc-high (λ (q : Process). q.prio) os.ready p (omega (arith, high))))
          ∙ e) in
        subst (λ x. Kept os (is_pid k p) x 0) same (record { valid = v; less = omega arith })
  ]

  work-Kept :
      (os os' : Os) (left : ℤ) (p : Process) (core' : Core) {turned : Turned}
      → IsMlq os.ready
      → work fuel junk time_slot os left p ≡ done (turned, core', os')
      → Kept os (is_pid k p) os' (on_core k core'.proc)
  unfolding work run_process
  work-Kept os os' left p core' v e =
      let (r, ran, e1) = >>=-eq-done (run_process fuel junk os p) _ e in
      let (q, did, e2) = >>=-eq-done (run fuel junk (pcb os p)) _ ran in
      let proc_is : record p { pc = q.1.pc; mm = q.1.caller.mm } ≡ r.1 = cc e2 in
      let os_is : record os { mram = q.1.caller.mram; active_mswp = q.1.caller.active_mswp } ≡ r.2 =
        cc e2 in
      let core_is : record {
        proc = some (r.1);
        time_left = (if is_zero left then time_slot else left) -ℤ pos 1;
      }
          ≡ core' =
        cc e1 in
      let out_is : r.2 ≡ os' = cc e1 in
      subst (λ (c : Core). Kept os (is_pid k p) os' (on_core k c.proc)) core_is
        (subst (λ x. Kept os (is_pid k p) os' (is_pid k x)) proc_is
          (subst (λ x. Kept os (is_pid k p) x (is_pid k p)) (os_is ∙ out_is)
            (record { valid = v; less = omega arith })))

  pub recheck-Kept :
      (os os' : Os) (core core' : Core) {turned : Turned}
      → IsMlq os.ready
      → recheck fuel junk time_slot os core ≡ done (turned, core', os')
      → Kept os (on_core k core.proc) os' (on_core k core'.proc)
  unfolding recheck
  recheck-Kept os os' core core' v e = elim (Option-cases core.proc) [
    | inl idle ↦
        let f = rw idle at e in
        let core_is : record { proc = none; time_left = core.time_left } ≡ core' = cc f in
        let os_is : os ≡ os' = cc f in
        subst (λ (c : Core). Kept os (on_core k core.proc) os' (on_core k c.proc)) core_is
          (subst (λ x. Kept os (on_core k core.proc) x 0) os_is
            (record { valid = v; less = omega arith }))
    | inr (p, busy) ↦
        subst (λ o. Kept os (on_core k o) os' (on_core k core'.proc)) (sym busy)
          (work-Kept os os' core.time_left p core' v (rw busy at e))
  ]

  renew-Kept :
      (os os' : Os) (core core' : Core) (p : Process)
      → IsMlq os.ready
      → core.proc ≡ some p
      → renew fuel os core p ≡ done (core', os')
      → Kept os (is_pid k p) os' (on_core k core'.proc)
  unfolding renew
  renew-Kept os os' core core' p v busy e = elim (Bool-cases (p.pc == length p.code)) [
    | inl over ↦
        let (r, got, e1) = >>=-eq-done (get_proc fuel os) _ (rw over at e) in
        let core_is : record { proc = r.0; time_left = pos 0 } ≡ core' = cc e1 in
        let os_is : r.1 ≡ os' = cc e1 in
        let kept = get_proc-Kept os (r.1) (r.0) v got in
        returned os os' (r.1) _ core' os_is core_is
          (record { valid = kept.valid; less = omega (arith, kept.less) })
    | inr more ↦ elim (Bool-cases (is_zero core.time_left)) [
      | inl out ↦
          let (os1, puts, e1) = >>=-eq-done (put_proc os p) _ (rw (more, out) at e) in
          let (r, got, e2) = >>=-eq-done (get_proc fuel os1) _ e1 in
          let core_is : record { proc = r.0; time_left = core.time_left } ≡ core' = cc e2 in
          let os_is : r.1 ≡ os' = cc e2 in
          let back = put_proc-Kept os os1 p v puts in
          let kept = get_proc-Kept os1 (r.1) (r.0) back.valid got in
          returned os os' (r.1) _ core' os_is core_is
            (record { valid = kept.valid; less = omega (arith, kept.less, back.less) })
      | inr left ↦
          let f = rw (more, left) at e in
          let core_is : core ≡ core' = cc f in
          let os_is : os ≡ os' = cc f in
          returned os os' os core core' os_is core_is
            (record { valid = v; less = rw busy (omega arith) })
    ]
  ]
    where
      returned :
          (os os' x : Os) (c core' : Core)
          → x ≡ os'
          → c ≡ core'
          → Kept os (is_pid k p) x (on_core k c.proc)
          → Kept os (is_pid k p) os' (on_core k core'.proc)
      returned os os' x c core' f g kept =
          subst (λ (c : Core). Kept os (is_pid k p) os' (on_core k c.proc)) g
            (subst (λ y. Kept os (is_pid k p) y (on_core k c.proc)) f kept)

  pub cpu_slot-Kept :
      (os os' : Os) (core core' : Core) {turned : Turned}
      → IsMlq os.ready
      → cpu_slot fuel junk time_slot os core ≡ done (turned, core', os')
      → Kept os (on_core k core.proc) os' (on_core k core'.proc)
  unfolding cpu_slot
  cpu_slot-Kept os os' core core' v e = elim (Option-cases core.proc) [
    | inl idle ↦
        let (r, got, e1) = >>=-eq-done (get_proc fuel os) _ (rw idle at e) in
        let first = get_proc-Kept os (r.1) (r.0) v got in
        elim (Option-cases (r.0)) [
          | inl none_waits ↦
              let f = rw none_waits at e1 in
              let core_is : record { proc = none; time_left = core.time_left } ≡ core' = cc f in
              let os_is : r.1 ≡ os' = cc f in
              subst (λ (c : Core). Kept os (on_core k core.proc) os' (on_core k c.proc)) core_is
                (subst (λ x. Kept os (on_core k core.proc) x 0) os_is
                  (record { valid = first.valid; less = omega (arith, first.less) }))
          | inr (p, found) ↦
              let second =
                recheck-Kept (r.1) os' (record core { proc = some p }) core' first.valid
                  (rw found at e1) in
              let same : on_core k (r.0) ≡ is_pid k p = ap (on_core k) found in
              record { valid = second.valid; less = omega (arith, first.less, second.less, same) }
        ]
    | inr (p, busy) ↦
        let (r, got, e1) =
          >>=-eq-done (renew fuel os (record core { proc = some p }) p) _ (rw busy at e) in
        let first = renew-Kept os (r.1) (record core { proc = some p }) (r.0) p v refl got in
        let second = recheck-Kept (r.1) os' (r.0) core' first.valid e1 in
        let same : on_core k core.proc ≡ is_pid k p = ap (on_core k) busy in
        record { valid = second.valid; less = omega (arith, first.less, second.less, same) }
  ]
