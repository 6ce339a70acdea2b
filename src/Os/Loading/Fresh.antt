-- ===== src/Os/Loading/Fresh.antt =====
-- What a turn of `ld_routine` of src/os.c leaves of a process, and which number it gives to a new one.
use btlos.Prelude.{
  ℕ, ◌+◌, ◌-◌, ◌*◌, ◌%◌, ◌^◌, ◌≡◌, ◌≤◌, ◌⊎◌, refl, ap, ◌∙◌, subst, inl, inr, Option, none, some,
  done, List, >>=-eq-done, deref, of_deref, arith, length, get_elem?, get_elem?-lt, Option-cases,
  Bool-cases, ◌==◌, if◌then◌else◌, ltb, true,
}
use btlos.Prelude.Int.{ℤ}
use btlos.Sched.{max_prio, Mlq}
use btlos.Sched.Count.{total_queues}
use btlos.Sched.Policy.{IsMlq}
use btlos.Loader.{Word, Loaded, load}
use btlos.Loader.Number.{load-some-pid}
use btlos.Os.{Process, Os, Turned, put_proc}
use btlos.Os.Unique.{is_pid, in_queues, put_proc-Kept}
use btlos.Os.Loading.{Job, Ld, Garbage, process_of, admit, ld_slot}

abbrev pub is_number : ℕ → ℕ → ℕ
is_number k n = if n == k then 1 else 0

-- 1 where the loader has loaded the process with the number `k`, which waits for its time.
abbrev pub on_loader : ℕ → Option Loaded → ℕ
on_loader k none = 0
on_loader k (some p) = is_number k p.pid

-- How many loads are to come.
abbrev pub loads_left : ℕ → ℕ → Option Loaded → ℕ
loads_left n i none = n - i
loads_left n i (some p) = n - i - 1

module _ (fuel junk : ℕ) (time_slot : ℤ) (enough : 2 * max_prio ≤ fuel) {Input : Type 0}
    (scan_u : Input → Option ℕ × Input) (scan_s : Input → Option Word × Input) (g : ℕ → Garbage)
    (jobs : List (Job Input)) where
  -- A turn of the loader: there is no more of any process than before, but for one with the next number that
  -- it may have loaded.
  pub record Loads (os : Os) (ld : Ld) (os' : Os) (ld' : Ld) : Type 0 where
    pub valid : IsMlq os'.ready
    pub number :
        ((ld'.avail_pid ≡ ld.avail_pid)
          × (loads_left (length jobs) ld'.i ld'.proc ≡ loads_left (length jobs) ld.i ld.proc)
          × ((k : ℕ)
              → in_queues k os' + on_loader k ld'.proc ≤ in_queues k os + on_loader k ld.proc))
        ⊎ ((ld'.avail_pid ≡ (ld.avail_pid + 1) % 2 ^ 32)
            × (loads_left (length jobs) ld'.i ld'.proc + 1 ≡ loads_left (length jobs) ld.i ld.proc)
            × ((k : ℕ)
                → in_queues k os' + on_loader k ld'.proc
                  ≤ in_queues k os + on_loader k ld.proc + is_number k ld.avail_pid))

  -- What `admit` does, with the process counted as the loader's before.
  record Admits (os : Os) (n i avail : ℕ) (p : Loaded) (os' : Os) (ld' : Ld) : Type 0 where
    valid : IsMlq os'.ready
    same : ld'.avail_pid ≡ avail
    left : loads_left n ld'.i ld'.proc ≡ n - i - 1
    less : (k : ℕ) → in_queues k os' + on_loader k ld'.proc ≤ in_queues k os + on_loader k (some p)

  admit-Admits :
      (now : ℕ) (os os' : Os) (ld ld' : Ld) (job : Job Input) (p : Loaded) {t : Turned} (n : ℕ)
      → IsMlq os.ready
      → admit (g ld.i) now os ld job p ≡ done (t, ld', os')
      → Admits os n ld.i ld.avail_pid p os' ld'
  unfolding admit
  admit-Admits now os os' ld ld' job p n v e = elim (Bool-cases (ltb now job.start_time)) [
    | inl early ↦
        let f = rw early at e in
        let ld_is : record ld { proc = some p } ≡ ld' = cc f in
        let os_is : os ≡ os' = cc f in
        subst (λ (l : Ld). Admits os n ld.i ld.avail_pid p os' l) ld_is
          (subst (λ (o : Os). Admits os n ld.i ld.avail_pid p o (record ld { proc = some p })) os_is
            (record { valid = v; same = refl; left = refl; less = λ k. omega arith }))
    | inr due ↦
        let (os1, puts, f) =
          >>=-eq-done (put_proc os (process_of (g ld.i) job.prio p)) _ (rw due at e) in
        let ld_is : record ld { i = ld.i + 1; proc = none } ≡ ld' = cc f in
        let os_is : os1 ≡ os' = cc f in
        subst (λ (l : Ld). Admits os n ld.i ld.avail_pid p os' l) ld_is
          (subst
            (λ (o : Os).
              Admits os n ld.i ld.avail_pid p o (record ld { i = ld.i + 1; proc = none }))
            os_is
            (record {
              valid =
                  (put_proc-Kept fuel junk 0 time_slot enough os os1
                    (process_of (g ld.i) job.prio p) v puts).valid;
              same = refl;
              left = omega arith;
              less = λ k. omega (
                arith,
                (put_proc-Kept fuel junk k time_slot enough os os1 (process_of (g ld.i) job.prio p)
                    v puts).less,
              );
            }))
  ]

  pub ld_slot-Loads :
      (now : ℕ) (os os' : Os) (ld ld' : Ld) {t : Turned}
      → IsMlq os.ready
      → ld_slot scan_u scan_s g jobs now os ld ≡ done (t, ld', os')
      → Loads os ld os' ld'
  unfolding ld_slot
  ld_slot-Loads now os os' ld ld' v e = elim (Bool-cases (ltb ld.i (length jobs))) [
    | inl more ↦
        let (job, here, e1) = >>=-eq-done (deref (get_elem? jobs ld.i)) _ (rw more at e) in
        elim (Option-cases ld.proc) [
          | inr (p, has) ↦
              let a = admit-Admits now os os' ld ld' job p (length jobs) v (rw has at e1) in
              record {
                valid = a.valid;
                number = inl (
                  a.same,
                  omega (arith, a.left, ap (loads_left (length jobs) ld.i) has),
                  λ k. omega (arith, a.less k, ap (on_loader k) has),
                );
              }
          | inl free ↦
              let (r, ran, e2) =
                >>=-eq-done
                  (load scan_u scan_s ((g ld.i).inst) ((g ld.i).priority) ((g ld.i).size)
                    ld.avail_pid job.path)
                  _ (rw free at e1) in
              elim (Option-cases r) [
                | inl bad ↦ kept os os' ld ld' os v refl (cc (rw bad at e2)) (cc (rw bad at e2))
                | inr (q, good) ↦
                    let (pid, after) =
                      load-some-pid scan_u scan_s ((g ld.i).inst) ((g ld.i).priority)
                        ((g ld.i).size) ld.avail_pid job.path r (q.0) (q.1) ran good in
                    let ld1 : Ld = record ld { avail_pid = q.1 } in
                    let a =
                      admit-Admits now os os' ld1 ld' job (q.0) (length jobs) v (rw good at e2) in
                    record {
                      valid = a.valid;
                      number = inr (
                        a.same ∙ after,
                        omega (
                          arith,
                          a.left,
                          ap (loads_left (length jobs) ld.i) free,
                          get_elem?-lt jobs ld.i (of_deref here),
                        ),
                        λ k. omega (arith, a.less k, ap (on_loader k) free, ap (is_number k) pid),
                      );
                    }
              ]
        ]
    | inr over ↦
        kept os os' ld ld' (record os { done = true }) v refl (cc (rw over at e))
          (cc (rw over at e))
  ]
    where
      kept :
          (os os' : Os) (ld ld' : Ld) (os1 : Os)
          → IsMlq os.ready
          → os.ready ≡ os1.ready
          → os1 ≡ os'
          → ld ≡ ld'
          → Loads os ld os' ld'
      kept os os' ld ld' os1 v r f h =
          subst (λ (l : Ld). Loads os ld os' l) h
            (subst (λ (o : Os). Loads os ld o ld) f
              (record {
                valid = subst IsMlq r v;
                number = inl (
                  refl,
                  refl,
                  λ k. omega (arith, ap (λ (m : Mlq Process). total_queues (is_pid k) m.queues) r),
                );
              }))
