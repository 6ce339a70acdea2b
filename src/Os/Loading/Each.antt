-- ===== src/Os/Loading/Each.antt =====
-- What holds of every process that the loader of src/os.c puts into the ready queues.
use btlos.Prelude.{
  ℕ, ◌+◌, ◌≡◌, subst, inl, inr, Option, none, some, Outcome, done, List, >>=-eq-done, deref,
  of_deref, length, get_elem?, Option-cases, Bool-cases, ltb, true,
}
use btlos.Sched.Policy.{IsMlq}
use btlos.Sched.Each.{Each}
use btlos.Loader.{Word, Loaded, load}
use btlos.Os.{Process, Os, Turned, exits, put_proc}
use btlos.Os.Each.{put_proc-Each}
use btlos.Os.Loading.{Job, Ld, Garbage, process_of, admit, ld_slot}

module _ (P : Process → Type 0) (Q : Loaded → Type 0) where
  abbrev pub OnLoader : Option Loaded → Type 0
  OnLoader none = Unit {0}
  OnLoader (some p) = Q p

  module _ {Input : Type 0} (scan_u : Input → Option ℕ × Input)
      (scan_s : Input → Option Word × Input) (g : ℕ → Garbage) (jobs : List (Job Input))
      (made : (i prio : ℕ) (p : Loaded) → Q p → P (process_of (g i) prio p))
      (programs : (i : ℕ) (job : Job Input) (avail_pid next_pid : ℕ) (p : Loaded)
        → get_elem? jobs i ≡ some job
        → load scan_u scan_s ((g i).inst) ((g i).priority) ((g i).size) avail_pid job.path
          ≡ done (some (p, next_pid))
        → Q p) where
    admit-Each :
        (now : ℕ) (os os' : Os) (ld ld' : Ld) (job : Job Input) (p : Loaded) {t : Turned}
        → IsMlq os.ready
        → Each P os.ready
        → Q p
        → admit (g ld.i) now os ld job p ≡ done (t, ld', os')
        → Each P os'.ready × OnLoader ld'.proc
    unfolding admit
    admit-Each now os os' ld ld' job p v each h e = elim (Bool-cases (ltb now job.start_time)) [
      | inl early ↦
          let f = rw early at e in
          let ld_is : record ld { proc = some p } ≡ ld' = cc f in
          let os_is : os ≡ os' = cc f in
          (
            subst (λ (o : Os). Each P o.ready) os_is each,
            subst (λ (l : Ld). OnLoader l.proc) ld_is h,
          )
      | inr due ↦
          let (os1, puts, f) =
            >>=-eq-done (put_proc os (process_of (g ld.i) job.prio p)) _ (rw due at e) in
          let ld_is : record ld { i = ld.i + 1; proc = none } ≡ ld' = cc f in
          let os_is : os1 ≡ os' = cc f in
          (
            subst (λ (o : Os). Each P o.ready) os_is
                (put_proc-Each P os os1 (process_of (g ld.i) job.prio p) v each
                  (made ld.i job.prio p h) puts),
            subst (λ (l : Ld). OnLoader l.proc) ld_is tt,
          )
    ]

    loaded-Each :
        (now : ℕ) (os os' : Os) (ld ld' : Ld) (job : Job Input) (r : Option (Loaded × ℕ))
        {t : Turned}
        → IsMlq os.ready
        → Each P os.ready
        → OnLoader ld.proc
        → get_elem? jobs ld.i ≡ some job
        → load scan_u scan_s
            ((g ld.i).inst)
            ((g ld.i).priority)
            ((g ld.i).size)
            ld.avail_pid
            job.path
          ≡ done r
        → ◌≡◌ {A = Outcome (Turned × Ld × Os)}
            (elim r [
              | none ↦ done (exits, ld, os)
              | some (p, next_pid) ↦
                  admit (g ld.i) now os (record ld { avail_pid = next_pid }) job p
            ])
            (done (t, ld', os'))
        → Each P os'.ready × OnLoader ld'.proc
    loaded-Each now os os' ld ld' job none v each h here ran e =
        let ld_is : ld ≡ ld' = cc e in
        let os_is : os ≡ os' = cc e in
        (subst (λ (o : Os). Each P o.ready) os_is each, subst (λ (l : Ld). OnLoader l.proc) ld_is h)
    loaded-Each now os os' ld ld' job (some q) v each h here ran e =
        admit-Each now os os' (record ld { avail_pid = q.1 }) ld' job (q.0) v each
          (programs ld.i job ld.avail_pid (q.1) (q.0) here ran) e

    pub ld_slot-Each :
        (now : ℕ) (os os' : Os) (ld ld' : Ld) {t : Turned}
        → IsMlq os.ready
        → Each P os.ready
        → OnLoader ld.proc
        → ld_slot scan_u scan_s g jobs now os ld ≡ done (t, ld', os')
        → Each P os'.ready × OnLoader ld'.proc
    unfolding ld_slot
    ld_slot-Each now os os' ld ld' v each h e = elim (Bool-cases (ltb ld.i (length jobs))) [
      | inl more ↦
          let (job, here, e1) = >>=-eq-done (deref (get_elem? jobs ld.i)) _ (rw more at e) in
          elim (Option-cases ld.proc) [
            | inr (p, has) ↦
                admit-Each now os os' ld ld' job p v each (subst OnLoader has h) (rw has at e1)
            | inl free ↦
                let (r, ran, e2) =
                  >>=-eq-done
                    (load scan_u scan_s ((g ld.i).inst) ((g ld.i).priority) ((g ld.i).size)
                      ld.avail_pid job.path)
                    _ (rw free at e1) in
                loaded-Each now os os' ld ld' job r v each h (of_deref here) ran e2
          ]
      | inr over ↦
          let f = rw over at e in
          let ld_is : ld ≡ ld' = cc f in
          let os_is : record os { done = true } ≡ os' = cc f in
          (
            subst (λ (o : Os). Each P o.ready) os_is each,
            subst (λ (l : Ld). OnLoader l.proc) ld_is h,
          )
    ]
