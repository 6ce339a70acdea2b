-- ===== src/Machine/Turn.antt =====
-- A whole turn of a CPU, where no other thread makes a step in between.
use btlos.Prelude.{
  ℕ, Option, zero, suc, ◌≡◌, ◌∙◌, refl, inl, inr, none, some, Outcome, done, fault, spent, ◌>>=◌,
  length, Option-cases, Outcome-cases, Bool-cases, ◌==◌,
}
use btlos.Prelude.Int.{ℤ, pos, is_zero}
use btlos.Os.{Process, Os, Core, Turned, waits, get_proc, put_proc, renew, recheck, cpu_slot}
use btlos.Machine.{Place, head, checking, taking, Moved, goes_on, turned, head_step, cpu_step}

-- Steps of one CPU up to the end of its turn, `n` at most.
pub cpu_steps : ℕ → ℕ → ℤ → ℕ → Os → Place → Core → Outcome (Turned × Core × Os)
cpu_steps fuel junk time_slot zero os at core = spent
cpu_steps fuel junk time_slot (suc n) os at core = do
  (moved, core1, os1) ← cpu_step fuel junk time_slot os at core
  elim moved [
    | goes_on at1 ↦ cpu_steps fuel junk time_slot n os1 at1 core1
    | turned t ↦ done (t, core1, os1)
  ]

module _ (fuel junk : ℕ) (time_slot : ℤ) where
  checking-recheck :
      (n : ℕ) (os : Os) (core : Core)
      → cpu_steps fuel junk time_slot (suc n) os checking core ≡ recheck fuel junk time_slot os core
  unfolding cpu_steps cpu_step
  checking-recheck n os core = by_out (recheck fuel junk time_slot os core)
    where
      by_out :
          (r : Outcome (Turned × Core × Os))
          → ((r >>= λ x. (let y : Moved × Core × Os = (turned (x.0), x.1, x.2) in done y)) >>= λ y.
              elim (y.0) [
                | goes_on at1 ↦ cpu_steps fuel junk time_slot n (y.2) at1 (y.1)
                | turned t ↦ done (t, y.1, y.2)
              ])
            ≡ r
      by_out (done x) = refl
      by_out fault = refl
      by_out spent = refl

  taking-checking :
      (os : Os) (core : Core)
      → cpu_steps fuel junk time_slot 2 os taking core
        ≡ (get_proc fuel os >>= λ r. recheck fuel junk time_slot (r.1) (record core { proc = r.0 }))
  unfolding cpu_steps cpu_step
  taking-checking os core = by_out (get_proc fuel os)
    where
      by_out :
          (r : Outcome (Option Process × Os))
          → ((r >>= λ x.
                (let y : Moved × Core × Os = (goes_on checking, record core { proc = x.0 }, x.1) in
                  done y))
              >>= λ y. elim (y.0) [
                | goes_on at1 ↦ cpu_steps fuel junk time_slot 1 (y.2) at1 (y.1)
                | turned t ↦ done (t, y.1, y.2)
              ])
            ≡ (r >>= λ x. recheck fuel junk time_slot (x.1) (record core { proc = x.0 }))
      by_out (done x) = checking-recheck 0 (x.1) (record core { proc = x.0 })
      by_out fault = refl
      by_out spent = refl

  steps-goes_on :
      (n : ℕ) (os os1 : Os) (at at1 : Place) (core core1 : Core)
      → cpu_step fuel junk time_slot os at core ≡ done (goes_on at1, core1, os1)
      → cpu_steps fuel junk time_slot (suc n) os at core
        ≡ cpu_steps fuel junk time_slot n os1 at1 core1
  unfolding cpu_steps
  steps-goes_on n os os1 at at1 core core1 e = rw e refl

  steps-turned :
      (n : ℕ) (os os1 : Os) (at : Place) (core core1 : Core) (t : Turned)
      → cpu_step fuel junk time_slot os at core ≡ done (turned t, core1, os1)
      → cpu_steps fuel junk time_slot (suc n) os at core ≡ done (t, core1, os1)
  unfolding cpu_steps
  steps-turned n os os1 at core core1 t e = rw e refl

  steps-fault :
      (n : ℕ) (os : Os) (at : Place) (core : Core)
      → cpu_step fuel junk time_slot os at core ≡ fault
      → cpu_steps fuel junk time_slot (suc n) os at core ≡ fault
  unfolding cpu_steps
  steps-fault n os at core e = rw e refl

  steps-spent :
      (n : ℕ) (os : Os) (at : Place) (core : Core)
      → cpu_step fuel junk time_slot os at core ≡ spent
      → cpu_steps fuel junk time_slot (suc n) os at core ≡ spent
  unfolding cpu_steps
  steps-spent n os at core e = rw e refl

  idle-turn :
      (os : Os) (core : Core)
      → core.proc ≡ none
      → cpu_steps fuel junk time_slot 3 os head core ≡ cpu_slot fuel junk time_slot os core
  unfolding cpu_slot cpu_step head_step
  idle-turn os core idle = elim (Outcome-cases (get_proc fuel os)) [
    | inl (r, got) ↦ elim (Option-cases (r.0)) [
      | inl none_waits ↦
          steps-turned 2 os (r.1) head core core waits (rw (idle, got, none_waits) refl)
          ∙ rw (idle, got, none_waits) refl
      | inr (p, found) ↦
          steps-goes_on 2 os (r.1) head checking core (record core { proc = some p })
            (rw (idle, got, found) refl)
          ∙ checking-recheck 1 (r.1) (record core { proc = some p })
          ∙ rw (idle, got, found) refl
    ]
    | inr (inl bad) ↦ steps-fault 2 os head core (rw (idle, bad) refl) ∙ rw (idle, bad) refl
    | inr (inr out) ↦ steps-spent 2 os head core (rw (idle, out) refl) ∙ rw (idle, out) refl
  ]

  busy-turn :
      (os : Os) (core : Core) (p : Process)
      → core.proc ≡ some p
      → cpu_steps fuel junk time_slot 3 os head core ≡ cpu_slot fuel junk time_slot os core
  unfolding cpu_slot cpu_step head_step renew
  busy-turn os core p busy = elim (Bool-cases (p.pc == length p.code)) [
    | inl over ↦ elim (Outcome-cases (get_proc fuel os)) [
      | inl (r, got) ↦
          steps-goes_on 2 os (r.1) head checking core (record { proc = r.0; time_left = pos 0 })
            (rw (busy, over, got) refl)
          ∙ checking-recheck 1 (r.1) (record { proc = r.0; time_left = pos 0 })
          ∙ rw (busy, over, got) refl
      | inr (inl bad) ↦
          steps-fault 2 os head core (rw (busy, over, bad) refl) ∙ rw (busy, over, bad) refl
      | inr (inr out) ↦
          steps-spent 2 os head core (rw (busy, over, out) refl) ∙ rw (busy, over, out) refl
    ]
    | inr more ↦ elim (Bool-cases (is_zero core.time_left)) [
      | inl zero_left ↦ elim (Outcome-cases (put_proc os p)) [
        | inl (os1, puts) ↦
            steps-goes_on 2 os os1 head taking core core (rw (busy, more, zero_left, puts) refl)
            ∙ taking-checking os1 core
            ∙ elim (Outcome-cases (get_proc fuel os1)) [
              | inl (r, got) ↦ rw (busy, more, zero_left, puts, got) refl
              | inr (inl bad) ↦ rw (busy, more, zero_left, puts, bad) refl
              | inr (inr out) ↦ rw (busy, more, zero_left, puts, out) refl
            ]
        | inr (inl bad) ↦
            steps-fault 2 os head core (rw (busy, more, zero_left, bad) refl)
            ∙ rw (busy, more, zero_left, bad) refl
        | inr (inr out) ↦
            steps-spent 2 os head core (rw (busy, more, zero_left, out) refl)
            ∙ rw (busy, more, zero_left, out) refl
      ]
      | inr left ↦
          steps-goes_on 2 os os head checking core core (rw (busy, more, left) refl)
          ∙ checking-recheck 1 os core
          ∙ rw (busy, more, left) refl
    ]
  ]

  -- Where no other thread comes in between, the steps of a CPU from the head of its loop, three at
  -- most, are one whole turn of `cpu_routine`, in every outcome.
  pub cpu_steps-cpu_slot :
      (os : Os) (core : Core)
      → cpu_steps fuel junk time_slot 3 os head core ≡ cpu_slot fuel junk time_slot os core
  cpu_steps-cpu_slot os core = elim (Option-cases core.proc) [
    | inl idle ↦ idle-turn os core idle
    | inr (p, busy) ↦ busy-turn os core p busy
  ]
