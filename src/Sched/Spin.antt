-- ===== src/Sched/Spin.antt =====
-- The loop of `get_mlq_proc` of src/sched.c when every queue is empty, which can be so if another CPU
-- takes the last process after the test of `queue_empty`, made without the lock.
use btlos.Prelude.{
  ℕ, zero, suc, ◌+◌, ◌≡◌, refl, ◌∙◌, true, false, none, some, List, [], ◌∷◌, get_elem?, arith,
  get_elem?-some,
}
use native.Mathlib.Decide.{dec_lt}
use btlos.Queue.{Queue, empty}
use btlos.Sched.{
  Mlq, max_prio, get_loop, queue_empty, all_empty, reset_slots, reset_each, next_queue,
}
use btlos.Sched.Policy.{eligible_at, IsMlq, get_loop_pass, next_queue-lt, next_queue-last}
use btlos.Sched.Turn.{reset_slots-IsMlq}

module _ {ℓ} {A : Type ℓ} where
  none_eligible :
      (qs : List (Queue A)) (p : ℕ) (q : Queue A)
      → all_empty qs ≡ true
      → get_elem? qs p ≡ some q
      → q.size ≡ 0
  unfolding all_empty empty
  none_eligible [] p q h e = cc
  none_eligible (x ∷ qs) zero q h e = ground (arith, h, e)
  none_eligible (x ∷ qs) (suc p) q h e = none_eligible qs p q (ground (arith, h)) e

  all_empty-reset_each : (qs : List (Queue A)) → all_empty (reset_each qs) ≡ all_empty qs
  unfolding all_empty empty reset_each
  all_empty-reset_each [] = refl
  all_empty-reset_each (q ∷ qs) = rw (all_empty-reset_each qs)

  queue_empty-reset_slots : (s : Mlq A) → queue_empty (reset_slots s) ≡ queue_empty s
  unfolding queue_empty reset_slots
  queue_empty-reset_slots s = all_empty-reset_each s.queues

  -- What the loop keeps as it goes round.
  record Idle (s : Mlq A) : Type ℓ where
    valid : IsMlq s
    nothing : queue_empty s ≡ true

  next_queue-Idle : (s : Mlq A) → Idle s → Idle (next_queue s)
  unfolding queue_empty
  next_queue-Idle s i = elim (dec_lt (s.current_prio + 1) max_prio) [
    | yes lt ↦ rw (next_queue-lt s lt) (record {
      valid = record { count = i.valid.count; current = omega arith; each = i.valid.each };
      nothing = i.nothing;
    })
    | no last ↦ rw (next_queue-last s (omega (arith, i.valid.current))) (record {
      valid = reset_slots-IsMlq s i.valid;
      nothing = queue_empty-reset_slots s ∙ i.nothing;
    })
  ]

  -- When no process waits, the loop of `get_mlq_proc` does not return, whatever its fuel: it is
  -- safe only behind the test `queue_empty`, which is made without the lock.
  pub get_loop-spins :
      (fuel : ℕ) (s : Mlq A) → IsMlq s → queue_empty s ≡ true → get_loop fuel s ≡ none
  get_loop-spins fuel s v e = spins fuel s (record { valid = v; nothing = e })
    where
      ineligible : (s : Mlq A) → Idle s → eligible_at s s.current_prio ≡ false
      ineligible s i =
          let (q, f) =
            get_elem?-some s.queues s.current_prio
              (omega (arith, i.valid.count, i.valid.current)) in
          ground
            (arith, f, none_eligible s.queues s.current_prio q (unfold queue_empty in i.nothing) f)

      spins : (fuel : ℕ) (s : Mlq A) → Idle s → get_loop fuel s ≡ none
      spins zero s i = unfold get_loop in refl
      spins (suc fuel) s i =
          get_loop_pass fuel s (omega (arith, i.valid.count, i.valid.current)) (ineligible s i)
          ∙ spins fuel (next_queue s) (next_queue-Idle s i)
