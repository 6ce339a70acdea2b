-- ===== src/Sched/Init.antt =====
-- `init_scheduler` of src/sched.c.
use mathlib.Core.Option
use btlos.Queue.Contents.{contents}
use btlos.Sched.Turn.{waiting}
use btlos.Prelude.{
  inl, inr, Option-cases, ℕ, zero, suc, ◌≡◌, ◌∙◌, refl, sym, ap, true, some, List, [], ◌∷◌, arith,
  length, get_elem?, get_elem?-lt, of_some,
}
use btlos.Queue.{Queue, empty, max_queue_size}
use btlos.Sched.{Mlq, max_prio, all_empty, queue_empty, init_each, init_scheduler}
use btlos.Sched.Policy.{IsMlq}
use btlos.Sched.Count.{total_queues}

module _ {A : Type 0} where
  -- The arrays as they are declared; their cells and sizes hold anything.
  pub record IsArrays (s : Mlq A) : Type 0 where
    pub count : length s.queues ≡ max_prio
    pub at_zero : s.current_prio ≡ 0
    pub cells :
        (p : ℕ) (q : Queue A) → get_elem? s.queues p ≡ some q → length q.proc ≡ max_queue_size

  length-init_each : (qs : List (Queue A)) → length (init_each qs) ≡ length qs
  unfolding init_each
  length-init_each [] = refl
  length-init_each (q ∷ qs) = ap suc (length-init_each qs)

  init_each-at :
      (qs : List (Queue A)) (p : ℕ) (q : Queue A)
      → get_elem? (init_each qs) p ≡ some q
      → (r : Queue A) × (get_elem? qs p ≡ some r) × (q ≡ record r { size = 0; slots = 0 })
  unfolding init_each
  init_each-at [] p q e = cc
  init_each-at (r ∷ qs) zero q e = (r, refl, sym (of_some e))
  init_each-at (r ∷ qs) (suc p) q e = init_each-at qs p q e

  -- After `init_scheduler` on 140 arrays the scheduler is well formed.
  pub init_scheduler-IsMlq : (s : Mlq A) → IsArrays s → IsMlq (init_scheduler s)
  unfolding init_scheduler
  init_scheduler-IsMlq s v = record {
    count = length-init_each s.queues ∙ v.count;
    current = omega (arith, v.at_zero);
    each = λ p q e.
        let (r, at, is) = init_each-at s.queues p q e in
        rw is (
          record { cells = v.cells p r at; room = omega arith },
          omega (arith, get_elem?-lt s.queues p at, v.count),
        );
  }

  all_empty-init_each : (qs : List (Queue A)) → all_empty (init_each qs) ≡ true
  unfolding all_empty empty init_each
  all_empty-init_each [] = refl
  all_empty-init_each (q ∷ qs) = all_empty-init_each qs

  pub init_scheduler-empty : (s : Mlq A) → queue_empty (init_scheduler s) ≡ true
  unfolding queue_empty init_scheduler
  init_scheduler-empty s = all_empty-init_each s.queues

  total-init_each : (weight : A → ℕ) (qs : List (Queue A)) → total_queues weight (init_each qs) ≡ 0
  unfolding init_each
  total-init_each weight [] = refl
  total-init_each weight (q ∷ qs) = omega (arith, total-init_each weight qs)

  pub init_scheduler-total :
      (weight : A → ℕ) (s : Mlq A) → total_queues weight (init_scheduler s).queues ≡ 0
  unfolding init_scheduler
  init_scheduler-total weight s = total-init_each weight s.queues

  -- Nothing waits.
  pub init_scheduler-waiting :
      (s : Mlq A) (p : ℕ) (xs : List A) → waiting (init_scheduler s) p ≡ some xs → xs ≡ []
  unfolding init_scheduler
  init_scheduler-waiting s p xs e = elim (Option-cases (get_elem? (init_each s.queues) p)) [
    | inl out ↦ cc (ap (Option.map contents) (sym out) ∙ e)
    | inr (q, at) ↦
        let (r, was, is) = init_each-at s.queues p q at in
        of_some (sym e ∙ ap (Option.map contents) at) ∙ ap contents is
  ]
