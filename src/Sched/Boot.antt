-- ===== src/Sched/Boot.antt =====
-- The ready queues of src/sched.c behind `init_scheduler`, whose arrays of pointers hold anything.
use mathlib.Core.Option
use btlos.Prelude.{
  ℕ, zero, suc, ◌≡◌, ◌<◌, refl, true, [], ◌∷◌, arith, replicate, length-replicate,
  get_elem?-replicate, get_elem?-lt, set, get_elem?-set_self, ap, false,
}
use btlos.Queue.{Queue, IsQueue, empty, max_queue_size}
use btlos.Sched.{Mlq, max_prio, all_empty, queue_empty}
use btlos.Sched.Policy.{IsMlq}
use btlos.Queue.Contents.{contents}
use btlos.Sched.Sole.{held-not_empty}
use btlos.Sched.Count.{total_queues}
use btlos.Sched.Turn.{replaced-IsMlq}

module _ {A : Type 0} (a : A) where
  abbrev no_items : Queue A
  no_items = record { proc = replicate max_queue_size a; size = 0; slots = 0 }

  pub boot : Mlq A
  boot = record { queues = replicate max_prio no_items; current_prio = 0 }

  no_items-IsQueue : IsQueue no_items
  no_items-IsQueue = record { cells = refl; room = omega arith }

  pub boot-IsMlq : IsMlq boot
  unfolding boot
  boot-IsMlq = record {
    count = length-replicate max_prio no_items;
    current = omega arith;
    each = λ p q e. rw (get_elem?-replicate max_prio p e) (
      no_items-IsQueue,
      omega (
        arith,
        get_elem?-lt (replicate max_prio no_items) p e,
        length-replicate max_prio no_items,
      ),
    );
  }

  none_held : (n : ℕ) → all_empty (replicate n no_items) ≡ true
  unfolding all_empty empty
  none_held zero = refl
  none_held (suc n) = none_held n

  pub boot-empty : queue_empty boot ≡ true
  unfolding queue_empty boot
  boot-empty = none_held max_prio

  -- The same with the process `a` in the queue of priority `p`.
  pub boot_with : ℕ → Mlq A
  unfolding boot
  boot_with p = record boot { queues = set boot.queues p (record no_items { size = 1 }) }

  pub boot_with-IsMlq : (p : ℕ) → p < max_prio → IsMlq (boot_with p)
  unfolding boot boot_with
  boot_with-IsMlq p lt =
      replaced-IsMlq boot p (record no_items { size = 1 }) 0 boot-IsMlq (omega arith)
        (record { cells = refl; room = omega arith }) (omega (arith, lt))

  pub boot_with-held : (p : ℕ) → p < max_prio → queue_empty (boot_with p) ≡ false
  unfolding boot boot_with
  boot_with-held p lt =
      held-not_empty (boot_with p) p (a ∷ [])
        (ap (Option.map contents) (
          get_elem?-set_self boot.queues p (record no_items { size = 1 })
            (omega (arith, lt, length-replicate max_prio no_items))))
        (λ e. cc)

  none_total : (weight : A → ℕ) (n : ℕ) → total_queues weight (replicate n no_items) ≡ 0
  none_total weight zero = refl
  none_total weight (suc n) = omega (arith, none_total weight n)

  pub boot-total : (weight : A → ℕ) → total_queues weight boot.queues ≡ 0
  unfolding boot
  boot-total weight = none_total weight max_prio
