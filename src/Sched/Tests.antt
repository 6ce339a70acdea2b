-- ===== src/Sched/Tests.antt =====
-- Runs of the scheduler with one process, 5, of priority 1.
use btlos.Prelude.{
  ℕ, zero, suc, ◌+◌, ◌≡◌, ◌≤◌, refl, true, false, Option, some, ap, ◌∷◌, arith, get_elem?,
  get_elem?-lt, length-replicate, replicate,
}
use btlos.Queue.{Queue, IsQueue, empty}
use btlos.Sched.{Mlq, queue_empty, get_mlq_proc, put_mlq_proc, max_prio}
use btlos.Sched.Policy.{IsMlq}
use btlos.Sched.Turn.{Turn}
use btlos.Sched.Get.{get_mlq_proc-Turn}
use btlos.Sched.Put.{Put, put_mlq_proc-Put}

abbrev no_items : Queue ℕ
no_items = record { proc = replicate 10 0; size = 0; slots = 0 }

abbrev one_item : Queue ℕ
one_item = record { proc = 5 ∷ replicate 9 0; size = 1; slots = 0 }

abbrev idle : Mlq ℕ
idle = record { queues = replicate 140 no_items; current_prio = 3 }

abbrev ready : Mlq ℕ
ready = record { queues = no_items ∷ one_item ∷ replicate 138 no_items; current_prio = 3 }

no_items-IsQueue : IsQueue no_items
no_items-IsQueue = record { cells = refl; room = omega arith }

one_item-IsQueue : IsQueue one_item
one_item-IsQueue = record { cells = refl; room = omega arith }

of_some : {q q' : Queue ℕ} → Path (Option (Queue ℕ)) (some q) (some q') → q' ≡ q
of_some e = cc

idle_each : (n p : ℕ) (q : Queue ℕ) → get_elem? (replicate n no_items) p ≡ some q → q ≡ no_items
idle_each zero p q e = cc
idle_each (suc n) zero q e = cc
idle_each (suc n) (suc p) q e = idle_each n p q e

idle_at :
    (n p : ℕ) (q : Queue ℕ)
    → n ≤ 140
    → get_elem? (replicate n no_items) p ≡ some q
    → IsQueue q × (q.slots + p ≤ n)
idle_at n p q le e = rw (idle_each n p q e) (
  no_items-IsQueue,
  omega (arith, get_elem?-lt (replicate n no_items) p e, length-replicate n no_items),
)

idle-IsMlq : IsMlq idle
idle-IsMlq = record {
  count = length-replicate 140 no_items;
  current = omega arith;
  each = λ p q e. idle_at 140 p q (omega arith) e;
}

ready_each :
    (p : ℕ) (q : Queue ℕ) → get_elem? ready.queues p ≡ some q → IsQueue q × (q.slots + p ≤ max_prio)
ready_each zero q e = rw (of_some e) (no_items-IsQueue, omega arith)
ready_each (suc zero) q e = rw (of_some e) (one_item-IsQueue, omega arith)
ready_each (suc (suc p)) q e =
    let (sound, bound) = idle_at 138 p q (omega arith) e in (sound, omega arith)

ready-IsMlq : IsMlq ready
ready-IsMlq = record {
  count = ap (λ n. 2 + n) (length-replicate 138 no_items);
  current = omega arith;
  each = ready_each;
}

ready-waits : queue_empty ready ≡ false
unfolding queue_empty empty
ready-waits = refl

idle-waits : queue_empty idle ≡ true
unfolding queue_empty empty
idle-waits = refl

get_mlq_proc-Turn_example : Turn ready (get_mlq_proc 280 ready)
get_mlq_proc-Turn_example = get_mlq_proc-Turn 280 ready ready-IsMlq ready-waits (omega arith)

put_mlq_proc-Put_example : Put (λ p. p) ready 5 (put_mlq_proc (λ p. p) ready 5)
put_mlq_proc-Put_example = put_mlq_proc-Put (λ p. p) ready 5 ready-IsMlq (omega arith)
