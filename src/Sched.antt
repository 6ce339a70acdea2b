-- ===== src/Sched.antt =====
-- src/sched.c as it is compiled with MLQ_SCHED: one ready queue for each priority, a current
-- priority, and a count of the time slots that each queue has used in the current round.
mod Search
pub mod Policy
pub mod Turn
pub mod Get
pub mod Put
pub mod Spin
pub mod Sole
pub mod Boot
pub mod Count
pub mod Init
pub mod Each
mod Tests
use btlos.Prelude.{
  ℕ, zero, suc, ◌+◌, ◌-◌, ◌%◌, ◌≡◌, ◌≤◌, ◌<◌, Bool, true, false, Option, none, some, List, [], ◌∷◌,
  Outcome, done, fault, ◌>>=◌, deref, length, get_elem?, set, ltb, ◌==◌, if◌then◌else◌, not, ◌&&◌,
}
use btlos.Queue.{Queue, IsQueue, empty, enqueue, dequeue}

abbrev pub max_prio : ℕ
max_prio = 140

-- The static variables `mlq_ready_queue` and `current_prio`; `A` is the type of process pointers.
-- `queue_lock` is held over each change of a queue, and the functions below run one after another.
pub record Mlq {ℓ} (A : Type ℓ) : Type ℓ where
  pub queues : List (Queue A)
  pub current_prio : ℕ

module _ {ℓ} {A : Type ℓ} where
  reset_each : List (Queue A) → List (Queue A)
  reset_each [] = []
  reset_each (q ∷ qs) = record q { slots = 0 } ∷ reset_each qs

  pub reset_slots : Mlq A → Mlq A
  unfolding reset_each
  reset_slots s = record { queues = reset_each s.queues; current_prio = 0 }

  pub all_empty : List (Queue A) → Bool
  all_empty [] = true
  all_empty (q ∷ qs) = empty q && all_empty qs

  -- `queue_empty () == 1`
  pub queue_empty : Mlq A → Bool
  unfolding all_empty
  queue_empty s = all_empty s.queues

  init_each : List (Queue A) → List (Queue A)
  init_each [] = []
  init_each (q ∷ qs) = record q { size = 0; slots = 0 } ∷ init_each qs

  pub init_scheduler : Mlq A → Mlq A
  unfolding init_each
  init_scheduler s = record s { queues = init_each s.queues }

  -- The end of the loop body of `get_mlq_proc`, for a queue that is passed over.
  pub next_queue : Mlq A → Mlq A
  next_queue s =
      let p = (s.current_prio + 1) % max_prio in
      if p == 0 then reset_slots s else record s { current_prio = p }

  -- The branch of the loop body that serves the current queue.
  pub serve : Mlq A → Queue A → Outcome (Option A × Mlq A)
  serve s q = do
    (proc, q') ← dequeue q
    done (
      proc,
      record s { queues = set s.queues s.current_prio (record q' { slots = q'.slots + 1 }) },
    )

  -- `while (1)` with fuel; the outer `none` means that the fuel ran out.
  pub get_loop : ℕ → Mlq A → Option (Outcome (Option A × Mlq A))
  get_loop zero s = none
  get_loop (suc fuel) s =
      let rest = get_loop fuel (next_queue s) in
      elim (get_elem? s.queues s.current_prio) [
        | none ↦ some fault
        | some q ↦
            if not (q.size == 0) && not (q.slots == max_prio - s.current_prio)
            then some (serve s q)
            else rest
      ]

  pub get_mlq_proc : ℕ → Mlq A → Option (Outcome (Option A × Mlq A))
  get_mlq_proc fuel s = if queue_empty s then some (done (none, s)) else get_loop fuel s

  -- `put_mlq_proc` and `add_mlq_proc`, which are the same; `prio` is the field `proc->prio`.
  pub put_mlq_proc : (prio : A → ℕ) → Mlq A → A → Outcome (Mlq A)
  put_mlq_proc prio s proc =
      if ltb (prio proc) max_prio
      then (do
        q ← deref (get_elem? s.queues (prio proc))
        done (record s { queues = set s.queues (prio proc) (enqueue q proc) }))
      else done s
