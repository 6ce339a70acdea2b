-- ===== src/Queue.antt =====
-- src/queue.c and include/queue.h: the ready queue of one priority, an array of process pointers
-- and the number of pointers in use.
pub mod Fifo
pub mod Contents
pub mod Peek
mod Tests
use btlos.Prelude.{
  ℕ, zero, suc, ◌+◌, ◌-◌, ◌≡◌, ◌≤◌, Bool, Option, none, some, List, Outcome, done, fault, ◌>>=◌,
  deref, length, get_elem?, set, ltb, ◌==◌, if◌then◌else◌,
}

abbrev pub max_queue_size : ℕ
max_queue_size = 10

-- `MAX_INT`, the priority above which `queuePeek` finds nothing.
abbrev pub max_int : ℕ
max_int = 1000000

-- `struct queue_t`; `A` is the type of the pointers. `size` is negative only in a queue that
-- `destroy_queue` has freed, so it is a natural number here.
pub record Queue {ℓ} (A : Type ℓ) : Type ℓ where
  pub proc : List A
  pub size : ℕ
  pub slots : ℕ

module _ {ℓ} {A : Type ℓ} where
  unfoldable pub empty : Queue A → Bool
  empty q = q.size == 0

  pub enqueue : Queue A → A → Queue A
  enqueue q p =
      if ltb q.size (max_queue_size - 1)
      then record q { proc = set q.proc q.size p; size = q.size + 1 }
      else q

  -- `for (; left > 0; i++, left--) proc[i] = proc[i + 1];`
  shift : ℕ → ℕ → List A → Outcome (List A)
  shift zero i proc = done proc
  shift (suc left) i proc = do p ← deref (get_elem? proc (i + 1)); shift left (i + 1) (set proc i p)

  -- Takes the pointer at `index` out and closes the gap.
  pub take_out : Queue A → ℕ → Outcome (Option A × Queue A)
  take_out q index = do
    p ← deref (get_elem? q.proc index)
    proc ← shift (q.size - index) index q.proc
    done (some p, record q { proc = proc; size = q.size - 1 })

  -- `dequeue` as it is compiled with MLQ_SCHED.
  unfoldable pub dequeue : Queue A → Outcome (Option A × Queue A)
  dequeue q = if empty q then done (none, q) else take_out q 0

  -- The loop of `queuePeek` from index `i`; the index -1 is `none`.
  peek_loop : (A → ℕ) → ℕ → ℕ → ℕ → Option ℕ → List A → Outcome (Option ℕ)
  peek_loop priority zero i max_prio index proc = done index
  peek_loop priority (suc left) i max_prio index proc = do
    p ← deref (get_elem? proc i)
    let less = ltb (priority p) max_prio
    peek_loop priority left (i + 1) (if less then priority p else max_prio)
        (if less then some i else index) proc

  pub queue_peek : (A → ℕ) → Queue A → Outcome (Option ℕ)
  unfolding peek_loop
  queue_peek priority q = peek_loop priority q.size 0 max_int none q.proc

  -- `dequeue` as it is compiled without MLQ_SCHED.
  pub dequeue_priority : (A → ℕ) → Queue A → Outcome (Option A × Queue A)
  dequeue_priority priority q =
      if empty q
      then done (none, q)
      else do index ← queue_peek priority q; i ← deref index; take_out q i

  -- `init_queue`, given what the memory from `malloc` holds.
  pub init_queue : Queue A → Queue A
  init_queue garbage = record garbage { size = 0 }

  -- The array has `MAX_QUEUE_SIZE` cells, and one of them is never filled.
  pub record IsQueue (q : Queue A) : Type 0 where
    pub cells : length q.proc ≡ max_queue_size
    pub room : q.size ≤ max_queue_size - 1
