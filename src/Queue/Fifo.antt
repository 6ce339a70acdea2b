-- ===== src/Queue/Fifo.antt =====
-- The ready queue of src/queue.c beside a list: what `enqueue` and `dequeue` do to what waits.
use btlos.Prelude.{
  ◌⊎◌, ℕ, zero, suc, Bool, true, false, ◌-◌, ◌≡◌, ◌≢◌, ◌<◌, refl, ap, inl, inr, Option, none, some,
  List, [], ◌∷◌, ◌++◌, done, arith, length, get_elem?, set, take, length-set, length-take, erase_at,
  ltb, ◌==◌, if◌then◌else◌, Bool-cases,
}
use btlos.Queue.{Queue, IsQueue, empty, enqueue, dequeue, max_queue_size}
use btlos.Queue.Contents.{contents, take_out-Taken}

module _ {ℓ} {A : Type ℓ} where
  -- The abstract queue: a list of at most `max_queue_size - 1` elements.
  pub push : List A → A → List A
  push xs p = if ltb (length xs) (max_queue_size - 1) then xs ++ p ∷ [] else xs

  pub push-nil : (p : A) → push [] p ≡ p ∷ []
  unfolding push
  push-nil p = refl

  pub push-cases : (xs : List A) (p : A) → (push xs p ≡ xs ++ p ∷ []) ⊎ (push xs p ≡ xs)
  unfolding push
  push-cases xs p = elim (Bool-cases (ltb (length xs) (max_queue_size - 1))) [
    | inl room ↦ inl (rw room refl)
    | inr full ↦ inr (rw full refl)
  ]

  pub push-not_empty : (xs : List A) (p : A) → push xs p ≢ []
  unfolding push
  push-not_empty [] p = λ e. cc
  push-not_empty (x ∷ xs) p = by_room (ltb (length (x ∷ xs)) (max_queue_size - 1))
    where
      by_room : (b : Bool) → (if b then (x ∷ xs) ++ p ∷ [] else x ∷ xs) ≢ []
      by_room true = λ e. cc
      by_room false = λ e. cc

  pub pop : List A → Option A × List A
  pop [] = (none, [])
  pop (x ∷ xs) = (some x, xs)

  pub pop-cons : (xs : List A) → xs ≢ [] → (x : A) × ((pop xs).0 ≡ some x) × (xs ≡ x ∷ (pop xs).1)
  unfolding pop
  pop-cons [] ne = absurd (ne refl)
  pop-cons (x ∷ xs) ne = (x, refl, refl)

  pub length-contents : (q : Queue A) → IsQueue q → length (contents q) ≡ q.size
  length-contents q v = omega (arith, length-take q.size q.proc, v.cells, v.room)

  snoc :
      (n : ℕ) (xs : List A) (p : A)
      → n < length xs
      → take (suc n) (set xs n p) ≡ take n xs ++ p ∷ []
  snoc n [] p h = absurd (omega arith)
  snoc zero (x ∷ xs) p h = refl
  snoc (suc n) (x ∷ xs) p h = ap (◌∷◌ x) (snoc n xs p (omega arith))

  -- `enqueue` adds the process behind the waiting ones, or drops it where nine wait; the queue
  -- stays well formed and keeps its slots.
  pub enqueue-push :
      (q : Queue A) (p : A)
      → IsQueue q
      → (contents (enqueue q p) ≡ push (contents q) p)
        × IsQueue (enqueue q p)
        × ((enqueue q p).slots ≡ q.slots)
  unfolding enqueue push
  enqueue-push q p v =
      ground (arith, length-contents q v, snoc q.size q.proc p, length-set q.proc q.size p)

  pop_first : (xs : List A) {x : A} → get_elem? xs 0 ≡ some x → pop xs ≡ (some x, erase_at xs 0)
  unfolding pop
  pop_first [] e = cc
  pop_first (y ∷ ys) e = cc

  -- `dequeue` takes the first of the waiting processes, or none where none waits, and never leaves
  -- the array; the queue stays well formed and keeps its slots.
  pub dequeue-pop :
      (q : Queue A)
      → IsQueue q
      → (q' : Queue A) × (dequeue q ≡ done ((pop (contents q)).0, q'))
        × (contents q' ≡ (pop (contents q)).1)
        × IsQueue q'
        × (q'.slots ≡ q.slots)
  unfolding dequeue empty pop
  dequeue-pop q v = elim (Bool-cases (q.size == 0)) [
    | inl none_left ↦ (q, ground arith, ground arith, v, refl)
    | inr some_left ↦
        let t = take_out-Taken q 0 v (ground arith) in
        let popped = pop_first (contents q) t.was_there in
        (
          t.rest,
          ground (arith, t.returns, popped),
          ground (arith, t.others, popped),
          t.valid,
          t.slots_kept,
        )
  ]
