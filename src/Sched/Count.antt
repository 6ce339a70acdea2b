-- ===== src/Sched/Count.antt =====
-- How much is in the ready queues of src/sched.c, by a weight of the processes.
use mathlib.Core.Option
use btlos.Prelude.{
  ℕ, zero, suc, ◌+◌, ◌≡◌, ◌≢◌, ◌≤◌, refl, sym, ap, ◌∙◌, inl, inr, Option, some, List, [], ◌∷◌,
  Outcome, done, arith, length, get_elem?, of_some, le→ltb,
}
use btlos.Prelude.Total.{total, total-append}
use btlos.Queue.{Queue}
use btlos.Queue.Contents.{contents}
use btlos.Queue.Fifo.{push, push-cases}
use btlos.Sched.{Mlq, max_prio, put_mlq_proc}
use btlos.Sched.Policy.{IsMlq}
use btlos.Sched.Turn.{Turn}
use btlos.Sched.Put.{Put}

module _ {A : Type 0} (weight : A → ℕ) where
  abbrev pub total_queues : List (Queue A) → ℕ
  total_queues [] = 0
  total_queues (q ∷ qs) = total weight (contents q) + total_queues qs

  -- What waits at each priority.
  abbrev held : List (Queue A) → ℕ → Option (List A)
  held qs p = Option.map contents (get_elem? qs p)

  total_queues-same :
      (qs rs : List (Queue A))
      → length rs ≡ length qs
      → ((p : ℕ) → held rs p ≡ held qs p)
      → total_queues rs ≡ total_queues qs
  total_queues-same [] [] e h = refl
  total_queues-same [] (r ∷ rs) e h = absurd (omega (arith, e))
  total_queues-same (q ∷ qs) [] e h = absurd (omega (arith, e))
  total_queues-same (q ∷ qs) (r ∷ rs) e h = omega (
    arith,
    ap (total weight) (of_some (h 0)),
    total_queues-same qs rs (omega (arith, e)) (λ p. h (suc p)),
  )

  total_queues-change :
      (qs rs : List (Queue A)) (k : ℕ) (before after : List A)
      → length rs ≡ length qs
      → held qs k ≡ some before
      → held rs k ≡ some after
      → ((p : ℕ) → p ≢ k → held rs p ≡ held qs p)
      → total_queues rs + total weight before ≡ total_queues qs + total weight after
  total_queues-change [] rs k b a e f g h = cc
  total_queues-change (q ∷ qs) [] k b a e f g h = cc
  total_queues-change (q ∷ qs) (r ∷ rs) zero b a e f g h = omega (
    arith,
    ap (total weight) (of_some f),
    ap (total weight) (of_some g),
    total_queues-same qs rs (omega (arith, e)) (λ p. h (suc p) (omega arith)),
  )
  total_queues-change (q ∷ qs) (r ∷ rs) (suc k) b a e f g h = omega (
    arith,
    ap (total weight) (of_some (h 0 (omega arith))),
    total_queues-change qs rs k b a (omega (arith, e)) f g (λ p ne. h (suc p) (omega (arith, ne))),
  )

  pub Put-total :
      (prio : A → ℕ) (s : Mlq A) (p : A) {r : Outcome (Mlq A)}
      → IsMlq s
      → (put : Put prio s p r) → total_queues put.next.queues ≤ total_queues s.queues + weight p
  Put-total prio s p v put =
      let e =
        total_queues-change s.queues put.next.queues (prio p) put.before (push put.before p)
          (put.valid.count ∙ sym v.count) put.was put.is put.others in
      elim (push-cases put.before p) [
        | inl added ↦
            omega (arith, e, ap (total weight) added, total-append weight put.before (p ∷ []))
        | inr full ↦ omega (arith, e, ap (total weight) full)
      ]

  pub Turn-total :
      (s : Mlq A) {r : Option (Outcome (Option A × Mlq A))}
      → IsMlq s
      → (turn : Turn s r) → total_queues turn.next.queues + weight turn.proc ≡ total_queues s.queues
  Turn-total s v turn =
      let e =
        total_queues-change s.queues turn.next.queues turn.prio (contents turn.before)
          (contents turn.after) (turn.valid.count ∙ sym v.count) (ap (Option.map contents) turn.was)
          (ap (Option.map contents) turn.is) turn.others in
      omega (arith, e, ap (total weight) turn.head)

pub put_mlq_proc-high :
    {A : Type 0} (prio : A → ℕ) (s : Mlq A) (p : A)
    → max_prio ≤ prio p
    → put_mlq_proc prio s p ≡ done s
unfolding put_mlq_proc
put_mlq_proc-high prio s p le = rw (le→ltb le) refl
