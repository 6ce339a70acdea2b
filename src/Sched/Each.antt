-- ===== src/Sched/Each.antt =====
-- What holds of every process in the ready queues of src/sched.c.
use native.Mathlib.Decide.{ℕ_discrete}
use btlos.Prelude.{
  ℕ, ◌≡◌, sym, ap, ◌∙◌, subst, inl, inr, Option, some, List, [], ◌∷◌, ◌++◌, Outcome, of_some,
}
use mathlib.Core.Option
use btlos.Queue.Contents.{contents}
use btlos.Queue.Fifo.{push, push-cases}
use btlos.Sched.{Mlq}
use btlos.Sched.Turn.{waiting, Turn}
use btlos.Sched.Put.{Put}

module _ {A : Type 0} (P : A → Type 0) where
  abbrev pub All : List A → Type 0
  All [] = Unit {0}
  All (x ∷ xs) = P x × All xs

  All-append : (xs : List A) (y : A) → All xs → P y → All (xs ++ y ∷ [])
  All-append [] y all h = (h, tt)
  All-append (x ∷ xs) y all h = (all.0, All-append xs y (all.1) h)

  -- Every process that waits.
  abbrev pub Each : Mlq A → Type 0
  Each s = (p : ℕ) (xs : List A) → waiting s p ≡ some xs → All xs

  pub Put-Each :
      (prio : A → ℕ) (s : Mlq A) (x : A) {r : Outcome (Mlq A)}
      → Each s
      → P x
      → (put : Put prio s x r) → Each put.next
  Put-Each prio s x each h put p xs e = elim (ℕ_discrete p (prio x)) [
    | no apart ↦ each p xs (sym (put.others p apart) ∙ e)
    | yes at ↦
        let same : push put.before x ≡ xs =
          of_some (sym put.is ∙ ap (waiting put.next) (sym at) ∙ e) in
        subst All same (elim (push-cases put.before x) [
          | inl added ↦
              subst All (sym added) (All-append put.before x (each (prio x) put.before put.was) h)
          | inr full ↦ subst All (sym full) (each (prio x) put.before put.was)
        ])
  ]

  pub Turn-Each :
      (s : Mlq A) {r : Option (Outcome (Option A × Mlq A))}
      → Each s
      → (turn : Turn s r) → P turn.proc × Each turn.next
  Turn-Each s each turn =
      let all : All (turn.proc ∷ contents turn.after) =
        subst All turn.head
          (each turn.prio (contents turn.before) (ap (Option.map contents) turn.was)) in
      (
        all.0,
        λ p xs e. elim (ℕ_discrete p turn.prio) [
          | no apart ↦ each p xs (sym (turn.others p apart) ∙ e)
          | yes at ↦
              subst All
                (of_some
                  (sym (ap (Option.map contents) turn.is) ∙ ap (waiting turn.next) (sym at) ∙ e))
                (all.1)
        ],
      )
