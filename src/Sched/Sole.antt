-- ===== src/Sched/Sole.antt =====
-- `put_mlq_proc` and `get_mlq_proc` of src/sched.c with a single process.
use mathlib.Core.Option
use btlos.Prelude.{
  ℕ, zero, suc, ◌*◌, ◌≡◌, ◌≢◌, ◌≤◌, ◌<◌, refl, sym, ap, ◌∙◌, true, false, none, some, List, [], ◌∷◌,
  done, arith, length, get_elem?, Option-cases, Bool-cases, of_some, inl, inr,
}
use native.Mathlib.Decide.{ℕ_discrete}
use btlos.Queue.{Queue, empty}
use btlos.Queue.Contents.{contents}
use btlos.Queue.Fifo.{push, push-nil, length-contents}
use btlos.Sched.{Mlq, max_prio, all_empty, queue_empty, get_mlq_proc, put_mlq_proc}
use btlos.Sched.Policy.{IsMlq}
use btlos.Sched.Turn.{waiting}
use btlos.Sched.Get.{get_mlq_proc-Turn}
use btlos.Sched.Put.{put_mlq_proc-Put}

module _ {ℓ} {A : Type ℓ} where
  all_empty-size :
      (qs : List (Queue A))
      → all_empty qs ≡ true
      → (p : ℕ) (q : Queue A) → get_elem? qs p ≡ some q
      → q.size ≡ 0
  unfolding all_empty empty
  all_empty-size [] e p q f = cc
  all_empty-size (r ∷ qs) e zero q f = ground (arith, e, f)
  all_empty-size (r ∷ qs) e (suc p) q f = all_empty-size qs (ground (arith, e)) p q f

  size-all_empty :
      (qs : List (Queue A))
      → ((p : ℕ) (q : Queue A) → get_elem? qs p ≡ some q → q.size ≡ 0)
      → all_empty qs ≡ true
  unfolding all_empty empty
  size-all_empty [] h = refl
  size-all_empty (q ∷ qs) h = rw (h 0 q refl) (size-all_empty qs (λ p r e. h (suc p) r e))

  -- In an empty scheduler nothing waits, and the other way round.
  pub empty-waiting :
      (s : Mlq A) → queue_empty s ≡ true → (p : ℕ) (xs : List A) → waiting s p ≡ some xs → xs ≡ []
  unfolding queue_empty
  empty-waiting s e p xs w = elim (Option-cases (get_elem? s.queues p)) [
    | inl f ↦ cc (rw f at w)
    | inr (q, f) ↦ rw (all_empty-size s.queues e p q f) at (sym (of_some (rw f at w)))
  ]

  waiting-empty :
      (s : Mlq A)
      → IsMlq s
      → ((p : ℕ) (xs : List A) → waiting s p ≡ some xs → xs ≡ [])
      → queue_empty s ≡ true
  unfolding queue_empty
  waiting-empty s v h = size-all_empty s.queues (λ p q f.
      sym (length-contents q ((v.each p q f).0))
      ∙ ap length (h p (contents q) (ap (Option.map contents) f)))

  pub get_mlq_proc-empty :
      (fuel : ℕ) (s : Mlq A) → queue_empty s ≡ true → get_mlq_proc fuel s ≡ some (done (none, s))
  unfolding get_mlq_proc
  get_mlq_proc-empty fuel s e = rw e refl

  pub held-not_empty :
      (s : Mlq A) (p : ℕ) (xs : List A) → waiting s p ≡ some xs → xs ≢ [] → queue_empty s ≡ false
  held-not_empty s p xs w n = elim (Bool-cases (queue_empty s)) [
    | inl e ↦ absurd (n (empty-waiting s e p xs w))
    | inr e ↦ e
  ]

module _ {ℓ} {A : Type ℓ} (prio : A → ℕ) where
  -- What is left when the only process is put into an empty scheduler and taken out again.
  pub record Returned (fuel : ℕ) (s : Mlq A) (p : A) : Type ℓ where
    pub held : Mlq A
    pub next : Mlq A
    pub puts : put_mlq_proc prio s p ≡ done held
    pub gets : get_mlq_proc fuel held ≡ some (done (some p, next))
    pub valid : IsMlq next
    pub empties : queue_empty next ≡ true

  pub put-get :
      (fuel : ℕ) (s : Mlq A) (p : A)
      → IsMlq s
      → queue_empty s ≡ true
      → prio p < max_prio
      → 2 * max_prio ≤ fuel
      → Returned fuel s p
  put-get fuel s p v e lt enough =
      let put = put_mlq_proc-Put prio s p v lt in
      let one : waiting put.next (prio p) ≡ some (p ∷ []) =
        put.is
        ∙ ap some
            (ap (λ xs. push xs p) (empty-waiting s e (prio p) put.before put.was) ∙ push-nil p) in
      let none_else : (k : ℕ)
          → k ≢ prio p
          → (xs : List A) → waiting put.next k ≡ some xs
          → xs ≡ [] =
        λ k ne xs w. empty-waiting s e k xs (sym (put.others k ne) ∙ w) in
      let turn =
        get_mlq_proc-Turn fuel put.next put.valid
          (held-not_empty put.next (prio p) (p ∷ []) one (λ n. cc)) enough in
      let was : waiting put.next turn.prio ≡ some (turn.proc ∷ contents turn.after) =
        ap (Option.map contents) turn.was ∙ ap some turn.head in
      let at : turn.prio ≡ prio p = elim (ℕ_discrete turn.prio (prio p)) [
        | yes same ↦ same
        | no other ↦ cc (none_else turn.prio other (turn.proc ∷ contents turn.after) was)
      ] in
      let taken : turn.proc ∷ contents turn.after ≡ p ∷ [] =
        of_some (sym was ∙ ap (waiting put.next) at ∙ one) in
      record {
        held = put.next;
        next = turn.next;
        puts = put.returns;
        gets = turn.returns ∙ ap (λ x. some (done (some x, turn.next))) cc;
        valid = turn.valid;
        empties = waiting-empty turn.next turn.valid (λ k xs w. elim (ℕ_discrete k turn.prio) [
          | yes here ↦
              of_some (sym w ∙ ap (waiting turn.next) here ∙ ap (Option.map contents) turn.is) ∙ cc
          | no other ↦ none_else k (λ e. other (e ∙ sym at)) xs (sym (turn.others k other) ∙ w)
        ]);
      }
