-- ===== src/Sched/Turn.antt =====
-- What one call of `get_mlq_proc` of src/sched.c may do, and the service of one queue.
use mathlib.Core.Option
use btlos.Prelude.{
  ℕ, zero, suc, ◌+◌, ◌≡◌, ◌≢◌, ◌≤◌, ◌<◌, refl, sym, ◌∙◌, ◌⊎◌, inl, inr, true, false, Option, none,
  some, List, [], ◌∷◌, Outcome, done, length, get_elem?, set, arith, get_elem?-none,
  get_elem?-set_self, get_elem?-set_ne, length-set, Option-cases,
}
use native.Mathlib.Decide.{ℕ_discrete, dec_lt}
use btlos.Queue.{Queue, IsQueue, empty, dequeue}
use btlos.Queue.Contents.{contents}
use btlos.Queue.Fifo.{pop-cons, dequeue-pop, length-contents}
use btlos.Sched.{Mlq, max_prio, serve, reset_slots, reset_each, all_empty}
use btlos.Sched.Policy.{eligible_at, IsMlq, serve_at, length-reset_slots}

module _ {ℓ} {A : Type ℓ} where
  -- The processes that wait with priority `p`, oldest first.
  abbrev pub waiting : Mlq A → ℕ → Option (List A)
  waiting s p = Option.map contents (get_elem? s.queues p)

  unfoldable pub fresh : Queue A → Queue A
  fresh q = record q { slots = 0 }

  get_elem?-reset_each :
      (qs : List (Queue A)) (p : ℕ)
      → get_elem? (reset_each qs) p ≡ Option.map fresh (get_elem? qs p)
  unfolding reset_each fresh
  get_elem?-reset_each [] p = refl
  get_elem?-reset_each (q ∷ qs) zero = refl
  get_elem?-reset_each (q ∷ qs) (suc p) = get_elem?-reset_each qs p

  pub get_elem?-reset_slots :
      (s : Mlq A) (p : ℕ)
      → get_elem? (reset_slots s).queues p ≡ Option.map fresh (get_elem? s.queues p)
  unfolding reset_slots
  get_elem?-reset_slots s p = get_elem?-reset_each s.queues p

  pub waiting-reset_slots : (s : Mlq A) (p : ℕ) → waiting (reset_slots s) p ≡ waiting s p
  unfolding fresh
  waiting-reset_slots s p =
      rw get_elem?-reset_slots
        (elim (get_elem? s.queues p)
          as (λ o. Option.map contents (Option.map fresh o) ≡ Option.map contents o) [
            | none ↦ refl
            | some q ↦ refl
          ])

  -- A new round keeps the scheduler sound.
  pub reset_slots-IsMlq : (s : Mlq A) → IsMlq s → IsMlq (reset_slots s)
  unfolding fresh
  reset_slots-IsMlq s v = record {
    count = length-reset_slots s ∙ v.count;
    current = unfold reset_slots in omega arith;
    each = λ p q e. elim (Option-cases (get_elem? s.queues p)) [
      | inl f ↦ ground (arith, get_elem?-reset_slots s p, e, f)
      | inr (r, f) ↦ ground (arith, get_elem?-reset_slots s p, e, f, v.each p r f)
    ];
  }

  -- A scheduler that is not empty has a queue with a process.
  pub some_waiting :
      (qs : List (Queue A))
      → all_empty qs ≡ false
      → (p : ℕ) × (q : Queue A) × (get_elem? qs p ≡ some q) × (q.size ≢ 0)
  unfolding all_empty empty
  some_waiting [] e = cc
  some_waiting (q ∷ qs) e = elim (ℕ_discrete q.size 0) [
    | yes z ↦ let (p, r, f, n) = some_waiting qs (ground (arith, e)) in (suc p, r, f, n)
    | no n ↦ (0, q, refl, n)
  ]

  -- What one call of `get_mlq_proc` does when some process waits.
  pub record Turn (s : Mlq A) (r : Option (Outcome (Option A × Mlq A))) : Type ℓ where
    pub proc : A
    pub prio : ℕ
    pub next : Mlq A
    pub before : Queue A
    pub after : Queue A
    pub returns : r ≡ some (done (some proc, next))
    pub was : get_elem? s.queues prio ≡ some before
    pub is : get_elem? next.queues prio ≡ some after
    pub head : contents before ≡ proc ∷ contents after
    pub others : (p : ℕ) → p ≢ prio → waiting next p ≡ waiting s p
    pub current : next.current_prio ≡ prio
    pub valid : IsMlq next
    pub choice :
        ((s.current_prio ≤ prio)
          × (eligible_at s prio ≡ true)
          × ((p : ℕ) → s.current_prio ≤ p → p < prio → eligible_at s p ≡ false)
          × (after.slots ≡ before.slots + 1))
        ⊎ (((p : ℕ) → s.current_prio ≤ p → p < max_prio → eligible_at s p ≡ false)
            × ((p : ℕ) → p < prio → eligible_at (reset_slots s) p ≡ false)
            × (after.slots ≡ 1))

  -- The service of queue `k` from the state `t`.
  pub record Service (t : Mlq A) (k : ℕ) (r : Outcome (Option A × Mlq A)) : Type ℓ where
    pub proc : A
    pub next : Mlq A
    pub before : Queue A
    pub after : Queue A
    pub returns : r ≡ done (some proc, next)
    pub was : get_elem? t.queues k ≡ some before
    pub is : get_elem? next.queues k ≡ some after
    pub head : contents before ≡ proc ∷ contents after
    pub others : (p : ℕ) → p ≢ k → get_elem? next.queues p ≡ get_elem? t.queues p
    pub current : next.current_prio ≡ k
    pub slots : after.slots ≡ before.slots + 1
    pub valid : IsMlq next

  -- A queue replaced by a sound one that is within its slots.
  pub replaced-IsMlq :
      (t : Mlq A) (k : ℕ) (q : Queue A) (c : ℕ)
      → IsMlq t
      → c < max_prio
      → IsQueue q
      → q.slots + k ≤ max_prio
      → IsMlq (record { queues = set t.queues k q; current_prio = c })
  replaced-IsMlq t k q c v lt sound bound = record {
    count = length-set t.queues k q ∙ v.count;
    current = lt;
    each = λ p r e. elim (ℕ_discrete k p) [
      | yes same ↦ elim (dec_lt k (length t.queues)) [
        | yes fits ↦ ground (arith, get_elem?-set_self t.queues k q, e)
        | no out ↦ ground (arith, get_elem?-none (set t.queues k q) p, length-set t.queues k q, e)
      ]
      | no other ↦ v.each p r (sym (get_elem?-set_ne t.queues k p q other) ∙ e)
    ];
  }

  serve_at_found :
      (t : Mlq A) (k : ℕ) (q : Queue A) {o : Option A} {x : A} {q' : Queue A}
      → get_elem? t.queues k ≡ some q
      → dequeue q ≡ done (o, q')
      → o ≡ some x
      → serve_at t k
        ≡ done (
          some x,
          record { queues = set t.queues k (record q' { slots = q'.slots + 1 }); current_prio = k },
        )
  unfolding serve
  serve_at_found t k q f r got = ground (arith, f, r, got)

  pub serve_at-Service :
      (t : Mlq A) (k : ℕ) → IsMlq t → eligible_at t k ≡ true → Service t k (serve_at t k)
  unfolding serve
  serve_at-Service t k v ok = elim (Option-cases (get_elem? t.queues k)) [
    | inl f ↦ ground (arith, f, ok)
    | inr (q, f) ↦
        let (sound, bound) = v.each k q f in
        let (q', r, c, sound', kept) = dequeue-pop q sound in
        let (x, got, rest) =
          pop-cons (contents q) (λ z. ground (arith, f, ok, length-contents q sound, z)) in
        let lt : k < length t.queues = inside k q f in
        let after = record q' { slots = q'.slots + 1 } in
        let used : q'.slots + 1 + k ≤ max_prio = ground (arith, f, ok) in
        record {
          proc = x;
          next = record { queues = set t.queues k after; current_prio = k };
          before = q;
          after = after;
          returns = serve_at_found t k q f r got;
          was = f;
          is = get_elem?-set_self t.queues k after lt;
          head = rw c rest;
          others = λ p ne. get_elem?-set_ne t.queues k p after (λ e. ne (sym e));
          current = refl;
          slots = rw kept;
          valid =
              replaced-IsMlq t k after k v (omega (arith, v.count))
                (record { cells = sound'.cells; room = sound'.room }) used;
        }
  ]
    where
      inside : (p : ℕ) (q : Queue A) → get_elem? t.queues p ≡ some q → p < length t.queues
      inside p q f = elim (dec_lt p (length t.queues)) [
        | yes lt ↦ lt
        | no ge ↦ ground (arith, get_elem?-none t.queues p, f)
      ]
