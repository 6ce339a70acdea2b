-- ===== src/Sched/Get.antt =====
-- `get_mlq_proc` of src/sched.c as a whole, by the round in which it finds a queue.
use mathlib.Core.Option
use btlos.Prelude.{
  ℕ, ◌+◌, ◌-◌, ◌*◌, ◌≡◌, ◌≢◌, ◌≤◌, ◌<◌, refl, sym, ◌∙◌, ap, inl, inr, true, false, Option, none,
  some, get_elem?-none, Outcome, get_elem?, arith, Option-cases,
}
use native.Mathlib.Decide.{dec_lt}
use btlos.Queue.{Queue}
use btlos.Queue.Contents.{contents}
use btlos.Sched.{Mlq, max_prio, get_loop, get_mlq_proc, reset_slots, queue_empty}
use btlos.Sched.Search.{first_from-some, first_from-none}
use btlos.Sched.Policy.{
  eligible_at, IsMlq, serve_at, pick, this_round, next_round, chosen, get_loop-chosen,
}
use btlos.Sched.Turn.{
  Turn, serve_at-Service, some_waiting, waiting-reset_slots, get_elem?-reset_slots,
  reset_slots-IsMlq, fresh,
}

module _ {ℓ} {A : Type ℓ} where
  -- In a new round a queue that holds a process is eligible.
  eligible_at-reset_slots :
      (s : Mlq A) (p : ℕ) (q : Queue A)
      → p < max_prio
      → get_elem? s.queues p ≡ some q
      → q.size ≢ 0
      → eligible_at (reset_slots s) p ≡ true
  unfolding fresh
  eligible_at-reset_slots s p q lt f n = ground (arith, get_elem?-reset_slots s p, f)

  next_round-some : (s : Mlq A) → IsMlq s → queue_empty s ≡ false → next_round s ≢ none
  unfolding queue_empty
  next_round-some s v e none_found =
      let (p, q, f, n) = some_waiting s.queues e in
      let lt : p < max_prio = in_range p q f in
      cc (
        first_from-none (eligible_at (reset_slots s)) max_prio 0 none_found p (omega arith)
            (omega arith),
        eligible_at-reset_slots s p q lt f n,
      )
    where
      in_range : (p : ℕ) (q : Queue A) → get_elem? s.queues p ≡ some q → p < max_prio
      in_range p q f = elim (dec_lt p max_prio) [
        | yes lt ↦ lt
        | no ge ↦ ground (arith, get_elem?-none s.queues p, v.count, f)
      ]

  -- A turn within the round.
  now-Turn :
      (s : Mlq A) (k : ℕ) {r : Option (Outcome (Option A × Mlq A))}
      → IsMlq s
      → this_round s ≡ some k
      → r ≡ some (serve_at s k)
      → Turn s r
  now-Turn s k v found e =
      let (le, lt, ok, before_k) =
        first_from-some (eligible_at s) (max_prio - s.current_prio) s.current_prio found in
      let t = serve_at-Service s k v ok in
      record {
        proc = t.proc;
        prio = k;
        next = t.next;
        before = t.before;
        after = t.after;
        returns = e ∙ ap some t.returns;
        was = t.was;
        is = t.is;
        head = t.head;
        others = λ p ne. ap (Option.map contents) (t.others p ne);
        current = t.current;
        valid = t.valid;
        choice = inl (le, ok, before_k, t.slots);
      }

  -- A turn that begins a new round.
  later-Turn :
      (s : Mlq A) (k : ℕ) {r : Option (Outcome (Option A × Mlq A))}
      → IsMlq s
      → this_round s ≡ none
      → next_round s ≡ some k
      → r ≡ some (serve_at (reset_slots s) k)
      → Turn s r
  unfolding fresh
  later-Turn s k v over found e =
      let (le, lt, ok, before_k) = first_from-some (eligible_at (reset_slots s)) max_prio 0 found in
      let t = serve_at-Service (reset_slots s) k (reset_slots-IsMlq s v) ok in
      elim (Option-cases (get_elem? s.queues k)) [
        | inl f ↦ ground (arith, f, t.was, get_elem?-reset_slots s k)
        | inr (q, f) ↦
            let reset : t.before ≡ fresh q = ground (arith, f, t.was, get_elem?-reset_slots s k) in
            record {
              proc = t.proc;
              prio = k;
              next = t.next;
              before = q;
              after = t.after;
              returns = e ∙ ap some t.returns;
              was = f;
              is = t.is;
              head = ap contents (sym reset) ∙ t.head;
              others = λ p ne. ap (Option.map contents) (t.others p ne) ∙ waiting-reset_slots s p;
              current = t.current;
              valid = t.valid;
              choice = inr (
                (λ p a b.
                    first_from-none (eligible_at s) (max_prio - s.current_prio) s.current_prio over
                      p a (omega (arith, v.current))),
                (λ p lt'. before_k p (omega arith) lt'),
                t.slots ∙ ap (λ (b : Queue A). b.slots + 1) reset ∙ omega arith,
              );
            }
      ]

  -- The two cases of the policy.
  by_round :
      (fuel : ℕ) (s : Mlq A) (first second : Option ℕ)
      → IsMlq s
      → 2 * max_prio ≤ fuel
      → this_round s ≡ first
      → next_round s ≡ second
      → second ≢ none
      → Turn s (get_loop fuel s)
  unfolding chosen pick
  by_round fuel s (some k) second v enough a b n =
      now-Turn s k v a (get_loop-chosen fuel s {k = k} {t = s} v enough (rw a refl))
  by_round fuel s none (some k) v enough a b n =
      later-Turn s k v a b
        (get_loop-chosen fuel s {k = k} {t = reset_slots s} v enough (rw (a, b) refl))
  by_round fuel s none none v enough a b n = absurd (n refl)

  -- When some process waits, `get_mlq_proc` returns a process within 280 rounds of its loop: the
  -- first of its queue, which loses it. The queue is the first from the current priority on that
  -- has a process and slots left, and one more of its slots is then used; if there is none, a new
  -- round begins with all slots reset, and it is the first queue with a process. The other queues
  -- keep their processes and the scheduler stays well formed.
  pub get_mlq_proc-Turn :
      (fuel : ℕ) (s : Mlq A)
      → IsMlq s
      → queue_empty s ≡ false
      → 2 * max_prio ≤ fuel
      → Turn s (get_mlq_proc fuel s)
  unfolding get_mlq_proc
  get_mlq_proc-Turn fuel s v waits enough =
      rw waits (by_round fuel s _ _ v enough refl refl (next_round-some s v waits))
