-- ===== src/Sched/Policy.antt =====
-- The policy that `get_mlq_proc` follows, apart from its loop: the first queue from the current
-- priority on that has a process and slots left, or else the first with a process in a new round.
use btlos.Prelude.{
  ℕ, zero, suc, ◌+◌, ◌-◌, ◌*◌, ◌≡◌, ◌≤◌, ◌<◌, refl, sym, ◌∙◌, ap, inl, inr, Bool, true, false,
  Option, none, some, List, [], ◌∷◌, Outcome, fault, length, get_elem?, ◌==◌, not, ◌&&◌, arith,
  get_elem?-some, Bool-cases,
}
use btlos.Queue.{Queue, IsQueue}
use btlos.Sched.Search.{first_from}
use btlos.Sched.{Mlq, max_prio, next_queue, serve, get_loop, reset_slots, reset_each}

module _ {ℓ} {A : Type ℓ} where
  -- Queue `q` of priority `p` has a process, and has not used up its `max_prio - p` slots.
  abbrev pub eligible : ℕ → Queue A → Bool
  eligible p q = not (q.size == 0) && not (q.slots == max_prio - p)

  abbrev pub eligible_at : Mlq A → ℕ → Bool
  eligible_at s p = elim (get_elem? s.queues p) [ none ↦ false | some q ↦ eligible p q ]

  -- Serves the queue of priority `p` and makes it the current one.
  abbrev pub serve_at : Mlq A → ℕ → Outcome (Option A × Mlq A)
  serve_at s p = elim (get_elem? s.queues p) [
    | none ↦ fault
    | some q ↦ serve (record s { current_prio = p }) q
  ]

  -- Every queue is sound and within its slots.
  pub record IsMlq (s : Mlq A) : Type ℓ where
    pub count : length s.queues ≡ max_prio
    pub current : s.current_prio < max_prio
    pub each :
        (p : ℕ) (q : Queue A) → get_elem? s.queues p ≡ some q → IsQueue q × (q.slots + p ≤ max_prio)

  -- What a sweep that ends with `found` does.
  abbrev sweep_end : ℕ → Mlq A → Option ℕ → Option (Outcome (Option A × Mlq A))
  sweep_end fuel s (some k) = some (serve_at s k)
  sweep_end fuel s none = get_loop fuel (reset_slots s)

  pub next_queue-lt :
      (s : Mlq A)
      → s.current_prio + 1 < max_prio
      → next_queue s ≡ record s { current_prio = suc s.current_prio }
  unfolding next_queue
  next_queue-lt s h = ground arith

  pub next_queue-last : (s : Mlq A) → s.current_prio + 1 ≡ max_prio → next_queue s ≡ reset_slots s
  unfolding next_queue
  next_queue-last s h = ground arith

  pub get_loop_pass :
      (fuel : ℕ) (s : Mlq A)
      → s.current_prio < length s.queues
      → eligible_at s s.current_prio ≡ false
      → get_loop (suc fuel) s ≡ get_loop fuel (next_queue s)
  unfolding get_loop
  get_loop_pass fuel s lt h =
      let (q, e) = get_elem?-some s.queues s.current_prio lt in ground (arith, e)

  get_loop_serve :
      (fuel : ℕ) (s : Mlq A)
      → s.current_prio < length s.queues
      → eligible_at s s.current_prio ≡ true
      → get_loop (suc fuel) s ≡ some (serve_at s s.current_prio)
  unfolding get_loop
  get_loop_serve fuel s lt h =
      let (q, e) = get_elem?-some s.queues s.current_prio lt in ground (arith, e)

  -- Where the sweep started does not matter to its end.
  sweep_end-same :
      (fuel : ℕ) (s : Mlq A) (p : ℕ) (found : Option ℕ)
      → sweep_end fuel (record s { current_prio = p }) found ≡ sweep_end fuel s found
  unfolding reset_slots
  sweep_end-same fuel s p none = refl
  sweep_end-same fuel s p (some k) = refl

  -- One sweep of the loop, from the current priority to the last.
  sweep :
      (left fuel : ℕ) (s : Mlq A)
      → length s.queues ≡ max_prio
      → s.current_prio + suc left ≡ max_prio
      → get_loop (suc (left + fuel)) s
        ≡ sweep_end fuel s (first_from (eligible_at s) (suc left) s.current_prio)
  unfolding first_from
  sweep zero fuel s count at = elim (Bool-cases (eligible_at s s.current_prio)) [
    | inl hit ↦ rw hit (get_loop_serve (0 + fuel) s (omega arith) hit)
    | inr miss ↦ rw miss (
        get_loop_pass (0 + fuel) s (omega arith) miss
        ∙ rw (next_queue-last s (omega arith)) (ap (λ k. get_loop k (reset_slots s)) (omega arith)))
  ]
  sweep (suc left) fuel s count at = elim (Bool-cases (eligible_at s s.current_prio)) [
    | inl hit ↦ rw hit (get_loop_serve (suc left + fuel) s (omega arith) hit)
    | inr miss ↦ rw miss (
        get_loop_pass (suc left + fuel) s (omega arith) miss
        ∙ rw (next_queue-lt s (omega arith)) (
            ap (λ k. get_loop k (record s { current_prio = suc s.current_prio })) (omega arith)
            ∙ sweep left fuel (record s { current_prio = suc s.current_prio }) count (omega arith)
            ∙ sweep_end-same fuel s (suc s.current_prio) _))
  ]

  -- The priority and the state of the next service, from the results of the two sweeps.
  unfoldable pub pick : Mlq A → Option ℕ → Option ℕ → Option (ℕ × Mlq A)
  pick s (some k) again = some (k, s)
  pick s none (some k) = some (k, reset_slots s)
  pick s none none = none

  abbrev pub this_round : Mlq A → Option ℕ
  this_round s = first_from (eligible_at s) (max_prio - s.current_prio) s.current_prio

  abbrev pub next_round : Mlq A → Option ℕ
  next_round s = first_from (eligible_at (reset_slots s)) max_prio 0

  unfoldable pub chosen : Mlq A → Option (ℕ × Mlq A)
  chosen s = pick s (this_round s) (next_round s)

  length-reset_each : (qs : List (Queue A)) → length (reset_each qs) ≡ length qs
  unfolding reset_each
  length-reset_each [] = refl
  length-reset_each (q ∷ qs) = ap suc (length-reset_each qs)

  pub length-reset_slots : (s : Mlq A) → length (reset_slots s).queues ≡ length s.queues
  unfolding reset_slots
  length-reset_slots s = length-reset_each s.queues

  -- The loop as its first sweep.
  first_sweep :
      (fuel : ℕ) (s : Mlq A)
      → length s.queues ≡ max_prio
      → s.current_prio < max_prio
      → max_prio ≤ fuel
      → get_loop fuel s
        ≡ sweep_end
            (fuel - (max_prio - s.current_prio))
            s
            (first_from (eligible_at s) (max_prio - s.current_prio) s.current_prio)
  first_sweep fuel s count lt enough =
      let left = max_prio - s.current_prio - 1 in
      let n = fuel - (max_prio - s.current_prio) in
      let whole : max_prio - s.current_prio ≡ suc left = omega arith in
      ap (λ k. get_loop k s) (omega arith)
      ∙ sweep left n s count (omega arith)
      ∙ ap (λ k. sweep_end n s (first_from (eligible_at s) k s.current_prio)) (sym whole)

  -- The end of the second sweep.
  second_end :
      (fuel : ℕ) (s : Mlq A) (first second : Option ℕ) {k : ℕ} {t : Mlq A}
      → get_loop fuel (reset_slots s) ≡ sweep_end (fuel - max_prio) (reset_slots s) second
      → pick s first second ≡ some (k, t)
      → sweep_end fuel s first ≡ some (serve_at t k)
  unfolding pick
  second_end fuel s (some j) second again e = cc
  second_end fuel s none (some j) again e = ground (arith, again, e)
  second_end fuel s none none again e = cc

  -- Two sweeps are enough.
  pub get_loop-chosen :
      (fuel : ℕ) (s : Mlq A) {k : ℕ} {t : Mlq A}
      → IsMlq s
      → 2 * max_prio ≤ fuel
      → chosen s ≡ some (k, t)
      → get_loop fuel s ≡ some (serve_at t k)
  unfolding chosen reset_slots
  get_loop-chosen fuel s {k} {t} v enough e =
      let n = fuel - (max_prio - s.current_prio) in
      first_sweep fuel s v.count v.current (omega arith)
      ∙ second_end n s (this_round s) (next_round s)
          (first_sweep n (reset_slots s) (length-reset_slots s ∙ v.count) (omega arith)
            (omega arith))
          e
