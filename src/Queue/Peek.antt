-- ===== src/Queue/Peek.antt =====
-- `queuePeek` of src/queue.c and the priority `dequeue` that is built on it.
use btlos.Prelude.{
  ℕ, zero, suc, ◌+◌, ◌≡◌, ◌≢◌, ◌≤◌, ◌<◌, refl, sym, ◌∙◌, inl, inr, Option, none, some, List,
  Outcome, done, arith, length, get_elem?, ltb, Bool-cases, get_elem?-some, get_elem?-none, ne→==,
  get_elem?-take, length-take,
}
use native.Mathlib.Nat.{add-zero}
use mathlib.Core.Path.{subst}
use native.Mathlib.Decide.{dec_lt, ℕ_discrete}
use btlos.Queue.{Queue, IsQueue, take_out, peek_loop, queue_peek, max_int, empty, dequeue_priority}
use btlos.Queue.Contents.{contents, Taken, take_out-Taken}

module _ {ℓ} {A : Type ℓ} (priority : A → ℕ) where
  -- Among the first `n` elements `m` is the least priority below `max_int`, first met at `index`.
  pub record Best (xs : List A) (n m : ℕ) (index : Option ℕ) : Type ℓ where
    pub least : (j : ℕ) (p : A) → j < n → get_elem? xs j ≡ some p → m ≤ priority p
    pub first :
        (i j : ℕ) (p : A) → index ≡ some i → j < i → get_elem? xs j ≡ some p → m < priority p
    pub found :
        (i : ℕ)
        → index ≡ some i
        → (p : A) × (get_elem? xs i ≡ some p) × (priority p ≡ m) × (i < n) × (m < max_int)
    pub nothing : index ≡ none → m ≡ max_int

  Best-better :
      (xs : List A) (i m : ℕ) (index : Option ℕ) (p : A)
      → Best xs i m index
      → get_elem? xs i ≡ some p
      → priority p < m
      → m ≤ max_int
      → Best xs (i + 1) (priority p) (some i)
  Best-better xs i m index p b e lt small = record {
    least = λ j q k f. elim (ℕ_discrete j i) [
      | yes at ↦ ground (arith, e)
      | no other ↦ ground (arith, b.least j q)
    ];
    first = λ a j q k l f. ground (arith, b.least j q);
    found = λ a k. (p, ground arith, refl, ground arith, omega arith);
    nothing = λ k. cc;
  }

  Best-kept :
      (xs : List A) (i m : ℕ) (index : Option ℕ) (p : A)
      → Best xs i m index
      → get_elem? xs i ≡ some p
      → m ≤ priority p
      → Best xs (i + 1) m index
  Best-kept xs i m index p b e le = record {
    least = λ j q k f. elim (ℕ_discrete j i) [
      | yes at ↦ ground (arith, e)
      | no other ↦ ground (arith, b.least j q)
    ];
    first = b.first;
    found = λ a k. let (q, f, g, h, l) = b.found a k in (q, f, g, omega arith, l);
    nothing = b.nothing;
  }

  peek_loop-Best :
      (left i m : ℕ) (index : Option ℕ) (xs : List A)
      → i + left ≤ length xs
      → m ≤ max_int
      → Best xs i m index
      → (out : Option ℕ) × (m' : ℕ) × (peek_loop priority left i m index xs ≡ done out)
        × Best xs (i + left) m' out
  unfolding peek_loop
  peek_loop-Best zero i m index xs h small b = (index, m, refl, rw add-zero b)
  peek_loop-Best (suc left) i m index xs h small b =
      let (p, e) = get_elem?-some xs i (omega arith) in
      let at_next : i + 1 + left ≡ i + suc left = omega arith in
      elim (Bool-cases (ltb (priority p) m)) [
        | inl less ↦
            let (out, m', r, b') =
              peek_loop-Best left (i + 1) (priority p) (some i) xs (omega arith) (ground arith)
                (Best-better xs i m index p b e (ground arith) small) in
            (out, m', rw (e, less) r, subst (λ k. Best xs k m' out) at_next b')
        | inr more ↦
            let (out, m', r, b') =
              peek_loop-Best left (i + 1) m index xs (omega arith) small
                (Best-kept xs i m index p b e (ground arith)) in
            (out, m', rw (e, more) r, subst (λ k. Best xs k m' out) at_next b')
      ]

  -- `queuePeek` returns the index of the first process of least priority in the queue.
  pub queue_peek-Best :
      (q : Queue A)
      → IsQueue q
      → (index : Option ℕ) × (m : ℕ) × (queue_peek priority q ≡ done index)
        × Best (contents q) q.size m index
  unfolding queue_peek
  queue_peek-Best q v =
      let (index, m, r, b) =
        peek_loop-Best q.size 0 max_int none q.proc (omega arith) (omega arith) start in
      (
        index,
        m,
        r,
        record {
          least = λ j p k f. b.least j p (omega arith) (sym (get_elem?-take q.size q.proc j k) ∙ f);
          first = λ i j p k l f.
              let (p', e, same, lt, below) = b.found i k in
              b.first i j p k l (sym (get_elem?-take q.size q.proc j (omega arith)) ∙ f);
          found = λ i k.
              let (p, e, same, lt, below) = b.found i k in
              (p, get_elem?-take q.size q.proc i (omega arith) ∙ e, same, omega arith, below);
          nothing = b.nothing;
        },
      )
    where
      start : Best q.proc 0 max_int none
      start = record {
        least = λ j p k f. absurd (omega arith);
        first = λ i j p k l f. cc;
        found = λ i k. cc;
        nothing = λ k. refl;
      }

  -- The process that the priority `dequeue` takes, and what it leaves.
  pub record Served (q : Queue A) (r : Outcome (Option A × Queue A)) : Type ℓ where
    pub index : ℕ
    pub taken : Taken q index r
    pub least :
        (j : ℕ) (p : A) → get_elem? (contents q) j ≡ some p → priority taken.item ≤ priority p
    pub first :
        (j : ℕ) (p : A)
        → j < index
        → get_elem? (contents q) j ≡ some p
        → priority taken.item < priority p

  -- In a queue that is not empty, with every priority below 1000000, the `dequeue` that is compiled
  -- without MLQ takes the first process of least priority and leaves the others in order.
  pub dequeue_priority-Served :
      (q : Queue A)
      → IsQueue q
      → q.size ≢ 0
      → ((j : ℕ) (p : A) → get_elem? (contents q) j ≡ some p → priority p < max_int)
      → Served q (dequeue_priority priority q)
  dequeue_priority-Served q v some_left below =
      let (index, m, r, b) = queue_peek-Best q v in by_index index m r b
    where
      finds :
          (i : ℕ)
          → queue_peek priority q ≡ done (some i)
          → dequeue_priority priority q ≡ take_out q i
      finds i r = unfold dequeue_priority empty in rw (ne→== some_left, r)

      inside : (j : ℕ) (p : A) → get_elem? (contents q) j ≡ some p → j < q.size
      inside j p f = elim (dec_lt j q.size) [
        | yes lt ↦ lt
        | no ge ↦ ground (arith, get_elem?-none (contents q) j, length-take q.size q.proc, f)
      ]

      by_index :
          (index : Option ℕ) (m : ℕ)
          → queue_peek priority q ≡ done index
          → Best (contents q) q.size m index
          → Served q (dequeue_priority priority q)
      by_index none m r b =
          let (p, e) = get_elem?-some (contents q) 0 (omega (arith, length-take q.size q.proc)) in
          absurd (omega (arith, below 0 p e, b.least 0 p (omega arith) e, b.nothing refl))
      by_index (some i) m r b =
          let (p, e, same, lt, small) = b.found i refl in
          let t = take_out-Taken q i v lt in
          let item : t.item ≡ p = cc (t.was_there, e) in
          rw (finds i r) (record {
            index = i;
            taken = t;
            least = λ j p' f. rw (item, same) (b.least j p' (inside j p' f) f);
            first = λ j p' k f. rw (item, same) (b.first i j p' refl k f);
          })
