-- ===== src/Queue/Contents.antt =====
-- The list of the pointers that a queue holds, and what the loops of src/queue.c do to it.
use btlos.Prelude.{
  ℕ, zero, suc, ◌+◌, ◌-◌, ◌≡◌, ◌≤◌, ◌<◌, refl, ◌∙◌, Option, some, List, Outcome, done, arith,
  length, get_elem?, set, take, erase_at, length-set, length-take, get_elem?-some,
  get_elem?-set_self, get_elem?-set_ne, get_elem?-take, get_elem?_ext, length-erase_at,
  get_elem?-erase_at_lt, get_elem?-erase_at_ge,
}
use native.Mathlib.Decide.{dec_lt, ℕ_discrete}
use btlos.Queue.{Queue, IsQueue, shift, take_out}

module _ {ℓ} {A : Type ℓ} where
  -- The pointers in the queue, oldest first.
  abbrev pub contents : Queue A → List A
  contents q = take q.size q.proc

  -- Cells from `i` on are moved down by one, `left` of them.
  record Shifted (left i : ℕ) (xs ys : List A) : Type ℓ where
    same_length : length ys ≡ length xs
    below : (j : ℕ) → j < i → get_elem? ys j ≡ get_elem? xs j
    moved : (j : ℕ) → i ≤ j → j < i + left → get_elem? ys j ≡ get_elem? xs (suc j)

  shift-Shifted :
      (left i : ℕ) (xs : List A)
      → i + left < length xs
      → (ys : List A) × (shift left i xs ≡ done ys) × Shifted left i xs ys
  unfolding shift
  shift-Shifted zero i xs h = (
    xs,
    refl,
    record { same_length = refl; below = λ j k. refl; moved = λ j k l. absurd (omega arith) },
  )
  shift-Shifted (suc left) i xs h =
      let (p, e) = get_elem?-some xs (i + 1) (omega arith) in
      let (ys, r, s) = shift-Shifted left (i + 1) (set xs i p) (omega (arith, length-set xs i p)) in
      (
        ys,
        rw e r,
        record {
          same_length = s.same_length ∙ length-set xs i p;
          below = λ j k. s.below j (omega arith) ∙ get_elem?-set_ne xs i j p (omega arith);
          moved = λ j k l. elim (ℕ_discrete j i) [
            | yes at ↦ ground (arith, s.below j, get_elem?-set_self xs i p, e)
            | no past ↦
                s.moved j (omega arith) (omega arith)
                ∙ get_elem?-set_ne xs i (suc j) p (omega arith)
          ];
        },
      )

  -- What taking out the pointer at `i` does: the others keep their order.
  pub record Taken (q : Queue A) (i : ℕ) (r : Outcome (Option A × Queue A)) : Type ℓ where
    pub item : A
    pub rest : Queue A
    pub returns : r ≡ done (some item, rest)
    pub was_there : get_elem? (contents q) i ≡ some item
    pub others : contents rest ≡ erase_at (contents q) i
    pub slots_kept : rest.slots ≡ q.slots
    pub valid : IsQueue rest

  erased :
      (i n : ℕ) (xs ys : List A)
      → i < n
      → n ≤ length xs
      → Shifted (n - i) i xs ys
      → take (n - 1) ys ≡ erase_at (take n xs) i
  erased i n xs ys lt room s =
      get_elem?_ext _ _
        (omega (
          arith,
          length-take n xs,
          length-take (n - 1) ys,
          length-erase_at (take n xs) i,
          s.same_length,
        ))
        λ j k. elim (dec_lt j i) [
          | yes before ↦ ground (
            arith,
            length-take (n - 1) ys,
            get_elem?-take (n - 1) ys j,
            s.below j,
            get_elem?-erase_at_lt (take n xs) i j,
            get_elem?-take n xs j,
          )
          | no after ↦ ground (
            arith,
            length-take (n - 1) ys,
            get_elem?-take (n - 1) ys j,
            s.moved j,
            get_elem?-erase_at_ge (take n xs) i j,
            get_elem?-take n xs (suc j),
          )
        ]

  pub take_out-Taken : (q : Queue A) (i : ℕ) → IsQueue q → i < q.size → Taken q i (take_out q i)
  unfolding take_out
  take_out-Taken q i v lt =
      let (p, e) = get_elem?-some q.proc i (omega arith) in
      let (ys, r, s) = shift-Shifted (q.size - i) i q.proc (omega arith) in
      record {
        item = p;
        rest = record q { proc = ys; size = q.size - 1 };
        returns = rw (e, r);
        was_there = get_elem?-take q.size q.proc i lt ∙ e;
        others = erased i q.size q.proc ys lt (omega arith) s;
        slots_kept = refl;
        valid = record { cells = s.same_length ∙ v.cells; room = omega arith };
      }
