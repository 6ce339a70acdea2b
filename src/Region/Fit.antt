-- ===== src/Region/Fit.antt =====
-- The loop of `get_free_vmrg_area` of src/mm-vm.c on any list of free regions.
use btlos.Prelude.{
  ℕ, zero, suc, ◌+◌, ◌-◌, ◌^◌, ◌≡◌, ◌≢◌, ◌≤◌, ◌<◌, refl, ◌∙◌, ap, ◌⊎◌, inl, inr, List, [], ◌∷◌,
  Outcome, done, Code, success, failure, Chain, chain, arith, ◌==◌, if◌then◌else◌, ne→==,
}
use native.Mathlib.Decide.{dec_lt}
use btlos.Mm.{Region, minus_one}
use btlos.Region.{region, used_up, fit_loop, fit}
use btlos.Region.Rounds.{fit_loop_shrink, fit_loop_remove, fit_loop_pass}

-- Sound regions, far from the end of the address space.
abbrev pub AllFree : List Region → Type 0
AllFree [] = Unit {0}
AllFree (r ∷ rs) = (r.rg_start ≤ r.rg_end) × (r.rg_end < 2 ^ 63) × AllFree rs

-- No region has room for `size` bytes.
abbrev pub AllSmall : ℕ → List Region → Type 0
AllSmall size [] = Unit {0}
AllSmall size (r ∷ rs) = (r.rg_end < r.rg_start + size) × AllSmall size rs

-- The region lies in one of the list.
abbrev pub Inside : Region → List Region → Type 0
Inside rg [] = ⊥
Inside rg (r ∷ rs) = ((r.rg_start ≤ rg.rg_start) × (rg.rg_end ≤ r.rg_end)) ⊎ Inside rg rs

-- Bytes and nodes, which bound the rounds of the loop.
unfoldable pub measure : List Region → ℕ
measure [] = 0
measure (r ∷ rs) = r.rg_end - r.rg_start + 1 + measure rs

-- The list when all of its first region has been used.
unfoldable pub after_use : Region → List Region → List Region
after_use r [] = region r.rg_end r.rg_end ∷ []
after_use r (next ∷ rest) = next ∷ rest

pub used_up-after_use :
    (r : Region) (rest : List Region) → used_up r (chain rest) ≡ done (chain (after_use r rest))
unfolding used_up after_use
used_up-after_use r [] = refl
used_up-after_use r (next ∷ rest) = refl

pub after_use-AllFree :
    (r : Region) (rest : List Region)
    → r.rg_end < 2 ^ 63
    → AllFree rest
    → AllFree (after_use r rest)
unfolding after_use
after_use-AllFree r [] lt v = (omega arith, lt, tt)
after_use-AllFree r (next ∷ rest) lt v = v

measure-cons :
    (r : Region) (rest : List Region)
    → measure (r ∷ rest) ≡ r.rg_end - r.rg_start + 1 + measure rest
unfolding measure
measure-cons r rest = refl

measure-after_use :
    (r : Region) (rest : List Region) → measure (after_use r rest) ≤ 1 + measure rest
unfolding measure after_use
measure-after_use r [] = omega arith
measure-after_use r (next ∷ rest) = omega arith

Inside-after_use :
    (r : Region) (rest : List Region) (rg : Region)
    → r.rg_start ≤ r.rg_end
    → Inside rg (after_use r rest)
    → Inside rg (r ∷ rest)
unfolding after_use
Inside-after_use r [] rg le (inl (a, b)) = inl (omega arith, b)
Inside-after_use r [] rg le (inr i) = absurd i
Inside-after_use r (next ∷ rest) rg le i = inr i

module _ (size : ℕ) (positive : 0 < size) (fits_int : size < 2 ^ 31) where
  -- From the list `xs` with `newrg` found before, the loop ends with `rg` and the list `ys`.
  record Fitted (xs : List Region) (newrg rg : Region) (ys : List Region) : Type 0 where
    valid : AllFree ys
    small : AllSmall size ys
    found : ((rg ≡ newrg) × (ys ≡ xs)) ⊎ (Inside rg xs × (rg.rg_end ≡ rg.rg_start + size))

  abbrev Ends : ℕ → Region → List Region → Type 0
  Ends fuel newrg xs =
      (rg : Region) × (ys : List Region) × (fit_loop fuel size newrg (chain xs)
        ≡ done (rg, chain ys))
      × Fitted xs newrg rg ys

  -- A fit in the first region: what the rest of the loop finds lies in the old list too.
  widen :
      (r : Region) (xs rest : List Region) (rg : Region) (ys : List Region)
      → r.rg_start + size ≤ r.rg_end
      → (Inside rg xs → Inside rg (r ∷ rest))
      → Fitted xs (region r.rg_start (r.rg_start + size)) rg ys
      → (newrg : Region) → Fitted (r ∷ rest) newrg rg ys
  widen r xs rest rg ys fits into f newrg = record {
    valid = f.valid;
    small = f.small;
    found = inr (elim f.found [
      | inl (same, kept) ↦ (inl (ground (arith, same)), ground (arith, same))
      | inr (inside, long) ↦ (into inside, long)
    ]);
  }

  -- A region that is too small stays in front.
  passed :
      {r newrg rg : Region} {rest ys : List Region}
      → r.rg_start ≤ r.rg_end
      → r.rg_end < 2 ^ 63
      → r.rg_end < r.rg_start + size
      → Fitted rest newrg rg ys
      → Fitted (r ∷ rest) newrg rg (r ∷ ys)
  passed {r} le lt full f = record {
    valid = (le, lt, f.valid);
    small = (full, f.small);
    found = elim f.found [
      | inl (same, kept) ↦ inl (same, ap (◌∷◌ r) kept)
      | inr (inside, long) ↦ inr (inr inside, long)
    ];
  }

  fit_loop-Ends :
      (fuel : ℕ) (newrg : Region) (xs : List Region)
      → AllFree xs
      → measure xs < fuel
      → Ends fuel newrg xs
  unfolding measure fit_loop
  fit_loop-Ends zero newrg xs v h = absurd (omega arith)
  fit_loop-Ends (suc fuel) newrg [] v h =
      (newrg, [], refl, record { valid = tt; small = tt; found = inl (refl, refl) })
  fit_loop-Ends (suc fuel) newrg (r ∷ rest) (le, lt, v) h =
      elim (dec_lt (r.rg_start + size) r.rg_end) [
        | yes room ↦
            let (rg, ys, e, f) =
              fit_loop-Ends fuel found (left ∷ rest) (omega arith, lt, v) (omega arith) in
            (
              rg,
              ys,
              fit_loop_shrink size fits_int fuel newrg r (chain rest) lt le room ∙ e,
              widen r (left ∷ rest) rest rg ys (omega arith) (λ i. ground arith) f newrg,
            )
        | no over ↦ elim (dec_lt r.rg_end (r.rg_start + size)) [
          | yes full ↦
              let (rg, ys, e, f) = fit_loop-Ends fuel newrg rest v (omega arith) in
              (
                rg,
                r ∷ ys,
                fit_loop_pass size fits_int fuel newrg r (chain rest) lt le full ∙ rw e,
                passed le lt full f,
              )
          | no other ↦
              let exact : r.rg_start + size ≡ r.rg_end = omega arith in
              let (rg, ys, e, f) =
                fit_loop-Ends fuel found (after_use r rest) (after_use-AllFree r rest lt v)
                  (omega (arith, measure-after_use r rest, measure-cons r rest)) in
              (
                rg,
                ys,
                fit_loop_remove size fits_int fuel newrg r (chain rest) lt le exact
                    ∙ rw (used_up-after_use r rest) e,
                widen r (after_use r rest) rest rg ys (omega arith) (Inside-after_use r rest rg le)
                    f newrg,
              )
        ]
      ]
    where
      found : Region
      found = region r.rg_start (r.rg_start + size)

      left : Region
      left = region (r.rg_start + size) r.rg_end

  -- What a search of the list `xs` with the outcome `r` does.
  pub record Fit (xs : List Region) (r : Outcome (Code × Region × Chain Region)) : Type 0 where
    pub code : Code
    pub newrg : Region
    pub left : List Region
    pub returns : r ≡ done (code, newrg, chain left)
    pub sound : AllFree left
    pub none_fits : AllSmall size left
    pub outcome :
        ((code ≡ failure) × (left ≡ xs))
        ⊎ ((code ≡ success) × Inside newrg xs × (newrg.rg_end ≡ newrg.rg_start + size))

  Inside-low :
      (rg : Region) (xs : List Region)
      → AllFree xs
      → rg.rg_start ≤ rg.rg_end
      → Inside rg xs
      → rg.rg_start < 2 ^ 63
  Inside-low rg [] v le i = absurd i
  Inside-low rg (r ∷ rest) (a, b, v) le (inl (c, d)) = omega arith
  Inside-low rg (r ∷ rest) (a, b, v) le (inr i) = Inside-low rg rest v le i

  -- For a size from 1 to 2 ^ 31 - 1, the search of a list of free regions, none reversed and all
  -- below 2 ^ 63, ends within as many rounds as the list has bytes and regions, plus one. It fails
  -- and leaves the list as it was, or returns a region of the size inside a region of the list; the
  -- regions left are not reversed and below 2 ^ 63, and none has room for the size.
  pub fit-Fit :
      (fuel : ℕ) (xs : List Region)
      → AllFree xs
      → measure xs < fuel
      → Fit xs (fit fuel size (chain xs))
  unfolding fit
  fit-Fit fuel [] v h = record {
    code = failure;
    newrg = region minus_one minus_one;
    left = [];
    returns = refl;
    sound = tt;
    none_fits = tt;
    outcome = inl (refl, refl);
  }
  fit-Fit fuel (r ∷ rest) v h =
      let (rg, ys, e, f) = fit_loop-Ends fuel (region minus_one minus_one) (r ∷ rest) v h in
      record {
        code = if rg.rg_start == minus_one then failure else success;
        newrg = rg;
        left = ys;
        returns = rw e;
        sound = f.valid;
        none_fits = f.small;
        outcome = elim f.found [
          | inl (same, kept) ↦ inl (ground (arith, same), kept)
          | inr (inside, long) ↦ inr (rw (ne→== (apart inside long)), inside, long)
        ];
      }
    where
      apart :
          {rg : Region}
          → Inside rg (r ∷ rest)
          → rg.rg_end ≡ rg.rg_start + size
          → rg.rg_start ≢ minus_one
      apart {rg} inside long = omega (arith, Inside-low rg (r ∷ rest) v (omega arith) inside)
