-- ===== src/Region/Cover.antt =====
-- Which addresses the loop of `get_free_vmrg_area` of src/mm-vm.c hands out and which it leaves free.
use btlos.Prelude.{
  ℕ, zero, suc, ◌+◌, ◌^◌, ◌%◌, get_elem?, set, ◌≡◌, ◌≤◌, ◌<◌, refl, subst, sym, ap, ◌∙◌, ◌⊎◌, inl,
  inr, List, [], ◌∷◌, done, ◌>>=◌, >>=-eq-done, Code, Chain, node, chain, arith, leb, ltb,
  if◌then◌else◌, ◌&&◌,
}
use native.Mathlib.Decide.{dec_lt}
use btlos.Mm.{Region, Area, Mm, minus_one}
use btlos.Prelude.Int.{pos}
use btlos.Mm.Laws.{get_vma_by_num-first, with_area}
use btlos.Region.{region, fit_loop, fit, get_free_vmrg_area}
use btlos.Region.Rounds.{fit_loop_shrink, fit_loop_remove, fit_loop_pass}
use btlos.Region.Fit.{AllFree, after_use, after_use-AllFree, used_up-after_use}

-- 1 where the address is in the range, and else 0.
abbrev pub cover : ℕ → ℕ → ℕ → ℕ
cover x start stop = if leb start x && ltb x stop then 1 else 0

-- How many regions of the list the address is in.
abbrev pub cover_all : ℕ → List Region → ℕ
cover_all x [] = 0
cover_all x (r ∷ rest) = cover x r.rg_start r.rg_end + cover_all x rest

cover-split : (x a b c : ℕ) → a ≤ b → b ≤ c → cover x a b + cover x b c ≡ cover x a c
cover-split x a b c h k = ground arith

pub cover-empty : (x a : ℕ) → cover x a a ≡ 0
cover-empty x a = ground arith

cover_all-after_use :
    (x : ℕ) (r : Region) (rest : List Region) → cover_all x (after_use r rest) ≡ cover_all x rest
unfolding after_use
cover_all-after_use x r [] = omega (arith, cover-empty x r.rg_end)
cover_all-after_use x r (next ∷ rest) = refl

module _ (size : ℕ) (fits_int : size < 2 ^ 31) where
  -- What the loop does from the list `xs`, with `newrg` found before.
  pub record Covered (xs : List Region) (newrg rg : Region) (list : Chain Region) : Type 0 where
    pub left : List Region
    pub is : list ≡ chain left
    pub sound : AllFree left
    pub covers :
        (x : ℕ)
        → cover x rg.rg_start rg.rg_end + cover_all x left
          ≤ cover x newrg.rg_start newrg.rg_end + cover_all x xs
    pub found : (rg ≡ newrg) ⊎ ((rg.rg_start ≤ rg.rg_end) × (rg.rg_end < 2 ^ 63))

  -- A fit in the first region, of which `xs` is left.
  taken :
      (r : Region) (xs rest : List Region) (newrg rg : Region) (list : Chain Region)
      → r.rg_end < 2 ^ 63
      → r.rg_start + size ≤ r.rg_end
      → ((x : ℕ) → cover x r.rg_start (r.rg_start + size) + cover_all x xs ≤ cover_all x (r ∷ rest))
      → Covered xs (region r.rg_start (r.rg_start + size)) rg list
      → Covered (r ∷ rest) newrg rg list
  taken r xs rest newrg rg list low fits less c = record {
    left = c.left;
    is = c.is;
    sound = c.sound;
    covers = λ x. omega (arith, c.covers x, less x);
    found = inr (elim c.found [
      | inl same ↦ rw same (omega arith, omega (arith, low, fits))
      | inr other ↦ other
    ]);
  }

  pub fit_loop-Covered :
      (fuel : ℕ) (newrg rg : Region) (xs : List Region) (list : Chain Region)
      → AllFree xs
      → fit_loop fuel size newrg (chain xs) ≡ done (rg, list)
      → Covered xs newrg rg list
  unfolding fit_loop
  fit_loop-Covered zero newrg rg xs list v e = cc
  fit_loop-Covered (suc fuel) newrg rg [] list v e =
      let same : newrg ≡ rg = cc in
      record {
        left = [];
        is = cc;
        sound = tt;
        covers = λ x.
            subst (λ g. cover x g.rg_start g.rg_end + 0 ≤ cover x newrg.rg_start newrg.rg_end + 0)
              same (omega arith);
        found = inl (sym same);
      }
  fit_loop-Covered (suc fuel) newrg rg (r ∷ rest) list (le, lt, v) e =
      elim (dec_lt (r.rg_start + size) r.rg_end) [
        | yes room ↦
            taken r (region (r.rg_start + size) r.rg_end ∷ rest) rest newrg rg list lt (omega arith)
              (λ x. omega (
                arith,
                cover-split x r.rg_start (r.rg_start + size) r.rg_end (omega arith) (omega arith),
              ))
              (fit_loop-Covered fuel (region r.rg_start (r.rg_start + size)) rg
                (region (r.rg_start + size) r.rg_end ∷ rest) list (omega arith, lt, v)
                (sym (fit_loop_shrink size fits_int fuel newrg r (chain rest) lt le room) ∙ e))
        | no over ↦ elim (dec_lt r.rg_end (r.rg_start + size)) [
          | yes full ↦
              let (p, runs, same) =
                >>=-eq-done (fit_loop fuel size newrg (chain rest)) (λ (g, l). done (g, node r l))
                  (sym (fit_loop_pass size fits_int fuel newrg r (chain rest) lt le full) ∙ e) in
              let c = fit_loop-Covered fuel newrg (p.0) rest (p.1) v runs in
              let got : p.0 ≡ rg = cc in
              record {
                left = r ∷ c.left;
                is = cc (same, c.is);
                sound = (le, lt, c.sound);
                covers = λ x.
                    subst
                      (λ g.
                        cover x g.rg_start g.rg_end + cover_all x (r ∷ c.left)
                        ≤ cover x newrg.rg_start newrg.rg_end + cover_all x (r ∷ rest))
                      got (omega (arith, c.covers x));
                found = rw (sym got) c.found;
              }
          | no other ↦
              let exact : r.rg_start + size ≡ r.rg_end = omega arith in
              taken r (after_use r rest) rest newrg rg list lt (omega (arith, exact))
                (λ x. rw (cover_all-after_use x r rest, exact) (omega arith))
                (fit_loop-Covered fuel (region r.rg_start (r.rg_start + size)) rg (after_use r rest)
                  list (after_use-AllFree r rest lt v)
                  (ap (λ m. m >>= λ l. fit_loop fuel size (region r.rg_start (r.rg_start + size)) l)
                      (sym (used_up-after_use r rest))
                    ∙ sym (fit_loop_remove size fits_int fuel newrg r (chain rest) lt le exact)
                    ∙ e))
        ]
      ]

pub fit-Covered :
    (fuel size : ℕ) (small : size < 2 ^ 31) (xs : List Region) {code : Code} {rg : Region}
    {list : Chain Region}
    → AllFree xs
    → fit fuel size (chain xs) ≡ done (code, rg, list)
    → Covered size small xs (region minus_one minus_one) rg list
unfolding fit
fit-Covered fuel size small [] {rg = rg} v e =
    let same : region minus_one minus_one ≡ rg = cc in
    record {
      left = [];
      is = cc;
      sound = tt;
      covers = λ x.
          subst (λ g. cover x g.rg_start g.rg_end + 0 ≤ cover x minus_one minus_one + 0) same
            (omega arith);
      found = inl (sym same);
    }
fit-Covered fuel size small (r ∷ rest) {rg = rg} {list = list} v e =
    let (p, ran, e1) =
      >>=-eq-done (fit_loop fuel size (region minus_one minus_one) (chain (r ∷ rest))) _ e in
    let same : p ≡ (rg, list) = cc in
    fit_loop-Covered size small fuel (region minus_one minus_one) rg (r ∷ rest) list v
      (ran ∙ ap done same)

module _ (size : ℕ) (small : size < 2 ^ 31) where
  pub get_free_vmrg_area-Covered :
      (fuel : ℕ) (mm mm' : Mm) (a : Area) (xs : List Region)
      → mm.mmap ≡ a ∷ []
      → a.vm_freerg_list ≡ chain xs
      → AllFree xs
      → (code : Code) (rg : Region)
      → get_free_vmrg_area fuel mm (pos 0) (pos size) ≡ done (code, rg, mm')
      → (list : Chain Region) × (mm' ≡ with_area mm (record a { vm_freerg_list = list }) [])
        × Covered size small xs (region minus_one minus_one) rg list
  unfolding get_free_vmrg_area
  get_free_vmrg_area-Covered fuel mm mm' a xs areas free v code rg e =
      let wide : size % 2 ^ 64 ≡ size = omega (arith, small) in
      let e0 =
        rw
          (
            get_free_vmrg_area,
            get_vma_by_num-first mm a [] areas,
            ap (λ l. get_elem? l 0) areas,
            wide,
          )
          at e in
      let (p, ran, e1) = >>=-eq-done (fit fuel size a.vm_freerg_list) _ e0 in
      let is : record mm { mmap = set mm.mmap 0 (record a { vm_freerg_list = p.2 }) } ≡ mm' = cc in
      let code_is : p.0 ≡ code = cc in
      let rg_is : p.1 ≡ rg = cc in
      (
        p.2,
        sym is ∙ ap (λ l. record mm { mmap = set l 0 (record a { vm_freerg_list = p.2 }) }) areas,
        subst (λ g. Covered size small xs (region minus_one minus_one) g (p.2)) rg_is
            (fit-Covered fuel size small xs {code = p.0} {rg = p.1} {list = p.2} v
              (ap (fit fuel size) (sym free) ∙ ran)),
      )
