-- ===== src/Vm/Safety.antt =====
-- Everything that a process can do with its memory in src/mm-vm.c, one call after another.
use btlos.Prelude.{
  ℕ, zero, suc, ◌+◌, ◌^◌, ◌≡◌, ◌≢◌, ◌≤◌, ◌<◌, refl, sym, subst, ap, ◌∙◌, inl, inr, Option, some,
  List, [], ◌∷◌, done, >>=-eq-done, Chain, null, node, arith, get_elem?, replicate, Code,
  Option-cases, Bool-cases, of_some,
}
use native.Mathlib.Decide.{dec_lt}
use btlos.Prelude.Int.{ℤ, pos, u64, to_int}
use btlos.Mm.{Area, Symbol, Mm, Caller, minus_one, add64, max_symtbl_sz, init_mm}
use btlos.Mm.Laws.{init_mm_lem}
use btlos.Region.{region}
use btlos.Region.Cover.{cover, cover-empty}
use btlos.Paging.Keeps.{Kept, returned-Kept, pg_getval-Kept, pg_setval-Kept}
use btlos.Vm.{alloc, free, read, write, find_region, out_of_region}
use btlos.Vm.Owned.{owners, owners-two, above, Owned, Owned-Kept}
use btlos.Vm.Apart.{alloc-Owned, free-Owned}

pub read-Kept :
    (junk : ℕ) (c c' : Caller) (i offset : ℤ) {r : Option ℕ}
    → read junk c (pos 0) i offset ≡ done (r, c')
    → Kept c c'
unfolding read
read-Kept junk c c' i offset e =
    let (p, ran, e1) = >>=-eq-done (find_region c.mm (pos 0) i) _ e in
    elim (Option-cases p) [
      | inl gone ↦ returned-Kept c c c' refl refl (rw gone at e1)
      | inr (s, here) ↦ elim (Bool-cases (out_of_region s offset)) [
        | inl out ↦ returned-Kept c c c' refl refl (rw (here, out) at e1)
        | inr inside ↦
            pg_getval-Kept junk c c' (to_int (add64 s.rg_start (u64 offset)))
              (rw (here, inside) at e1)
      ]
    ]

pub write-Kept :
    (junk : ℕ) (c c' : Caller) (i offset : ℤ) (value : ℕ) {code : Code}
    → write junk c (pos 0) i offset value ≡ done (code, c')
    → Kept c c'
unfolding write
write-Kept junk c c' i offset value e =
    let (p, ran, e1) = >>=-eq-done (find_region c.mm (pos 0) i) _ e in
    elim (Option-cases p) [
      | inl gone ↦ returned-Kept c c c' refl refl (rw gone at e1)
      | inr (s, here) ↦ elim (Bool-cases (out_of_region s offset)) [
        | inl out ↦ returned-Kept c c c' refl refl (rw (here, out) at e1)
        | inr inside ↦
            pg_setval-Kept junk c c' (to_int (add64 s.rg_start (u64 offset))) value
              (rw (here, inside) at e1)
      ]
    ]

-- The states that calls of the four functions can lead to from `c0`, as long as `sbrk` stays below 2 ^ 31.
pub data Uses (c0 : Caller) : Caller → Type 0 where
  fresh : Uses c0 c0
  allocs :
      {c c' : Caller} {code : Code} {addr : Option ℤ} (a : Area) (fuel junk i n : ℕ)
      → Uses c0 c
      → get_elem? c.mm.mmap 0 ≡ some a
      → a.sbrk + n < 2 ^ 31
      → alloc fuel junk c (pos 0) (pos i) (pos n) ≡ done (code, addr, c')
      → Uses c0 c'
  frees :
      {c c' : Caller} {code : Code} (i : ℕ)
      → Uses c0 c
      → free c (pos 0) (pos i) ≡ done (code, c')
      → Uses c0 c'
  reads :
      {c c' : Caller} {r : Option ℕ} (junk : ℕ) (i offset : ℤ)
      → Uses c0 c
      → read junk c (pos 0) i offset ≡ done (r, c')
      → Uses c0 c'
  writes :
      {c c' : Caller} {code : Code} (junk value : ℕ) (i offset : ℤ)
      → Uses c0 c
      → write junk c (pos 0) i offset value ≡ done (code, c')
      → Uses c0 c'

pub Uses-Owned : {c0 c : Caller} (a0 : Area) → Owned c0 a0 → Uses c0 c → (a : Area) × Owned c a
Uses-Owned a0 v fresh = (a0, v)
Uses-Owned a0 v (allocs {c} {c'} a fuel junk i n u first small e) =
    let (b, w) = Uses-Owned a0 v u in
    let same : a ≡ b = of_some (sym first ∙ ap (λ l. get_elem? l 0) w.areas) in
    let (b', w', le) =
      alloc-Owned c b w fuel junk i n c' (subst (λ x. x.sbrk + n < 2 ^ 31) same small) e in
    (b', w')
Uses-Owned a0 v (frees {c} {c'} i u e) =
    let (b, w) = Uses-Owned a0 v u in let (b', w', le) = free-Owned c b w i c' e in (b', w')
Uses-Owned a0 v (reads {c} {c'} junk i offset u e) =
    let (b, w) = Uses-Owned a0 v u in (b, Owned-Kept c c' b (read-Kept junk c c' i offset e) w)
Uses-Owned a0 v (writes {c} {c'} junk value i offset u e) =
    let (b, w) = Uses-Owned a0 v u in
    (b, Owned-Kept c c' b (write-Kept junk c c' i offset value e) w)

-- A symbol of a new process.
abbrev pub unused : Symbol
unused = record { rg_start = minus_one; rg_end = minus_one; rg_next = null }

pub unused-replicate :
    (n i : ℕ) (s : Symbol) → get_elem? (replicate n unused) i ≡ some s → s ≡ unused
unused-replicate zero i s e = cc
unused-replicate (suc n) zero s e = cc
unused-replicate (suc n) (suc i) s e = unused-replicate n i s e

pub owners-unused : (x n : ℕ) → owners x (replicate n unused) ≡ 0
owners-unused x zero = refl
owners-unused x (suc n) = omega (arith, owners-unused x n, cover-empty x minus_one)

abbrev pub first_area : Area
first_area = record {
  vm_id = 1;
  vm_start = 0;
  vm_end = 0;
  sbrk = 0;
  vm_freerg_list = node (region 0 0) null;
}

-- After `init_mm`, where the pointer that it leaves unset happens to be NULL, every address belongs
-- to one symbol at most, or is free once, or lies behind `sbrk`.
pub init_mm-Owned :
    (c : Caller) (pgd : List ℕ) (lru : Chain ℕ) → c.mm ≡ init_mm pgd null lru → Owned c first_area
init_mm-Owned c pgd lru e =
    let (areas, symbols) = init_mm_lem pgd null lru in
    let table : c.mm.symrgtbl ≡ replicate max_symtbl_sz unused =
      ap (λ (m : Mm). m.symrgtbl) e ∙ symbols in
    record {
      free = region 0 0 ∷ [];
      areas = ap (λ (m : Mm). m.mmap) e ∙ areas;
      list = refl;
      sound = (omega arith, omega arith, tt);
      low = omega arith;
      symbols = λ i s f.
          rw (unused-replicate max_symtbl_sz i s (ap (λ l. get_elem? l i) (sym table) ∙ f))
            (refl, omega arith, inl refl);
      once = λ x.
          rw table (omega (arith, owners-unused x max_symtbl_sz, cover-empty x 0, above_one x 0));
    }
  where
    above_one : (x b : ℕ) → above x b ≤ 1
    above_one x b = ground arith

in_cover : (x b e : ℕ) → b ≤ x → x < e → cover x b e ≡ 1
in_cover x b e h k = ground (arith, h, k)

-- From a state in which every address belongs to one symbol at most, or is free once, or lies
-- behind `sbrk`, no calls of `__alloc`, `__free`, `__read` and `__write` in the first area, failed
-- ones included, give two symbols an address in common. The sizes and symbols of the calls of
-- `__alloc` and the symbols of those of `__free` are not negative, and `sbrk` and the size of an
-- allocation add up to less than 2 ^ 31 before it.
pub symbols-apart :
    (c0 c : Caller) (a0 : Area)
    → Owned c0 a0
    → Uses c0 c
    → (i j : ℕ) (s t : Symbol) → i ≢ j
    → get_elem? c.mm.symrgtbl i ≡ some s
    → get_elem? c.mm.symrgtbl j ≡ some t
    → (x : ℕ) → ¬ ((s.rg_start ≤ x) × (x < s.rg_end) × (t.rg_start ≤ x) × (x < t.rg_end))
symbols-apart c0 c a0 v u i j s t ne f g x (a, b, d, h) =
    let (area, w) = Uses-Owned a0 v u in
    let one = in_cover x s.rg_start s.rg_end a b in
    let other = in_cover x t.rg_start t.rg_end d h in
    elim (dec_lt i j) [
      | yes before ↦
          omega (arith, one, other, w.once x, owners-two x c.mm.symrgtbl i j s t before f g)
      | no after ↦ omega (
        arith,
        one,
        other,
        w.once x,
        owners-two x c.mm.symrgtbl j i t s (omega (arith, ne, after)) g f,
      )
    ]
