-- ===== src/Vm/Owned.antt =====
-- The addresses of a process in src/mm-vm.c: those of its symbols, those that are free, and those from `sbrk` on.
use btlos.Prelude.{
  ℕ, zero, suc, ◌+◌, ◌^◌, ◌≡◌, ◌≤◌, ◌<◌, refl, sym, subst, ap, ◌∙◌, ◌⊎◌, inl, inr, some, List, [],
  ◌∷◌, null, chain, arith, get_elem?, set, get_elem?-set_cases, leb, if◌then◌else◌,
}
use btlos.Mm.{Region, Area, Symbol, Caller}
use btlos.Mm.Laws.{with_symbol, with_area}
use btlos.Region.Fit.{AllFree}
use btlos.Region.Cover.{cover, cover_all}
use btlos.Paging.Keeps.{Kept}

-- How many symbols the address belongs to.
abbrev pub owners : ℕ → List Symbol → ℕ
owners x [] = 0
owners x (s ∷ rest) = cover x s.rg_start s.rg_end + owners x rest

-- 1 where the address was never handed out.
abbrev pub above : ℕ → ℕ → ℕ
above x sbrk = if leb sbrk x then 1 else 0

-- What every symbol is like.
abbrev pub Fine : Symbol → Type 0
Fine s =
    (s.rg_next ≡ null) × (s.rg_start ≤ s.rg_end) × ((s.rg_start ≡ s.rg_end) ⊎ (s.rg_end < 2 ^ 63))

-- Every address belongs to one symbol at most, or is free once, or lies at or behind `sbrk`.
pub record Owned (c : Caller) (a : Area) : Type 0 where
  pub free : List Region
  pub areas : c.mm.mmap ≡ a ∷ []
  pub list : a.vm_freerg_list ≡ chain free
  pub sound : AllFree free
  pub low : a.sbrk < 2 ^ 31
  pub symbols : (i : ℕ) (s : Symbol) → get_elem? c.mm.symrgtbl i ≡ some s → Fine s
  pub once : (x : ℕ) → owners x c.mm.symrgtbl + cover_all x free + above x a.sbrk ≤ 1

pub owners-set :
    (x : ℕ) (table : List Symbol) (i : ℕ) (s t : Symbol)
    → get_elem? table i ≡ some s
    → owners x (set table i t) + cover x s.rg_start s.rg_end
      ≡ owners x table + cover x t.rg_start t.rg_end
owners-set x [] i s t e = cc
owners-set x (r ∷ rest) zero s t e =
    let same : r ≡ s = cc in
    subst
      (λ z.
        cover x t.rg_start t.rg_end + owners x rest + cover x z.rg_start z.rg_end
        ≡ cover x r.rg_start r.rg_end + owners x rest + cover x t.rg_start t.rg_end)
      same (omega arith)
owners-set x (r ∷ rest) (suc i) s t e = omega (arith, owners-set x rest i s t e)

-- Two symbols with an address in common are two owners of it.
pub owners-one :
    (x : ℕ) (table : List Symbol) (i : ℕ) (s : Symbol)
    → get_elem? table i ≡ some s
    → cover x s.rg_start s.rg_end ≤ owners x table
owners-one x [] i s e = cc
owners-one x (r ∷ rest) zero s e =
    let same : r ≡ s = cc in
    subst (λ z. cover x z.rg_start z.rg_end ≤ cover x r.rg_start r.rg_end + owners x rest) same
      (omega arith)
owners-one x (r ∷ rest) (suc i) s e = omega (arith, owners-one x rest i s e)

pub owners-two :
    (x : ℕ) (table : List Symbol) (i j : ℕ) (s t : Symbol)
    → i < j
    → get_elem? table i ≡ some s
    → get_elem? table j ≡ some t
    → cover x s.rg_start s.rg_end + cover x t.rg_start t.rg_end ≤ owners x table
owners-two x [] i j s t lt e f = cc
owners-two x (r ∷ rest) i zero s t lt e f = absurd (omega (arith, lt))
owners-two x (r ∷ rest) zero (suc j) s t lt e f =
    let same : r ≡ s = cc in
    subst
      (λ z.
        cover x z.rg_start z.rg_end + cover x t.rg_start t.rg_end
        ≤ cover x r.rg_start r.rg_end + owners x rest)
      same (omega (arith, owners-one x rest j t f))
owners-two x (r ∷ rest) (suc i) (suc j) s t lt e f =
    omega (arith, owners-two x rest i j s t (omega (arith, lt)) e f)

pub Owned-Kept : (c c' : Caller) (a : Area) → Kept c c' → Owned c a → Owned c' a
Owned-Kept c c' a k v = record {
  free = v.free;
  areas = k.areas ∙ v.areas;
  list = v.list;
  sound = v.sound;
  low = v.low;
  symbols = λ i s e. v.symbols i s (ap (λ t. get_elem? t i) (sym k.symbols) ∙ e);
  once = λ x.
      subst (λ t. owners x t + cover_all x v.free + above x a.sbrk ≤ 1) (sym k.symbols) (v.once x);
}

-- A symbol and the area change together.
pub Owned-set :
    (c : Caller) (a b : Area) (i : ℕ) (s : Symbol) (start stop : ℕ) (v : Owned c a)
    (free : List Region)
    → get_elem? c.mm.symrgtbl i ≡ some s
    → b.vm_freerg_list ≡ chain free
    → AllFree free
    → b.sbrk < 2 ^ 31
    → start ≤ stop
    → (start ≡ stop) ⊎ (stop < 2 ^ 63)
    → ((x : ℕ)
        → cover x start stop + cover_all x free + above x b.sbrk
          ≤ cover x s.rg_start s.rg_end + cover_all x v.free + above x a.sbrk)
    → Owned (record c { mm = with_symbol (with_area c.mm b []) i s start stop }) b
Owned-set c a b i s start stop v free here list sound low le bound less =
    let t : Symbol = record s { rg_start = start; rg_end = stop } in
    record {
      free = free;
      areas = refl;
      list = list;
      sound = sound;
      low = low;
      symbols = λ j r e. elim (get_elem?-set_cases c.mm.symrgtbl i j t e) [
        | inl (same, new) ↦ subst Fine (sym new) ((v.symbols i s here).0, le, bound)
        | inr (apart, old) ↦ v.symbols j r old
      ];
      once = λ x. omega (arith, less x, owners-set x c.mm.symrgtbl i s t here, v.once x);
    }
