-- ===== src/Cpu/Safety.antt =====
-- The instructions of src/cpu.c and the addresses of the process that runs them.
use btlos.Prelude.{
  ℕ, ◌+◌, ◌%◌, ◌^◌, ◌≡◌, ◌≢◌, ◌≤◌, ◌<◌, subst, ap, inl, inr, some, done, >>=-eq-done, deref,
  of_deref, get_elem?, length, ltb, Code, Bool-cases,
}
use btlos.Mm.{Area, Symbol, Caller}
use btlos.Vm.Calls.{of_done, pgalloc-Uses, pgfree_data-Uses, pgread-Uses, pgwrite-Uses}
use btlos.Vm.Owned.{Owned}
use btlos.Vm.Safety.{Uses, fresh, Uses-Owned, symbols-apart}
use btlos.Cpu.{
  Opcode, calc_op, alloc_op, free_op, read_op, write_op, other, Inst, Pcb, Stat, calc, operate,
  execute, run,
}

-- The sizes and symbols of an allocation and of a release that are not negative as an `int`.
abbrev pub Numbers : Opcode → ℕ → ℕ → Type 0
Numbers alloc_op arg_0 arg_1 = (arg_0 < 2 ^ 31) × (arg_1 < 2 ^ 31)
Numbers free_op arg_0 arg_1 = arg_0 < 2 ^ 31
Numbers _ arg_0 arg_1 = Unit {0}

-- How many bytes an instruction asks for.
abbrev pub bytes : Opcode → ℕ → ℕ
bytes alloc_op arg_0 = arg_0
bytes _ arg_0 = 0

-- What the next instruction may ask for: `sbrk` stays below 2 ^ 31 when it moves by what is asked for.
pub record Modest (p : Pcb) : Type 0 where
  pub numbers :
      (ins : Inst) → get_elem? p.code p.pc ≡ some ins → Numbers ins.opcode ins.arg_0 ins.arg_1
  pub room :
      (ins : Inst) (a : Area)
      → get_elem? p.code p.pc ≡ some ins
      → get_elem? p.caller.mm.mmap 0 ≡ some a
      → a.sbrk + bytes ins.opcode ins.arg_0 < 2 ^ 31

-- The states that calls of `run` lead to from `p0`.
pub data Runs (p0 : Pcb) : Pcb → Type 0 where
  loaded : Runs p0 p0
  step :
      {p p' : Pcb} {stat : Stat} (fuel junk : ℕ)
      → Runs p0 p
      → Modest p
      → run fuel junk p ≡ done (stat, p')
      → Runs p0 p'

operate-Uses :
    (fuel junk : ℕ) (c0 c c' : Caller) (op : Opcode) (arg_0 arg_1 arg_2 : ℕ) (a : Area)
    {code : Code}
    → Uses c0 c
    → get_elem? c.mm.mmap 0 ≡ some a
    → Numbers op arg_0 arg_1
    → a.sbrk + bytes op arg_0 < 2 ^ 31
    → operate fuel junk c op arg_0 arg_1 arg_2 ≡ done (code, c')
    → Uses c0 c'
unfolding operate calc
operate-Uses fuel junk c0 c c' calc_op x y z a u first small room e = subst (Uses c0) (of_done e) u
operate-Uses fuel junk c0 c c' alloc_op x y z a u first (small, low) room e =
    pgalloc-Uses fuel junk c0 c c' x y a u first small low room e
operate-Uses fuel junk c0 c c' free_op x y z a u first small room e =
    pgfree_data-Uses c0 c c' x u small e
operate-Uses fuel junk c0 c c' read_op x y z a u first small room e =
    pgread-Uses junk c0 c c' x y z u e
operate-Uses fuel junk c0 c c' write_op x y z a u first small room e =
    pgwrite-Uses junk c0 c c' (x % 2 ^ 8) y z u e
operate-Uses fuel junk c0 c c' other x y z a u first small room e = subst (Uses c0) (of_done e) u

run-Uses :
    (fuel junk : ℕ) (c0 : Caller) (p p' : Pcb) (a : Area) {stat : Stat}
    → Uses c0 p.caller
    → get_elem? p.caller.mm.mmap 0 ≡ some a
    → Modest p
    → run fuel junk p ≡ done (stat, p')
    → Uses c0 p'.caller
unfolding run execute
run-Uses fuel junk c0 p p' a u first m e = elim (Bool-cases (ltb p.pc (length p.code))) [
  | inr out ↦ let at : p ≡ p' = cc (rw out at e) in subst (λ (q : Pcb). Uses c0 q.caller) at u
  | inl inside ↦
      let (ins, fetched, e1) = >>=-eq-done (deref (get_elem? p.code p.pc)) _ (rw inside at e) in
      let (q, ran, e2) = >>=-eq-done (execute fuel junk p.caller ins) _ e1 in
      let (r, did, e3) =
        >>=-eq-done (operate fuel junk p.caller ins.opcode ins.arg_0 ins.arg_1 ins.arg_2) _ ran in
      let found : get_elem? p.code p.pc ≡ some ins = of_deref fetched in
      let after =
        operate-Uses fuel junk c0 p.caller (r.1) ins.opcode ins.arg_0 ins.arg_1 ins.arg_2 a u first
          (m.numbers ins found) (m.room ins a found first) did in
      let same : r.1 ≡ q.1 = of_done e3 in
      let at : record p { pc = (p.pc + 1) % 2 ^ 32; caller = q.1 } ≡ p' = cc e2 in
      subst (λ (z : Pcb). Uses c0 z.caller) at (subst (Uses c0) same after)
]

Runs-Uses : {p0 p : Pcb} (a0 : Area) → Owned p0.caller a0 → Runs p0 p → Uses p0.caller p.caller
Runs-Uses a0 v loaded = fresh
Runs-Uses {p0} a0 v (step {p} {p'} fuel junk r m e) =
    let u = Runs-Uses a0 v r in
    let (b, w) = Uses-Owned a0 v u in
    run-Uses fuel junk p0.caller p p' b u (ap (λ l. get_elem? l 0) w.areas) m e

-- Whatever instructions a process runs, from a state in which every address belongs to one symbol
-- at most, or is free once, or lies behind `sbrk`: two symbols never have an address in common. The
-- sizes and symbols of allocations and the symbols of releases are below 2 ^ 31, and so is `sbrk`
-- before each instruction, with the size of an allocation added.
pub run-symbols_apart :
    (p0 p : Pcb) (a0 : Area)
    → Owned p0.caller a0
    → Runs p0 p
    → (i j : ℕ) (s t : Symbol) → i ≢ j
    → get_elem? p.caller.mm.symrgtbl i ≡ some s
    → get_elem? p.caller.mm.symrgtbl j ≡ some t
    → (x : ℕ) → ¬ ((s.rg_start ≤ x) × (x < s.rg_end) × (t.rg_start ≤ x) × (x < t.rg_end))
run-symbols_apart p0 p a0 v r = symbols-apart p0.caller p.caller a0 v (Runs-Uses a0 v r)
