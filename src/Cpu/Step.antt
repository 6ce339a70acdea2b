-- ===== src/Cpu/Step.antt =====
-- The steps that `run` of src/cpu.c makes of a program.
use btlos.Prelude.{
  ℕ, zero, suc, ◌+◌, ◌%◌, ◌^◌, ◌≡◌, ◌<◌, ◌≤◌, refl, ◌∙◌, ap, Bool, true, false, some, List, [], ◌∷◌,
  Outcome, done, success, ltb, ◌>>=◌, arith, length, get_elem?, get_elem?-lt, lt→ltb, le→ltb, ◌&&◌,
  ◌⊎◌, inl, inr,
}
use btlos.Vm.{pgalloc}
use btlos.Mm.{Symbol, Caller, max_symtbl_sz}
use btlos.Vm.Unallocated.{pgfree_data-unallocated, pgwrite-unallocated}
use btlos.Cpu.{
  Opcode, calc_op, alloc_op, free_op, read_op, write_op, other, Inst, Pcb, Stat, executed, no_more,
  exited, calc, stat_of, operate, execute, run,
}

unfoldable pub is_calc : Opcode → Bool
is_calc calc_op = true
is_calc _ = false

-- A program that only calculates.
unfoldable pub only_calc : List Inst → Bool
unfolding is_calc
only_calc [] = true
only_calc (ins ∷ code) = is_calc ins.opcode && only_calc code

-- `run` again and again, at most `more` times after the first, until it returns something else than 0.
pub run_on : ℕ → ℕ → ℕ → Pcb → Outcome (Stat × Pcb)
run_on fuel junk zero p = run fuel junk p
run_on fuel junk (suc more) p = do
  (stat, p1) ← run fuel junk p
  elim stat [
    | executed ↦ run_on fuel junk more p1
    | no_more ↦ done (no_more, p1)
    | exited ↦ done (exited, p1)
  ]

calc_at :
    (code : List Inst) (i : ℕ)
    → only_calc code ≡ true
    → i < length code
    → (ins : Inst) × (get_elem? code i ≡ some ins) × (ins.opcode ≡ calc_op)
unfolding only_calc is_calc
calc_at [] i h lt = absurd (omega (arith, lt))
calc_at (ins ∷ code) zero h lt = (ins, refl, by_opcode ins.opcode (only_calc code) h)
  where
    by_opcode : (o : Opcode) (b : Bool) → is_calc o && b ≡ true → o ≡ calc_op
    by_opcode calc_op b h = refl
    by_opcode alloc_op b h = cc
    by_opcode free_op b h = cc
    by_opcode read_op b h = cc
    by_opcode write_op b h = cc
    by_opcode other b h = cc
calc_at (ins ∷ code) (suc i) h lt = calc_at code i (ground (arith, h)) (omega (arith, lt))

-- At the end of its program a process stays as it is.
pub run-end : (fuel junk : ℕ) (p : Pcb) → length p.code ≤ p.pc → run fuel junk p ≡ done (no_more, p)
unfolding run
run-end fuel junk p ge = rw (le→ltb ge) refl

pub run-calc :
    (fuel junk : ℕ) (p : Pcb)
    → only_calc p.code ≡ true
    → p.pc < length p.code
    → run fuel junk p ≡ done (executed, record p { pc = (p.pc + 1) % 2 ^ 32 })
unfolding run execute operate calc stat_of
run-calc fuel junk p only lt =
    let (ins, e, o) = calc_at p.code p.pc only lt in rw (lt→ltb lt, e, o) refl

-- A program that only calculates, with `left` instructions to go, runs to its end: each call of
-- `run` executes one instruction, and the one after them returns 1, with the program counter at the
-- end and the memory as it was.
pub run_on-end :
    (fuel junk left : ℕ) (p : Pcb)
    → only_calc p.code ≡ true
    → p.pc + left ≡ length p.code
    → length p.code < 2 ^ 32
    → run_on fuel junk left p ≡ done (no_more, record p { pc = length p.code })
unfolding run_on
run_on-end fuel junk zero p only e small =
    run-end fuel junk p (omega (arith, e))
    ∙ ap (λ k. done (no_more, record p { pc = k })) (omega (arith, e))
run_on-end fuel junk (suc left) p only e small = rw (run-calc fuel junk p only (omega (arith, e))) (
    run_on-end fuel junk left (record p { pc = (p.pc + 1) % 2 ^ 32 }) only (omega (arith, e, small))
      small)

-- A FREE of a symbol below 30 that has no region ends the whole program, and so does a WRITE to
-- one; the program counter has moved on and the memory is as it was.
pub run-unallocated :
    (fuel junk : ℕ) (p : Pcb) (ins : Inst) (i v offset : ℕ) (s : Symbol)
    → get_elem? p.code p.pc ≡ some ins
    → (ins ≡ record { opcode = free_op; arg_0 = i; arg_1 = v; arg_2 = offset })
      ⊎ (ins ≡ record { opcode = write_op; arg_0 = v; arg_1 = i; arg_2 = offset })
    → i < max_symtbl_sz
    → get_elem? p.caller.mm.symrgtbl i ≡ some s
    → s.rg_start ≡ s.rg_end
    → run fuel junk p ≡ done (exited, record p { pc = (p.pc + 1) % 2 ^ 32 })
unfolding run execute operate stat_of
run-unallocated fuel junk p ins i v offset s fetched (inl e) lt here same =
    rw
      (
        lt→ltb (get_elem?-lt p.code p.pc fetched),
        fetched,
        e,
        pgfree_data-unallocated p.caller i s lt here same,
      )
      refl
run-unallocated fuel junk p ins i v offset s fetched (inr e) lt here same =
    rw
      (
        lt→ltb (get_elem?-lt p.code p.pc fetched),
        fetched,
        e,
        pgwrite-unallocated junk p.caller i (v % 2 ^ 8) offset s lt here same,
      )
      refl

-- An allocation that succeeds, as the first instruction.
pub run-alloc :
    (fuel junk : ℕ) (p : Pcb) (size reg : ℕ) (rest : List Inst) (c' : Caller)
    → p.pc ≡ 0
    → p.code ≡ record { opcode = alloc_op; arg_0 = size; arg_1 = reg; arg_2 = 0 } ∷ rest
    → pgalloc fuel junk p.caller size reg ≡ done (success, c')
    → run fuel junk p ≡ done (executed, record p { pc = (p.pc + 1) % 2 ^ 32; caller = c' })
unfolding run execute operate stat_of
run-alloc fuel junk p size reg rest c' first code allocates =
    let inside : ltb p.pc (length p.code) ≡ true =
      lt→ltb (omega (arith, first, ap (λ (l : List Inst). length l) code)) in
    let here : get_elem? p.code p.pc
        ≡ some (record { opcode = alloc_op; arg_0 = size; arg_1 = reg; arg_2 = 0 }) =
      ap (get_elem? p.code) first ∙ ap (λ (l : List Inst). get_elem? l 0) code in
    rw (inside, here, allocates) refl
