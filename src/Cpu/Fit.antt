-- ===== src/Cpu/Fit.antt =====
-- The programs of src/cpu.c whose requests for memory fit below 2 ^ 31.
use btlos.Prelude.{
  ℕ, zero, suc, ◌+◌, ◌%◌, ◌^◌, ◌≡◌, ◌<◌, refl, subst, ap, inl, inr, some, List, [], ◌∷◌, done,
  >>=-eq-done, deref, of_deref, get_elem?, get_elem?-lt, length, ltb, Code, Bool-cases, arith,
  of_some,
}
use btlos.Mm.{Area, Caller}
use btlos.Vm.Owned.{Owned}
use btlos.Vm.Apart.{Within}
use btlos.Vm.Calls.{of_done}
use btlos.Vm.Within.{pgalloc-Within, pgfree_data-Within, pgread-Owned, pgwrite-Owned}
use btlos.Cpu.Safety.{Numbers, bytes}
use btlos.Cpu.{
  Opcode, calc_op, alloc_op, free_op, read_op, write_op, other, Inst, Pcb, Stat, calc, operate,
  execute, run,
}

-- How many bytes the instructions from `pc` on ask for.
abbrev pub asks : ℕ → List Inst → ℕ
asks zero [] = 0
asks zero (ins ∷ code) = bytes ins.opcode ins.arg_0 + asks zero code
asks (suc pc) [] = 0
asks (suc pc) (ins ∷ code) = asks pc code

asks-at :
    (pc : ℕ) (code : List Inst) (ins : Inst)
    → get_elem? code pc ≡ some ins
    → asks pc code ≡ bytes ins.opcode ins.arg_0 + asks (suc pc) code
asks-at zero [] ins e = cc
asks-at zero (x ∷ code) ins e =
    ap (λ (i : Inst). bytes i.opcode i.arg_0 + asks zero code) (of_some e)
asks-at (suc pc) [] ins e = cc
asks-at (suc pc) (x ∷ code) ins e = asks-at pc code ins e

-- The sizes and symbols of a program are not negative as an `int`.
pub record Small (code : List Inst) : Type 0 where
  pub numbers :
      (k : ℕ) (ins : Inst) → get_elem? code k ≡ some ins → Numbers ins.opcode ins.arg_0 ins.arg_1
  pub short : length code < 2 ^ 32

-- Each address belongs to one symbol at most, and there is room for what the rest of the program asks for.
pub record Fit (p : Pcb) : Type 0 where
  pub small : Small p.code
  pub area : Area
  pub owned : Owned p.caller area
  pub room : area.sbrk + asks p.pc p.code < 2 ^ 31

module _ (c : Caller) (a : Area) (v : Owned c a) where
  operate-Within :
      (fuel junk : ℕ) (op : Opcode) (arg_0 arg_1 arg_2 : ℕ) (c' : Caller) {code : Code}
      → Numbers op arg_0 arg_1
      → a.sbrk + bytes op arg_0 < 2 ^ 31
      → operate fuel junk c op arg_0 arg_1 arg_2 ≡ done (code, c')
      → Within c' (a.sbrk + bytes op arg_0)
  unfolding operate calc
  operate-Within fuel junk calc_op x y z c' small room e =
      subst (λ d. Within d (a.sbrk + 0)) (of_done e) (a, v, omega arith)
  operate-Within fuel junk alloc_op x y z c' (small, low) room e =
      pgalloc-Within c a v fuel junk x y c' small low room e
  operate-Within fuel junk free_op x y z c' small room e =
      let (b, w, le) = pgfree_data-Within c a v x c' small e in (b, w, omega (arith, le))
  operate-Within fuel junk read_op x y z c' small room e =
      (a, pgread-Owned c a v junk x y z c' e, omega arith)
  operate-Within fuel junk write_op x y z c' small room e =
      (a, pgwrite-Owned c a v junk (x % 2 ^ 8) y z c' e, omega arith)
  operate-Within fuel junk other x y z c' small room e =
      subst (λ d. Within d (a.sbrk + 0)) (of_done e) (a, v, omega arith)

-- An instruction of a program that fits leaves one that fits, whatever it returns.
pub run-Fit :
    (fuel junk : ℕ) (p p' : Pcb) {stat : Stat}
    → Fit p
    → run fuel junk p ≡ done (stat, p')
    → Fit p' × (p'.code ≡ p.code)
unfolding run execute
run-Fit fuel junk p p' v e = elim (Bool-cases (ltb p.pc (length p.code))) [
  | inr out ↦
      let at : p ≡ p' = cc (rw out at e) in
      subst (λ (q : Pcb). Fit q × (q.code ≡ p.code)) at (v, refl)
  | inl inside ↦
      let (ins, fetched, e1) = >>=-eq-done (deref (get_elem? p.code p.pc)) _ (rw inside at e) in
      let (q, ran, e2) = >>=-eq-done (execute fuel junk p.caller ins) _ e1 in
      let (r, did, e3) =
        >>=-eq-done (operate fuel junk p.caller ins.opcode ins.arg_0 ins.arg_1 ins.arg_2) _ ran in
      let found : get_elem? p.code p.pc ≡ some ins = of_deref fetched in
      let sum = asks-at p.pc p.code ins found in
      let (b, w, le) =
        operate-Within p.caller v.area v.owned fuel junk ins.opcode ins.arg_0 ins.arg_1 ins.arg_2
          (r.1) (v.small.numbers p.pc ins found) (omega (arith, v.room, sum)) did in
      let same : r.1 ≡ q.1 = of_done e3 in
      let at : record p { pc = (p.pc + 1) % 2 ^ 32; caller = q.1 } ≡ p' = cc e2 in
      let on : (p.pc + 1) % 2 ^ 32 ≡ suc p.pc =
        omega (arith, get_elem?-lt p.code p.pc found, v.small.short) in
      subst (λ (q : Pcb). Fit q × (q.code ≡ p.code)) at
        (
          record {
            small = v.small;
            area = b;
            owned = subst (λ c. Owned c b) same w;
            room = omega (arith, v.room, sum, le, ap (λ (n : ℕ). asks n p.code) on);
          },
          refl,
        )
]
