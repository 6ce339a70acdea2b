-- ===== src/Cpu.antt =====
-- `run` of src/cpu.c with `calc`, built with `MM_PAGING`, over the instructions of include/common.h.
pub mod Step
pub mod Safety
pub mod Fit
mod Tests
use btlos.Prelude.{
  ℕ, ◌+◌, ◌%◌, ◌^◌, List, Outcome, done, ◌>>=◌, deref, Code, success, failure, get_elem?, length,
  ltb, if◌then◌else◌,
}
use btlos.Mm.{Caller}
use btlos.Vm.{pgalloc, pgfree_data, pgread, pgwrite}

-- `enum ins_opcode_t`; `other` is any other number.
pub data Opcode : Type 0 where
  calc_op alloc_op free_op read_op write_op other : Opcode

-- `struct inst_t`, with arguments below 2 ^ 32.
pub record Inst : Type 0 where
  pub opcode : Opcode
  pub arg_0 : ℕ
  pub arg_1 : ℕ
  pub arg_2 : ℕ

-- What `run` needs of `struct pcb_t`. `code->size` is the length of `code`.
pub record Pcb : Type 0 where
  pub code : List Inst
  pub pc : ℕ
  pub caller : Caller

-- How `run` ends: with 0, with 1, or with the end of the whole program.
pub data Stat : Type 0 where
  executed no_more exited : Stat

pub calc : Caller → Outcome (Code × Caller)
calc c = done (success, c)

pub stat_of : Code → Stat
stat_of success = executed
stat_of failure = exited

-- What an instruction does to the process, and the value of `stat` in case of its opcode. The value
-- of `write` is a `BYTE`.
pub operate : ℕ → ℕ → Caller → Opcode → ℕ → ℕ → ℕ → Outcome (Code × Caller)
operate fuel junk c calc_op arg_0 arg_1 arg_2 = calc c
operate fuel junk c alloc_op arg_0 arg_1 arg_2 = pgalloc fuel junk c arg_0 arg_1
operate fuel junk c free_op arg_0 arg_1 arg_2 = pgfree_data c arg_0
operate fuel junk c read_op arg_0 arg_1 arg_2 = pgread junk c arg_0 arg_1 arg_2
operate fuel junk c write_op arg_0 arg_1 arg_2 = pgwrite junk c (arg_0 % 2 ^ 8) arg_1 arg_2
operate fuel junk c other arg_0 arg_1 arg_2 = done (success, c)

-- The `switch` of `run` and the test behind it.
pub execute : ℕ → ℕ → Caller → Inst → Outcome (Stat × Caller)
execute fuel junk c ins = do
  (code, c1) ← operate fuel junk c ins.opcode ins.arg_0 ins.arg_1 ins.arg_2
  done (elim ins.opcode [ other ↦ no_more | _ ↦ stat_of code ], c1)

-- `run`
pub run : ℕ → ℕ → Pcb → Outcome (Stat × Pcb)
run fuel junk p =
    if ltb p.pc (length p.code)
    then (do
      ins ← deref (get_elem? p.code p.pc)
      (stat, c) ← execute fuel junk p.caller ins
      done (stat, record p { pc = (p.pc + 1) % 2 ^ 32; caller = c }))
    else done (no_more, p)
