-- ===== src/Cpu/Tests.antt =====
-- Programs of a process that has no memory.
use btlos.Prelude.{
  ◌+◌, ◌≤◌, ◌<◌, subst, of_some, ◌≡◌, ◌%◌, ◌^◌, refl, true, done, [], ◌∷◌, null, arith, replicate,
  List,
}
use btlos.Memphy.{Memphy}
use btlos.Mm.{Symbol, Area, minus_one}
use btlos.Cpu.{
  Opcode, alloc_op, executed, execute, operate, calc_op, free_op, Inst, Pcb, no_more, exited, run,
}
use btlos.Vm.Tests
use btlos.Vm.Tests.{area, hundred, hundred-Owned, nothing, full}
use btlos.Vm.Grow.{grown, pgalloc-gap}
use btlos.Cpu.Safety.{Numbers, bytes, Modest, loaded, step, run-symbols_apart}

abbrev ram : Memphy
ram = record {
  storage = [];
  maxsz = 0;
  rdmflg = true;
  cursor = 0;
  free_fp_list = null;
  used_fp_list = null;
}

abbrev unset : Symbol
unset = record { rg_start = minus_one; rg_end = minus_one; rg_next = null }

abbrev process : List Inst → Pcb
process code = record {
  code = code;
  pc = 0;
  caller = record {
    mm = record { pgd = []; mmap = []; symrgtbl = replicate 30 unset; lru_pgn = null };
    mram = ram;
    active_mswp = ram;
  };
}

abbrev plain : Opcode → Inst
plain op = record { opcode = op; arg_0 = 0; arg_1 = 0; arg_2 = 0 }

-- Behind a symbol of 100 bytes the program asks for 50 more.
abbrev fifty : Inst
fifty = record { opcode = alloc_op; arg_0 = 50; arg_1 = 1; arg_2 = 0 }

abbrev asking : Pcb
asking = record { code = fifty ∷ []; pc = 0; caller = Tests.process hundred }

abbrev asked : Pcb
asked = record asking {
  pc = (0 + 1) % 2 ^ 32;
  caller = grown (Tests.process hundred) 1 Tests.unset area [] 50;
}

asks : run 5 0 asking ≡ done (executed, asked)
unfolding run execute operate btlos.Cpu.stat_of
asks =
    rw
      (pgalloc-gap 5 0 asking.caller 1 50 Tests.unset area [] (nothing ∷ []) refl refl
        (full 50 (omega arith)) (omega arith) refl (omega arith) (omega arith) (omega arith))
      refl

asking-Modest : Modest asking
asking-Modest = record {
  numbers = λ ins e.
      subst (λ (i : Inst). Numbers i.opcode i.arg_0 i.arg_1) (of_some e) (omega arith, omega arith);
  room = λ ins a e f.
      subst (λ (i : Inst). a.sbrk + bytes i.opcode i.arg_0 < 2 ^ 31) (of_some e)
        (subst (λ (b : Area). b.sbrk + 50 < 2 ^ 31) (of_some f) (omega arith));
}

-- The two symbols are then behind each other.
run-symbols_apart_example : ¬ ((0 ≤ 99) × (99 < 100) × (100 ≤ 99) × (99 < 150))
run-symbols_apart_example =
    run-symbols_apart asking asked area hundred-Owned (step 5 0 loaded asking-Modest asks) 0 1
      hundred (record { rg_start = 100; rg_end = 150; rg_next = null }) (omega arith) refl refl 99
