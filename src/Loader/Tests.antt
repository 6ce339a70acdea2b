-- ===== src/Loader/Tests.antt =====
-- Files for src/loader.c.
use btlos.Prelude.{
  ℕ, zero, suc, ◌≡◌, ◌≢◌, refl, sym, some, List, [], ◌∷◌, done, arith, get_elem?, of_some,
}
use btlos.Cpu.{calc_op, alloc_op, free_op, write_op, other, Inst}
use btlos.Loader.{opt_free, get_opcode, same_word, load}
use btlos.Loader.Print.{opcode_name, get_opcode-name, Printable, settle, print, load-print}
use btlos.Loader.Token.{scan_u, scan_s, print_u, print_s, number_law, word_law}

get_opcode-name_example : (opt_free ≡ opcode_name free_op) × (free_op ≢ other)
unfolding get_opcode same_word
get_opcode-name_example = get_opcode-name opt_free free_op refl

abbrev blank : Inst
blank = record { opcode = calc_op; arg_0 = 0; arg_1 = 0; arg_2 = 0 }

abbrev program : List Inst
program =
    record { opcode = alloc_op; arg_0 = 300; arg_1 = 0; arg_2 = 0 }
    ∷ record { opcode = write_op; arg_0 = 100; arg_1 = 0; arg_2 = 20 }
    ∷ []

program-Printable : (i : ℕ) (ins : Inst) → get_elem? program i ≡ some ins → Printable ins
program-Printable zero ins e =
    rw (sym (of_some e))
      (record { known = λ f. cc; fits_0 = omega arith; fits_1 = omega arith; fits_2 = omega arith })
program-Printable (suc zero) ins e =
    rw (sym (of_some e))
      (record { known = λ f. cc; fits_0 = omega arith; fits_1 = omega arith; fits_2 = omega arith })
program-Printable (suc (suc i)) ins e = cc

load-print_example :
    load scan_u scan_s blank 0 0 1 (some (print print_u print_s 1 program []))
    ≡ done
        (some (record { pid = 1; priority = 1; code = settle blank program; pc = 0; bp = 1024 }, 2))
load-print_example =
    load-print print_u print_s scan_u scan_s number_law word_law blank 0 0 1 1 program []
      (omega arith) (omega arith) program-Printable
