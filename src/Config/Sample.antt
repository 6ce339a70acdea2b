-- ===== src/Config/Sample.antt =====
-- A configuration of two CPUs and two processes.
use btlos.Prelude.{
  ℕ, zero, suc, ◌≡◌, refl, sym, some, List, [], ◌∷◌, done, arith, get_elem?, of_some,
}
use btlos.Prelude.Int.{ℤ, pos}
use btlos.Config.{Config, read_config}
use btlos.Config.Print.{IsInt, Line, IsLine, entries_of, print, read_config-print}
use btlos.Config.Token.{
  Token, scan_d, scan_lu, scan_s, print_d, print_lu, print_s, IsName, integer_law, number_law,
  word_law,
}

abbrev pub lines : List Line
lines =
    record { name = 112 ∷ 48 ∷ []; start_time = 0; prio = 5 }
    ∷ record { name = 112 ∷ 49 ∷ []; start_time = 3; prio = 2 }
    ∷ []

abbrev pub sizes : List ℤ
sizes = pos 4096 ∷ pos 0 ∷ pos 0 ∷ pos 0 ∷ []

abbrev pub config : Config
config = record {
  time_slot = pos 2;
  num_cpus = pos 2;
  num_processes = pos 2;
  memramsz = pos 1024;
  memswpsz = sizes;
  ld_processes = entries_of lines;
}

abbrev pub config_file : List Token
config_file = print print_d print_lu print_s (pos 2) (pos 2) (pos 1024) sizes lines []

pub sizes_fit : (i : ℕ) (n : ℤ) → get_elem? sizes i ≡ some n → IsInt n
sizes_fit zero n e = rw (sym (of_some e)) (omega arith)
sizes_fit (suc zero) n e = rw (sym (of_some e)) (omega arith)
sizes_fit (suc (suc zero)) n e = rw (sym (of_some e)) (omega arith)
sizes_fit (suc (suc (suc zero))) n e = rw (sym (of_some e)) (omega arith)
sizes_fit (suc (suc (suc (suc i)))) n e = cc

pub lines_fit : (i : ℕ) (l : Line) → get_elem? lines i ≡ some l → IsLine IsName l
lines_fit zero l e =
    rw (sym (of_some e))
      (record { named = tt; short = omega arith; starts = omega arith; ranks = omega arith })
lines_fit (suc zero) l e =
    rw (sym (of_some e))
      (record { named = tt; short = omega arith; starts = omega arith; ranks = omega arith })
lines_fit (suc (suc i)) l e = cc

pub config_file-read : read_config scan_d scan_lu scan_s 0 (some config_file) ≡ done (some config)
config_file-read =
    read_config-print print_d print_lu print_s scan_d scan_lu scan_s IsName integer_law number_law
      word_law 0 (pos 2) (pos 2) (pos 1024) sizes lines [] (omega arith) (omega arith) (omega arith)
      (omega arith) refl sizes_fit lines_fit
