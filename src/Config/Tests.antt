-- ===== src/Config/Tests.antt =====
-- The configuration of two CPUs and two processes, read back.
use btlos.Prelude.{◌≡◌, refl, some, [], done, arith}
use btlos.Prelude.Int.{pos}
use btlos.Config.{read_config}
use btlos.Config.Print.{read_config-print}
use btlos.Config.Token.{
  scan_d, scan_lu, scan_s, print_d, print_lu, print_s, IsName, integer_law, number_law, word_law,
}
use btlos.Config.Sample.{lines, sizes, config, config_file, sizes_fit, lines_fit}

read_config-print_example :
    read_config scan_d scan_lu scan_s 0 (some config_file) ≡ done (some config)
read_config-print_example =
    read_config-print print_d print_lu print_s scan_d scan_lu scan_s IsName integer_law number_law
      word_law 0 (pos 2) (pos 2) (pos 1024) sizes lines [] (omega arith) (omega arith) (omega arith)
      (omega arith) refl sizes_fit lines_fit
