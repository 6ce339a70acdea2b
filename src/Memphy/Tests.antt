-- ===== src/Memphy/Tests.antt =====
-- Runs on devices of a few cells, and of two frames.
use btlos.Prelude.{
  ℕ, ◌≡◌, refl, true, false, [], ◌∷◌, done, null, arith, replicate, length-replicate,
}
use btlos.Memphy.{Memphy, swap_cp_page}
use btlos.Memphy.Access.{IsDevice}
use btlos.Memphy.Copy.{Copied, swap_cp_page-Copied}

abbrev ram : Memphy
ram = record {
  storage = 1 ∷ 2 ∷ 3 ∷ [];
  maxsz = 3;
  rdmflg = true;
  cursor = 0;
  free_fp_list = null;
  used_fp_list = null;
}

abbrev tape : Memphy
tape = record {
  storage = 1 ∷ 2 ∷ 3 ∷ [];
  maxsz = 3;
  rdmflg = false;
  cursor = 0;
  free_fp_list = null;
  used_fp_list = null;
}

-- Two frames, all of one byte.
abbrev frames : ℕ → Memphy
frames v = record {
  storage = replicate 512 v;
  maxsz = 512;
  rdmflg = true;
  cursor = 0;
  free_fp_list = null;
  used_fp_list = null;
}

frames-IsDevice : (v : ℕ) → IsDevice (frames v)
frames-IsDevice v = record { cells = length-replicate 512 v; random = refl }

swap_cp_page-Copied_example :
    (out : Memphy) × (swap_cp_page 0 (frames 7) 1 (frames 8) 0 ≡ done (frames 7, out))
    × Copied (frames 7) (frames 8) out 1 0 0
swap_cp_page-Copied_example =
    swap_cp_page-Copied 0 (frames 7) 1 0 (frames-IsDevice 7) (omega arith) (frames 8)
      (frames-IsDevice 8) (omega arith)
