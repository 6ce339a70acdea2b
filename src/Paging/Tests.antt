-- ===== src/Paging/Tests.antt =====
-- Page accesses of a process whose page table is all zero, with a RAM of 1024 bytes.
use btlos.Prelude.{
  ℕ, zero, suc, ◌/◌, ◌%◌, ◌≡◌, ◌≢◌, ◌≤◌, ◌+◌, ◌*◌, ◌<◌, ◌^◌, refl, true, false, none, some, List,
  [], ◌∷◌, done, success, null, chain, arith, get_elem?, replicate, length-replicate,
}
use btlos.Prelude.Int.{pos}
use btlos.Memphy.{Memphy}
use btlos.Pte.{page_present, paging_fpn, paging_swp, paging_offst, paging_pgn}
use btlos.Mm.{Caller}
use btlos.Paging.{pg_getpage, pg_getval, pg_setval, vmap_page_range}
use btlos.Paging.Getpage.{enlisted, with_frames, pg_getpage-free_frame}
use btlos.Paging.Evict.{pg_getpage-swap_full, pg_getpage-evict}
use btlos.Lru.Laws.{erase}
use btlos.Memphy.Access.{IsDevice}
use btlos.Paging.Values.{pg_setval-pg_getval}
use btlos.Paging.Range.{AllOffline, none_left, one_more, Mapped, vmap_page_range-Mapped}

abbrev ram : List ℕ → Memphy
ram frames = record {
  storage = replicate 1024 0;
  maxsz = 1024;
  rdmflg = true;
  cursor = 0;
  free_fp_list = chain frames;
  used_fp_list = null;
}

-- A process with a page table of entries `pte`.
abbrev process : ℕ → List ℕ → List ℕ → Caller
process pte frames lru = record {
  mm = record { pgd = replicate 16384 pte; mmap = []; symrgtbl = []; lru_pgn = chain lru };
  mram = ram frames;
  active_mswp = ram [];
}

zero-absent : page_present 0 ≡ false
unfolding page_present
zero-absent = refl

online-present : page_present (2 ^ 31) ≡ true
unfolding page_present
online-present = refl

entry : (n i : ℕ) → i < n → get_elem? {A = ℕ} (replicate n 0) i ≡ some 0
entry zero i lt = absurd (omega (arith, lt))
entry (suc n) zero lt = refl
entry (suc n) (suc i) lt = entry n i (omega (arith, lt))

offset_10 : paging_offst 10 ≡ paging_offst 266
unfolding paging_offst
offset_10 = refl

page_10 : get_elem? {A = ℕ} (replicate 16384 0) (paging_pgn 10) ≡ some 0
unfolding paging_pgn
page_10 = refl

page_266 : get_elem? {A = ℕ} (replicate 16384 0) (paging_pgn 266) ≡ some 0
unfolding paging_pgn
page_266 = refl

pg_getpage-free_frame_example :
    pg_getpage 0 (process 0 (1 ∷ 2 ∷ []) []) 5
    ≡ done (some (1 / 256 % 4), enlisted (with_frames (process 0 (1 ∷ 2 ∷ []) []) (2 ∷ [])) 5 [])
pg_getpage-free_frame_example =
    pg_getpage-free_frame 0 (process 0 (1 ∷ 2 ∷ []) []) 5 0 1 (2 ∷ []) [] (omega arith) refl
      zero-absent (omega arith) (omega arith) refl refl

pg_setval-pg_getval_example :
    (c1 c2 : Caller) × (pg_setval 0 (process 0 (1 ∷ 2 ∷ 3 ∷ []) []) (pos 10) 77
      ≡ done (success, c1))
    × (pg_getval 0 c1 (pos 266) ≡ done (some 77, c2))
    × (c2.mm.pgd ≡ replicate 16384 0)
    × (c2.mram.free_fp_list ≡ chain (3 ∷ []))
pg_setval-pg_getval_example =
    pg_setval-pg_getval 0 (process 0 (1 ∷ 2 ∷ 3 ∷ []) []) 10 266 77 0 0 1 2 (3 ∷ []) []
      (omega arith) (omega arith) offset_10 page_10 page_266 zero-absent zero-absent (omega arith)
      (omega arith) refl (omega arith) (omega arith) refl refl
      (record { cells = length-replicate {A = ℕ} 1024 0; random = refl }) (omega arith)

all_offline : AllOffline (replicate 16384 0)
all_offline = record { offline = λ pgn lt. (0, entry 16384 pgn lt, zero-absent, omega arith) }

vmap_page_range-Mapped_example :
    (c' : Caller) × (vmap_page_range 0 (process 0 (1 ∷ 2 ∷ 3 ∷ []) []) (pos 256) 2
      ≡ done (success, c'))
    × Mapped (process 0 (1 ∷ 2 ∷ 3 ∷ []) []) c' (3 ∷ [])
vmap_page_range-Mapped_example =
    vmap_page_range-Mapped 0 (process 0 (1 ∷ 2 ∷ 3 ∷ []) []) 256 (1 ∷ 2 ∷ []) (3 ∷ []) []
      all_offline (one_more 1 (2 ∷ []) (omega arith) (one_more 2 [] (omega arith) none_left))
      (omega arith) refl refl

-- Page 5 is needed, pages 3 and 2 were used, and swap has the given free frames.
abbrev crowded : List ℕ → Caller
crowded frames = record (process 0 [] (3 ∷ 2 ∷ [])) { active_mswp = ram frames }

one_apart : 1 ≢ paging_fpn 0
unfolding paging_fpn
one_apart = omega arith

swap_first : paging_swp 0 * 256 + 256 ≤ 1024
unfolding paging_swp
swap_first = omega arith

ram-IsDevice : (frames : List ℕ) → IsDevice (ram frames)
ram-IsDevice frames = record { cells = length-replicate {A = ℕ} 1024 0; random = refl }

pg_getpage-swap_full_example :
    pg_getpage 0 (crowded []) 5
    ≡ done
        (none, record (crowded []) { mm = record ((crowded []).mm) { lru_pgn = chain (3 ∷ []) } })
pg_getpage-swap_full_example =
    pg_getpage-swap_full 0 (crowded []) 5 0 0 3 2 [] (omega arith) refl zero-absent refl refl refl
      refl

pg_getpage-evict_example :
    (frame : ℕ) × (c' : Caller) × (pg_getpage 0 (crowded (1 ∷ 2 ∷ [])) 5 ≡ done (some frame, c'))
    × (c'.mram ≡ (crowded (1 ∷ 2 ∷ [])).mram)
    × (c'.mm.lru_pgn ≡ chain (5 ∷ erase 5 (3 ∷ [])))
    × (c'.active_mswp.free_fp_list ≡ chain (2 ∷ []))
    × ((j : ℕ)
        → j < 256
        → get_elem? c'.active_mswp.storage (1 * 256 + j)
          ≡ get_elem? (replicate 1024 0) (paging_fpn 0 * 256 + j))
    × ((j : ℕ)
        → j < 256
        → get_elem? c'.active_mswp.storage (paging_fpn 0 * 256 + j)
          ≡ get_elem? (replicate 1024 0) (paging_swp 0 * 256 + j))
pg_getpage-evict_example =
    pg_getpage-evict 0 (crowded (1 ∷ 2 ∷ [])) 5 0 0 3 2 [] (omega arith) refl zero-absent refl refl
      refl 1 (2 ∷ []) refl (ram-IsDevice []) (ram-IsDevice (1 ∷ 2 ∷ [])) (omega arith) (omega arith)
      one_apart (omega arith) swap_first
