-- ===== src/Frames/Tests.antt =====
-- Runs with RAM of two free frames. Owners are numbers.
use btlos.Prelude.{
  ℕ, ◌≡◌, refl, true, some, List, [], ◌∷◌, done, success, failure, none, null, chain,
}
use btlos.Prelude.Int.{pos, negsuc}
use btlos.Memphy.{Memphy}
use btlos.Frames.{Frame, enlist_framephy, alloc_loop, alloc_pages_range}
use btlos.Frames.Laws.{alloc_pages_range-enough, alloc_pages_range-short}

abbrev ram : List ℕ → Memphy
ram free = record {
  storage = [];
  maxsz = 0;
  rdmflg = true;
  cursor = 0;
  free_fp_list = chain free;
  used_fp_list = null;
}

abbrev frame : ℕ → Frame ℕ
frame n = record { fpn = n; owner = 1 }

-- Without a place for the list nothing is enlisted.
enlist_null : enlist_framephy {Owner = ℕ} 1 none 4 ≡ done (failure, none)
unfolding enlist_framephy
enlist_null = refl

-- For a negative number of pages the loop makes no round.
take_none :
    alloc_pages_range {Owner = ℕ} 1 (ram (4 ∷ [])) (negsuc 2) (some null)
    ≡ done (success, record { mram = ram (4 ∷ []); req_pgnum = negsuc 2; frm_lst = some null })
unfolding alloc_pages_range alloc_loop
take_none = refl

-- One of two free frames is taken.
take_one :
    alloc_pages_range {Owner = ℕ} 1 (ram (4 ∷ 7 ∷ [])) (pos 1) (some null)
    ≡ done (
      success,
      record { mram = ram (7 ∷ []); req_pgnum = pos 1; frm_lst = some (chain (frame 4 ∷ [])) },
    )
take_one = alloc_pages_range-enough 1 (ram (4 ∷ 7 ∷ [])) (4 ∷ []) (7 ∷ []) [] refl

alloc_pages_range-short_example :
    alloc_pages_range 1 (ram (4 ∷ 7 ∷ [])) (pos 5) (some (chain (frame 2 ∷ [])))
    ≡ done (
      success,
      record {
        mram = ram [];
        req_pgnum = pos 3;
        frm_lst = some (chain (frame 2 ∷ frame 4 ∷ frame 7 ∷ []));
      },
    )
alloc_pages_range-short_example =
    alloc_pages_range-short 1 (ram (4 ∷ 7 ∷ [])) (4 ∷ 7 ∷ []) 2 (frame 2 ∷ []) refl
