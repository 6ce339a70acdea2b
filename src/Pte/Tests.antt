-- ===== src/Pte/Tests.antt =====
-- The entry 0 with frame 300, and with swap frame 3.
use btlos.Prelude.{ℕ, ◌/◌, ◌%◌, ◌≡◌, ◌≢◌, arith}
use btlos.Pte.{paging_fpn, pte_set_fpn}
use btlos.Pte.Laws.{paging_fpn-pte_set_fpn}

paging_fpn-pte_set_fpn_example :
    let f : ℕ = 300 in
    (paging_fpn (pte_set_fpn 0 f) ≡ f / 256 % 4) × (f ≢ 0 → paging_fpn (pte_set_fpn 0 f) ≢ f)
paging_fpn-pte_set_fpn_example = paging_fpn-pte_set_fpn 0 300 (omega arith) (omega arith)
