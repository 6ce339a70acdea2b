-- ===== src/Lru/Tests.antt =====
-- Runs on lists of three pages.
use btlos.Prelude.{◌≡◌, refl, true, none, some, [], ◌∷◌, done, fault, null, wild, chain}
use btlos.Lru.{enlist_pgn_node, find_victim_page}
use btlos.Lru.Laws.{erase, distinct, enlist_pgn_node-distinct, find_victim_page-last}

three_distinct : distinct (4 ∷ 8 ∷ 6 ∷ []) ≡ true
unfolding distinct btlos.Lru.Laws.has
three_distinct = refl

enlist_pgn_node-distinct_example :
    (enlist_pgn_node (chain (4 ∷ 8 ∷ 6 ∷ [])) 8 ≡ done (chain (8 ∷ erase 8 (4 ∷ 8 ∷ 6 ∷ []))))
    × (distinct (8 ∷ erase 8 (4 ∷ 8 ∷ 6 ∷ [])) ≡ true)
enlist_pgn_node-distinct_example = enlist_pgn_node-distinct (4 ∷ 8 ∷ 6 ∷ []) 8 three_distinct

find_victim_page-last_example :
    (find_victim_page (chain (4 ∷ 8 ∷ 6 ∷ [])) ≡ done (some 6, chain (4 ∷ 8 ∷ [])))
    × (find_victim_page (chain (6 ∷ [])) ≡ done (some 6, wild))
    × (enlist_pgn_node wild 4 ≡ fault)
    × (find_victim_page (chain []) ≡ done (none, null))
find_victim_page-last_example = find_victim_page-last (8 ∷ []) 4 6
