-- ===== src/Queue/Tests.antt =====
-- Runs of the queue on concrete processes, which are numbers here, each its own priority.
use btlos.Prelude.{ℕ, zero, suc, ◌≡◌, ◌<◌, refl, some, [], ◌∷◌, done, arith, get_elem?}
use btlos.Queue.{Queue, IsQueue, enqueue, dequeue, max_int}
use btlos.Queue.Contents.{contents}
use btlos.Queue.Fifo.{push, pop, enqueue-push, dequeue-pop}

abbrev two_items : Queue ℕ
two_items = record { proc = 7 ∷ 5 ∷ 0 ∷ 0 ∷ 0 ∷ 0 ∷ 0 ∷ 0 ∷ 0 ∷ 0 ∷ []; size = 2; slots = 1 }

two_items-IsQueue : IsQueue two_items
two_items-IsQueue = record { cells = refl; room = omega arith }

enqueue-push_example :
    (contents (enqueue two_items 3) ≡ push (contents two_items) 3)
    × IsQueue (enqueue two_items 3)
    × ((enqueue two_items 3).slots ≡ 1)
enqueue-push_example = enqueue-push two_items 3 two_items-IsQueue

dequeue-pop_example :
    (q' : Queue ℕ) × (dequeue two_items ≡ done ((pop (contents two_items)).0, q'))
    × (contents q' ≡ (pop (contents two_items)).1)
    × IsQueue q'
    × (q'.slots ≡ 1)
dequeue-pop_example = dequeue-pop two_items two_items-IsQueue

below_max : (j p : ℕ) → get_elem? (contents two_items) j ≡ some p → p < max_int
below_max zero p e = ground (arith, e)
below_max (suc zero) p e = ground (arith, e)
below_max (suc (suc j)) p e = cc
