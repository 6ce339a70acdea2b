-- ===== src/Region/Tests.antt =====
-- Searches for a region of 10 bytes.
use btlos.Prelude.{◌+◌, ◌*◌, ◌≡◌, ◌<◌, [], ◌∷◌, done, success, node, null, chain, arith}
use btlos.Region.{region, fit}
use btlos.Region.Fit.{AllFree, Fit, fit-Fit, measure}
use btlos.Region.Carve.{last_piece, fit-carves}

two_free : AllFree (region 0 5 ∷ region 20 35 ∷ [])
two_free = (omega arith, omega arith, (omega arith, omega arith, tt))

two_measure : measure (region 0 5 ∷ region 20 35 ∷ []) < 100
unfolding measure
two_measure = omega arith

fit-Fit_example :
    Fit 10
      (omega arith)
      (omega arith)
      (region 0 5 ∷ region 20 35 ∷ [])
      (fit 100 10 (chain (region 0 5 ∷ region 20 35 ∷ [])))
fit-Fit_example =
    fit-Fit 10 (omega arith) (omega arith) 100 (region 0 5 ∷ region 20 35 ∷ []) two_free two_measure

fit-carves_example :
    fit 6 10 (node (region 0 (0 + (2 * 10 + 10 + 5))) null)
    ≡ done
        (success, last_piece 10 0 2, node (region (0 + 2 * 10 + 10) (0 + (2 * 10 + 10 + 5))) null)
fit-carves_example =
    fit-carves 10 (omega arith) (omega arith) 2 6 0 5 (omega arith) (omega arith) (omega arith)
