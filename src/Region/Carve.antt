-- ===== src/Region/Carve.antt =====
-- The loop of `get_free_vmrg_area` of src/mm-vm.c on one free region.
use btlos.Prelude.{
  ℕ, zero, suc, ◌+◌, ◌*◌, ◌^◌, ◌≡◌, ◌≤◌, ◌<◌, sym, ◌∙◌, ap, done, success, null, node, arith, ne→==,
}
use native.Mathlib.Decide.{dec_lt}
use btlos.Mm.{Region, minus_one}
use btlos.Region.{region, fit_loop, fit, used_up}
use btlos.Region.Rounds.{fit_loop_shrink, fit_loop_remove, fit_loop_pass}

-- The last of the `suc k` regions of `size` bytes from `start`, and what is left of the region.
abbrev pub last_piece : ℕ → ℕ → ℕ → Region
last_piece size start k = region (start + k * size) (start + k * size + size)

module _ (size : ℕ) (positive : 0 < size) (fits_int : size < 2 ^ 31) where
  fit_loop-rest :
      (fuel : ℕ) (newrg r : Region)
      → r.rg_start ≤ r.rg_end
      → r.rg_end < 2 ^ 63
      → r.rg_end < r.rg_start + size
      → fit_loop (suc (suc fuel)) size newrg (node r null) ≡ done (newrg, node r null)
  unfolding fit_loop
  fit_loop-rest fuel newrg r le lt small =
      rw (fit_loop_pass size fits_int (suc fuel) newrg r null lt le small)

  last_fit :
      (fuel start rest : ℕ) (newrg : Region)
      → rest < size
      → start + size + rest < 2 ^ 63
      → fit_loop (suc (suc (suc fuel))) size newrg (node (region start (start + size + rest)) null)
        ≡ done
            (region start (start + size), node (region (start + size) (start + size + rest)) null)
  unfolding used_up
  last_fit fuel start rest newrg small low =
      let whole = region start (start + size + rest) in
      let found = region start (start + size) in
      elim (dec_lt 0 rest) [
        | yes more ↦
            fit_loop_shrink size fits_int (suc (suc fuel)) newrg whole null low (omega arith)
              (omega arith)
            ∙ fit_loop-rest fuel found (region (start + size) (start + size + rest)) (omega arith)
                low (omega arith)
        | no none ↦
            let exact : start + size ≡ start + size + rest = omega arith in
            fit_loop_remove size fits_int (suc (suc fuel)) newrg whole null low (omega arith) exact
            ∙ fit_loop-rest fuel found (region (start + size + rest) (start + size + rest))
                (omega arith) low (omega arith)
            ∙ ap (λ e. done (found, node (region e (start + size + rest)) null)) (sym exact)
      ]

  fit_loop-carves :
      (k fuel start rest : ℕ) (newrg : Region)
      → rest < size
      → start + (k * size + size + rest) < 2 ^ 63
      → k + 4 ≤ fuel
      → fit_loop fuel size newrg (node (region start (start + (k * size + size + rest))) null)
        ≡ done (
          last_piece size start k,
          node (region (start + k * size + size) (start + (k * size + size + rest))) null,
        )
  fit_loop-carves k zero start rest newrg small low h = absurd (omega arith)
  fit_loop-carves zero (suc zero) start rest newrg small low h = absurd (omega arith)
  fit_loop-carves zero (suc (suc zero)) start rest newrg small low h = absurd (omega arith)
  fit_loop-carves zero (suc (suc (suc fuel))) start rest newrg small low h =
      let e : 0 * size ≡ 0 = omega arith in
      let stop : start + (0 * size + size + rest) ≡ start + size + rest = omega arith in
      let start' : start + 0 * size ≡ start = omega arith in
      rw (stop, start') (last_fit fuel start rest newrg small (omega arith))
  fit_loop-carves (suc k) (suc fuel) start rest newrg small low h =
      let stop = start + (suc k * size + size + rest) in
      fit_loop_shrink size fits_int fuel newrg (region start stop) null low (omega arith)
        (omega arith)
      ∙ ap
          (λ e.
            fit_loop fuel size (region start (start + size)) (node (region (start + size) e) null))
          (omega arith)
      ∙ fit_loop-carves k fuel (start + size) rest (region start (start + size)) small (omega arith)
          (omega arith)
      ∙ (let more : suc k * size ≡ k * size + size = omega arith in ground arith)

  -- For a size from 1 to 2 ^ 31 - 1, a search of one free region of `k + 1` times the size and a
  -- rest below the size, with its end below 2 ^ 63, returns the last of the `k + 1` pieces within
  -- `k + 4` rounds, and only the rest stays free: the first `k` pieces are lost.
  pub fit-carves :
      (k fuel start rest : ℕ)
      → rest < size
      → start + (k * size + size + rest) < 2 ^ 63
      → k + 4 ≤ fuel
      → fit fuel size (node (region start (start + (k * size + size + rest))) null)
        ≡ done (
          success,
          last_piece size start k,
          node (region (start + k * size + size) (start + (k * size + size + rest))) null,
        )
  unfolding fit
  fit-carves k fuel start rest small low h = rw (
    fit_loop-carves k fuel start rest (region minus_one minus_one) small low h,
    ne→== {a = start + k * size} {b = minus_one} (omega arith),
  )
