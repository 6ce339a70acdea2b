-- ===== src/Region/Rounds.antt =====
-- One round of the loop of `get_free_vmrg_area`, by how much of the region is asked for.
use btlos.Prelude.{
  ℕ, suc, ◌+◌, ◌^◌, ◌≡◌, ◌≤◌, ◌<◌, done, ◌>>=◌, Chain, node, arith, lt→ltb, le→ltb, lt→leb, eq→leb,
  gt→leb,
}
use btlos.Mm.{Region, add64}
use btlos.Region.{region, used_up, fit_loop}

module _ (size : ℕ) (fits_int : size < 2 ^ 31) (fuel : ℕ) (newrg r : Region) (rest : Chain Region)
    (low : r.rg_end < 2 ^ 63) (sound : r.rg_start ≤ r.rg_end) where
  no_wrap : add64 r.rg_start size ≡ r.rg_start + size
  no_wrap = omega arith

  -- More space than asked for: the front of the region is taken.
  pub fit_loop_shrink :
      r.rg_start + size < r.rg_end
      → fit_loop (suc fuel) size newrg (node r rest)
        ≡ fit_loop fuel size
            (region r.rg_start (r.rg_start + size))
            (node (region (r.rg_start + size) r.rg_end) rest)
  unfolding fit_loop
  fit_loop_shrink h = rw (no_wrap, lt→leb h, lt→ltb h)

  -- Exactly the space asked for.
  pub fit_loop_remove :
      r.rg_start + size ≡ r.rg_end
      → fit_loop (suc fuel) size newrg (node r rest) ≡ (
          used_up r rest >>= λ list.
          fit_loop fuel size (region r.rg_start (r.rg_start + size)) list)
  unfolding fit_loop
  fit_loop_remove h =
      rw (no_wrap, eq→leb h, le→ltb {a = r.rg_start + size} {b = r.rg_end} (omega arith))

  -- Too little space.
  pub fit_loop_pass :
      r.rg_end < r.rg_start + size
      → fit_loop (suc fuel) size newrg (node r rest)
        ≡ (fit_loop fuel size newrg rest >>= λ (rg, list). done (rg, node r list))
  unfolding fit_loop
  fit_loop_pass h = rw (no_wrap, gt→leb h)
