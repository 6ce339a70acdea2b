-- ===== src/Memphy/Copy.antt =====
-- `__swap_cp_page` of src/mm.c, the copy of one frame.
use btlos.Prelude.{
  ℕ, zero, suc, ◌+◌, ◌*◌, ◌≡◌, ◌≤◌, ◌<◌, refl, sym, ◌∙◌, done, arith, get_elem?, get_elem?-some,
  get_elem?-set_self, get_elem?-set_ne,
}
use btlos.Prelude.Int.{pos}
use native.Mathlib.Decide.{ℕ_discrete}
use btlos.Memphy.{Memphy, swap_loop, swap_cp_page}
use btlos.Memphy.Access.{IsDevice, read_lem, written, write-in_range, written-IsDevice}

-- `out` is `mpdst` with the cells `i` to 255 of frame `dstfpn` taken from frame `srcfpn` of `mpsrc`.
pub record Copied (mpsrc mpdst out : Memphy) (srcfpn dstfpn i : ℕ) : Type 0 where
  pub valid : IsDevice out
  pub same_size : out.maxsz ≡ mpdst.maxsz
  pub same_frames : out.free_fp_list ≡ mpdst.free_fp_list
  pub copied :
      (k : ℕ)
      → i ≤ k
      → k < 256
      → get_elem? out.storage (dstfpn * 256 + k) ≡ get_elem? mpsrc.storage (srcfpn * 256 + k)
  pub below : (j : ℕ) → j < dstfpn * 256 + i → get_elem? out.storage j ≡ get_elem? mpdst.storage j
  pub above : (j : ℕ) → dstfpn * 256 + 256 ≤ j → get_elem? out.storage j ≡ get_elem? mpdst.storage j

module _ (junk : ℕ) (mpsrc : Memphy) (srcfpn dstfpn : ℕ) (src_valid : IsDevice mpsrc)
    (src_fits : srcfpn * 256 + 256 ≤ mpsrc.maxsz) where
  swap_loop-Copied :
      (left i : ℕ) (mpdst : Memphy)
      → i + left ≡ 256
      → IsDevice mpdst
      → dstfpn * 256 + 256 ≤ mpdst.maxsz
      → (out : Memphy) × (swap_loop junk left i mpsrc srcfpn mpdst dstfpn ≡ done (mpsrc, out))
        × Copied mpsrc mpdst out srcfpn dstfpn i
  unfolding swap_loop
  swap_loop-Copied zero i mpdst h v fits = (
    mpdst,
    refl,
    record {
      valid = v;
      same_size = refl;
      same_frames = refl;
      copied = λ k a b. absurd (omega arith);
      below = λ j a. refl;
      above = λ j a. refl;
    },
  )
  swap_loop-Copied (suc left) i mpdst h v fits =
      let (b, e) =
        get_elem?-some mpsrc.storage (srcfpn * 256 + i) (omega (arith, src_valid.cells)) in
      let at = dstfpn * 256 + i in
      let next = written mpdst at b in
      let (out, r, c) =
        swap_loop-Copied left (i + 1) next (omega arith) (written-IsDevice mpdst at b v) fits in
      (
        out,
        rw
            (
              read_lem mpsrc (pos (srcfpn * 256 + i)) src_valid,
              e,
              write-in_range mpdst at b v (omega arith),
            )
            r,
        record {
          valid = c.valid;
          same_size = c.same_size;
          same_frames = c.same_frames;
          copied = λ k le lt. elim (ℕ_discrete k i) [
            | yes same ↦ rw same (
                c.below at (omega arith)
                ∙ get_elem?-set_self mpdst.storage at b (omega (arith, v.cells))
                ∙ sym e)
            | no later ↦ c.copied k (omega arith) lt
          ];
          below =
              λ j lt. c.below j (omega arith) ∙ get_elem?-set_ne mpdst.storage at j b (omega arith);
          above = λ j le. c.above j le ∙ get_elem?-set_ne mpdst.storage at j b (omega arith);
        },
      )

  -- Between two devices of random access on which the two frames lie, `__swap_cp_page` ends, leaves
  -- the source as it was and makes the 256 cells of the destination's frame equal to those of the
  -- source's; the other cells, the size and the free frames of the destination stay.
  pub swap_cp_page-Copied :
      (mpdst : Memphy)
      → IsDevice mpdst
      → dstfpn * 256 + 256 ≤ mpdst.maxsz
      → (out : Memphy) × (swap_cp_page junk mpsrc srcfpn mpdst dstfpn ≡ done (mpsrc, out))
        × Copied mpsrc mpdst out srcfpn dstfpn 0
  unfolding swap_cp_page
  swap_cp_page-Copied mpdst v fits = swap_loop-Copied 256 0 mpdst (omega arith) v fits
