-- ===== src/Region/Find.antt =====
-- `get_free_vmrg_area` in the first area of a process.
use btlos.Prelude.{
  ℕ, zero, suc, ◌>>=◌, ◌+◌, ◌^◌, ◌%◌, ◌≡◌, ◌<◌, ◌≤◌, refl, ap, ◌∙◌, List, [], ◌∷◌, done, success,
  failure, chain, node, arith, length,
}
use btlos.Prelude.Int.{pos}
use btlos.Mm.{Mm, Area, Region, minus_one}
use btlos.Mm.Laws.{get_vma_by_num-first, with_area}
use btlos.Region.{region, get_free_vmrg_area, fit, fit_loop, used_up}
use btlos.Region.Rounds.{fit_loop_remove, fit_loop_pass}

-- Free regions below 2 ^ 63, none of which has room for `size` bytes.
abbrev pub NoRoom : ℕ → List Region → Type 0
NoRoom size [] = Unit {0}
NoRoom size (r ∷ rs) =
    (r.rg_start ≤ r.rg_end) × (r.rg_end < 2 ^ 63) × (r.rg_end < r.rg_start + size) × NoRoom size rs

fit_loop-none :
    (size : ℕ) (fuel : ℕ) (newrg : Region) (xs : List Region)
    → size < 2 ^ 31
    → length xs < fuel
    → NoRoom size xs
    → fit_loop fuel size newrg (chain xs) ≡ done (newrg, chain xs)
unfolding fit_loop
fit_loop-none size zero newrg xs small enough h = absurd (omega (arith, enough))
fit_loop-none size (suc fuel) newrg [] small enough h = refl
fit_loop-none size (suc fuel) newrg (r ∷ xs) small enough (sound, low, short, h) =
    fit_loop_pass size small fuel newrg r (chain xs) low sound short
    ∙ ap (λ o. (o >>= λ (rg, list). done (rg, node r list)))
        (fit_loop-none size fuel newrg xs small (omega (arith, enough)) h)

-- Where none of the free regions has room, the search fails and changes nothing.
pub get_free_vmrg_area-none :
    (fuel : ℕ) (mm : Mm) (a : Area) (rest : List Area) (size : ℕ) (xs : List Region)
    → mm.mmap ≡ a ∷ rest
    → a.vm_freerg_list ≡ chain xs
    → size < 2 ^ 31
    → length xs < fuel
    → NoRoom size xs
    → get_free_vmrg_area fuel mm (pos 0) (pos size) ≡ done (failure, region minus_one minus_one, mm)
unfolding get_free_vmrg_area fit
get_free_vmrg_area-none fuel mm a rest size [] area free small enough h =
    rw (get_free_vmrg_area, get_vma_by_num-first mm a rest area, area, free) refl
get_free_vmrg_area-none fuel mm a rest size (r ∷ xs) area free small enough h =
    let small64 : size % 2 ^ 64 ≡ size = omega (arith, small) in
    rw
      (
        get_free_vmrg_area,
        get_vma_by_num-first mm a rest area,
        area,
        free,
        small64,
        fit_loop-none size fuel (region minus_one minus_one) (r ∷ xs) small enough h,
      )
      refl

-- A region of just the size that is asked for, in front of others that have no room, is handed out.
pub get_free_vmrg_area-exact :
    (fuel : ℕ) (mm : Mm) (a : Area) (rest : List Area) (b n : ℕ) (r : Region) (xs : List Region)
    → mm.mmap ≡ a ∷ rest
    → a.vm_freerg_list ≡ node (region b (b + suc n)) (chain (r ∷ xs))
    → b + suc n < 2 ^ 31
    → length (r ∷ xs) < fuel
    → NoRoom (suc n) (r ∷ xs)
    → get_free_vmrg_area (suc fuel) mm (pos 0) (pos (suc n))
      ≡ done (
        success,
        region b (b + suc n),
        with_area mm (record a { vm_freerg_list = chain (r ∷ xs) }) rest,
      )
unfolding get_free_vmrg_area fit used_up
get_free_vmrg_area-exact fuel mm a rest b n r xs area free small enough h =
    let small64 : suc n % 2 ^ 64 ≡ suc n = omega (arith, small) in
    rw
      (
        get_free_vmrg_area,
        get_vma_by_num-first mm a rest area,
        area,
        free,
        small64,
        fit_loop_remove (suc n) (omega (arith, small)) fuel (region minus_one minus_one)
            (region b (b + suc n)) (chain (r ∷ xs)) (omega (arith, small)) (omega arith) refl,
        fit_loop-none (suc n) fuel (region b (b + suc n)) (r ∷ xs) (omega (arith, small)) enough h,
      )
      (ground (arith, small))
