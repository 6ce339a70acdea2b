-- ===== src/Frames/Laws.antt =====
-- What `alloc_pages_range` takes off RAM's list of free frames.
use btlos.Prelude.{
  ℕ, suc, ◌+◌, ◌≡◌, refl, sym, ap, ◌∙◌, some, List, [], ◌∷◌, ◌++◌, done, ◌>>=◌, success, chain,
  length, arith,
}
use btlos.Prelude.Int.{ℤ, pos}
use btlos.Memphy.{Memphy}
use btlos.Memphy.Free.{get_freefp-chain, get_freefp-null}
use btlos.Frames.{Frame, Obtained, append, enlist_framephy, alloc_loop, alloc_pages_range}

zero_add : (n : ℕ) → 0 + n ≡ n
zero_add n = omega arith

add_zero : (n : ℕ) → n + 0 ≡ n
add_zero n = omega arith

suc_add : (m n : ℕ) → suc m + n ≡ suc (m + n)
suc_add m n = omega arith

append_nil : {A : Type 0} (xs : List A) → xs ++ [] ≡ xs
append_nil [] = refl
append_nil (x ∷ xs) = ap (x ∷◌) (append_nil xs)

module _ {Owner : Type 0} where
  append-chain :
      (fs : List (Frame Owner)) (f : Frame Owner)
      → append (chain fs) f ≡ done (chain (fs ++ f ∷ []))
  unfolding append
  append-chain [] f = refl
  append-chain (g ∷ fs) f = rw (append-chain fs f) refl

  enlist_framephy-chain :
      (mm : Owner) (fs : List (Frame Owner)) (n : ℕ)
      → enlist_framephy mm (some (chain fs)) n
        ≡ done (success, some (chain (fs ++ record { fpn = n; owner = mm } ∷ [])))
  unfolding enlist_framephy
  enlist_framephy-chain mm fs n = rw (append-chain fs (record { fpn = n; owner = mm })) refl

  -- The frames of the numbers, all of one owner.
  abbrev pub owned : Owner → List ℕ → List (Frame Owner)
  owned mm [] = []
  owned mm (n ∷ ns) = record { fpn = n; owner = mm } ∷ owned mm ns

  snoc-append :
      (xs : List (Frame Owner)) (y : Frame Owner) (zs : List (Frame Owner))
      → (xs ++ y ∷ []) ++ zs ≡ xs ++ y ∷ zs
  snoc-append [] y zs = refl
  snoc-append (x ∷ xs) y zs = ap (x ∷◌) (snoc-append xs y zs)

  -- RAM `mram` with the free frames `free`, and the list `fs`.
  abbrev obtained : Memphy → ℤ → List ℕ → List (Frame Owner) → Obtained Owner
  obtained mram req free fs = record {
    mram = record mram { free_fp_list = chain free };
    req_pgnum = req;
    frm_lst = some (chain fs);
  }

  -- A round with a free frame takes it.
  alloc_loop-cons :
      (mm : Owner) (left : ℕ) (mram : Memphy) (req : ℤ) (n : ℕ) (free : List ℕ)
      (fs : List (Frame Owner))
      → alloc_loop mm (suc left) (obtained mram req (n ∷ free) fs)
        ≡ alloc_loop mm left (obtained mram req free (fs ++ record { fpn = n; owner = mm } ∷ []))
  unfolding alloc_loop
  alloc_loop-cons mm left mram req n free fs =
      rw
        (
          get_freefp-chain (record mram { free_fp_list = chain (n ∷ free) }) n free refl,
          enlist_framephy-chain mm fs n,
        )
        refl

  -- As many rounds as there are frames in `ns` take these.
  alloc_loop-append :
      (mm : Owner) (ns : List ℕ) (left : ℕ) (mram : Memphy) (req : ℤ) (free : List ℕ)
      (fs : List (Frame Owner))
      → alloc_loop mm (length ns + left) (obtained mram req (ns ++ free) fs)
        ≡ alloc_loop mm left (obtained mram req free (fs ++ owned mm ns))
  alloc_loop-append mm [] left mram req free fs = rw (zero_add left, append_nil fs) refl
  alloc_loop-append mm (n ∷ ns) left mram req free fs =
      rw (suc_add (length ns) left)
        (alloc_loop-cons mm (length ns + left) mram req n (ns ++ free) fs)
      ∙ alloc_loop-append mm ns left mram req free (fs ++ record { fpn = n; owner = mm } ∷ [])
      ∙ ap (λ gs. alloc_loop mm left (obtained mram req free gs))
          (snoc-append fs (record { fpn = n; owner = mm }) (owned mm ns))

  -- A round without a free frame is the last one.
  alloc_loop-null :
      (mm : Owner) (left : ℕ) (mram : Memphy) (req : ℤ) (fs : List (Frame Owner))
      → alloc_loop mm (suc left) (obtained mram req [] fs)
        ≡ done (obtained mram (pos (suc left)) [] fs)
  unfolding alloc_loop
  alloc_loop-null mm left mram req fs =
      rw (get_freefp-null (record mram { free_fp_list = chain [] }) refl) refl

  -- The loop decides what `alloc_pages_range` leaves.
  alloc_pages_range-loop :
      (mm : Owner) (mram : Memphy) (req : ℕ) (free : List ℕ) (fs : List (Frame Owner))
      {out : Obtained Owner}
      → mram.free_fp_list ≡ chain free
      → alloc_loop mm req (obtained mram (pos req) free fs) ≡ done out
      → alloc_pages_range mm mram (pos req) (some (chain fs)) ≡ done (success, out)
  unfolding alloc_pages_range
  alloc_pages_range-loop mm mram req free fs e out_eq =
      ap (λ c. alloc_pages_range mm (record mram { free_fp_list = c }) (pos req) (some (chain fs)))
        e
      ∙ ap (λ m. m >>= λ out. done (success, out)) out_eq

  alloc_loop-zero : (mm : Owner) (s : Obtained Owner) → alloc_loop mm 0 s ≡ done s
  unfolding alloc_loop
  alloc_loop-zero mm s = refl

  -- Where enough frames are free, the first ones are taken, put behind those of the list, and `req_pgnum`
  -- stays.
  pub alloc_pages_range-enough :
      (mm : Owner) (mram : Memphy) (ns free : List ℕ) (fs : List (Frame Owner))
      → mram.free_fp_list ≡ chain (ns ++ free)
      → alloc_pages_range mm mram (pos (length ns)) (some (chain fs))
        ≡ done (success, obtained mram (pos (length ns)) free (fs ++ owned mm ns))
  alloc_pages_range-enough mm mram ns free fs e =
      alloc_pages_range-loop mm mram (length ns) (ns ++ free) fs e (
        ap (λ n. alloc_loop mm n (obtained mram (pos (length ns)) (ns ++ free) fs))
          (sym (add_zero (length ns)))
        ∙ alloc_loop-append mm ns 0 mram (pos (length ns)) free fs
        ∙ alloc_loop-zero mm (obtained mram (pos (length ns)) free (fs ++ owned mm ns)))

  -- Where fewer frames are free than pages are asked for, `alloc_pages_range` takes all of them in
  -- their order, puts them behind those of its list with the process as their owner, leaves the
  -- number of the missing pages in `req_pgnum`, and still succeeds.
  pub alloc_pages_range-short :
      (mm : Owner) (mram : Memphy) (ns : List ℕ) (short : ℕ) (fs : List (Frame Owner))
      → mram.free_fp_list ≡ chain ns
      → alloc_pages_range mm mram (pos (length ns + suc short)) (some (chain fs))
        ≡ done (success, obtained mram (pos (suc short)) [] (fs ++ owned mm ns))
  alloc_pages_range-short mm mram ns short fs e =
      let req = length ns + suc short in
      alloc_pages_range-loop mm mram req (ns ++ []) fs (e ∙ ap chain (sym (append_nil ns))) (
        alloc_loop-append mm ns (suc short) mram (pos req) [] fs
        ∙ alloc_loop-null mm short mram (pos req) (fs ++ owned mm ns))
