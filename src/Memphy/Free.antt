-- ===== src/Memphy/Free.antt =====
-- The list of free frames of src/mm-memphy.c.
use btlos.Prelude.{
  ℕ, zero, suc, ◌+◌, ◌/◌, ◌≡◌, ◌≤◌, refl, ap, none, some, List, [], ◌∷◌, done, Code, success,
  failure, arith, Chain, null, node, chain, ◌==◌, if◌then◌else◌,
}
use btlos.Memphy.{Memphy, init_memphy, format, format_list, frames_from, get_freefp, put_freefp}

-- The numbers from `k` on, `n` of them.
abbrev pub count_from : ℕ → ℕ → List ℕ
count_from zero k = []
count_from (suc n) k = k ∷ count_from n (k + 1)

frames_from-chain : (n k : ℕ) → frames_from n k ≡ chain (count_from n k)
unfolding frames_from
frames_from-chain zero k = refl
frames_from-chain (suc n) k = ap (node k) (frames_from-chain n (k + 1))

-- A device of at least two frames is formatted into all of its frames, in order; one of a single
-- frame into that frame and what `malloc` left behind it; one of none is refused and stays as it
-- was.
pub format_lem :
    (garbage : Chain ℕ) (mp : Memphy) (pagesz : ℕ)
    → let n = mp.maxsz / pagesz in
      (2 ≤ n
        → format garbage mp pagesz ≡ (success, record mp { free_fp_list = chain (count_from n 0) }))
      × (n ≡ 1 → format garbage mp pagesz ≡ (success, record mp { free_fp_list = node 0 garbage }))
      × (n ≡ 0 → format garbage mp pagesz ≡ (failure, mp))
unfolding format format_list
format_lem garbage mp pagesz = by_count (mp.maxsz / pagesz)
  where
    by_count :
        (n : ℕ)
        → let out =
            if◌then◌else◌ {A = Code × Memphy}
              (n == 0)
              (failure, mp)
              (success, record mp { free_fp_list = format_list garbage n }) in
          (2 ≤ n → out ≡ (success, record mp { free_fp_list = chain (count_from n 0) }))
          × (n ≡ 1 → out ≡ (success, record mp { free_fp_list = node 0 garbage }))
          × (n ≡ 0 → out ≡ (failure, mp))
    by_count zero = (λ h. absurd (omega arith), λ h. absurd (omega arith), λ h. refl)
    by_count (suc zero) = (λ h. absurd (omega arith), λ h. refl, λ h. absurd (omega arith))
    by_count (suc (suc n)) = (
      λ h. ground (arith, frames_from-chain (suc n) 1),
      λ h. absurd (omega arith),
      λ h. absurd (omega arith),
    )

-- Frames are taken from the front of the list, and an empty list is reported; the storage is kept.
pub get_freefp-chain :
    (mp : Memphy) (f : ℕ) (fs : List ℕ)
    → mp.free_fp_list ≡ chain (f ∷ fs)
    → get_freefp mp ≡ done (some f, record mp { free_fp_list = chain fs })
unfolding get_freefp
get_freefp-chain mp f fs e = ground (arith, e)

pub get_freefp-null : (mp : Memphy) → mp.free_fp_list ≡ null → get_freefp mp ≡ done (none, mp)
unfolding get_freefp
get_freefp-null mp e = ground (arith, e)

-- A frame that is put back is the next to be taken, and the device is then as before.
pub get_freefp-put_freefp : (mp : Memphy) (f : ℕ) → get_freefp (put_freefp mp f) ≡ done (some f, mp)
unfolding get_freefp put_freefp
get_freefp-put_freefp mp f = refl

pub put_freefp_lem :
    (mp : Memphy) (f : ℕ) → put_freefp mp f ≡ record mp { free_fp_list = node f mp.free_fp_list }
unfolding put_freefp
put_freefp_lem mp f = refl

-- A new device of at least two frames has them all free, in their order.
pub init_memphy-frames :
    (garbage : Chain ℕ) (bytes : List ℕ) (mp : Memphy) (max_size randomflg : ℕ)
    → 512 ≤ max_size
    → (init_memphy garbage bytes mp max_size randomflg).free_fp_list
      ≡ chain (count_from (max_size / 256) 0)
unfolding init_memphy
init_memphy-frames garbage bytes mp max_size randomflg two =
    ap (λ (r : Code × Memphy). r.1.free_fp_list)
      ((format_lem garbage (record mp { storage = bytes; maxsz = max_size }) 256).0
        (omega (arith, two)))
