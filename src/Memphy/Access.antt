-- ===== src/Memphy/Access.antt =====
-- Reads and writes of single cells in src/mm-memphy.c.
use native.Mathlib.Decide.{dec_lt}
use native.Mathlib.Nat.{mod-add-mod, mod-eq_of_lt}
use btlos.Prelude.{
  ℕ, zero, suc, ◌+◌, ◌%◌, ◌≡◌, ◌≢◌, ◌≤◌, ◌<◌, refl, ◌∙◌, ap, true, false, some, Outcome, done, Code,
  success, failure, arith, length, set, length-set, get_elem?-some, get_elem?-set_self,
  get_elem?-set_ne, get_elem?-none, min, sym, ◌⊎◌, lt→ltb, le→ltb,
}
use btlos.Prelude.Int.{ℤ, pos, negsuc, leb_ℤ, is_negative}
use btlos.Memphy.{Memphy, read, write, seq_read, seq_write, poke, mv_csr, csr_loop, cell}

-- The storage has `maxsz` cells; every device that `main` makes has random access.
pub record IsDevice (mp : Memphy) : Type 0 where
  pub cells : length mp.storage ≡ mp.maxsz
  pub random : mp.rdmflg ≡ true

-- An address in range is read from its cell, any other is refused; the device stays as it is.
pub read_lem :
    (mp : Memphy) (addr : ℤ) → IsDevice mp → read mp addr ≡ done (cell mp.storage addr, mp)
unfolding read
read_lem mp (negsuc a) v = rw v.random
read_lem mp (pos a) v = elim (dec_lt a mp.maxsz) [
  | yes lt ↦
      let (c, e) = get_elem?-some mp.storage a (omega (arith, v.cells)) in
      ground (arith, e, v.random)
  | no ge ↦ ground (arith, get_elem?-none mp.storage a, v.cells, v.random)
]

-- What a write makes of a device.
abbrev pub written : Memphy → ℕ → ℕ → Memphy
written mp a v = record mp { storage = set mp.storage a v }

pub write-in_range :
    (mp : Memphy) (a v : ℕ)
    → IsDevice mp
    → a < mp.maxsz
    → write mp (pos a) v ≡ done (success, written mp a v)
unfolding write poke
write-in_range mp a v d lt =
    let (old, e) = get_elem?-some mp.storage a (omega (arith, d.cells)) in
    ground (arith, e, d.random)

pub written-IsDevice : (mp : Memphy) (a v : ℕ) → IsDevice mp → IsDevice (written mp a v)
written-IsDevice mp a v d = record {
  cells = length-set mp.storage a v ∙ d.cells;
  random = d.random;
}

-- What a write in range does, for every later read.
pub record Wrote (mp : Memphy) (a v : ℕ) (r : Outcome (Code × Memphy)) : Type 0 where
  pub next : Memphy
  pub returns : r ≡ done (success, next)
  pub valid : IsDevice next
  pub same_size : next.maxsz ≡ mp.maxsz
  pub there : read next (pos a) ≡ done (some v, next)
  pub elsewhere : (b : ℤ) → b ≢ pos a → read next b ≡ done (cell mp.storage b, next)
  pub frames : next.free_fp_list ≡ mp.free_fp_list

-- A write in range on a device of random access succeeds; the byte is then read at that address,
-- every other address reads as before, and the size and the free frames stay.
pub write-Wrote :
    (mp : Memphy) (a v : ℕ) → IsDevice mp → a < mp.maxsz → Wrote mp a v (write mp (pos a) v)
write-Wrote mp a v d lt = record {
  next = next;
  returns = write-in_range mp a v d lt;
  valid = written-IsDevice mp a v d;
  same_size = refl;
  there =
      read_lem next (pos a) (written-IsDevice mp a v d)
      ∙ ap (λ o. done (o, next)) (get_elem?-set_self mp.storage a v (omega (arith, d.cells)));
  elsewhere =
      λ b n. read_lem next b (written-IsDevice mp a v d) ∙ ap (λ o. done (o, next)) (other b n);
  frames = refl;
}
  where
    next : Memphy
    next = written mp a v

    other : (b : ℤ) → b ≢ pos a → cell next.storage b ≡ cell mp.storage b
    other (pos j) n = get_elem?-set_ne mp.storage a j v (λ e. n (ap pos (sym e)))
    other (negsuc j) n = refl

-- A write out of range is refused, by a random and by a sequential device alike.
pub write-refused :
    (mp : Memphy) (addr : ℤ) (v : ℕ)
    → leb_ℤ (pos mp.maxsz) addr ≡ true ⊎ is_negative addr ≡ true
    → write mp addr v ≡ done (failure, mp)
unfolding write
write-refused mp addr v h = ground arith

-- The cursor of a sequential device after `MEMPHY_mv_csr`.
csr_loop_lem : (m o left n : ℕ) → n ≤ o → csr_loop m (pos o) left n (n % m) ≡ min o (n + left) % m
unfolding csr_loop
csr_loop_lem m o zero n h = ap (λ k. k % m) (omega arith)
csr_loop_lem m o (suc left) n h = elim (dec_lt n o) [
  | yes lt ↦
      rw (lt→ltb {a = n + 0} {b = o + 0} (omega arith), mod-add-mod)
        (csr_loop_lem m o left (n + 1) (omega arith) ∙ ap (λ k. min o k % m) (omega arith))
  | no ge ↦ rw (le→ltb {a = n + 0} {b = o + 0} (omega arith)) (ap (λ k. k % m) (omega arith))
]

mv_csr-in_range :
    (mp : Memphy) (a : ℕ) → a < mp.maxsz → mv_csr mp (pos a) ≡ record mp { cursor = a }
unfolding mv_csr
mv_csr-in_range mp a lt =
    ap (λ c. record mp { cursor = c })
      (ap (csr_loop mp.maxsz (pos a) mp.maxsz 0) (omega arith)
        ∙ csr_loop_lem mp.maxsz a mp.maxsz 0 (omega arith)
        ∙ rw least (mod-eq_of_lt lt))
  where
    least : min a (0 + mp.maxsz) ≡ a
    least = omega arith

-- On a sequential device a write in range is read back, and the cursor stands at the address after
-- both.
pub seq_write-seq_read :
    (mp : Memphy) (a v : ℕ)
    → length mp.storage ≡ mp.maxsz
    → mp.rdmflg ≡ false
    → a < mp.maxsz
    → let next = record mp { storage = set mp.storage a v; cursor = a } in
      (write mp (pos a) v ≡ done (success, next)) × (read next (pos a) ≡ done (some v, next))
unfolding write read seq_write seq_read poke
seq_write-seq_read mp a v cells seq lt =
    let (old, e) = get_elem?-some mp.storage a (omega (arith, cells)) in
    let next = record mp { storage = set mp.storage a v; cursor = a } in
    (
      ground (arith, e, seq, mv_csr-in_range mp a lt),
      ground (arith, seq, get_elem?-set_self mp.storage a v, cells, mv_csr-in_range next a lt),
    )
