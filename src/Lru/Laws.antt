-- ===== src/Lru/Laws.antt =====
-- `enlist_pgn_node` of src/mm.c and `find_victim_page` of src/mm-vm.c on lists that end in NULL.
use btlos.Prelude.{
  ℕ, ◌≡◌, refl, none, some, List, [], ◌∷◌, ◌++◌, done, fault, null, wild, node, chain, arith, ◌==◌,
  if◌then◌else◌, Bool, true, false, ◌||◌, inl, inr, Bool-cases, ◌&&◌, not,
}
use btlos.Lru.{unlink, enlist_pgn_node, cut_last, find_victim_page}

unfoldable pub has : ℕ → List ℕ → Bool
has p [] = false
has p (x ∷ xs) = (x == p) || has p xs

-- The list without the first `p`.
unfoldable pub erase : ℕ → List ℕ → List ℕ
erase p [] = []
erase p (x ∷ xs) = if x == p then xs else x ∷ erase p xs

unlink-erase :
    (p : ℕ) (xs : List ℕ)
    → unlink p (chain xs) ≡ done (if has p xs then some (chain (erase p xs)) else none)
unfolding unlink has erase
unlink-erase p [] = refl
unlink-erase p (x ∷ xs) = elim (Bool-cases (x == p)) [
  | inl at ↦ ground (arith, at)
  | inr past ↦ elim (Bool-cases (has p xs)) [
    | inl more ↦ ground (arith, unlink-erase p xs, past, more)
    | inr gone ↦ ground (arith, unlink-erase p xs, past, gone)
  ]
]

erase-absent : (p : ℕ) (xs : List ℕ) → has p xs ≡ false → erase p xs ≡ xs
unfolding has erase
erase-absent p [] e = refl
erase-absent p (x ∷ xs) e = ground (arith, erase-absent p xs, e)

pub enlist_pgn_node-chain :
    (xs : List ℕ) (p : ℕ) → enlist_pgn_node (chain xs) p ≡ done (chain (p ∷ erase p xs))
unfolding enlist_pgn_node
enlist_pgn_node-chain xs p = elim (Bool-cases (has p xs)) [
  | inl found ↦ ground (arith, unlink-erase p xs, found)
  | inr absent ↦ ground (arith, unlink-erase p xs, absent, erase-absent p xs)
]

-- No page stands in the list twice.
unfoldable pub distinct : List ℕ → Bool
distinct [] = true
distinct (x ∷ xs) = not (has x xs) && distinct xs

has-erase : (q p : ℕ) (xs : List ℕ) → has q xs ≡ false → has q (erase p xs) ≡ false
unfolding has erase
has-erase q p [] h = refl
has-erase q p (x ∷ xs) h = ground (arith, has-erase q p xs, h)

erase-distinct : (p : ℕ) (xs : List ℕ) → distinct xs ≡ true → distinct (erase p xs) ≡ true
unfolding erase distinct
erase-distinct p [] h = refl
erase-distinct p (x ∷ xs) h = ground (arith, erase-distinct p xs, has-erase x p xs, h)

has-erase_self : (p : ℕ) (xs : List ℕ) → distinct xs ≡ true → has p (erase p xs) ≡ false
unfolding has erase distinct
has-erase_self p [] h = refl
has-erase_self p (x ∷ xs) h = ground (arith, has-erase_self p xs, h)

-- `enlist_pgn_node` moves the page to the front of a list of distinct pages, or puts it there, and
-- keeps the pages distinct.
pub enlist_pgn_node-distinct :
    (xs : List ℕ) (p : ℕ)
    → distinct xs ≡ true
    → (enlist_pgn_node (chain xs) p ≡ done (chain (p ∷ erase p xs)))
      × (distinct (p ∷ erase p xs) ≡ true)
unfolding distinct
enlist_pgn_node-distinct xs p h =
    (enlist_pgn_node-chain xs p, ground (arith, has-erase_self p xs, erase-distinct p xs, h))

cut_last-chain :
    (p q : ℕ) (xs : List ℕ) (v : ℕ)
    → (ys : List ℕ) → q ∷ xs ≡ ys ++ v ∷ []
    → cut_last p q (chain xs) ≡ done (v, node p (chain ys))
unfolding cut_last
cut_last-chain p q [] v [] e = ground (arith, e)
cut_last-chain p q [] v (y ∷ []) e = cc
cut_last-chain p q [] v (y ∷ z ∷ ys) e = cc
cut_last-chain p q (x ∷ xs) v [] e = cc
cut_last-chain p q (x ∷ xs) v (y ∷ ys) e = ground (arith, cut_last-chain q x xs v ys (cc), e)

-- Of two pages or more the last is the victim, and the others stay. The only page of a list is a
-- victim too, but the list then still points to its freed node, through which the next enlisting
-- runs; of no page there is no victim.
pub find_victim_page-last :
    (xs : List ℕ) (p v : ℕ)
    → (find_victim_page (chain (p ∷ xs ++ v ∷ [])) ≡ done (some v, chain (p ∷ xs)))
      × (find_victim_page (chain (v ∷ [])) ≡ done (some v, wild))
      × (enlist_pgn_node wild p ≡ fault)
      × (find_victim_page (chain []) ≡ done (none, null))
unfolding find_victim_page enlist_pgn_node unlink
find_victim_page-last [] p v = (refl, refl, refl, refl)
find_victim_page-last (x ∷ xs) p v =
    (ground (arith, cut_last-chain p x (xs ++ v ∷ []) v (x ∷ xs) refl), refl, refl, refl)
