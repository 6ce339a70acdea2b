-- ===== src/Lru.antt =====
-- The list of recently used pages, most recent first: `enlist_pgn_node` of src/mm.c and
-- `find_victim_page` of src/mm-vm.c.
pub mod Laws
mod Tests
use mathlib.Core.Option
use btlos.Prelude.{
  ℕ, Option, none, some, Outcome, done, fault, ◌>>=◌, Chain, null, wild, node, ◌==◌, if◌then◌else◌,
}

-- The search of `enlist_pgn_node`: the list without the first node of `pgn`, if there is one. Nodes
-- behind it are not looked at.
unlink : ℕ → Chain ℕ → Outcome (Option (Chain ℕ))
unlink pgn null = done none
unlink pgn wild = fault
unlink pgn (node p rest) =
    let more = unlink pgn rest in
    if p == pgn then done (some rest) else (more >>= λ found. done (Option.map (node p) found))

-- A node that is found moves to the front (and stays where it is if it stands there); a page that is
-- not in the list gets a new node there.
unfoldable pub enlist_pgn_node : Chain ℕ → ℕ → Outcome (Chain ℕ)
unfolding unlink
enlist_pgn_node list pgn = do
  found ← unlink pgn list
  done (elim found [ none ↦ node pgn list | some others ↦ node pgn others ])

-- The walk of `find_victim_page` from the node `p`, whose next is `q`, to the last node but one.
cut_last : ℕ → ℕ → Chain ℕ → Outcome (ℕ × Chain ℕ)
cut_last p q null = done (q, node p null)
cut_last p q wild = fault
cut_last p q (node r rest) = do (victim, kept) ← cut_last q r rest; done (victim, node p kept)

-- The page and the new list. The only node of a list is freed, but the list still points to it.
unfoldable pub find_victim_page : Chain ℕ → Outcome (Option ℕ × Chain ℕ)
unfolding cut_last
find_victim_page null = done (none, null)
find_victim_page wild = fault
find_victim_page (node p null) = done (some p, wild)
find_victim_page (node p wild) = fault
find_victim_page (node p (node q rest)) = do
  (victim, kept) ← cut_last p q rest
  done (some victim, kept)
