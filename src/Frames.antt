-- ===== src/Frames.antt =====
-- The taking of free frames in src/mm.c, `enlist_framephy` and `alloc_pages_range`, with
-- `struct framephy_struct` of include/os-mm.h.
pub mod Laws
mod Tests
use btlos.Prelude.{
  ℕ, zero, suc, Option, none, some, Outcome, done, fault, ◌>>=◌, Code, success, failure, Chain,
  null, wild, node,
}
use btlos.Prelude.Int.{ℤ, pos, rounds}
use btlos.Memphy.{Memphy, get_freefp}

-- `struct framephy_struct`; `owner` is a pointer, of a type `Owner`.
pub record Frame (Owner : Type 0) : Type 0 where
  pub fpn : ℕ
  pub owner : Owner

-- The walk of `enlist_framephy` along `fp_next`, and the new node behind the last one.
pub append : {Owner : Type 0} → Chain (Frame Owner) → Frame Owner → Outcome (Chain (Frame Owner))
append null fp = done (node fp null)
append wild fp = fault
append (node p fp_next) fp = do rest ← append fp_next fp; done (node p rest)

-- The pointer `frm_lst` is NULL, or points to the list.
pub enlist_framephy :
    {Owner : Type 0}
    → Owner
    → Option (Chain (Frame Owner))
    → ℕ
    → Outcome (Code × Option (Chain (Frame Owner)))
enlist_framephy mm none fpn = done (failure, none)
enlist_framephy mm (some frm_lst) fpn = do
  list ← append frm_lst (record { fpn = fpn; owner = mm })
  done (success, some list)

-- What `alloc_pages_range` leaves: `caller->mram`, `*req_pgnum` and `frm_lst`.
pub record Obtained (Owner : Type 0) : Type 0 where
  pub mram : Memphy
  pub req_pgnum : ℤ
  pub frm_lst : Option (Chain (Frame Owner))

-- The loop, with `left` rounds to go: `*req_pgnum - pgit`.
pub alloc_loop : {Owner : Type 0} → Owner → (left : ℕ) → Obtained Owner → Outcome (Obtained Owner)
alloc_loop mm zero s = done s
alloc_loop mm (suc left) s = do
  (fp, mram) ← get_freefp s.mram
  elim fp [
    | none ↦ done (record s { mram = mram; req_pgnum = pos (suc left) })
    | some fpn ↦ do
      (code, frm_lst) ← enlist_framephy mm s.frm_lst fpn
      alloc_loop mm left (record s { mram = mram; frm_lst = frm_lst })
  ]

pub alloc_pages_range :
    {Owner : Type 0}
    → Owner
    → Memphy
    → ℤ
    → Option (Chain (Frame Owner))
    → Outcome (Code × Obtained Owner)
alloc_pages_range mm mram req_pgnum frm_lst = do
  out ←
      alloc_loop mm (rounds req_pgnum)
        (record { mram = mram; req_pgnum = req_pgnum; frm_lst = frm_lst })
  done (success, out)
