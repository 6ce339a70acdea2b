-- ===== src/Memphy.antt =====
-- src/mm-memphy.c and the copy of a frame in src/mm.c: a physical memory device, RAM or swap.
-- No caller passes the pointer NULL for a device, so the tests `mp == NULL` have no counterpart here.
pub mod Access
pub mod Free
pub mod Copy
mod Tests
use btlos.Prelude.{
  ℕ, zero, suc, ◌+◌, ◌*◌, ◌/◌, ◌%◌, ◌≡◌, Bool, true, false, Option, none, some, List, Outcome, done,
  fault, ◌>>=◌, deref, Code, success, failure, Chain, null, wild, node, length, get_elem?, set, leb,
  ltb, ◌==◌, if◌then◌else◌, not, ◌||◌,
}
use btlos.Prelude.Int.{ℤ, pos, negsuc, is_negative, ltb_ℤ, leb_ℤ}

-- `struct memphy_struct`. A `BYTE` is the number of its bit pattern, `maxsz` is never negative, and
-- `rdmflg` is true for a device with random access.
pub record Memphy : Type 0 where
  pub storage : List ℕ
  pub maxsz : ℕ
  pub rdmflg : Bool
  pub cursor : ℕ
  pub free_fp_list : Chain ℕ
  pub used_fp_list : Chain ℕ

-- `storage[addr]`
abbrev pub cell : List ℕ → ℤ → Option ℕ
cell xs (pos a) = get_elem? xs a
cell xs (negsuc a) = none

-- `storage[addr] = v`, where that cell exists.
abbrev pub store : List ℕ → ℤ → ℕ → List ℕ
store xs (pos a) v = set xs a v
store xs (negsuc a) v = xs

-- The loop of `MEMPHY_mv_csr`, with `left` more steps before `numstep` is `maxsz`.
csr_loop : (maxsz : ℕ) → ℤ → ℕ → ℕ → ℕ → ℕ
csr_loop maxsz offset zero numstep cursor = cursor
csr_loop maxsz offset (suc left) numstep cursor =
    let rest = csr_loop maxsz offset left (numstep + 1) ((cursor + 1) % maxsz) in
    if ltb_ℤ (pos numstep) offset then rest else cursor

-- A variable that a read may have left unset: it then holds `junk`.
abbrev pub data_or : ℕ → Option ℕ → ℕ
data_or junk none = junk
data_or junk (some v) = v

pub mv_csr : Memphy → ℤ → Memphy
unfolding csr_loop
mv_csr mp offset = record mp { cursor = csr_loop mp.maxsz offset mp.maxsz 0 0 }

-- The readers return `none` for -1, which leaves the caller's variable as it was.
pub seq_read : Memphy → ℤ → Outcome (Option ℕ × Memphy)
seq_read mp addr =
    if mp.rdmflg
    then done (none, mp)
    else do v ← deref (cell mp.storage addr); done (some v, mv_csr mp addr)

pub read : Memphy → ℤ → Outcome (Option ℕ × Memphy)
read mp addr =
    if mp.rdmflg
    then (if is_negative addr || leb_ℤ (pos mp.maxsz) addr
        then done (none, mp)
        else (do v ← deref (cell mp.storage addr); done (some v, mp)))
    else seq_read mp addr

-- The write of one cell, which is there or is undefined behaviour.
poke : Memphy → ℤ → ℕ → Outcome (Code × Memphy)
poke mp addr v = do
  old ← deref (cell mp.storage addr)
  done (success, record mp { storage = store mp.storage addr v })

pub seq_write : Memphy → ℤ → ℕ → Outcome (Code × Memphy)
unfolding poke
seq_write mp addr v = if mp.rdmflg then done (failure, mp) else poke (mv_csr mp addr) addr v

pub write : Memphy → ℤ → ℕ → Outcome (Code × Memphy)
unfolding poke
write mp addr v =
    if is_negative addr || leb_ℤ (pos mp.maxsz) addr
    then done (failure, mp)
    else if mp.rdmflg
    then poke mp addr v
    else seq_write mp addr v

-- The nodes `iter`, `iter + 1`, … (`left` of them) that `MEMPHY_format` links.
frames_from : ℕ → ℕ → Chain ℕ
frames_from zero iter = null
frames_from (suc left) iter = node iter (frames_from left (iter + 1))

-- The first node gets its `fp_next` only when a second is linked to it: with one frame it keeps
-- `garbage`, what `malloc` left there.
format_list : Chain ℕ → ℕ → Chain ℕ
format_list garbage zero = null
format_list garbage (suc zero) = node 0 garbage
format_list garbage (suc (suc more)) = node 0 (frames_from (suc more) 1)

pub format : Chain ℕ → Memphy → ℕ → Code × Memphy
unfolding format_list frames_from
format garbage mp pagesz =
    let numfp = mp.maxsz / pagesz in
    if numfp == 0
    then (failure, mp)
    else (success, record mp { free_fp_list = format_list garbage numfp })

pub get_freefp : Memphy → Outcome (Option ℕ × Memphy)
get_freefp mp = elim mp.free_fp_list [
  | null ↦ done (none, mp)
  | wild ↦ fault
  | node fpn rest ↦ done (some fpn, record mp { free_fp_list = rest })
]

pub put_freefp : Memphy → ℕ → Memphy
put_freefp mp fpn = record mp { free_fp_list = node fpn mp.free_fp_list }

-- `init_memphy` of the structure `mp`, whose fields hold anything; `bytes` is the memory that `malloc`
-- gives for the storage.
pub init_memphy :
    (garbage : Chain ℕ) → (bytes : List ℕ) → Memphy → (max_size randomflg : ℕ) → Memphy
init_memphy garbage bytes mp max_size randomflg =
    let formatted = (format garbage (record mp { storage = bytes; maxsz = max_size }) 256).1 in
    let random = not (randomflg == 0) in
    record formatted {
      used_fp_list = null;
      rdmflg = random;
      cursor = if random then formatted.cursor else 0;
    }

-- `__swap_cp_page`, with `left` cells to go. After a read that fails, `junk` is written: the byte that
-- the local variable `data` holds unset.
swap_loop : (junk : ℕ) → ℕ → ℕ → Memphy → ℕ → Memphy → ℕ → Outcome (Memphy × Memphy)
swap_loop junk zero cellidx mpsrc srcfpn mpdst dstfpn = done (mpsrc, mpdst)
swap_loop junk (suc left) cellidx mpsrc srcfpn mpdst dstfpn = do
  (got, mpsrc') ← read mpsrc (pos (srcfpn * 256 + cellidx))
  (code, mpdst') ← write mpdst (pos (dstfpn * 256 + cellidx)) (data_or junk got)
  swap_loop junk left (cellidx + 1) mpsrc' srcfpn mpdst' dstfpn

pub swap_cp_page : (junk : ℕ) → Memphy → ℕ → Memphy → ℕ → Outcome (Memphy × Memphy)
unfolding swap_loop
swap_cp_page junk mpsrc srcfpn mpdst dstfpn = swap_loop junk 256 0 mpsrc srcfpn mpdst dstfpn
