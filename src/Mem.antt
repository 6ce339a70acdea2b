-- ===== src/Mem.antt =====
-- The memory of src/mem.c, with segments and pages, and the instructions of src/cpu.c on it: obsolete code that is
-- compiled only with ALLOW_DEPRECATED. Its parts that were to be filled in are empty, and so they are here.
pub mod Laws
mod Tests
use btlos.Prelude.{
  ℕ, zero, suc, ◌+◌, ◌-◌, ◌*◌, ◌/◌, ◌%◌, ◌^◌, Bool, true, false, Option, none, some, List, [], ◌∷◌,
  Outcome, done, fault, ◌>>=◌, deref, get_elem?, set, length, replicate, bit_and, ltb, ◌==◌,
  if◌then◌else◌,
}
use btlos.Prelude.Int.{ℤ, pos, rounds}

abbrev pub offset_len : ℕ
offset_len = 10

abbrev pub page_len : ℕ
page_len = 5

-- `PAGE_SIZE`
abbrev pub page_size : ℕ
page_size = 2 ^ 10

-- `NUM_PAGES`
abbrev pub num_pages : ℕ
num_pages = 2 ^ 10

-- `RAM_SIZE`
abbrev pub ram_size : ℕ
ram_size = 2 ^ 20

-- A row of a page table of either layer. `size` counts the rows in use.
pub record Row : Type 0 where
  pub v_index : ℕ
  pub p_index : ℕ

pub record TransTable : Type 0 where
  pub table : List Row
  pub size : ℤ

pub record Segment : Type 0 where
  pub v_index : ℕ
  pub next_lv : Option TransTable

pub record PageTable : Type 0 where
  pub table : List Segment
  pub size : ℤ

-- An entry of `_mem_stat`.
pub record MemStat : Type 0 where
  pub proc : ℕ
  pub index : ℕ
  pub next : ℕ

-- The static variables `_ram` and `_mem_stat`.
pub record Ram : Type 0 where
  pub ram : List ℕ
  pub mem_stat : List MemStat

-- What these functions reach of `struct pcb_t`.
pub record Owner : Type 0 where
  pub regs : List ℕ
  pub page_table : PageTable
  pub bp : ℕ

pub init_mem : Ram
init_mem = record {
  ram = replicate ram_size 0;
  mem_stat = replicate num_pages (record { proc = 0; index = 0; next = 0 });
}

-- `~((~0U) << OFFSET_LEN)`
abbrev pub offset_mask : ℕ
offset_mask = 2 ^ 32 - 1 - (2 ^ 32 - 1) * 2 ^ offset_len % 2 ^ 32

pub get_offset : ℕ → ℕ
get_offset addr = bit_and addr offset_mask

pub get_first_lv : ℕ → ℕ
get_first_lv addr = addr / 2 ^ (offset_len + page_len)

pub get_second_lv : ℕ → ℕ
unfolding get_first_lv
get_second_lv addr =
    (addr / 2 ^ offset_len + 2 ^ 32 - get_first_lv addr * 2 ^ page_len % 2 ^ 32) % 2 ^ 32

-- The loop of `get_trans_table`, whose body is empty.
search_segments : ℕ → ℕ → List Segment → Option TransTable
search_segments zero index table = none
search_segments (suc left) index table = search_segments left index table

pub get_trans_table : ℕ → PageTable → Option TransTable
unfolding search_segments
get_trans_table index t = search_segments (rounds t.size) index t.table

-- The loop of `translate`, from row `i` on.
pub search_rows : ℕ → ℕ → List Row → ℕ → Outcome Bool
search_rows zero i table second_lv = done false
search_rows (suc left) i table second_lv = do
  row ← deref (get_elem? table i)
  let rest = search_rows left (i + 1) table second_lv
  if row.v_index == second_lv then done true else rest

-- `true` where the address is valid; `*physical_addr` is never set.
pub translate : ℕ → Owner → Outcome Bool
translate virtual_addr proc = elim (get_trans_table (get_first_lv virtual_addr) proc.page_table) [
  | none ↦ done false
  | some t ↦ search_rows (rounds t.size) 0 t.table (get_second_lv virtual_addr)
]

-- The number of pages, whose rounding goes the wrong way; nothing uses it as `mem_avail` is never set.
pages_for : ℕ → ℕ
pages_for size = if size % page_size == 0 then size / page_size + 1 else size / page_size

-- The address, or 0, and the process.
alloc_if : (mem_avail : Bool) → ℕ → Owner → ℕ × Owner
unfolding pages_for
alloc_if mem_avail size proc =
    if mem_avail
    then (proc.bp, record proc { bp = (proc.bp + pages_for size * page_size) % 2 ^ 32 })
    else (0, proc)

pub alloc_mem : ℕ → Owner → ℕ × Owner
unfolding alloc_if
alloc_mem size proc = alloc_if false size proc

pub free_mem : ℕ → Owner → ℕ
free_mem address proc = 0

-- The result is what the function returns, and the byte for `*data`, if it is set. `physical` is what the
-- memory of `physical_addr` holds.
pub read_mem : (physical : ℕ) → Ram → ℕ → Owner → Outcome (ℕ × Option ℕ)
read_mem physical s address proc = do
  valid ← translate address proc
  if valid then (do b ← deref (get_elem? s.ram physical); done (0, some b)) else done (1, none)

pub write_mem : (physical : ℕ) → Ram → ℕ → Owner → ℕ → Outcome (ℕ × Ram)
write_mem physical s address proc byte = do
  valid ← translate address proc
  if valid
      then (if ltb physical (length s.ram)
          then done (0, record s { ram = set s.ram physical byte })
          else fault)
      else done (1, s)

-- `alloc` of src/cpu.c
pub alloc : Owner → ℕ → ℕ → Outcome (ℕ × Owner)
alloc proc size reg_index =
    let got = alloc_mem size proc in
    if got.0 == 0 then done (1, got.1) else (do
      old ← deref (get_elem? (got.1.regs) reg_index)
      done (0, record (got.1) { regs = set (got.1.regs) reg_index (got.0) }))

pub free_data : Owner → ℕ → Outcome ℕ
free_data proc reg_index = do
  address ← deref (get_elem? proc.regs reg_index)
  done (free_mem address proc)

-- A `char` as a `uint32_t`: the highest of its 8 bits is a sign.
abbrev pub widen : ℕ → ℕ
widen byte = if ltb byte (2 ^ 7) then byte else 2 ^ 32 - 2 ^ 8 + byte

-- `read` of src/cpu.c. `unset` is what the memory of its local variable holds.
pub read : (physical unset : ℕ) → Ram → Owner → ℕ → ℕ → ℕ → Outcome (ℕ × Owner)
read physical unset s proc source offset destination = do
  address ← deref (get_elem? proc.regs source)
  (code, byte) ← read_mem physical s ((address + offset) % 2 ^ 32) proc
  if code == 0 then done (1, proc) else (do
    old ← deref (get_elem? proc.regs destination)
    let value : ℕ = elim byte [ none ↦ unset | some b ↦ b ]
    done (0, record proc { regs = set proc.regs destination (widen value) }))

-- `write` of src/cpu.c
pub write : (physical : ℕ) → Ram → Owner → ℕ → ℕ → ℕ → Outcome (ℕ × Ram)
write physical s proc byte destination offset = do
  address ← deref (get_elem? proc.regs destination)
  write_mem physical s ((address + offset) % 2 ^ 32) proc byte
