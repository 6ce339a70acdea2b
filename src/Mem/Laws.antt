-- ===== src/Mem/Laws.antt =====
-- What the obsolete memory of src/mem.c does, and the instructions of src/cpu.c on it.
use btlos.Prelude.{
  ℕ, zero, suc, ◌+◌, ◌*◌, ◌%◌, ◌^◌, ◌≡◌, ◌<◌, refl, false, none, some, List, done, arith, get_elem?,
  set,
}
use btlos.Prelude.Int.{rounds}
use btlos.Prelude.Bits.{bit_and_mask}
use btlos.Mem.{
  Segment, Owner, Ram, PageTable, get_offset, get_first_lv, get_second_lv, search_segments,
  get_trans_table, translate, alloc_mem, read_mem, write_mem, alloc, widen, read, write,
}

get_offset_lem : (addr : ℕ) → get_offset addr ≡ addr % 2 ^ 10
unfolding get_offset
get_offset_lem addr = bit_and_mask 10 addr

-- The three parts of an address of the old memory give it back, and two of them are in their bounds.
pub address_parts :
    (addr : ℕ)
    → addr < 2 ^ 32
    → (get_first_lv addr * 2 ^ 15 + get_second_lv addr * 2 ^ 10 + get_offset addr ≡ addr)
      × (get_second_lv addr < 2 ^ 5)
      × (get_offset addr < 2 ^ 10)
unfolding get_first_lv get_second_lv
address_parts addr small = omega (arith, get_offset_lem addr)

search_segments-none :
    (left index : ℕ) (table : List Segment) → search_segments left index table ≡ none
unfolding search_segments
search_segments-none zero index table = refl
search_segments-none (suc left) index table = search_segments-none left index table

get_trans_table-none : (index : ℕ) (t : PageTable) → get_trans_table index t ≡ none
unfolding get_trans_table
get_trans_table-none index t = search_segments-none (rounds t.size) index t.table

translate-fails : (addr : ℕ) (proc : Owner) → translate addr proc ≡ done false
unfolding translate
translate-fails addr proc =
    rw (get_trans_table-none (get_first_lv addr) proc.page_table, translate) refl

read_mem-fails :
    (physical : ℕ) (s : Ram) (addr : ℕ) (proc : Owner)
    → read_mem physical s addr proc ≡ done (1, none)
unfolding read_mem
read_mem-fails physical s addr proc = rw (translate-fails addr proc) refl

write_mem-fails :
    (physical : ℕ) (s : Ram) (addr : ℕ) (proc : Owner) (byte : ℕ)
    → write_mem physical s addr proc byte ≡ done (1, s)
unfolding write_mem
write_mem-fails physical s addr proc byte = rw (translate-fails addr proc) refl

alloc_fails : (proc : Owner) (size reg_index : ℕ) → alloc proc size reg_index ≡ done (1, proc)
unfolding alloc alloc_mem
alloc_fails proc size reg_index = refl

write_fails :
    (physical : ℕ) (s : Ram) (proc : Owner) (byte destination offset : ℕ) {a : ℕ}
    → get_elem? proc.regs destination ≡ some a
    → write physical s proc byte destination offset ≡ done (1, s)
unfolding write
write_fails physical s proc byte destination offset {a} here =
    rw (here, write_mem-fails physical s ((a + offset) % 2 ^ 32) proc byte) refl

-- On the obsolete memory no address is ever valid, and `read` of src/cpu.c takes the failure for
-- success: it returns 0 and puts the byte that its local variable happens to hold, a signed `char`,
-- into the destination. Both registers exist.
pub read-junk :
    (physical unset : ℕ) (s : Ram) (proc : Owner) (source offset destination : ℕ) {a b : ℕ}
    → get_elem? proc.regs source ≡ some a
    → get_elem? proc.regs destination ≡ some b
    → read physical unset s proc source offset destination
      ≡ done (0, record proc { regs = set proc.regs destination (widen unset) })
unfolding read
read-junk physical unset s proc source offset destination {a} {b} here there =
    rw (here, read_mem-fails physical s ((a + offset) % 2 ^ 32) proc, there) refl
