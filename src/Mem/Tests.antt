-- ===== src/Mem/Tests.antt =====
-- Runs on the obsolete memory.
use btlos.Prelude.{◌+◌, ◌*◌, ◌^◌, ◌≡◌, ◌<◌, refl, none, [], ◌∷◌, done, arith}
use btlos.Prelude.Int.{pos}
use btlos.Mem.{Owner, Ram, get_first_lv, get_second_lv, get_offset, alloc_mem, read}
use btlos.Mem.Laws.{address_parts, read-junk}

abbrev owner : Owner
owner = record {
  regs = 7 ∷ 8 ∷ [];
  page_table = record { table = record { v_index = 0; next_lv = none } ∷ []; size = pos 1 };
  bp = 1024;
}

abbrev memory : Ram
memory = record { ram = 5 ∷ 6 ∷ []; mem_stat = [] }

split_address : get_second_lv 0x87C03 ≡ 31
unfolding get_second_lv get_first_lv
split_address = refl

no_memory : alloc_mem 100 owner ≡ (0, owner)
unfolding alloc_mem btlos.Mem.alloc_if
no_memory = refl

address_parts_example :
    (get_first_lv 0x87C03 * 2 ^ 15 + get_second_lv 0x87C03 * 2 ^ 10 + get_offset 0x87C03 ≡ 0x87C03)
    × (get_second_lv 0x87C03 < 2 ^ 5)
    × (get_offset 0x87C03 < 2 ^ 10)
address_parts_example = address_parts 0x87C03 (omega arith)

read-junk_example :
    read 1 255 memory owner 0 4 1 ≡ done (0, record owner { regs = 7 ∷ 4294967295 ∷ [] })
read-junk_example = read-junk 1 255 memory owner 0 4 1 refl refl
