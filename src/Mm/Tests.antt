-- ===== src/Mm/Tests.antt =====
-- Look-ups in a table of 30 symbols.
use btlos.Prelude.{[], ◌∷◌, null, replicate}
use btlos.Mm.{Mm, Area, Symbol, minus_one, Region}

abbrev area : Area
area = record { vm_id = 1; vm_start = 0; vm_end = 256; sbrk = 100; vm_freerg_list = null }

abbrev hundred : Symbol
hundred = record { rg_start = 0; rg_end = 100; rg_next = null }

abbrev unset : Symbol
unset = record { rg_start = minus_one; rg_end = minus_one; rg_next = null }

abbrev memory : Mm
memory = record {
  pgd = [];
  mmap = area ∷ [];
  symrgtbl = hundred ∷ replicate 29 unset;
  lru_pgn = null;
}

abbrev freed : Region
freed = record { rg_start = 0; rg_end = 100 }
