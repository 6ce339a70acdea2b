-- ===== src/Config/Print.antt =====
-- The text that `read_config` of src/os.c reads, written from a configuration.
use btlos.Prelude.{
  ℕ, suc, ◌≡◌, ◌<◌, ◌^◌, refl, sym, ap, true, Option, some, List, [], ◌∷◌, ◌++◌, done, arith,
  length, lt→ltb, get_elem?,
}
use btlos.Prelude.Int.{ℤ, pos, negsuc}
use btlos.Loader.{Word}
use btlos.Config.{
  Entry, max_mmswp, proc_folder, path_size, full_path, scan_int, scan_sizes, scan_prio, scan_entry,
  scan_entries, read_config,
}

-- An `int`.
abbrev pub IsInt : ℤ → Type 0
IsInt (pos n) = n < 2 ^ 31
IsInt (negsuc n) = n < 2 ^ 31

-- A line for a process: its name is what follows the folder in its path.
pub record Line : Type 0 where
  pub name : Word
  pub start_time : ℕ
  pub prio : ℕ

-- A line that a file can hold, where `IsName` are the words that `%s` reads back. The folder, the name and the 0 at
-- its end fit in `path_size`.
pub record IsLine (IsName : Word → Type 0) (l : Line) : Type 0 where
  pub named : IsName l.name
  pub short : length l.name < 89
  pub starts : l.start_time < 2 ^ 64
  pub ranks : l.prio < 2 ^ 64

abbrev pub entry_of : Line → Entry
entry_of l = record { path = proc_folder ++ l.name; start_time = l.start_time; prio = l.prio }

abbrev pub entries_of : List Line → List Entry
entries_of [] = []
entries_of (l ∷ ls) = entry_of l ∷ entries_of ls

full_path-short : (name : Word) → length name < 89 → full_path name ≡ done (proc_folder ++ name)
unfolding full_path
full_path-short name short =
    rw (lt→ltb {a = length (proc_folder ++ name)} {b = path_size} (omega (arith, short))) refl

module _ {Input : Type 0} (print_d : ℤ → Input → Input) (print_lu : ℕ → Input → Input)
    (print_s : Word → Input → Input) where
  pub print_sizes : List ℤ → Input → Input
  print_sizes [] file = file
  print_sizes (n ∷ ns) file = print_d n (print_sizes ns file)

  pub print_lines : List Line → Input → Input
  print_lines [] file = file
  print_lines (l ∷ ls) file =
      print_lu l.start_time (print_s l.name (print_lu l.prio (print_lines ls file)))

  -- The whole file, for `lines` of processes.
  pub print : (time_slot num_cpus memramsz : ℤ) → List ℤ → List Line → Input → Input
  print time_slot num_cpus memramsz sizes lines file = print_d time_slot (
      print_d num_cpus (
        print_d (pos (length lines))
          (print_d memramsz (print_sizes sizes (print_lines lines file)))))

  -- What the conversions read is what was written; an `int` for `%d`, an `unsigned long` for `%lu`.
  module _ (scan_d : Input → Option ℤ × Input) (scan_lu : Input → Option ℕ × Input)
      (scan_s : Input → Option Word × Input) (IsName : Word → Type 0)
      (integer : (n : ℤ) → IsInt n → (file : Input) → scan_d (print_d n file) ≡ (some n, file))
      (number : (n : ℕ) → n < 2 ^ 64 → (file : Input) → scan_lu (print_lu n file) ≡ (some n, file))
      (word : (w : Word)
        → IsName w
        → (file : Input) → scan_s (print_s w file) ≡ (some w, file)) where
    scan_int-print :
        (old n : ℤ) (file : Input)
        → IsInt n
        → scan_int scan_d scan_lu scan_s old (true, print_d n file) ≡ (n, true, file)
    unfolding scan_int
    scan_int-print old n file fits =
        let e = integer n fits file in rw (ap (λ r. r.0) e, ap (λ r. r.1) e, scan_int) refl

    scan_sizes-print :
        (ns : List ℤ) (file : Input)
        → ((i : ℕ) (n : ℤ) → get_elem? ns i ≡ some n → IsInt n)
        → scan_sizes scan_d scan_lu scan_s (length ns) (print_sizes ns file) ≡ (ns, file)
    unfolding scan_sizes print_sizes
    scan_sizes-print [] file all = refl
    scan_sizes-print (n ∷ ns) file all =
        rw
          (
            scan_int-print (pos 0) n (print_sizes ns file) (all 0 n refl),
            scan_sizes-print ns file (λ i. all (suc i)),
          )
          refl

    scan_entry-print :
        (garbage : ℕ) (l : Line) (file : Input)
        → IsLine IsName l
        → scan_entry scan_d scan_lu scan_s garbage
            (print_lu l.start_time (print_s l.name (print_lu l.prio file)))
          ≡ done (entry_of l, file)
    unfolding scan_entry scan_prio
    scan_entry-print garbage l file v =
        let first = number l.start_time v.starts (print_s l.name (print_lu l.prio file)) in
        let second = word l.name v.named (print_lu l.prio file) in
        let third = number l.prio v.ranks file in
        rw
          (
            ap (λ r. r.0) first,
            ap (λ r. r.1) first,
            ap (λ r. r.0) second,
            lt→ltb {a = length l.name} {b = path_size} (omega (arith, v.short)),
            full_path-short l.name v.short,
            ap (λ r. r.1) first,
            ap (λ r. r.1) second,
            ap (λ r. r.0) third,
            ap (λ r. r.1) first,
            ap (λ r. r.1) second,
            ap (λ r. r.1) third,
            scan_entry,
            scan_prio,
          )
          refl

    scan_entries-print :
        (garbage : ℕ) (ls : List Line) (file : Input)
        → ((i : ℕ) (l : Line) → get_elem? ls i ≡ some l → IsLine IsName l)
        → scan_entries scan_d scan_lu scan_s garbage (length ls) (print_lines ls file)
          ≡ done (entries_of ls)
    unfolding scan_entries print_lines
    scan_entries-print garbage [] file all = refl
    scan_entries-print garbage (l ∷ ls) file all =
        rw
          (
            scan_entry-print garbage l (print_lines ls file) (all 0 l refl),
            scan_entries-print garbage ls file (λ i. all (suc i)),
          )
          refl

    -- `read_config` reads a configuration back from the file that was written from it: the time
    -- slot, the numbers of CPUs and processes, the sizes of RAM and of the four swap devices, and
    -- for each process its path in the folder of programs, its start time and its priority. The
    -- names have fewer than 89 characters and are read back by `%s`; integers and numbers fit their
    -- types.
    pub read_config-print :
        (garbage : ℕ) (time_slot num_cpus memramsz : ℤ) (sizes : List ℤ) (lines : List Line)
        (file : Input)
        → IsInt time_slot
        → IsInt num_cpus
        → length lines < 2 ^ 31
        → IsInt memramsz
        → length sizes ≡ max_mmswp
        → ((i : ℕ) (n : ℤ) → get_elem? sizes i ≡ some n → IsInt n)
        → ((i : ℕ) (l : Line) → get_elem? lines i ≡ some l → IsLine IsName l)
        → read_config scan_d scan_lu scan_s garbage
            (some (print time_slot num_cpus memramsz sizes lines file))
          ≡ done (
              some (record {
                time_slot = time_slot;
                num_cpus = num_cpus;
                num_processes = pos (length lines);
                memramsz = memramsz;
                memswpsz = sizes;
                ld_processes = entries_of lines;
              }))
    unfolding read_config print
    read_config-print garbage time_slot num_cpus memramsz sizes lines file slot cpus few ram four
          ints all =
        simp
          (
            scan_int-print (pos 0),
            slot,
            cpus,
            few,
            ram,
            sym four,
            scan_sizes-print sizes (print_lines lines file) ints,
            scan_entries-print garbage lines file all,
          )
          refl
