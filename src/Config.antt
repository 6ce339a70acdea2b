-- ===== src/Config.antt =====
-- `read_config` of src/os.c, as it is compiled with MLQ_SCHED and MM_PAGING and without MM_FIXED_MEMSZ. `fopen` and
-- `fscanf` are of the C library, so the file is a parameter: the type `Input` of what is left of it, and the
-- conversions `%d`, `%lu` and `%s`, which pass over white space by themselves.
pub mod Print
pub mod Token
pub mod Sample
mod Tests
use btlos.Prelude.{
  ℕ, zero, suc, ◌+◌, Bool, true, false, Option, none, some, List, [], ◌∷◌, ◌++◌, Outcome, done,
  fault, ◌>>=◌, length, ltb, if◌then◌else◌,
}
use btlos.Prelude.Int.{ℤ, pos, rounds}
use btlos.Loader.{Word}

-- An entry of the arrays `path`, `start_time` and `prio` of `ld_processes`.
pub record Entry : Type 0 where
  pub path : Word
  pub start_time : ℕ
  pub prio : ℕ

-- The static variables that are read.
pub record Config : Type 0 where
  pub time_slot : ℤ
  pub num_cpus : ℤ
  pub num_processes : ℤ
  pub memramsz : ℤ
  pub memswpsz : List ℤ
  pub ld_processes : List Entry

-- `PAGING_MAX_MMSWP`
abbrev pub max_mmswp : ℕ
max_mmswp = 4

-- "input/proc/"
abbrev pub proc_folder : Word
proc_folder = 105 ∷ 110 ∷ 112 ∷ 117 ∷ 116 ∷ 47 ∷ 112 ∷ 114 ∷ 111 ∷ 99 ∷ 47 ∷ []

-- The size of the arrays `proc` and `path[i]`.
abbrev pub path_size : ℕ
path_size = 100

-- `strcat` of the folder and the name into `path[i]`, with the 0 at its end.
full_path : Word → Outcome Word
full_path name =
    if ltb (length (proc_folder ++ name)) path_size then done (proc_folder ++ name) else fault

-- A conversion gives `none` where it fails or the file ends.
module _ {Input : Type 0} (scan_d : Input → Option ℤ × Input) (scan_lu : Input → Option ℕ × Input)
    (scan_s : Input → Option Word × Input) where
  -- `%d` into a variable that holds `old`, where the conversions of the same call before it have not failed.
  scan_int : ℤ → Bool × Input → ℤ × Bool × Input
  scan_int old (go_on, file) = elim go_on [
    | false ↦ (old, false, file)
    | true ↦ elim ((scan_d file).0) [
      | none ↦ (old, false, (scan_d file).1)
      | some n ↦ (n, true, (scan_d file).1)
    ]
  ]

  -- The loop over `memswpsz`, one call for each; the variables are 0 at first.
  scan_sizes : ℕ → Input → List ℤ × Input
  scan_sizes zero file = ([], file)
  scan_sizes (suc n) file =
      let size = scan_int (pos 0) (true, file) in
      let rest = scan_sizes n (size.2) in (size.0 ∷ rest.0, rest.1)

  -- `%lu` for the priority, which keeps what the memory holds where it fails.
  scan_prio : ℕ → Word → ℕ → Input → Entry × Input
  scan_prio garbage path start_time file = elim ((scan_lu file).0) [
    | none ↦ (record { path = path; start_time = start_time; prio = garbage }, (scan_lu file).1)
    | some n ↦ (record { path = path; start_time = start_time; prio = n }, (scan_lu file).1)
  ]

  -- The loop body over the processes. Where no name is read, `proc` is copied without being set; a name of
  -- `path_size` characters or more leaves it.
  scan_entry : ℕ → Input → Outcome (Entry × Input)
  scan_entry garbage file = elim ((scan_lu file).0) [
    | none ↦ fault
    | some start_time ↦ elim ((scan_s (scan_lu file).1).0) [
      | none ↦ fault
      | some name ↦
          if ltb (length name) path_size
          then (do
            path ← full_path name
            done (scan_prio garbage path start_time ((scan_s (scan_lu file).1).1)))
          else fault
    ]
  ]

  pub scan_entries : ℕ → ℕ → Input → Outcome (List Entry)
  scan_entries garbage zero file = done []
  scan_entries garbage (suc n) file = do
    (entry, file1) ← scan_entry garbage file
    rest ← scan_entries garbage n file1
    done (entry ∷ rest)

  -- `read_config` of the file that `fopen` gives; `none` is the end of the program by `exit (1)`.
  pub read_config : ℕ → Option Input → Outcome (Option Config)
  read_config garbage none = done none
  read_config garbage (some file) = do
    let slot = scan_int (pos 0) (true, file)
    let cpus = scan_int (pos 0) (slot.1, slot.2)
    let processes = scan_int (pos 0) (cpus.1, cpus.2)
    let ram = scan_int (pos 0) (true, processes.2)
    let swaps = scan_sizes max_mmswp (ram.2)
    entries ← scan_entries garbage (rounds (processes.0)) (swaps.1)
    done (
        some (record {
          time_slot = slot.0;
          num_cpus = cpus.0;
          num_processes = processes.0;
          memramsz = ram.0;
          memswpsz = swaps.0;
          ld_processes = entries;
        }))
