-- ===== src/Loader.antt =====
-- src/loader.c: reads the code of a process. `fopen` and `fscanf` are of the C library, so the file is a
-- parameter: the type `Input` of what is left of it, and the conversions `%u` and `%s`.
pub mod Number
pub mod Print
pub mod Token
mod Tests
use btlos.Prelude.{
  ℕ, zero, suc, ◌+◌, ◌-◌, ◌*◌, ◌/◌, ◌%◌, ◌^◌, ◌≡◌, ◌<◌, Bool, true, false, Option, none, some, List,
  [], ◌∷◌, Outcome, done, fault, ◌>>=◌, deref, length, ltb, ◌==◌, if◌then◌else◌, ◌&&◌, not,
}
use btlos.Cpu.{Opcode, calc_op, alloc_op, free_op, read_op, write_op, other, Inst}

-- A string, by the codes of its characters.
abbrev pub Word : Type 0
Word = List ℕ

abbrev pub opt_calc : Word
opt_calc = 99 ∷ 97 ∷ 108 ∷ 99 ∷ []

abbrev pub opt_alloc : Word
opt_alloc = 97 ∷ 108 ∷ 108 ∷ 111 ∷ 99 ∷ []

abbrev pub opt_free : Word
opt_free = 102 ∷ 114 ∷ 101 ∷ 101 ∷ []

abbrev pub opt_read : Word
opt_read = 114 ∷ 101 ∷ 97 ∷ 100 ∷ []

abbrev pub opt_write : Word
opt_write = 119 ∷ 114 ∷ 105 ∷ 116 ∷ 101 ∷ []

-- `!strcmp (a, b)`
pub same_word : Word → Word → Bool
same_word [] [] = true
same_word [] (b ∷ others) = false
same_word (a ∷ rest) [] = false
same_word (a ∷ rest) (b ∷ others) = (a == b) && same_word rest others

-- `none` is the end of the program by `exit (1)`.
pub get_opcode : Word → Option Opcode
get_opcode opt =
    if same_word opt opt_calc
    then some calc_op
    else if same_word opt opt_alloc
    then some alloc_op
    else if same_word opt opt_free
    then some free_op
    else if same_word opt opt_read
    then some read_op
    else if same_word opt opt_write
    then some write_op
    else none

-- What `load` sets of `struct pcb_t`.
pub record Loaded : Type 0 where
  pub pid : ℕ
  pub priority : ℕ
  pub code : List Inst
  pub pc : ℕ
  pub bp : ℕ

abbrev pub set_arg_0 : Inst → ℕ → Inst
set_arg_0 ins n = record ins { arg_0 = n }

abbrev pub set_arg_1 : Inst → ℕ → Inst
set_arg_1 ins n = record ins { arg_1 = n }

abbrev pub set_arg_2 : Inst → ℕ → Inst
set_arg_2 ins n = record ins { arg_2 = n }

-- The size of the array `opcode`.
abbrev opcode_size : ℕ
opcode_size = 10

-- A conversion gives `none` where it fails or the file ends.
module _ {Input : Type 0} (scan_u : Input → Option ℕ × Input)
    (scan_s : Input → Option Word × Input) where
  -- `%u` into an argument, where the conversions before it have not failed; the variable keeps its value
  -- where it fails.
  scan_arg : (Inst → ℕ → Inst) → Bool × Inst × Input → Bool × Inst × Input
  scan_arg put (go_on, ins, file) = elim go_on [
    | false ↦ (false, ins, file)
    | true ↦ elim ((scan_u file).0) [
      | none ↦ (false, ins, (scan_u file).1)
      | some n ↦ (true, put ins n, (scan_u file).1)
    ]
  ]

  -- The `switch` on the opcode.
  pub scan_args : Opcode → Inst → Input → Bool × Inst × Input
  scan_args calc_op ins file = (true, ins, file)
  scan_args alloc_op ins file = scan_arg set_arg_1 (scan_arg set_arg_0 (true, ins, file))
  scan_args free_op ins file = scan_arg set_arg_0 (true, ins, file)
  scan_args read_op ins file =
      scan_arg set_arg_2 (scan_arg set_arg_1 (scan_arg set_arg_0 (true, ins, file)))
  scan_args write_op ins file =
      scan_arg set_arg_2 (scan_arg set_arg_1 (scan_arg set_arg_0 (true, ins, file)))
  scan_args other ins file = (true, ins, file)

  -- What the array `opcode` holds after `%s`: a word of ten or more characters leaves it, and where nothing is
  -- read it stays as it was, at first not initialised.
  scan_opcode : Option Word → Input → Outcome (Word × Input)
  scan_opcode opcode file = elim ((scan_s file).0) [
    | none ↦ do w ← deref opcode; done (w, (scan_s file).1)
    | some w ↦ if ltb (length w) opcode_size then done (w, (scan_s file).1) else fault
  ]

  -- The loop body behind the first `fscanf`. `garbage` is what the memory of an instruction holds before; `none`
  -- is `exit (1)`.
  load_inst : Inst → Word → Input → Option (Inst × Input)
  load_inst garbage opcode file = elim (get_opcode opcode) [
    | none ↦ none
    | some op ↦
        let scanned = scan_args op (record garbage { opcode = op }) file in
        some (scanned.1, scanned.2)
  ]

  -- The loop over the instructions.
  pub load_loop : Inst → ℕ → Option Word → Input → Outcome (Option (List Inst))
  load_loop garbage zero opcode file = done (some [])
  load_loop garbage (suc left) opcode file = do
    (w, file1) ← scan_opcode opcode file
    elim (load_inst garbage w file1) [
      | none ↦ done none
      | some (ins, file2) ↦ do
        code ← load_loop garbage left (some w) file2
        done (elim code [ none ↦ none | some rest ↦ some (ins ∷ rest) ])
    ]

  -- `fscanf (file, "%u %u", &proc->priority, &proc->code->size)`, from its second conversion on and as a whole.
  scan_size : ℕ → ℕ → Option ℕ × Input → ℕ × ℕ × Input
  scan_size priority size (none, file) = (priority, size, file)
  scan_size priority size (some n, file) = (priority, n, file)

  scan_priority : ℕ → ℕ → Option ℕ × Input → ℕ × ℕ × Input
  scan_priority priority size (none, file) = (priority, size, file)
  scan_priority priority size (some n, file) = scan_size n size (scan_u file)

  pub scan_head : ℕ → ℕ → Input → ℕ × ℕ × Input
  scan_head priority size file = scan_priority priority size (scan_u file)

  -- `load` from the first `fscanf` on, with `avail_pid` before it and after it.
  load_from : Inst → ℕ → ℕ × ℕ × Input → Outcome (Option (Loaded × ℕ))
  load_from garbage avail_pid (priority, size, file) = do
    code ← load_loop garbage size none file
    done (elim code [
      | none ↦ none
      | some text ↦ some (
        record { pid = avail_pid; priority = priority; code = text; pc = 0; bp = 2 ^ 10 },
        (avail_pid + 1) % 2 ^ 32,
      )
    ])

  -- `load` of the file that `fopen` gives.
  pub load : Inst → ℕ → ℕ → ℕ → Option Input → Outcome (Option (Loaded × ℕ))
  load garbage priority size avail_pid none = done none
  load garbage priority size avail_pid (some file) =
      load_from garbage avail_pid (scan_head priority size file)
