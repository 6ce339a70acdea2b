-- ===== src/Loader/Print.antt =====
-- The text that `load` of src/loader.c reads, written from a program.
use btlos.Prelude.{
  ℕ, suc, ◌+◌, ◌%◌, ◌^◌, ◌≡◌, ◌≢◌, ◌<◌, refl, sym, ap, ◌∙◌, true, Option, none, some, List, [], ◌∷◌,
  done, ◌>>=◌, subst, arith, length, get_elem?, of_some, Bool-cases, inl, inr, ltb,
}
use btlos.Cpu.{Opcode, calc_op, alloc_op, free_op, read_op, write_op, other, Inst}
use btlos.Loader.{
  Word, opt_calc, opt_alloc, opt_free, opt_read, opt_write, same_word, get_opcode, scan_arg,
  scan_args, scan_opcode, load_inst, load_loop, scan_size, scan_priority, scan_head, load_from,
  load,
}

-- The word for an opcode; `other` has none.
abbrev pub opcode_name : Opcode → Word
opcode_name calc_op = opt_calc
opcode_name alloc_op = opt_alloc
opcode_name free_op = opt_free
opcode_name read_op = opt_read
opcode_name write_op = opt_write
opcode_name other = []

same_word_sound : (a b : Word) → same_word a b ≡ true → a ≡ b
unfolding same_word
same_word_sound [] [] e = refl
same_word_sound [] (b ∷ bs) e = cc
same_word_sound (a ∷ rest) [] e = cc
same_word_sound (a ∷ rest) (b ∷ others) e =
    let tails : rest ≡ others = same_word_sound rest others (ground (arith, e)) in
    let heads : a ≡ b = ground (arith, e) in cc (tails, heads)

pub get_opcode-name :
    (w : Word) (op : Opcode) → get_opcode w ≡ some op → (w ≡ opcode_name op) × (op ≢ other)
unfolding get_opcode
get_opcode-name w op e = elim (Bool-cases (same_word w opt_calc)) [
  | inl a ↦ is calc_op (λ n. cc) (same_word_sound w opt_calc a) (rw a at e)
  | inr a ↦ elim (Bool-cases (same_word w opt_alloc)) [
    | inl b ↦ is alloc_op (λ n. cc) (same_word_sound w opt_alloc b) (rw (a, b) at e)
    | inr b ↦ elim (Bool-cases (same_word w opt_free)) [
      | inl c ↦ is free_op (λ n. cc) (same_word_sound w opt_free c) (rw (a, b, c) at e)
      | inr c ↦ elim (Bool-cases (same_word w opt_read)) [
        | inl d ↦ is read_op (λ n. cc) (same_word_sound w opt_read d) (rw (a, b, c, d) at e)
        | inr d ↦ elim (Bool-cases (same_word w opt_write)) [
          | inl f ↦ is write_op (λ n. cc) (same_word_sound w opt_write f) (rw (a, b, c, d, f) at e)
          | inr f ↦ cc (rw (a, b, c, d, f) at e)
        ]
      ]
    ]
  ]
]
  where
    is :
        (o : Opcode)
        → o ≢ other
        → w ≡ opcode_name o
        → some o ≡ some op
        → (w ≡ opcode_name op) × (op ≢ other)
    is o ne at e = let same : o ≡ op = of_some e in (at ∙ ap opcode_name same, λ f. ne (same ∙ f))

-- An instruction that a file can hold.
pub record Printable (ins : Inst) : Type 0 where
  pub known : ins.opcode ≢ other
  pub fits_0 : ins.arg_0 < 2 ^ 32
  pub fits_1 : ins.arg_1 < 2 ^ 32
  pub fits_2 : ins.arg_2 < 2 ^ 32

-- The instruction less the arguments that its opcode does not have.
settle_args : Inst → Inst → Opcode → Inst
settle_args garbage ins calc_op = record garbage { opcode = calc_op }
settle_args garbage ins alloc_op = record garbage {
  opcode = alloc_op;
  arg_0 = ins.arg_0;
  arg_1 = ins.arg_1;
}
settle_args garbage ins free_op = record garbage { opcode = free_op; arg_0 = ins.arg_0 }
settle_args garbage ins o = record ins { opcode = o }

unfoldable pub settle : Inst → List Inst → List Inst
unfolding settle_args
settle garbage [] = []
settle garbage (ins ∷ code) = settle_args garbage ins ins.opcode ∷ settle garbage code

module _ {Input : Type 0} (print_u : ℕ → Input → Input) (print_s : Word → Input → Input) where
  print_args : Inst → Input → Opcode → Input
  print_args ins file calc_op = file
  print_args ins file alloc_op = print_u ins.arg_0 (print_u ins.arg_1 file)
  print_args ins file free_op = print_u ins.arg_0 file
  print_args ins file o = print_u ins.arg_0 (print_u ins.arg_1 (print_u ins.arg_2 file))

  pub print_code : List Inst → Input → Input
  unfolding print_args
  print_code [] file = file
  print_code (ins ∷ code) file =
      print_s (opcode_name ins.opcode) (print_args ins (print_code code file) ins.opcode)

  -- The whole file of a process.
  pub print : ℕ → List Inst → Input → Input
  print priority code file = print_u priority (print_u (length code) (print_code code file))

  -- What `%u` and `%s` read is what was written.
  module _ (scan_u : Input → Option ℕ × Input) (scan_s : Input → Option Word × Input)
      (number : (n : ℕ) → n < 2 ^ 32 → (file : Input) → scan_u (print_u n file) ≡ (some n, file))
      (word : (op : Opcode)
        → op ≢ other
        → (file : Input)
        → scan_s (print_s (opcode_name op) file) ≡ (some (opcode_name op), file)) where
    scan_arg-print :
        (put : Inst → ℕ → Inst) (ins : Inst) (n : ℕ) (file : Input)
        → n < 2 ^ 32
        → scan_arg scan_u scan_s put (true, ins, print_u n file) ≡ (true, put ins n, file)
    unfolding scan_arg
    scan_arg-print put ins n file lt =
        let e = number n lt file in rw (ap (λ r. r.0) e, ap (λ r. r.1) e, scan_arg) refl

    scan_args-print :
        (garbage ins : Inst) (file : Input) (op : Opcode)
        → op ≢ other
        → ins.arg_0 < 2 ^ 32
        → ins.arg_1 < 2 ^ 32
        → ins.arg_2 < 2 ^ 32
        → scan_args scan_u scan_s op (record garbage { opcode = op }) (print_args ins file op)
          ≡ (true, settle_args garbage ins op, file)
    unfolding scan_args print_args settle_args
    scan_args-print garbage ins file calc_op k a b c = refl
    scan_args-print garbage ins file alloc_op k a b c = simp (scan_arg-print, a, b) refl
    scan_args-print garbage ins file free_op k a b c = simp (scan_arg-print, a) refl
    scan_args-print garbage ins file read_op k a b c = simp (scan_arg-print, a, b, c) refl
    scan_args-print garbage ins file write_op k a b c = simp (scan_arg-print, a, b, c) refl
    scan_args-print garbage ins file other k a b c = absurd (k refl)

    short_name : (op : Opcode) → ltb (length (opcode_name op)) 10 ≡ true
    short_name calc_op = refl
    short_name alloc_op = refl
    short_name free_op = refl
    short_name read_op = refl
    short_name write_op = refl
    short_name other = refl

    scan_opcode-print :
        (opcode : Option Word) (op : Opcode) (file : Input)
        → op ≢ other
        → scan_opcode scan_u scan_s opcode (print_s (opcode_name op) file)
          ≡ done (opcode_name op, file)
    unfolding scan_opcode
    scan_opcode-print opcode op file k =
        let e = word op k file in
        rw (ap (λ r. r.0) e, ap (λ r. r.1) e, scan_opcode, short_name op) refl

    name-get_opcode : (op : Opcode) → op ≢ other → get_opcode (opcode_name op) ≡ some op
    unfolding get_opcode same_word
    name-get_opcode calc_op k = refl
    name-get_opcode alloc_op k = refl
    name-get_opcode free_op k = refl
    name-get_opcode read_op k = refl
    name-get_opcode write_op k = refl
    name-get_opcode other k = absurd (k refl)

    load_inst-print :
        (garbage ins : Inst) (file : Input)
        → Printable ins
        → load_inst scan_u scan_s garbage (opcode_name ins.opcode) (print_args ins file ins.opcode)
          ≡ some (settle_args garbage ins ins.opcode, file)
    unfolding load_inst
    load_inst-print garbage ins file v =
        let e = scan_args-print garbage ins file ins.opcode v.known v.fits_0 v.fits_1 v.fits_2 in
        rw (name-get_opcode ins.opcode v.known, load_inst) (ap (λ s. some (s.1, s.2)) e)

    -- One turn of the loop, given what its parts do.
    load_loop_lem :
        (garbage ins : Inst) (left : ℕ) (opcode : Option Word) (w : Word) (file file1 file2 : Input)
        (rest : List Inst)
        → scan_opcode scan_u scan_s opcode file ≡ done (w, file1)
        → load_inst scan_u scan_s garbage w file1 ≡ some (ins, file2)
        → load_loop scan_u scan_s garbage left (some w) file2 ≡ done (some rest)
        → load_loop scan_u scan_s garbage (suc left) opcode file ≡ done (some (ins ∷ rest))
    unfolding load_loop
    load_loop_lem garbage ins left opcode w file file1 file2 rest a b c = rw a (
        subst
          (λ r.
            (elim r [
              | none ↦ done none
              | some (i, f) ↦ (do
                code ← load_loop scan_u scan_s garbage left (some w) f
                done (elim code [ none ↦ none | some more ↦ some (i ∷ more) ]))
            ])
            ≡ done (some (ins ∷ rest)))
          (sym b) (rw c refl))

    load_loop-print :
        (garbage : Inst) (opcode : Option Word) (code : List Inst) (file : Input)
        → ((i : ℕ) (ins : Inst) → get_elem? code i ≡ some ins → Printable ins)
        → load_loop scan_u scan_s garbage (length code) opcode (print_code code file)
          ≡ done (some (settle garbage code))
    unfolding print_code settle
    load_loop-print garbage opcode [] file all = unfold load_loop in refl
    load_loop-print garbage opcode (ins ∷ code) file all =
        let v = all 0 ins refl in
        let op = ins.opcode in
        load_loop_lem garbage (settle_args garbage ins op) (length code) opcode (opcode_name op)
          (print_s (opcode_name op) (print_args ins (print_code code file) op))
          (print_args ins (print_code code file) op) (print_code code file) (settle garbage code)
          (scan_opcode-print opcode op (print_args ins (print_code code file) op) v.known)
          (load_inst-print garbage ins (print_code code file) v)
          (load_loop-print garbage (some (opcode_name op)) code file (λ i b e. all (suc i) b e))

    scan_head-print :
        (old_priority old_size priority size : ℕ) (file : Input)
        → priority < 2 ^ 32
        → size < 2 ^ 32
        → scan_head scan_u scan_s old_priority old_size (print_u priority (print_u size file))
          ≡ (priority, size, file)
    unfolding scan_head scan_priority scan_size
    scan_head-print old_priority old_size priority size file fits short =
        ap (scan_priority scan_u scan_s old_priority old_size)
          (number priority fits (print_u size file))
        ∙ ap (scan_size scan_u scan_s priority old_size) (number size short file)

    -- `load` reads a program back from the file that was written from it, with its opcodes, the
    -- arguments that these have, its priority and its size, at its first instruction and with the
    -- next free number. The numbers are below 2 ^ 32, and `%u` and `%s` read what was written.
    pub load-print :
        (garbage : Inst) (old_priority old_size avail_pid priority : ℕ) (code : List Inst)
        (file : Input)
        → priority < 2 ^ 32
        → length code < 2 ^ 32
        → ((i : ℕ) (ins : Inst) → get_elem? code i ≡ some ins → Printable ins)
        → load scan_u scan_s garbage old_priority old_size avail_pid
            (some (print priority code file))
          ≡ done (
              some (
                record {
                  pid = avail_pid;
                  priority = priority;
                  code = settle garbage code;
                  pc = 0;
                  bp = 2 ^ 10;
                },
                (avail_pid + 1) % 2 ^ 32,
              ))
    unfolding load load_from print
    load-print garbage old_priority old_size avail_pid priority code file fits short all =
        ap (load_from scan_u scan_s garbage avail_pid) (
          scan_head-print old_priority old_size priority (length code) (print_code code file) fits
            short)
        ∙ rw (load_loop-print garbage none code file all) refl
