-- ===== src/Loader/Number.antt =====
-- The number that `load` of src/loader.c gives to a process.
use btlos.Prelude.{
  ℕ, ◌+◌, ◌%◌, ◌^◌, ◌≡◌, ◌∙◌, sym, ap, inl, inr, Option, none, some, done, >>=-eq-done,
  Option-cases,
}
use btlos.Cpu.{Inst}
use btlos.Loader.{Word, Loaded, load_loop, load_from, load, scan_head}

module _ {Input : Type 0} (scan_u : Input → Option ℕ × Input)
    (scan_s : Input → Option Word × Input) where
  load_from-pid :
      (garbage : Inst) (avail_pid : ℕ) (head : ℕ × ℕ × Input) (p : Loaded) (next_pid : ℕ)
      → load_from scan_u scan_s garbage avail_pid head ≡ done (some (p, next_pid))
      → (p.pid ≡ avail_pid) × (next_pid ≡ (avail_pid + 1) % 2 ^ 32)
  unfolding load_from
  load_from-pid garbage avail_pid (priority, size, file) p next_pid e =
      let (code, ran, e1) = >>=-eq-done (load_loop scan_u scan_s garbage size none file) _ e in
      elim (Option-cases code) [
        | inl bad ↦ cc (rw bad at e1)
        | inr (text, good) ↦
            let f = rw good at e1 in
            let out : ◌≡◌ {A = Loaded × ℕ}
                (
                  record { pid = avail_pid; priority = priority; code = text; pc = 0; bp = 2 ^ 10 },
                  (avail_pid + 1) % 2 ^ 32,
                )
                (p, next_pid) =
              cc f in
            (ap (λ (r : Loaded × ℕ). r.0.pid) (sym out), ap (λ (r : Loaded × ℕ). r.1) (sym out))
      ]

  load-pid :
      (garbage : Inst) (priority size avail_pid : ℕ) (path : Option Input) (p : Loaded)
      (next_pid : ℕ)
      → load scan_u scan_s garbage priority size avail_pid path ≡ done (some (p, next_pid))
      → (p.pid ≡ avail_pid) × (next_pid ≡ (avail_pid + 1) % 2 ^ 32)
  unfolding load
  load-pid garbage priority size avail_pid none p next_pid e = cc
  load-pid garbage priority size avail_pid (some file) p next_pid e =
      load_from-pid garbage avail_pid (scan_head scan_u scan_s priority size file) p next_pid e

  -- A process gets the number that is next.
  pub load-some-pid :
      (garbage : Inst) (priority size avail_pid : ℕ) (path : Option Input)
      (out : Option (Loaded × ℕ)) (p : Loaded) (next_pid : ℕ)
      → load scan_u scan_s garbage priority size avail_pid path ≡ done out
      → out ≡ some (p, next_pid)
      → (p.pid ≡ avail_pid) × (next_pid ≡ (avail_pid + 1) % 2 ^ 32)
  load-some-pid garbage priority size avail_pid path out p next_pid e f =
      load-pid garbage priority size avail_pid path p next_pid (e ∙ ap done f)
