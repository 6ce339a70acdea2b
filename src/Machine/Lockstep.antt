-- ===== src/Machine/Lockstep.antt =====
-- The threads of src/os.c as devices of the clock of src/timer.c.
use btlos.Prelude.{
  ℕ, zero, suc, ◌≡◌, refl, sym, ap, ◌∙◌, subst, some, List, [], ◌∷◌, get_elem?, set, of_some,
}
use btlos.Timer
use btlos.Timer.{Device, working, waiting, detached, Timer, next_slot, detach_event, with_device}
use btlos.Os.{waits, detaches, exits}
use btlos.Machine
use btlos.Machine.{Moved, goes_on, turned, device_after, World, Machine, cpu_device}

set-same : {A : Type 0} (xs : List A) (i : ℕ) (a : A) → get_elem? xs i ≡ some a → set xs i a ≡ xs
set-same [] i a e = refl
set-same (x ∷ xs) zero a e = ap (λ y. y ∷ xs) (sym (of_some e))
set-same (x ∷ xs) (suc i) a e = ap (x ∷◌) (set-same xs i a e)

thread-Step :
    {n : ℕ} (s : Timer) (i : ℕ) (d d' : Device) (moved : Moved)
    → Timer.Reach n s
    → get_elem? s.dev_list i ≡ some d
    → d.stage ≡ working
    → device_after moved d ≡ some d'
    → Timer.Reach n (with_device s i d')
thread-Step {n} s i d d' (goes_on at) r here works e =
    subst (λ l. Timer.Reach n (record s { dev_list = l }))
      (sym (set-same s.dev_list i d here) ∙ ap (set s.dev_list i) (of_some e)) r
thread-Step {n} s i d d' (turned waits) r here works e =
    subst (λ x. Timer.Reach n (with_device s i x)) (of_some e)
      (Timer.next r (Timer.enter i d here works))
thread-Step {n} s i d d' (turned detaches) r here works e =
    subst (λ x. Timer.Reach n (with_device s i x)) (of_some e)
      (Timer.next r (Timer.detach i d here works))
thread-Step {n} s i d d' (turned exits) r here works e = cc

module _ {Input : Type 0} (w : World Input) where
  -- Each step of the whole program is a step of the clock or of a device.
  pub Reach-timer :
      (n : ℕ) (m0 m : Machine)
      → Timer.Reach n m0.timer
      → Machine.Reach w m0 m
      → Timer.Reach n m.timer
  Reach-timer n m0 m v Machine.begin = v
  Reach-timer n m0 m v (Machine.next {m = m1} r (Machine.clock e)) =
      Timer.next (Reach-timer n m0 m1 v r) (Timer.clock e)
  Reach-timer n m0 m v (Machine.next {m = m1} r (Machine.leave i d e f g)) =
      Timer.next (Reach-timer n m0 m1 v r) (Timer.leave i d e f g)
  Reach-timer n m0 m v
        (Machine.next {m = m1} r (Machine.cpu i c d {moved} {d' = d'} here at works e f)) =
      thread-Step m1.timer (cpu_device m1 i) d d' moved (Reach-timer n m0 m1 v r) at works f
  Reach-timer n m0 m v (Machine.next {m = m1} r (Machine.loader d {t} {d' = d'} at works e f)) =
      thread-Step m1.timer Machine.ld_device d d' (turned t) (Reach-timer n m0 m1 v r) at works f
