-- ===== src/Timer/Sound.antt =====
-- The invariant of the clock and its devices in src/timer.c.
use btlos.Prelude.{
  ℕ, ◌+◌, ◌≡◌, ◌≢◌, ◌≤◌, ◌<◌, ◌⊎◌, inl, inr, refl, sym, ◌∙◌, Bool, true, false, some, arith, length,
  length-set, get_elem?, get_elem?-set_cases,
}
use btlos.Timer.{
  Stage, working, waiting, detached, Device, Phase, checking, releasing, ended, Timer, next_slot,
  leave_slot, detach_event, with_device,
}

-- A device that the clock has still to wait for, or has released, in the slot `now`.
abbrev pub Free : ℕ → Stage → Bool → Bool → ℕ → Type 0
Free now working done fsh slots = (done ≡ false) × (fsh ≡ false) × (slots ≡ now)
Free now waiting done fsh slots =
    (fsh ≡ false) × (((done ≡ true) × (slots ≡ now)) ⊎ ((done ≡ false) × (slots + 1 ≡ now)))
Free now detached done fsh slots = (done ≡ false) × (fsh ≡ true)

-- A device that has finished the slot `now` and is not released.
abbrev pub Held : ℕ → Stage → Bool → Bool → ℕ → Type 0
Held now working done fsh slots = ⊥
Held now waiting done fsh slots = (fsh ≡ false) × (done ≡ true) × (slots ≡ now)
Held now detached done fsh slots = (done ≡ false) × (fsh ≡ true)

-- What holds of the device at a position before the clock's, and from it on.
abbrev pub Behind : Phase → ℕ → Device → Type 0
Behind checking now d = Held now d.stage d.id.done d.id.fsh d.slots
Behind releasing now d = Free now d.stage d.id.done d.id.fsh d.slots
Behind ended now d = d.stage ≡ detached

abbrev pub Ahead : Phase → ℕ → Device → Type 0
Ahead checking now d = Free now d.stage d.id.done d.id.fsh d.slots
Ahead releasing now d = Held now d.stage d.id.done d.id.fsh (d.slots + 1)
Ahead ended now d = d.stage ≡ detached

-- How far the count of finished devices has come.
abbrev pub counted : Phase → ℕ → ℕ → ℕ
counted checking temp size = temp
counted releasing temp size = size
counted ended temp size = size

pub record Sound (n : ℕ) (s : Timer) : Type 0 where
  pub devices : length s.dev_list ≡ n
  pub within : s.temp ≤ length s.dev_list
  pub behind :
      (i : ℕ) (d : Device) → get_elem? s.dev_list i ≡ some d → i < s.temp → Behind s.phase s.ticks d
  pub ahead :
      (i : ℕ) (d : Device) → get_elem? s.dev_list i ≡ some d → s.temp ≤ i → Ahead s.phase s.ticks d
  pub events : s.event ≡ counted s.phase s.temp (length s.dev_list)
  pub finished : s.fsh ≤ s.event
  pub all_finished :
      s.fsh ≡ s.event
      → (i : ℕ) (d : Device) → get_elem? s.dev_list i ≡ some d
      → i < counted s.phase s.temp (length s.dev_list)
      → d.stage ≡ detached
  pub stopped :
      s.timer_stop ≡ true
      → (i : ℕ) (d : Device) → get_elem? s.dev_list i ≡ some d
      → d.stage ≡ detached

enter-Free :
    (now : ℕ) (st : Stage) (done fsh : Bool) (slots : ℕ)
    → st ≡ working
    → Free now st done fsh slots
    → Free now waiting true fsh slots
enter-Free now working done fsh slots e h = (h.1, inl (refl, h.2))
enter-Free now waiting done fsh slots e h = cc
enter-Free now detached done fsh slots e h = cc

leave-Free :
    (now : ℕ) (st : Stage) (done fsh : Bool) (slots : ℕ)
    → st ≡ waiting
    → done ≡ false
    → Free now st done fsh slots
    → Free now working done fsh (slots + 1)
leave-Free now working done fsh slots e f h = cc
leave-Free now waiting done fsh slots e f (h, inl (g, k)) = cc
leave-Free now waiting done fsh slots e f (h, inr (g, k)) = (f, h, k)
leave-Free now detached done fsh slots e f h = cc

detach-Free :
    (now : ℕ) (st : Stage) (done fsh : Bool) (slots : ℕ)
    → st ≡ working
    → Free now st done fsh slots
    → Free now detached done true slots
detach-Free now working done fsh slots e h = (h.0, refl)
detach-Free now waiting done fsh slots e h = cc
detach-Free now detached done fsh slots e h = cc

working-Held :
    (now : ℕ) (st : Stage) (done fsh : Bool) (slots : ℕ)
    → st ≡ working
    → Held now st done fsh slots
    → ⊥
working-Held now working done fsh slots e h = h
working-Held now waiting done fsh slots e h = cc
working-Held now detached done fsh slots e h = cc

leaving-Held :
    (now : ℕ) (st : Stage) (done fsh : Bool) (slots : ℕ)
    → st ≡ waiting
    → done ≡ false
    → Held now st done fsh slots
    → ⊥
leaving-Held now working done fsh slots e f h = h
leaving-Held now waiting done fsh slots e f h = cc
leaving-Held now detached done fsh slots e f h = cc

-- A step of one device keeps the invariant if it keeps what is said of the device.
module _ (n : ℕ) (s : Timer) (v : Sound n s) (i : ℕ) (d d' : Device)
    (here : get_elem? s.dev_list i ≡ some d)
    (keeps_behind : Behind s.phase s.ticks d → Behind s.phase s.ticks d')
    (keeps_ahead : Ahead s.phase s.ticks d → Ahead s.phase s.ticks d')
    (live : d.stage ≢ detached) where
  pub with_device-Sound : Sound n (with_device s i d')
  with_device-Sound = record {
    devices = length-set s.dev_list i d' ∙ v.devices;
    within = omega (arith, length-set s.dev_list i d', v.within);
    behind = λ j e f lt. elim (get_elem?-set_cases s.dev_list i j d' f) [
      | inl (same, new) ↦ rw new (keeps_behind (v.behind i d here (omega (arith, same, lt))))
      | inr (apart, old) ↦ v.behind j e old lt
    ];
    ahead = λ j e f le. elim (get_elem?-set_cases s.dev_list i j d' f) [
      | inl (same, new) ↦ rw new (keeps_ahead (v.ahead i d here (omega (arith, same, le))))
      | inr (apart, old) ↦ v.ahead j e old le
    ];
    events = rw (length-set s.dev_list i d') v.events;
    finished = v.finished;
    all_finished = λ eq j e f lt. elim (get_elem?-set_cases s.dev_list i j d' f) [
      | inl (same, new) ↦
          absurd
            (live (v.all_finished eq i d here (rw (sym same, sym (length-set s.dev_list i d')) lt)))
      | inr (apart, old) ↦ v.all_finished eq j e old (rw (sym (length-set s.dev_list i d')) lt)
    ];
    stopped = λ eq j e f. elim (get_elem?-set_cases s.dev_list i j d' f) [
      | inl (same, new) ↦ absurd (live (v.stopped eq i d here))
      | inr (apart, old) ↦ v.stopped eq j e old
    ];
  }

pub enter-Behind :
    (ph : Phase) (now : ℕ) (d : Device)
    → d.stage ≡ working
    → Behind ph now d
    → Behind ph now (next_slot d)
unfolding next_slot
enter-Behind checking now d e h = absurd (working-Held now d.stage d.id.done d.id.fsh d.slots e h)
enter-Behind releasing now d e h = enter-Free now d.stage d.id.done d.id.fsh d.slots e h
enter-Behind ended now d e h = cc

pub enter-Ahead :
    (ph : Phase) (now : ℕ) (d : Device)
    → d.stage ≡ working
    → Ahead ph now d
    → Ahead ph now (next_slot d)
unfolding next_slot
enter-Ahead checking now d e h = enter-Free now d.stage d.id.done d.id.fsh d.slots e h
enter-Ahead releasing now d e h =
    absurd (working-Held now d.stage d.id.done d.id.fsh (d.slots + 1) e h)
enter-Ahead ended now d e h = cc

pub leave-Behind :
    (ph : Phase) (now : ℕ) (d : Device)
    → d.stage ≡ waiting
    → d.id.done ≡ false
    → Behind ph now d
    → Behind ph now (leave_slot d)
unfolding leave_slot
leave-Behind checking now d e f h =
    absurd (leaving-Held now d.stage d.id.done d.id.fsh d.slots e f h)
leave-Behind releasing now d e f h = leave-Free now d.stage d.id.done d.id.fsh d.slots e f h
leave-Behind ended now d e f h = cc

pub leave-Ahead :
    (ph : Phase) (now : ℕ) (d : Device)
    → d.stage ≡ waiting
    → d.id.done ≡ false
    → Ahead ph now d
    → Ahead ph now (leave_slot d)
unfolding leave_slot
leave-Ahead checking now d e f h = leave-Free now d.stage d.id.done d.id.fsh d.slots e f h
leave-Ahead releasing now d e f h =
    absurd (leaving-Held now d.stage d.id.done d.id.fsh (d.slots + 1) e f h)
leave-Ahead ended now d e f h = cc

pub detach-Behind :
    (ph : Phase) (now : ℕ) (d : Device)
    → d.stage ≡ working
    → Behind ph now d
    → Behind ph now (detach_event d)
unfolding detach_event
detach-Behind checking now d e h = absurd (working-Held now d.stage d.id.done d.id.fsh d.slots e h)
detach-Behind releasing now d e h = detach-Free now d.stage d.id.done d.id.fsh d.slots e h
detach-Behind ended now d e h = refl

pub detach-Ahead :
    (ph : Phase) (now : ℕ) (d : Device)
    → d.stage ≡ working
    → Ahead ph now d
    → Ahead ph now (detach_event d)
unfolding detach_event
detach-Ahead checking now d e h = detach-Free now d.stage d.id.done d.id.fsh d.slots e h
detach-Ahead releasing now d e h =
    absurd (working-Held now d.stage d.id.done d.id.fsh (d.slots + 1) e h)
detach-Ahead ended now d e h = refl
