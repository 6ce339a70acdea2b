-- ===== src/Timer/Lockstep.antt =====
-- The clock of src/timer.c and its devices, over all orders of their steps.
use btlos.Prelude.{
  ℕ, zero, suc, ◌+◌, ◌≡◌, ◌≢◌, ◌⊎◌, inl, inr, refl, subst, sym, ap, ◌∙◌, Bool, true, false, not,
  ◌&&◌, none, some, ◌∷◌, arith, length, ◌<◌, get_elem?, get_elem?-some, Option-cases, of_some,
  Bool-cases, if◌then◌else◌,
}
use btlos.Timer.{
  Stage, working, waiting, detached, Device, Phase, checking, releasing, ended, Timer, next_slot,
  leave_slot, detach_event, next_round, count_device, at_device, behind_devices, timer_routine,
  Step, clock, enter, leave, detach, stop, attached, attach_event, start_timer, start, no_devices,
  new_device, Reach, begin, next,
}
use btlos.Timer.Sound.{
  Free, Held, Behind, Ahead, Sound, with_device-Sound, enter-Behind, enter-Ahead, leave-Behind,
  leave-Ahead, detach-Behind, detach-Ahead,
}
use native.Mathlib.Decide.{dec_lt}
use btlos.Timer.Clock.{timer_routine-Sound}

-- A list of `n` devices that no thread has used.
record Fresh (n : ℕ) (s : Timer) : Type 0 where
  not_started : s.timer_started ≡ false
  not_stopped : s.timer_stop ≡ false
  at_zero : s.ticks ≡ 0
  size : length s.dev_list ≡ n
  fresh : (i : ℕ) (d : Device) → get_elem? s.dev_list i ≡ some d → d ≡ new_device

attach_event-new :
    (s : Timer)
    → s.timer_started ≡ false
    → attach_event s ≡ some (record s { dev_list = new_device ∷ s.dev_list })
unfolding attach_event
attach_event-new s e = simp e refl

attached-Fresh : (n k : ℕ) (s : Timer) → Fresh k s → Fresh (n + k) (attached n s)
unfolding attached
attached-Fresh zero k s v = subst (λ m. Fresh m s) (omega arith) v
attached-Fresh (suc n) k s v =
    rw (attach_event-new s v.not_started, attached)
      (subst (λ m. Fresh m (attached n s')) (omega arith)
        (attached-Fresh n (suc k) s' (record {
          not_started = v.not_started;
          not_stopped = v.not_stopped;
          at_zero = v.at_zero;
          size = ap suc v.size;
          fresh = each;
        })))
  where
    s' : Timer
    s' = record s { dev_list = new_device ∷ s.dev_list }

    each : (i : ℕ) (d : Device) → get_elem? (new_device ∷ s.dev_list) i ≡ some d → d ≡ new_device
    each zero d e = sym (of_some e)
    each (suc i) d e = v.fresh i d e

start-Sound : (n : ℕ) → Sound n (start n)
unfolding start start_timer next_round
start-Sound n =
    subst (λ b. Sound n (if b then stopping else going)) (sym v.not_stopped)
      (record {
        devices = v.size ∙ omega arith;
        within = omega arith;
        behind = λ i d f lt. absurd (omega (arith, lt));
        ahead = λ i d f le. rw (v.fresh i d f) (refl, refl, sym v.at_zero);
        events = refl;
        finished = omega arith;
        all_finished = λ eq i d f lt. absurd (omega (arith, lt));
        stopped = λ e. cc (v.not_stopped, e);
      })
  where
    s : Timer
    s = record (attached n no_devices) { timer_started = true }

    stopping : Timer
    stopping = record s { phase = ended }

    going : Timer
    going = record s { phase = checking; temp = 0; fsh = 0; event = 0 }

    v : Fresh (n + 0) (attached n no_devices)
    v = attached-Fresh n 0 no_devices (record {
      not_started = refl;
      not_stopped = refl;
      at_zero = refl;
      size = refl;
      fresh = λ i d e. cc;
    })

-- The devices before any step.
pub start-device : (n i : ℕ) → i < n → get_elem? (start n).dev_list i ≡ some new_device
unfolding start start_timer next_round
start-device n i lt = rw v.not_stopped (
    let (d, e) = get_elem?-some (attached n no_devices).dev_list i (omega (arith, lt, v.size)) in
    e ∙ ap some (v.fresh i d e))
  where
    v : Fresh (n + 0) (attached n no_devices)
    v = attached-Fresh n 0 no_devices (record {
      not_started = refl;
      not_stopped = refl;
      at_zero = refl;
      size = refl;
      fresh = λ i d e. cc;
    })

Step-Sound : (n : ℕ) (s t : Timer) → Sound n s → Step s t → Sound n t
Step-Sound n s t v (clock e) = timer_routine-Sound n s v e
Step-Sound n s t v (enter i d f e) =
    with_device-Sound n s v i d (next_slot d) f (enter-Behind s.phase s.ticks d e)
      (enter-Ahead s.phase s.ticks d e) (λ g. cc)
Step-Sound n s t v (leave i d f e g) =
    with_device-Sound n s v i d (leave_slot d) f (leave-Behind s.phase s.ticks d e g)
      (leave-Ahead s.phase s.ticks d e g) (λ h. cc)
Step-Sound n s t v (detach i d f e) =
    with_device-Sound n s v i d (detach_event d) f (detach-Behind s.phase s.ticks d e)
      (detach-Ahead s.phase s.ticks d e) (λ g. cc)
Step-Sound n s t v (stop all) = record {
  devices = v.devices;
  within = v.within;
  behind = v.behind;
  ahead = v.ahead;
  events = v.events;
  finished = v.finished;
  all_finished = v.all_finished;
  stopped = λ e. all;
}

pub Reach-Sound : {n : ℕ} {t : Timer} → Reach n t → Sound n t
Reach-Sound {n} begin = start-Sound n
Reach-Sound {n} {t} (next {s = s} r m) = Step-Sound n s t (Reach-Sound r) m

Free-slots :
    (now : ℕ) (st : Stage) (done fsh : Bool) (slots : ℕ)
    → st ≢ detached
    → Free now st done fsh slots
    → (slots ≡ now) ⊎ ((slots + 1 ≡ now) × (st ≡ waiting))
Free-slots now working done fsh slots e h = inl (h.2)
Free-slots now waiting done fsh slots e (h, inl (f, g)) = inl g
Free-slots now waiting done fsh slots e (h, inr (f, g)) = inr (g, refl)
Free-slots now detached done fsh slots e h = absurd (e refl)

slots-drift :
    {n : ℕ} (s : Timer)
    → Sound n s
    → (i : ℕ) (d : Device) → get_elem? s.dev_list i ≡ some d
    → d.stage ≢ detached
    → (d.slots ≡ s.ticks) ⊎ ((d.slots + 1 ≡ s.ticks) × (d.stage ≡ waiting))
slots-drift s v i d f live = elim (dec_lt i s.temp) [
  | yes lt ↦ behind s.phase (v.behind i d f lt)
  | no ge ↦ ahead s.phase (v.ahead i d f (omega (arith, ge)))
]
  where
    held :
        (now slots : ℕ) (st : Stage) (done fsh : Bool)
        → st ≢ detached
        → Held now st done fsh slots
        → (slots ≡ now) × (st ≡ waiting)
    held now slots working done fsh e h = absurd h
    held now slots waiting done fsh e h = (h.2, refl)
    held now slots detached done fsh e h = absurd (e refl)

    behind :
        (ph : Phase)
        → Behind ph s.ticks d
        → (d.slots ≡ s.ticks) ⊎ ((d.slots + 1 ≡ s.ticks) × (d.stage ≡ waiting))
    behind checking h = inl ((held s.ticks d.slots d.stage d.id.done d.id.fsh live h).0)
    behind releasing h = Free-slots s.ticks d.stage d.id.done d.id.fsh d.slots live h
    behind ended h = absurd (live h)

    ahead :
        (ph : Phase)
        → Ahead ph s.ticks d
        → (d.slots ≡ s.ticks) ⊎ ((d.slots + 1 ≡ s.ticks) × (d.stage ≡ waiting))
    ahead checking h = Free-slots s.ticks d.stage d.id.done d.id.fsh d.slots live h
    ahead releasing h = inr (held s.ticks (d.slots + 1) d.stage d.id.done d.id.fsh live h)
    ahead ended h = absurd (live h)

-- In every state that the clock and any number of devices can reach, in any order of their steps, a
-- device that is not detached has finished as many slots as the clock has counted, or it has one
-- less to its count and still waits to be let go.
pub device-in_step :
    {n : ℕ} {s : Timer}
    → Reach n s
    → (i : ℕ) (d : Device) → get_elem? s.dev_list i ≡ some d
    → d.stage ≢ detached
    → (d.slots ≡ s.ticks) ⊎ ((d.slots + 1 ≡ s.ticks) × (d.stage ≡ waiting))
device-in_step {s = s} r = slots-drift s (Reach-Sound r)

-- When the clock has ended, in whatever order the steps were made, all devices are detached.
pub ended-all_detached :
    {n : ℕ} {s : Timer}
    → Reach n s
    → s.phase ≡ ended
    → (i : ℕ) (d : Device) → get_elem? s.dev_list i ≡ some d
    → d.stage ≡ detached
ended-all_detached {s = s} r ph i d f =
    let v = Reach-Sound r in
    elim (dec_lt i s.temp) [
      | yes lt ↦ subst (λ p. Behind p s.ticks d) ph (v.behind i d f lt)
      | no ge ↦ subst (λ p. Ahead p s.ticks d) ph (v.ahead i d f (omega (arith, ge)))
    ]

-- What goes on: the clock, a device that is let go, or one that is at work.
pub data Ready (s : Timer) : Type 0 where
  ticking : {t : Timer} → timer_routine s ≡ some t → Ready s
  let_go :
      (i : ℕ) (d : Device)
      → get_elem? s.dev_list i ≡ some d
      → d.stage ≡ waiting
      → d.id.done ≡ false
      → Ready s
  at_work : (i : ℕ) (d : Device) → get_elem? s.dev_list i ≡ some d → d.stage ≡ working → Ready s

-- A device that the clock waits for goes on by itself.
waited_for :
    (s : Timer) (now : ℕ) (d : Device) (i : ℕ)
    → get_elem? s.dev_list i ≡ some d
    → not d.id.done && not d.id.fsh ≡ true
    → Free now d.stage d.id.done d.id.fsh d.slots
    → Ready s
waited_for s now d i f waits h = at_stage d.stage refl h
  where
    at_stage : (st : Stage) → d.stage ≡ st → Free now st d.id.done d.id.fsh d.slots → Ready s
    at_stage working e h = at_work i d f e
    at_stage waiting e (h, inl (g, k)) = cc
    at_stage waiting e (h, inr (g, k)) = let_go i d f e g
    at_stage detached e h = cc

-- The clock at a device and behind the last one.
at_device-Ready :
    (s : Timer) {t : Timer} (d : Device) (ph : Phase)
    → s.phase ≡ ph
    → get_elem? s.dev_list s.temp ≡ some d
    → at_device s ph d ≡ some t
    → Ready s
unfolding timer_routine
at_device-Ready s {t} d ph at here e =
    ticking {t = t} (rw (here, timer_routine) (subst (λ p. at_device s p d ≡ some t) (sym at) e))

behind_devices-Ready :
    (s : Timer) {t : Timer} (ph : Phase)
    → s.phase ≡ ph
    → get_elem? s.dev_list s.temp ≡ none
    → behind_devices s ph ≡ some t
    → Ready s
unfolding timer_routine
behind_devices-Ready s {t} ph at out e =
    ticking {t = t} (rw (out, timer_routine) (subst (λ p. behind_devices s p ≡ some t) (sym at) e))

-- Until the clock has ended, something goes on.
pub phase-Ready : {n : ℕ} {s : Timer} → Reach n s → (s.phase ≡ ended) ⊎ Ready s
unfolding at_device behind_devices
phase-Ready {s = s} r = elim (Option-cases (get_elem? s.dev_list s.temp)) [
  | inl out ↦ last s.phase refl out
  | inr (d, here) ↦ each s.phase refl d here
]
  where
    last :
        (ph : Phase)
        → s.phase ≡ ph
        → get_elem? s.dev_list s.temp ≡ none
        → (s.phase ≡ ended) ⊎ Ready s
    last ended ph out = inl ph
    last releasing ph out = inr (behind_devices-Ready s releasing ph out refl)
    last checking ph out = inr (behind_devices-Ready s checking ph out refl)

    each :
        (ph : Phase)
        → s.phase ≡ ph
        → (d : Device) → get_elem? s.dev_list s.temp ≡ some d
        → (s.phase ≡ ended) ⊎ Ready s
    each ended ph d here = inl ph
    each releasing ph d here = inr (at_device-Ready s d releasing ph here refl)
    each checking ph d here = inr (elim (Bool-cases (not d.id.done && not d.id.fsh)) [
      | inl waits ↦
          waited_for s s.ticks d s.temp here waits
            (subst (λ p. Ahead p s.ticks d) ph ((Reach-Sound r).ahead s.temp d here (omega arith)))
      | inr passes ↦ at_device-Ready s {t = count_device s d} d checking ph here (rw passes refl)
    ])
