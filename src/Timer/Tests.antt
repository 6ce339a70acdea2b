-- ===== src/Timer/Tests.antt =====
-- Runs of the clock of src/timer.c with its devices.
use btlos.Prelude.{
  ℕ, zero, suc, ◌+◌, ◌≡◌, ◌⊎◌, refl, sym, true, false, not, ◌&&◌, some, of_some, get_elem?, [], ◌∷◌,
}
use btlos.Timer.{
  waiting, detached, Device, releasing, ended, Timer, new_device, attach_event, next_round,
  start_timer, next_slot, detach_event, count_device, release_device, at_device, behind_devices,
  timer_routine, with_device, clock, enter, detach, attached, start, Reach, begin, next,
}
use btlos.Timer.Round.{run_clock, slot-ends}
use btlos.Timer.Lockstep.{device-in_step, ended-all_detached}

-- One device, which has no work left at the start.
abbrev finished : Timer
finished = with_device (start 1) 0 (detach_event new_device)

finished-reached : Reach 1 finished
unfolding start attached attach_event start_timer next_round
finished-reached = next begin (detach 0 new_device refl refl)

-- Two devices, the first of which has told the clock that its slot is over.
abbrev one_waits : Timer
one_waits = with_device (start 2) 0 (next_slot new_device)

one_waits-reached : Reach 2 one_waits
unfolding start attached attach_event start_timer next_round
one_waits-reached = next begin (enter 0 new_device refl refl)

abbrev both_wait : Timer
both_wait = with_device one_waits 1 (next_slot new_device)

both_wait-reached : Reach 2 both_wait
unfolding start attached attach_event start_timer next_round next_slot
both_wait-reached = next one_waits-reached (enter 1 new_device refl refl)

abbrev released : Device
released = record { id = record { done = false; fsh = false }; stage = waiting; slots = 0 }

-- The clock sees both, ends the slot and releases the first.
abbrev one_released : Timer
one_released = record both_wait {
  dev_list =
      released
      ∷ record { id = record { done = true; fsh = false }; stage = waiting; slots = 0 }
      ∷ [];
  ticks = 1;
  phase = releasing;
  temp = 1;
  fsh = 0;
  event = 2;
}

one_released-reached : Reach 2 one_released
unfolding start attached attach_event start_timer next_round next_slot timer_routine at_device
    behind_devices count_device release_device
one_released-reached =
    next (next (next (next both_wait-reached (clock refl)) (clock refl)) (clock refl)) (clock refl)

-- The clock sees that its one device has finished, and ends.
abbrev over : Timer
over = record finished {
  dev_list = record { id = record { done = false; fsh = true }; stage = detached; slots = 0 } ∷ [];
  ticks = 1;
  phase = ended;
  temp = 1;
  fsh = 1;
  event = 1;
}

over-reached : Reach 1 over
unfolding start attached attach_event start_timer next_round detach_event timer_routine at_device
    behind_devices count_device release_device
over-reached =
    next (next (next (next finished-reached (clock refl)) (clock refl)) (clock refl)) (clock refl)

device-in_step_example :
    (released.slots ≡ one_released.ticks)
    ⊎ ((released.slots + 1 ≡ one_released.ticks) × (released.stage ≡ waiting))
device-in_step_example = device-in_step one_released-reached 0 released refl (λ e. cc)

ended-all_detached_example : detached ≡ detached
ended-all_detached_example =
    ended-all_detached over-reached refl 0
      (record { id = record { done = false; fsh = true }; stage = detached; slots = 0 }) refl

slot-ends_example :
    (t : Timer) × (run_clock 5 both_wait ≡ some t)
    × (t.ticks ≡ 0 + 1)
    × ((i : ℕ) (d : Device) → get_elem? t.dev_list i ≡ some d → d.id.done ≡ false)
unfolding start start_timer attached attach_event next_round next_slot
slot-ends_example = slot-ends both_wait refl refl both_done
  where
    both_done :
        (i : ℕ) (d : Device)
        → get_elem? both_wait.dev_list i ≡ some d
        → not d.id.done && not d.id.fsh ≡ false
    both_done zero d e = rw (sym (of_some e)) refl
    both_done (suc zero) d e = rw (sym (of_some e)) refl
    both_done (suc (suc i)) d e = cc
