-- ===== src/Timer/Round.antt =====
-- A slot of the clock of src/timer.c, from the time at which the devices have finished it.
use btlos.Prelude.{
  ℕ, zero, suc, ◌+◌, ◌≡◌, ◌≤◌, ◌<◌, refl, subst, sym, ap, ◌∙◌, inl, inr, false, not, ◌&&◌, Option,
  none, some, arith, length, length-set, get_elem?, get_elem?-lt, get_elem?-some, get_elem?-none,
  get_elem?-set_cases, of_some, Option-cases,
}
use btlos.Timer.{
  Device, checking, releasing, Timer, count_device, release_device, at_device, behind_devices,
  timer_routine,
}

-- `k` steps of the clock alone.
pub run_clock : ℕ → Timer → Option Timer
run_clock zero s = some s
run_clock (suc k) s = elim (timer_routine s) [ none ↦ none | some t ↦ run_clock k t ]

run_clock-step :
    (k : ℕ) (s t : Timer) {r : Option Timer}
    → timer_routine s ≡ some t
    → run_clock k t ≡ r
    → run_clock (suc k) s ≡ r
unfolding run_clock
run_clock-step k s t e f = rw (e, run_clock) f

run_clock-add :
    (k m : ℕ) (s t u : Timer)
    → run_clock k s ≡ some t
    → run_clock m t ≡ some u
    → run_clock (k + m) s ≡ some u
unfolding run_clock
run_clock-add zero m s t u e f =
    subst (λ n. run_clock n s ≡ some u) (omega arith)
      (subst (λ x. run_clock m x ≡ some u) (sym (of_some e)) f)
run_clock-add (suc k) m s t u e f = elim (Option-cases (timer_routine s)) [
  | inl stops ↦ cc (rw (stops, run_clock) at e)
  | inr (s1, goes) ↦
      let same : suc (k + m) ≡ suc k + m = omega arith in
      subst (λ n. run_clock n s ≡ some u) same
        (run_clock-step (k + m) s s1 goes (run_clock-add k m s1 t u (rw (goes, run_clock) at e) f))
]

-- The clock passes a device that is not at work, and lets a device go.
count-runs :
    (s : Timer) (d : Device)
    → s.phase ≡ checking
    → get_elem? s.dev_list s.temp ≡ some d
    → not d.id.done && not d.id.fsh ≡ false
    → timer_routine s ≡ some (count_device s d)
unfolding timer_routine at_device
count-runs s d ph here passes =
    rw (here, timer_routine)
      (subst (λ p. at_device s p d ≡ some (count_device s d)) (sym ph) (rw passes refl))

release-runs :
    (s : Timer) (d : Device)
    → s.phase ≡ releasing
    → get_elem? s.dev_list s.temp ≡ some d
    → timer_routine s ≡ some (release_device s d)
unfolding timer_routine at_device
release-runs s d ph here =
    rw (here, timer_routine)
      (subst (λ p. at_device s p d ≡ some (release_device s d)) (sym ph) refl)

tick-runs :
    (s : Timer)
    → s.phase ≡ checking
    → get_elem? s.dev_list s.temp ≡ none
    → timer_routine s ≡ some (record s { ticks = s.ticks + 1; phase = releasing; temp = 0 })
unfolding timer_routine behind_devices
tick-runs s ph out =
    rw (out, timer_routine)
      (subst
        (λ p.
          behind_devices s p ≡ some (record s { ticks = s.ticks + 1; phase = releasing; temp = 0 }))
        (sym ph) refl)

-- The devices are as they were, and the clock has come to the end of them.
record Counted (s t : Timer) : Type 0 where
  phase : t.phase ≡ checking
  devices : t.dev_list ≡ s.dev_list
  time : t.ticks ≡ s.ticks
  last : get_elem? t.dev_list t.temp ≡ none

count_all :
    (left : ℕ) (s : Timer)
    → s.phase ≡ checking
    → s.temp + left ≡ length s.dev_list
    → ((i : ℕ) (d : Device)
        → get_elem? s.dev_list i ≡ some d
        → s.temp ≤ i
        → not d.id.done && not d.id.fsh ≡ false)
    → (t : Timer) × (run_clock left s ≡ some t) × Counted s t
unfolding run_clock count_device
count_all zero s ph at ready = (
  s,
  refl,
  record {
    phase = ph;
    devices = refl;
    time = refl;
    last = get_elem?-none s.dev_list s.temp (omega (arith, at));
  },
)
count_all (suc left) s ph at ready =
    let (d, here) = get_elem?-some s.dev_list s.temp (omega (arith, at)) in
    let (t, runs, c) =
      count_all left (count_device s d) ph (omega (arith, at))
        (λ i e f le. ready i e f (omega (arith, le))) in
    (
      t,
      run_clock-step left s (count_device s d)
          (count-runs s d ph here (ready s.temp d here (omega arith))) runs,
      record { phase = c.phase; devices = c.devices; time = c.time; last = c.last },
    )

release_all :
    (left : ℕ) (s : Timer)
    → s.phase ≡ releasing
    → s.temp + left ≡ length s.dev_list
    → ((i : ℕ) (d : Device) → get_elem? s.dev_list i ≡ some d → i < s.temp → d.id.done ≡ false)
    → (t : Timer) × (run_clock left s ≡ some t)
      × (t.ticks ≡ s.ticks)
      × ((i : ℕ) (d : Device) → get_elem? t.dev_list i ≡ some d → d.id.done ≡ false)
unfolding run_clock release_device
release_all zero s ph at gone =
    (s, refl, refl, λ i d f. gone i d f (omega (arith, at, get_elem?-lt s.dev_list i f)))
release_all (suc left) s ph at gone =
    let (d, here) = get_elem?-some s.dev_list s.temp (omega (arith, at)) in
    let d' : Device = record d { id = record (d.id) { done = false } } in
    let (t, runs, time, all) =
      release_all left (release_device s d) ph (omega (arith, at, length-set s.dev_list s.temp d'))
        (λ i e f lt. elim (get_elem?-set_cases s.dev_list s.temp i d' f) [
          | inl (same, new) ↦ rw new refl
          | inr (apart, old) ↦ gone i e old (omega (arith, apart, lt))
        ]) in
    (t, run_clock-step left s (release_device s d) (release-runs s d ph here) runs, time, all)

-- When every device has finished its slot or is detached, the clock by itself, from the start of a
-- round, takes `2 n + 1` steps for `n` devices, after which it has counted the slot and no device
-- waits for it.
pub slot-ends :
    (s : Timer)
    → s.phase ≡ checking
    → s.temp ≡ 0
    → ((i : ℕ) (d : Device)
        → get_elem? s.dev_list i ≡ some d
        → not d.id.done && not d.id.fsh ≡ false)
    → (t : Timer) × (run_clock (length s.dev_list + (1 + length s.dev_list)) s ≡ some t)
      × (t.ticks ≡ s.ticks + 1)
      × ((i : ℕ) (d : Device) → get_elem? t.dev_list i ≡ some d → d.id.done ≡ false)
slot-ends s ph first ready =
    let n = length s.dev_list in
    let (t, counts, c) = count_all n s ph (omega (arith, first)) (λ i d e le. ready i d e) in
    let sizes : length t.dev_list ≡ n = ap length c.devices in
    let ticked : Timer = record t { ticks = t.ticks + 1; phase = releasing; temp = 0 } in
    let (u, frees, time, all) =
      release_all n ticked refl (omega (arith, sizes)) (λ i d e lt. absurd (omega (arith, lt))) in
    let one_more : suc n ≡ 1 + n = omega arith in
    (
      u,
      run_clock-add n (1 + n) s t u counts (
          subst (λ k. run_clock k t ≡ some u) one_more
            (run_clock-step n t ticked (tick-runs t c.phase c.last) frees)),
      time ∙ ap (λ k. k + 1) c.time,
      all,
    )
