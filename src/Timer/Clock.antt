-- ===== src/Timer/Clock.antt =====
-- The steps of `timer_routine` of src/timer.c keep the invariant.
use btlos.Prelude.{
  ℕ, ◌+◌, ◌≡◌, ◌≤◌, ◌<◌, inl, inr, refl, subst, sym, ap, ◌∙◌, Bool, true, false, not, ◌&&◌, none,
  some, arith, length, length-set, get_elem?, get_elem?-lt, get_elem?-ge, set, get_elem?-set_cases,
  Option-cases, of_some, Bool-cases, ◌==◌, if◌then◌else◌,
}
use btlos.Timer.{
  Stage, working, waiting, detached, Device, Phase, checking, releasing, ended, Timer, next_round,
  count_device, release_device, at_device, behind_devices, timer_routine,
}
use btlos.Timer.Sound.{Free, Held, Behind, Ahead, counted, Sound}
use native.Mathlib.Decide.{dec_lt}

-- What the wait of the first loop lets through.
Free-Held :
    (now : ℕ) (st : Stage) (done fsh : Bool) (slots : ℕ)
    → not done && not fsh ≡ false
    → Free now st done fsh slots
    → Held now st done fsh slots
Free-Held now working done fsh slots e h = cc
Free-Held now waiting done fsh slots e (h, inl (f, g)) = (h, f, g)
Free-Held now waiting done fsh slots e (h, inr (f, g)) = cc
Free-Held now detached done fsh slots e h = h

finished-detached :
    (now : ℕ) (st : Stage) (done fsh : Bool) (slots : ℕ)
    → fsh ≡ true
    → Free now st done fsh slots
    → st ≡ detached
finished-detached now working done fsh slots e h = cc
finished-detached now waiting done fsh slots e h = cc
finished-detached now detached done fsh slots e h = refl

Held-Free :
    (now : ℕ) (st : Stage) (done fsh : Bool) (slots : ℕ)
    → Held now st done fsh (slots + 1)
    → Free now st false fsh slots
Held-Free now working done fsh slots h = absurd h
Held-Free now waiting done fsh slots h = (h.0, inr (refl, h.2))
Held-Free now detached done fsh slots h = (refl, h.1)

ticked-Held :
    (now : ℕ) (st : Stage) (done fsh : Bool) (slots : ℕ)
    → Held now st done fsh slots
    → Held (now + 1) st done fsh (slots + 1)
ticked-Held now working done fsh slots h = h
ticked-Held now waiting done fsh slots h = (h.0, h.1, omega arith)
ticked-Held now detached done fsh slots h = h

-- The state of a clock in a phase, with the invariant of that phase.
module _ (n : ℕ) (s : Timer) (v : Sound n s) where
  count-Sound :
      (d : Device)
      → s.phase ≡ checking
      → get_elem? s.dev_list s.temp ≡ some d
      → not d.id.done && not d.id.fsh ≡ false
      → Sound n (count_device s d)
  unfolding count_device
  count-Sound d ph here passes =
      let at_d : Free s.ticks d.stage d.id.done d.id.fsh d.slots =
        subst (λ p. Ahead p s.ticks d) ph (v.ahead s.temp d here (omega arith)) in
      let events : s.event ≡ s.temp =
        v.events ∙ ap (λ p. counted p s.temp (length s.dev_list)) ph in
      record {
        devices = v.devices;
        within = omega (arith, get_elem?-lt s.dev_list s.temp here);
        behind = λ i e f lt. elim (dec_lt i s.temp) [
          | yes old ↦ v.behind i e f old
          | no new ↦
              let same : i ≡ s.temp = omega (arith, lt, new) in
              let is_d : e ≡ d = cc (f, here, same) in
              subst (λ p. Behind p s.ticks e) (sym ph)
                (rw is_d (Free-Held s.ticks d.stage d.id.done d.id.fsh d.slots passes at_d))
        ];
        ahead = λ i e f le. v.ahead i e f (omega (arith, le));
        events =
            ap (λ k. k + 1) events ∙ sym (ap (λ p. counted p (s.temp + 1) (length s.dev_list)) ph);
        finished = ground (arith, v.finished);
        all_finished = λ eq i e f lt. elim (Bool-cases d.id.fsh) [
          | inl fin ↦
              let all : s.fsh ≡ s.event = ground (arith, eq, fin) in
              elim (dec_lt i s.temp) [
                | yes old ↦
                    v.all_finished all i e f
                      (subst (λ p. i < counted p s.temp (length s.dev_list)) (sym ph) old)
                | no new ↦
                    let same : i ≡ s.temp = omega (
                      arith,
                      new,
                      subst (λ p. i < counted p (s.temp + 1) (length s.dev_list)) ph lt,
                    ) in
                    let is_d : e ≡ d = cc (f, here, same) in
                    rw is_d (finished-detached s.ticks d.stage d.id.done d.id.fsh d.slots fin at_d)
              ]
          | inr more ↦ absurd (ground (arith, eq, more, v.finished))
        ];
        stopped = v.stopped;
      }

  release-Sound :
      (d : Device)
      → s.phase ≡ releasing
      → get_elem? s.dev_list s.temp ≡ some d
      → Sound n (release_device s d)
  unfolding release_device
  release-Sound d ph here =
      let d' : Device = record d { id = record (d.id) { done = false } } in
      let at_d : Held s.ticks d.stage d.id.done d.id.fsh (d.slots + 1) =
        subst (λ p. Ahead p s.ticks d) ph (v.ahead s.temp d here (omega arith)) in
      let events : s.event ≡ length s.dev_list =
        v.events ∙ ap (λ p. counted p s.temp (length s.dev_list)) ph in
      let inside : (j : ℕ)
          → j < length s.dev_list
          → j < counted s.phase s.temp (length s.dev_list) =
        λ j h. subst (λ p. j < counted p s.temp (length s.dev_list)) (sym ph) h in
      let size = length-set s.dev_list s.temp d' in
      record {
        devices = size ∙ v.devices;
        within = omega (arith, get_elem?-lt s.dev_list s.temp here, size);
        behind = λ i e f lt. elim (get_elem?-set_cases s.dev_list s.temp i d' f) [
          | inl (same, new) ↦
              subst (λ p. Behind p s.ticks e) (sym ph)
                (rw new (Held-Free s.ticks d.stage d.id.done d.id.fsh d.slots at_d))
          | inr (apart, old) ↦ v.behind i e old (omega (arith, apart, lt))
        ];
        ahead = λ i e f le. elim (get_elem?-set_cases s.dev_list s.temp i d' f) [
          | inl (same, new) ↦ absurd (omega (arith, same, le))
          | inr (apart, old) ↦ v.ahead i e old (omega (arith, le))
        ];
        events =
            events
            ∙ sym (ap (λ p. counted p (s.temp + 1) (length (set s.dev_list s.temp d'))) ph ∙ size);
        finished = v.finished;
        all_finished = λ eq i e f lt. elim (get_elem?-set_cases s.dev_list s.temp i d' f) [
          | inl (same, new) ↦ rw new (
              v.all_finished eq s.temp d here (inside s.temp (get_elem?-lt s.dev_list s.temp here)))
          | inr (apart, old) ↦ v.all_finished eq i e old (inside i (get_elem?-lt s.dev_list i old))
        ];
        stopped = λ eq i e f. elim (get_elem?-set_cases s.dev_list s.temp i d' f) [
          | inl (same, new) ↦ rw new (v.stopped eq s.temp d here)
          | inr (apart, old) ↦ v.stopped eq i e old
        ];
      }

  tick-Sound :
      s.phase ≡ checking
      → get_elem? s.dev_list s.temp ≡ none
      → Sound n (record s { ticks = s.ticks + 1; phase = releasing; temp = 0 })
  tick-Sound ph out =
      let all_passed : length s.dev_list ≤ s.temp = get_elem?-ge s.dev_list s.temp out in
      record {
        devices = v.devices;
        within = omega arith;
        behind = λ i d f lt. absurd (omega (arith, lt));
        ahead = λ i d f le. ticked-Held s.ticks d.stage d.id.done d.id.fsh d.slots (
            subst (λ p. Behind p s.ticks d) ph
              (v.behind i d f (omega (arith, all_passed, get_elem?-lt s.dev_list i f))));
        events =
            v.events
            ∙ ap (λ p. counted p s.temp (length s.dev_list)) ph
            ∙ omega (arith, all_passed, v.within);
        finished = v.finished;
        all_finished = λ eq i d f lt. v.all_finished eq i d f (
            subst (λ p. i < counted p s.temp (length s.dev_list)) (sym ph)
              (omega (arith, lt, all_passed)));
        stopped = v.stopped;
      }

  -- What is known of every device once all are released.
  all_released :
      s.phase ≡ releasing
      → get_elem? s.dev_list s.temp ≡ none
      → (i : ℕ) (d : Device) → get_elem? s.dev_list i ≡ some d
      → Free s.ticks d.stage d.id.done d.id.fsh d.slots
  all_released ph out i d f =
      subst (λ p. Behind p s.ticks d) ph
        (v.behind i d f
          (omega (arith, get_elem?-ge s.dev_list s.temp out, get_elem?-lt s.dev_list i f)))

  ended-Sound :
      get_elem? s.dev_list s.temp ≡ none
      → s.phase ≡ releasing
      → ((i : ℕ) (d : Device) → get_elem? s.dev_list i ≡ some d → d.stage ≡ detached)
      → Sound n (record s { phase = ended })
  ended-Sound out ph all = record {
    devices = v.devices;
    within = v.within;
    behind = λ i d f lt. all i d f;
    ahead = λ i d f le. all i d f;
    events = v.events ∙ ap (λ p. counted p s.temp (length s.dev_list)) ph;
    finished = v.finished;
    all_finished = λ eq i d f lt. all i d f;
    stopped = v.stopped;
  }

  next_round-Sound :
      get_elem? s.dev_list s.temp ≡ none → s.phase ≡ releasing → Sound n (next_round s)
  unfolding next_round
  next_round-Sound out ph = elim (Bool-cases s.timer_stop) [
    | inl halt ↦
        subst (λ b. Sound n (if b then stopping else going)) (sym halt)
          (ended-Sound out ph (v.stopped halt))
    | inr go ↦
        subst (λ b. Sound n (if b then stopping else going)) (sym go)
          (record {
            devices = v.devices;
            within = omega arith;
            behind = λ i d f lt. absurd (omega (arith, lt));
            ahead = λ i d f le. all_released ph out i d f;
            events = refl;
            finished = omega arith;
            all_finished = λ eq i d f lt. absurd (omega (arith, lt));
            stopped = v.stopped;
          })
  ]
    where
      stopping : Timer
      stopping = record s { phase = ended }

      going : Timer
      going = record s { phase = checking; temp = 0; fsh = 0; event = 0 }

  pub timer_routine-Sound : {t : Timer} → timer_routine s ≡ some t → Sound n t
  unfolding timer_routine at_device behind_devices
  timer_routine-Sound {t} e = elim (Option-cases (get_elem? s.dev_list s.temp)) [
    | inl out ↦ last s.phase refl out (rw (out, timer_routine) at e)
    | inr (d, here) ↦ each d s.phase refl here (rw (here, timer_routine) at e)
  ]
    where
      each :
          (d : Device) (ph : Phase)
          → s.phase ≡ ph
          → get_elem? s.dev_list s.temp ≡ some d
          → at_device s ph d ≡ some t
          → Sound n t
      each d checking ph here e = elim (Bool-cases (not d.id.done && not d.id.fsh)) [
        | inl waits ↦ cc (rw waits at e)
        | inr passes ↦ subst (Sound n) (of_some (rw passes at e)) (count-Sound d ph here passes)
      ]
      each d releasing ph here e = subst (Sound n) (of_some e) (release-Sound d ph here)
      each d ended ph here e = cc

      last :
          (ph : Phase)
          → s.phase ≡ ph
          → get_elem? s.dev_list s.temp ≡ none
          → behind_devices s ph ≡ some t
          → Sound n t
      last checking ph out e = subst (Sound n) (of_some e) (tick-Sound ph out)
      last releasing ph out e = elim (Bool-cases (s.fsh == s.event)) [
        | inl all ↦ subst (Sound n) (of_some (rw all at e)) (
            ended-Sound out ph (λ i d f. v.all_finished (ground (arith, all)) i d f (
              subst (λ p. i < counted p s.temp (length s.dev_list)) (sym ph)
                (get_elem?-lt s.dev_list i f))))
        | inr some_left ↦ subst (Sound n) (of_some (rw some_left at e)) (next_round-Sound out ph)
      ]
      last ended ph out e = cc
