-- ===== src/Sched/Put.antt =====
-- `put_mlq_proc` and `add_mlq_proc` of src/sched.c.
use mathlib.Core.Option
use btlos.Prelude.{
  ℕ, ◌≡◌, ◌≢◌, ◌<◌, refl, sym, ap, some, List, Outcome, done, set, arith, get_elem?-some,
  get_elem?-set_self, get_elem?-set_ne, lt→ltb,
}
use btlos.Queue.{enqueue}
use btlos.Queue.Contents.{contents}
use btlos.Queue.Fifo.{push, enqueue-push}
use btlos.Sched.{Mlq, max_prio, put_mlq_proc}
use btlos.Sched.Policy.{IsMlq}
use btlos.Sched.Turn.{waiting, replaced-IsMlq}

module _ {ℓ} {A : Type ℓ} (prio : A → ℕ) where
  -- What putting a process with a valid priority does.
  pub record Put (s : Mlq A) (proc : A) (r : Outcome (Mlq A)) : Type ℓ where
    pub before : List A
    pub next : Mlq A
    pub returns : r ≡ done next
    pub was : waiting s (prio proc) ≡ some before
    pub is : waiting next (prio proc) ≡ some (push before proc)
    pub others : (p : ℕ) → p ≢ prio proc → waiting next p ≡ waiting s p
    pub current : next.current_prio ≡ s.current_prio
    pub valid : IsMlq next

  -- `put_mlq_proc` of a process of a priority below 140 puts it at the end of that priority's
  -- queue, unless that queue is full with nine; the other queues keep their processes, the current
  -- priority stays, and the scheduler stays well formed.
  pub put_mlq_proc-Put :
      (s : Mlq A) (proc : A)
      → IsMlq s
      → prio proc < max_prio
      → Put s proc (put_mlq_proc prio s proc)
  unfolding put_mlq_proc
  put_mlq_proc-Put s proc v lt =
      let p = prio proc in
      let (q, f) = get_elem?-some s.queues p (omega (arith, v.count)) in
      let (sound, bound) = v.each p q f in
      let (c, sound', kept) = enqueue-push q proc sound in
      rw (lt→ltb lt, f)
        (record {
          before = contents q;
          next = record s { queues = set s.queues p (enqueue q proc) };
          returns = refl;
          was = rw f;
          is =
              rw (get_elem?-set_self s.queues p (enqueue q proc) (omega (arith, v.count)))
                (ap some c);
          others =
              λ j ne. ap (Option.map contents) (get_elem?-set_ne s.queues p j _ (λ e. ne (sym e)));
          current = refl;
          valid =
              replaced-IsMlq s p (enqueue q proc) s.current_prio v v.current sound' (rw kept bound);
        })
