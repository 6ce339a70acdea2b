-- ===== src/Vm/Within.antt =====
-- What the instructions call in src/mm-vm.c: the addresses of the process, and how far `sbrk` moves.
use btlos.Prelude.{ℕ, ◌+◌, ◌^◌, ◌≡◌, ◌<◌, subst, done, >>=-eq-done, Code}
use btlos.Prelude.Int.{pos, to_int, to_int-pos}
use btlos.Mm.{Area, Caller}
use btlos.Vm.{alloc, read, pgalloc, pgfree_data, pgread, pgwrite}
use btlos.Vm.Owned.{Owned, Owned-Kept}
use btlos.Vm.Apart.{Within, alloc-Owned, free-Owned}
use btlos.Vm.Safety.{read-Kept, write-Kept}
use btlos.Vm.Calls.{of_done}

module _ (c : Caller) (a : Area) (v : Owned c a) where
  pub pgalloc-Within :
      (fuel junk size reg : ℕ) (c' : Caller) {code : Code}
      → size < 2 ^ 31
      → reg < 2 ^ 31
      → a.sbrk + size < 2 ^ 31
      → pgalloc fuel junk c size reg ≡ done (code, c')
      → Within c' (a.sbrk + size)
  unfolding pgalloc
  pgalloc-Within fuel junk size reg c' small low room e =
      let (p, ran, e1) = >>=-eq-done (alloc fuel junk c (pos 0) (to_int reg) (to_int size)) _ e in
      let at : p.2 ≡ c' = of_done e1 in
      let ran' = rw (to_int-pos reg low, to_int-pos size small) at ran in
      subst (λ x. Within x (a.sbrk + size)) at
        (alloc-Owned c a v fuel junk reg size (p.2) {code = p.0} {addr = p.1} room ran')

  pub pgfree_data-Within :
      (reg : ℕ) (c' : Caller) {code : Code}
      → reg < 2 ^ 31
      → pgfree_data c reg ≡ done (code, c')
      → Within c' a.sbrk
  unfolding pgfree_data
  pgfree_data-Within reg c' low e = free-Owned c a v reg c' (rw (to_int-pos reg low) at e)

  pub pgwrite-Owned :
      (junk value destination offset : ℕ) (c' : Caller) {code : Code}
      → pgwrite junk c value destination offset ≡ done (code, c')
      → Owned c' a
  unfolding pgwrite
  pgwrite-Owned junk value destination offset c' e =
      Owned-Kept c c' a (write-Kept junk c c' (to_int destination) (to_int offset) value e) v

module _ (c : Caller) (a : Area) (v : Owned c a) where
  pub pgread-Owned :
      (junk source offset destination : ℕ) (c' : Caller) {code : Code}
      → pgread junk c source offset destination ≡ done (code, c')
      → Owned c' a
  unfolding pgread
  pgread-Owned junk source offset destination c' e =
      let (p, ran, e1) = >>=-eq-done (read junk c (pos 0) (to_int source) (to_int offset)) _ e in
      let (q, wrote, e2) = >>=-eq-done (pgwrite junk (p.1) _ destination 0) _ e1 in
      let at : q.1 ≡ c' = of_done e2 in
      let first =
        Owned-Kept c (p.1) a (read-Kept junk c (p.1) (to_int source) (to_int offset) ran) v in
      subst (λ x. Owned x a) at (pgwrite-Owned (p.1) a first junk _ destination 0 (q.1) wrote)
