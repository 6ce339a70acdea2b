-- ===== src/Vm/Calls.antt =====
-- What the instructions call in src/mm-vm.c, as calls of `__alloc`, `__free`, `__read` and `__write`.
use btlos.Prelude.{ℕ, ◌+◌, ◌^◌, ◌≡◌, ◌<◌, subst, some, Outcome, done, >>=-eq-done, get_elem?, Code}
use btlos.Prelude.Int.{pos, to_int, to_int-pos}
use btlos.Mm.{Area, Caller}
use btlos.Vm.{alloc, read, pgalloc, pgfree_data, pgread, pgwrite}
use btlos.Vm.Safety.{Uses, allocs, frees, reads, writes}

pub of_done :
    {A : Type 0} {r r' : A} {c c' : Caller}
    → Path (Outcome (A × Caller)) (done (r, c)) (done (r', c'))
    → c ≡ c'
of_done e = cc

pub pgalloc-Uses :
    (fuel junk : ℕ) (c0 c c' : Caller) (size reg : ℕ) (a : Area) {code : Code}
    → Uses c0 c
    → get_elem? c.mm.mmap 0 ≡ some a
    → size < 2 ^ 31
    → reg < 2 ^ 31
    → a.sbrk + size < 2 ^ 31
    → pgalloc fuel junk c size reg ≡ done (code, c')
    → Uses c0 c'
unfolding pgalloc
pgalloc-Uses fuel junk c0 c c' size reg a u first small low room e =
    let (p, ran, e1) = >>=-eq-done (alloc fuel junk c (pos 0) (to_int reg) (to_int size)) _ e in
    let at : p.2 ≡ c' = of_done e1 in
    let ran' = rw (to_int-pos reg low, to_int-pos size small) at ran in
    subst (Uses c0) at (allocs {code = p.0} {addr = p.1} a fuel junk reg size u first room ran')

pub pgfree_data-Uses :
    (c0 c c' : Caller) (reg : ℕ) {code : Code}
    → Uses c0 c
    → reg < 2 ^ 31
    → pgfree_data c reg ≡ done (code, c')
    → Uses c0 c'
unfolding pgfree_data
pgfree_data-Uses c0 c c' reg u low e = frees reg u (rw (to_int-pos reg low) at e)

pub pgwrite-Uses :
    (junk : ℕ) (c0 c c' : Caller) (value destination offset : ℕ) {code : Code}
    → Uses c0 c
    → pgwrite junk c value destination offset ≡ done (code, c')
    → Uses c0 c'
unfolding pgwrite
pgwrite-Uses junk c0 c c' value destination offset u e =
    writes junk value (to_int destination) (to_int offset) u e

pub pgread-Uses :
    (junk : ℕ) (c0 c c' : Caller) (source offset destination : ℕ) {code : Code}
    → Uses c0 c
    → pgread junk c source offset destination ≡ done (code, c')
    → Uses c0 c'
unfolding pgread
pgread-Uses junk c0 c c' source offset destination u e =
    let (p, ran, e1) = >>=-eq-done (read junk c (pos 0) (to_int source) (to_int offset)) _ e in
    let (q, wrote, e2) = >>=-eq-done (pgwrite junk (p.1) _ destination 0) _ e1 in
    let at : q.1 ≡ c' = of_done e2 in
    subst (Uses c0) at (
      pgwrite-Uses junk c0 (p.1) (q.1) _ destination 0
        (reads junk (to_int source) (to_int offset) u ran) wrote)
