-- ===== src/Sched/Search.antt =====
-- The first number of a range that passes a test.
use btlos.Prelude.{
  ℕ, zero, suc, ◌+◌, ◌≡◌, ◌≤◌, ◌<◌, inl, inr, Bool, true, false, Option, none, some, if◌then◌else◌,
  arith, Bool-cases,
}
use native.Mathlib.Decide.{ℕ_discrete}

-- The first of `p`, `p + 1`, … (`left` of them) that passes.
unfoldable pub first_from : (ℕ → Bool) → ℕ → ℕ → Option ℕ
first_from test zero p = none
first_from test (suc left) p =
    let rest = first_from test left (suc p) in if test p then some p else rest

pub first_from-some :
    (test : ℕ → Bool) (left p : ℕ) {k : ℕ}
    → first_from test left p ≡ some k
    → (p ≤ k) × (k < p + left) × (test k ≡ true) × ((j : ℕ) → p ≤ j → j < k → test j ≡ false)
unfolding first_from
first_from-some test zero p e = cc
first_from-some test (suc left) p {k} e = elim (Bool-cases (test p)) [
  | inl hit ↦ ground (arith, e, hit)
  | inr miss ↦
      let (le, lt, ok, before) =
        first_from-some test left (suc p) {k = k} (ground (arith, e, miss)) in
      (
        omega arith,
        omega arith,
        ok,
        λ j a b. elim (ℕ_discrete j p) [
          | yes at ↦ ground (arith, miss)
          | no past ↦ before j (omega arith) b
        ],
      )
]

pub first_from-none :
    (test : ℕ → Bool) (left p : ℕ)
    → first_from test left p ≡ none
    → (j : ℕ) → p ≤ j
    → j < p + left
    → test j ≡ false
unfolding first_from
first_from-none test zero p e j le lt = absurd (omega arith)
first_from-none test (suc left) p e j le lt = elim (Bool-cases (test p)) [
  | inl hit ↦ ground (arith, e, hit)
  | inr miss ↦ elim (ℕ_discrete j p) [
    | yes at ↦ ground (arith, miss)
    | no past ↦
        first_from-none test left (suc p) (ground (arith, e, miss)) j (omega arith) (omega arith)
  ]
]
