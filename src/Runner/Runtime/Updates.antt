-- ===== src/Runner/Runtime/Updates.antt =====
-- pruntime.js, updateInfoLoop: when it ends.
use runtime_bridge.Prelude.{
  ℕ, zero, suc, ◌+◌, ◌≡◌, ◌≤◌, ◌<◌, refl, sym, subst, ◌∙◌, Bool, true, Option, arith, if_cases, ltb,
  ltb→lt, Bool-cases, Settles, inl, inr,
}
use native.Mathlib.Decide.{ℕ_discrete}
use runtime_bridge.Iterate.{Outcome, done, threw}
use runtime_bridge.Runner.Sync.{Answer, ok, fails}
use runtime_bridge.Runner.Runtime.{RuntimeInfo, after_update, update_info_loop}

ok_fails : {E A : Type 0} {a : A} {e : E} → ¬ (◌≡◌ {A = Answer E A} (ok a) (fails e))
ok_fails q = cc

module _ {E : Type 0} (answers : ℕ → Answer E RuntimeInfo) (stops : ℕ → Bool) where
  abbrev pub IsFailure : ℕ → Type 0
  IsFailure i = (e : E) × (answers i ≡ fails e)

  -- Ended by the flag, or by six failures in a row.
  abbrev pub IsEnd : Outcome E × ℕ → Type 0
  IsEnd (done, i) = stops i ≡ true
  IsEnd (threw e, i) = (5 ≤ i) × ((j : ℕ) → i ≤ j + 5 → j ≤ i → IsFailure j)

  -- The last `retries` answers before round `i` are failures.
  IsRow : ℕ → ℕ → Type 0
  IsRow retries i = (retries ≤ i) × ((j : ℕ) → i ≤ j + retries → j < i → IsFailure j)

  -- The fuel is enough when all answers from `k` on are failures.
  IsEnough : ℕ → ℕ → ℕ → ℕ → Type 0
  IsEnough k fuel retries i = (i < k → k + 6 ≤ i + fuel) × (k ≤ i → 6 ≤ fuel + retries)

  longer : (retries i : ℕ) → IsRow retries i → IsFailure i → IsRow (retries + 1) (i + 1)
  unfolding IsRow
  longer retries i h f = (
    omega arith,
    λ j le lt. elim (ℕ_discrete j i) [
      | yes e ↦ subst IsFailure (sym e) f
      | no n ↦ h.1 j (omega arith) (omega arith)
    ],
  )

  update-IsEnd :
      (again : ℕ → ℕ → Option (Outcome E × ℕ)) (retries i : ℕ) (a : Answer E RuntimeInfo)
      → answers i ≡ a
      → retries ≤ 5
      → IsRow retries i
      → (((info : RuntimeInfo) → a ≡ ok info → Settles IsEnd (again 0 (i + 1))))
      → (IsRow (retries + 1) (i + 1) → retries < 5 → Settles IsEnd (again (retries + 1) (i + 1)))
      → Settles IsEnd (after_update again (stops i) retries i a)
  unfolding IsRow
  update-IsEnd again retries i (ok info) q le row success failure =
      if_cases (Settles IsEnd) (stops i) (λ t. t) (λ t. success info refl)
  update-IsEnd again retries i (fails e) q le row success failure =
      let more = longer retries i row (e, q) in
      if_cases (Settles IsEnd) (ltb 5 (retries + 1))
        (λ t. (ground arith, λ j a b. more.1 j (ground arith) (omega arith)))
        (λ t. failure more (ground arith))

  -- A success comes before the round from which on all answers fail.
  before :
      (k i : ℕ)
      → ((j : ℕ) → k ≤ j → IsFailure j)
      → (info : RuntimeInfo) → answers i ≡ ok info
      → i < k
  before k i failing info e = elim (Bool-cases (ltb i k)) [
    | inl t ↦ ltb→lt i k t
    | inr t ↦ absurd (let f = failing i (ground arith) in ok_fails (sym e ∙ f.1))
  ]

  failed-IsEnough :
      (k fuel retries i : ℕ)
      → IsEnough k (suc fuel) retries i
      → IsEnough k fuel (retries + 1) (i + 1)
  unfolding IsEnough
  failed-IsEnough k fuel retries i enough = (
    λ lt. (let a = enough.0 (omega arith) in omega arith),
    λ le. elim (Bool-cases (ltb i k)) [
      | inl t ↦ (let l = ltb→lt i k t in let a = enough.0 l in omega arith)
      | inr t ↦ (let l : k ≤ i = ground arith in let a = enough.1 l in omega arith)
    ],
  )

  loop-IsEnd :
      (k fuel retries i : ℕ)
      → ((j : ℕ) → k ≤ j → IsFailure j)
      → IsEnough k fuel retries i
      → retries ≤ 5
      → IsRow retries i
      → Settles IsEnd (update_info_loop answers stops fuel retries i)
  unfolding update_info_loop IsEnough IsRow
  loop-IsEnd k zero retries i failing enough le row = elim (Bool-cases (ltb i k)) [
    | inl t ↦ absurd (let a = enough.0 (ltb→lt i k t) in let b = ltb→lt i k t in omega arith)
    | inr t ↦ absurd (let l : k ≤ i = ground arith in let a = enough.1 l in omega arith)
  ]
  loop-IsEnd k (suc fuel) retries i failing enough le row =
      update-IsEnd (update_info_loop answers stops fuel) retries i (answers i) refl le row
        (λ info e.
          let lt = before k i failing info e in
          let a = enough.0 lt in
          loop-IsEnd k fuel 0 (i + 1) failing ((λ l. omega arith), (λ l. omega arith)) (omega arith)
            (omega arith, λ j x y. absurd (omega arith)))
        (λ longer less.
          loop-IsEnd k fuel (retries + 1) (i + 1) failing (failed-IsEnough k fuel retries i enough)
            (omega arith) longer)

  -- The loop that keeps a worker's information up to date ends with an error only when six answers
  -- in a row failed, the last one at its end, and otherwise only when it was told to stop. When all
  -- answers from some round on are failures, it does end.
  pub update_info_loop-IsEnd :
      (k fuel : ℕ)
      → ((j : ℕ) → k ≤ j → IsFailure j)
      → k + 6 ≤ fuel
      → Settles IsEnd (update_info_loop answers stops fuel 0 0)
  unfolding IsEnough IsRow
  update_info_loop-IsEnd k fuel failing le =
      loop-IsEnd k fuel 0 0 failing ((λ lt. omega arith), (λ l. omega arith)) (omega arith)
        (omega arith, λ j a lt. absurd (omega arith))
