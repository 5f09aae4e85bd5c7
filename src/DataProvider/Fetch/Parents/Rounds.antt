-- ===== src/DataProvider/Fetch/Parents/Rounds.antt =====
-- fetch_block.ts, iterate: how far its rounds get.
use runtime_bridge.Prelude.{
  ℕ, ◌+◌, ◌≤◌, ◌<◌, List, [], ◌∷◌, All, length, leb, leb→le, if_cases, arith,
}
use runtime_bridge.DataProvider.Fetch.{Ended, done, exits, rejects}
use runtime_bridge.DataProvider.Fetch.Parents.{then_iterate, iterate}

-- How far the rounds get: not above the targets, and up to a target that all of them have reached
-- when there are enough rounds.
pub record IsReached (targets : List ℕ) (n m : ℕ) : Type 0 where
  pub up : n ≤ m
  pub below : (t : ℕ) → All (λ u. u ≤ t) targets → n ≤ t + 1 → m ≤ t + 1
  pub reaches : (t : ℕ) → All (λ u. t ≤ u) targets → t + 1 ≤ n + length targets → t + 1 ≤ m

module _ {S : Type 0} (P : ℕ → S → Type 0) where
  abbrev pub IsStep : ℕ → Ended S → Type 0
  IsStep n (done s) = P (n + 1) s
  IsStep n (exits c) = ⊥
  IsStep n rejects = ⊥

  abbrev pub IsIterated : List ℕ → ℕ → Ended (ℕ × S) → Type 0
  IsIterated targets n (done (m, s)) = IsReached targets n m × P m s
  IsIterated targets n (exits c) = ⊥
  IsIterated targets n rejects = ⊥

  waits-IsIterated :
      (target : ℕ) (targets : List ℕ) (n : ℕ) (r : Ended (ℕ × S))
      → target < n
      → IsIterated targets n r
      → IsIterated (target ∷ targets) n r
  waits-IsIterated target targets n (done (m, s)) lt h = (
    record {
      up = h.0.up;
      below = λ t a le. h.0.below t a.1 le;
      reaches = λ t a le. let u = h.0.up in let x = a.0 in omega arith;
    },
    h.1,
  )
  waits-IsIterated target targets n (exits c) lt h = h
  waits-IsIterated target targets n rejects lt h = h

  goes_on-IsIterated :
      (target : ℕ) (targets : List ℕ) (n : ℕ) (r : Ended (ℕ × S))
      → n ≤ target
      → IsIterated targets (n + 1) r
      → IsIterated (target ∷ targets) n r
  goes_on-IsIterated target targets n (done (m, s)) le h = (
    record {
      up = let u = h.0.up in omega arith;
      below = λ t a q. h.0.below t a.1 (let x = a.0 in omega arith);
      reaches = λ t a q. h.0.reaches t a.1 (omega arith);
    },
    h.1,
  )
  goes_on-IsIterated target targets n (exits c) le h = h
  goes_on-IsIterated target targets n rejects le h = h

  after_step :
      (targets : List ℕ) (n : ℕ) (rest : S → Ended (ℕ × S)) (r : Ended S)
      → IsStep n r
      → ((s : S) → P (n + 1) s → IsIterated targets (n + 1) (rest s))
      → IsIterated targets (n + 1) (then_iterate rest r)
  after_step targets n rest (done s) p k = k s p
  after_step targets n rest (exits c) p k = p
  after_step targets n rest rejects p k = p

  pub iterate-IsIterated :
      (queue_fn : ℕ → S → Ended S)
      → ((n : ℕ) (s : S) → P n s → IsStep n (queue_fn n s))
      → (targets : List ℕ) (n : ℕ) (s : S) → P n s
      → IsIterated targets n (iterate queue_fn targets n s)
  unfolding iterate
  iterate-IsIterated queue_fn step [] n s p =
      (record { up = omega arith; below = λ t a le. le; reaches = λ t a le. omega arith }, p)
  iterate-IsIterated queue_fn step (target ∷ targets) n s p =
      if_cases (IsIterated (target ∷ targets) n) (leb n target)
        (λ t. goes_on-IsIterated target targets n _ (leb→le n target t) (
          after_step targets n (iterate queue_fn targets (n + 1)) (queue_fn n s) (step n s p)
            (λ r q. iterate-IsIterated queue_fn step targets (n + 1) r q)))
        (λ t.
          waits-IsIterated target targets n _ (ground arith)
            (iterate-IsIterated queue_fn step targets n s p))
