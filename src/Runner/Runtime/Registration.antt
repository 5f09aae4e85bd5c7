-- ===== src/Runner/Runtime/Registration.antt =====
-- pruntime.js, registerWorker: which transactions it sends.
use runtime_bridge.Prelude.{
  ℕ, zero, suc, ◌+◌, ◌≡◌, ◌≤◌, ◌<◌, ◌⊎◌, ◌≢◌, ◌==◌, ap, inl, inr, refl, sym, subst, ◌∙◌, Bool, true,
  false, ◌||◌, Option, none, some, List, [], ◌∷◌, ◌++◌, append-nil, arith, if_cases, ltb, Settles,
  Bool-cases,
}
use native.Mathlib.Decide.{ℕ_discrete}
use runtime_bridge.Iterate.{Outcome, done, threw}
use runtime_bridge.Runner.Sync.{Answer, ok, fails}
use runtime_bridge.Runner.Runtime.{
  RuntimeInfo, Setup, operator_of, WorkerInfo, Effect, triggers_ra, registers, adds, Chain, Done,
  is_other_pool, should_register, min_score, after_add, after_score, wait_and_add, add_if_free,
  after_register, after_ra, after_worker, register_worker,
}

ok_inj : {E A : Type 0} {a b : A} → ◌≡◌ {A = Answer E A} (ok a) (ok b) → a ≡ b
ok_inj e = cc

module _ {E : Type 0} (s : Setup) (info : RuntimeInfo) (c : Chain E) where
  -- A worker is due when it is not registered, when its score on the chain is not above the least
  -- one, or when its operator is not the pool's.
  abbrev pub IsDue : WorkerInfo → Type 0
  IsDue w =
      (info.registered ≡ false)
      ⊎ (w.initial_score ≤ s.min_bench_score)
      ⊎ (w.operator ≢ operator_of s)

  abbrev pub registering : Bool → List Effect
  registering true = triggers_ra (operator_of s) ∷ registers s.pid ∷ []
  registering false = []

  abbrev pub adding : Bool → Option ℕ → List Effect
  adding true pool = []
  adding false none = adds s.pid info.public_key ∷ []
  adding false (some pool) = []

  -- What a registration is to do: a report and the transaction that registers the worker when this
  -- is forced or the worker is due, and the transaction that adds it to the pool when no pool has it
  -- and nothing is forced.
  abbrev pub IsWanted : Bool → Option ℕ → WorkerInfo → List Effect → Type 0
  IsWanted force pool w all =
      (((force ≡ true) ⊎ IsDue w) × (all ≡ registering true ++ adding force pool))
      ⊎ ((force ≡ false) × (¬ IsDue w) × (all ≡ adding force pool))

  due_or_forced :
      (force : Bool) (w : WorkerInfo)
      → (force ≡ true) ⊎ IsDue w
      → force || should_register s info c w ≡ true
  unfolding should_register
  due_or_forced force w (inl e) = ground arith
  due_or_forced force w (inr (inl e)) = ground arith
  due_or_forced force w (inr (inr (inl le))) = ground arith
  due_or_forced force w (inr (inr (inr ne))) = ground arith

  not_due : (w : WorkerInfo) → ¬ IsDue w → should_register s info c w ≡ false
  unfolding should_register
  not_due w n = elim (Bool-cases info.registered) [
    | inr e ↦ absurd (n (inl e))
    | inl e ↦ elim (Bool-cases (ltb s.min_bench_score w.initial_score)) [
      | inr f ↦ absurd (n (inr (inl (ground arith))))
      | inl f ↦ elim (Bool-cases (w.operator == operator_of s)) [
        | inr g ↦ absurd (n (inr (inr (ground arith))))
        | inl g ↦ ground arith
      ]
    ]
  ]

  wanted_lem :
      (force : Bool) (pool : Option ℕ) (w : WorkerInfo) (all : List Effect)
      → IsWanted force pool w all
      → all ≡ registering (force || should_register s info c w) ++ adding force pool
  wanted_lem force pool w all (inl (due, e)) = rw (due_or_forced force w due) e
  wanted_lem force pool w all (inr (f, n, e)) = rw (f, not_due w n) (e ∙ ap (λ b. adding b pool) f)

  -- An end at which all effects of a list have been had, or, with an error, the first of them.
  abbrev pub IsPart : List Effect → Outcome E × List Effect → Type 0
  IsPart all (done, log) = log ≡ all
  IsPart all (threw e, log) = (rest : List Effect) × (log ++ rest ≡ all)

  -- The look `k` at the score is the last: it fails, or the score is enough.
  abbrev pub IsLastLook : ℕ → Type 0
  IsLastLook k =
      ((e : E) × (c.scores k ≡ fails e))
      ⊎ ((score : ℕ) × (c.scores k ≡ ok score) × (ltb (min_score s info c) score ≡ true))

  done-IsPart : (log : List Effect) → IsPart log (done, log)
  done-IsPart log = refl

  threw-IsPart : (log rest : List Effect) (e : E) → IsPart (log ++ rest) (threw e, log)
  threw-IsPart log rest e = (rest, refl)

  add-IsPart :
      (log : List Effect) (a : Answer E Unit) → Settles (IsPart log) (after_add s info c log a)
  add-IsPart log (fails e) = ([], append-nil log)
  add-IsPart log (ok u) = done-IsPart log

  not_last :
      (i : ℕ) (score : ℕ)
      → c.scores i ≡ ok score
      → ltb (min_score s info c) score ≡ false
      → ¬ IsLastLook i
  not_last i score e f (inl (x, q)) = cc
  not_last i score e f (inr (n, q, more)) = let same : score ≡ n = ok_inj (sym e ∙ q) in cc

  look-IsPart :
      (again : ℕ → Done s info c) (log : List Effect) (i k : ℕ) (a : Answer E ℕ)
      → c.scores i ≡ a
      → IsLastLook k
      → i ≤ k
      → (suc i ≤ k → Settles (IsPart (log ++ (adds s.pid info.public_key ∷ []))) (again (i + 1)))
      → Settles
          (IsPart (log ++ (adds s.pid info.public_key ∷ [])))
          (after_score s info c again log i a)
  look-IsPart again log i k (fails e) q last le rest = threw-IsPart log _ e
  look-IsPart again log i k (ok score) q last le rest =
      if_cases (Settles (IsPart (log ++ (adds s.pid info.public_key ∷ []))))
        (ltb (min_score s info c) score)
        (λ t. add-IsPart (log ++ (adds s.pid info.public_key ∷ [])) c.add_tx)
        (λ t. elim (ℕ_discrete i k) [
          | yes e ↦ absurd (not_last i score q t (subst IsLastLook (sym e) last))
          | no n ↦ rest (omega arith)
        ])

  wait-IsPart :
      (fuel i k : ℕ) (log : List Effect)
      → IsLastLook k
      → i ≤ k
      → k < i + fuel
      → Settles
          (IsPart (log ++ (adds s.pid info.public_key ∷ [])))
          (wait_and_add s info c fuel log i)
  unfolding wait_and_add
  wait-IsPart zero i k log last le lt = absurd (omega arith)
  wait-IsPart (suc fuel) i k log last le lt =
      look-IsPart (wait_and_add s info c fuel log) log i k (c.scores i) refl last le
        (λ more. wait-IsPart fuel (i + 1) k log last (omega arith) (omega arith))

  add_if_free-IsPart :
      (fuel k : ℕ) (force : Bool) (pool : Option ℕ) (log : List Effect)
      → IsLastLook k
      → k < fuel
      → Settles (IsPart (log ++ adding force pool)) (add_if_free s info c fuel force pool log)
  add_if_free-IsPart fuel k true pool log last lt = sym (append-nil log)
  add_if_free-IsPart fuel k false none log last lt =
      wait-IsPart fuel 0 k log last (omega arith) (omega arith)
  add_if_free-IsPart fuel k false (some p) log last lt = sym (append-nil log)

  register-IsPart :
      (fuel k : ℕ) (force : Bool) (pool : Option ℕ) (a : Answer E Unit)
      → IsLastLook k
      → k < fuel
      → Settles
          (IsPart (registering true ++ adding force pool))
          (after_register s info c fuel force pool a)
  register-IsPart fuel k force pool (fails e) last lt =
      threw-IsPart (registering true) (adding force pool) e
  register-IsPart fuel k force pool (ok u) last lt = add_if_free-IsPart fuel k force pool _ last lt

  ra-IsPart :
      (fuel k : ℕ) (force : Bool) (pool : Option ℕ) (a : Answer E Unit)
      → IsLastLook k
      → k < fuel
      → Settles
          (IsPart (registering true ++ adding force pool))
          (after_ra s info c fuel force pool a)
  ra-IsPart fuel k force pool (fails e) last lt =
      threw-IsPart (triggers_ra (operator_of s) ∷ []) (registers s.pid ∷ adding force pool) e
  ra-IsPart fuel k force pool (ok u) last lt =
      register-IsPart fuel k force pool c.register_tx last lt

  worker-IsPart :
      (fuel k : ℕ) (force : Bool) (pool : Option ℕ) (w : WorkerInfo)
      → IsLastLook k
      → k < fuel
      → Settles
          (IsPart (registering (force || should_register s info c w) ++ adding force pool))
          (after_worker s info c fuel force pool (ok w))
  worker-IsPart fuel k force pool w last lt =
      elim (Bool-cases (force || should_register s info c w)) [
        | inl t ↦ rw t (ra-IsPart fuel k force pool c.ra_report last lt)
        | inr t ↦ rw t (add_if_free-IsPart fuel k force pool [] last lt)
      ]

  -- A worker that no other pool has is registered as wanted: its registration ends, when a look at
  -- its score fails or finds it to be enough, and what it has done to the outside is what is wanted,
  -- in that order, or, when it ends with an error, the first part of that. Wanted are a report and
  -- the registration, when they are forced, the worker is not registered, its score on the chain is
  -- not above the least one or its operator is not the pool's, and then, when nothing is forced and
  -- no pool has the worker, its addition to the pool.
  pub register_worker-IsPart :
      (fuel k : ℕ) (force : Bool) (pool : Option ℕ) (w : WorkerInfo) (all : List Effect)
      → IsWanted force pool w all
      → c.current_pool ≡ ok pool
      → is_other_pool s info c pool ≡ false
      → c.worker_info ≡ ok w
      → IsLastLook k
      → k < fuel
      → Settles (IsPart all) (register_worker s info c fuel force)
  unfolding register_worker
  register_worker-IsPart fuel k force pool w all want e f q last lt =
      let ends : Settles (IsPart all) (after_worker s info c fuel force pool (ok w)) =
        subst (λ l. Settles (IsPart l) (after_worker s info c fuel force pool (ok w)))
          (sym (wanted_lem force pool w all want)) (worker-IsPart fuel k force pool w last lt) in
      rw (e, f, q) ends
