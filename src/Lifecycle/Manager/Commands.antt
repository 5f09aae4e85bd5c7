-- ===== src/Lifecycle/Manager/Commands.antt =====
-- ptp/lifecycle.ts: the requests of an operator reach the runners of the workers.
use runtime_bridge.Runner.Workers.Reports.{WorkerState}
use runtime_bridge.Prelude.{
  ℕ, ◌≡◌, refl, sym, ap, ◌∙◌, ◌==◌, Bool, true, Option, none, some, some_inj, none-some, List, [],
  ◌∷◌, map, All, if◌then◌else◌, if_cases, arith,
}
use runtime_bridge.Lifecycle.Manager.{
  WorkerMeta, Command, Sent, states, Workers, merged, update_worker_info, reported, first_missing,
  states_of, send_all, handle_command,
}

abbrev pub to_owner : (ℕ → ℕ) → Command → ℕ → Sent
to_owner owner command id = record { runner = owner id; command = command; worker = id }

first_missing-none :
    (exists : ℕ → Bool) (ids : List ℕ)
    → All (λ id. exists id ≡ true) ids
    → first_missing exists ids ≡ none
first_missing-none exists [] h = refl
first_missing-none exists (id ∷ ids) h = rw (h.0) (first_missing-none exists ids h.1)

module _ (owner : ℕ → ℕ) where
  -- A worker that is known belongs to its owner, and so does one that a runner reports.
  IsOwned : Workers WorkerState → Type 0
  IsOwned workers =
      (id : ℕ) (m : WorkerMeta WorkerState) → workers id ≡ some m → m.runner ≡ owner id

  abbrev pub IsOwn : ℕ × List (ℕ × WorkerState) → Type 0
  IsOwn (runner, infos) = All (λ (i : ℕ × WorkerState). runner ≡ owner i.0) infos

  merged-runner :
      (runner id : ℕ) (state : WorkerState) (o : Option (WorkerMeta WorkerState))
      → runner ≡ owner id
      → ((m : WorkerMeta WorkerState) → o ≡ some m → m.runner ≡ owner id)
      → (merged runner state o).runner ≡ owner id
  merged-runner runner id state none e h = e
  merged-runner runner id state (some m) e h = h m refl

  at-IsOwned :
      (runner id : ℕ) (state : WorkerState) (workers : Workers WorkerState)
      → runner ≡ owner id
      → IsOwned workers
      → IsOwned (λ i. if i == id then some (merged runner state (workers id)) else workers i)
  unfolding IsOwned
  at-IsOwned runner id state workers e h i m =
      if_cases (λ (o : Option (WorkerMeta WorkerState)). o ≡ some m → m.runner ≡ owner i) (i == id)
        (λ t q.
          let same : i ≡ id = ground arith in
          ap (λ (x : WorkerMeta WorkerState). x.runner) (sym (some_inj q))
          ∙ merged-runner runner id state (workers id) e (h id)
          ∙ ap owner (sym same))
        (λ t q. h i m q)

  update-IsOwned :
      (runner : ℕ) (infos : List (ℕ × WorkerState)) (workers : Workers WorkerState)
      → IsOwn (runner, infos)
      → IsOwned workers
      → IsOwned (update_worker_info runner infos workers)
  unfolding update_worker_info
  update-IsOwned runner [] workers o h = h
  update-IsOwned runner ((id, state) ∷ infos) workers o h =
      update-IsOwned runner infos _ o.1 (at-IsOwned runner id state workers o.0 h)

  reported-IsOwned :
      (reports : List (ℕ × List (ℕ × WorkerState))) (workers : Workers WorkerState)
      → All IsOwn reports
      → IsOwned workers
      → IsOwned (reported reports workers)
  unfolding reported
  reported-IsOwned [] workers o h = h
  reported-IsOwned ((runner, infos) ∷ reports) workers o h =
      reported-IsOwned reports _ o.1 (update-IsOwned runner infos workers o.0 h)

  abbrev pub IsKnown : Workers WorkerState → ℕ → Type 0
  IsKnown workers id = (m : WorkerMeta WorkerState) × (workers id ≡ some m)

  send_all-owner :
      (command : Command) (workers : Workers WorkerState) (ids : List ℕ)
      → IsOwned workers
      → All (IsKnown workers) ids
      → send_all command workers ids ≡ (true, map (to_owner owner command) ids)
  unfolding send_all IsOwned
  send_all-owner command workers [] h k = refl
  send_all-owner command workers (id ∷ ids) h k =
      rw (k.0.1, send_all-owner command workers ids h k.1, h id k.0.0 k.0.1) refl

  -- When each worker is reported by its own runner only, a request for workers that the database has
  -- and that were reported sends each of them one message, in their order, to its own runner, and is
  -- answered with their states.
  pub handle_command-owner :
      (command : Command) (exists : ℕ → Bool) (reports : List (ℕ × List (ℕ × WorkerState)))
      (ids : List ℕ)
      → All IsOwn reports
      → All (λ id. exists id ≡ true) ids
      → All (IsKnown (reported reports (λ id. none))) ids
      → handle_command command exists (reported reports (λ id. none)) ids
        ≡ (states (states_of (reported reports (λ id. none)) ids), map (to_owner owner command) ids)
  unfolding handle_command IsOwned
  handle_command-owner command exists reports ids own there known =
      rw
        (
          first_missing-none exists ids there,
          send_all-owner command (reported reports (λ id. none)) ids
              (reported-IsOwned reports (λ id. none) own (λ id m e. absurd (none-some e))) known,
        )
        refl
