-- ===== src/Runner/StateMachine/Actions/Course.antt =====
-- state_machine.js: the course of a worker whose steps succeed.
use runtime_bridge.Prelude.{
  ℕ, suc, ◌≡◌, refl, ap, ◌∙◌, append-nil, append_assoc, false, some, List, [], ◌∷◌, ◌++◌,
  if◌then◌else◌, ltb, inl, inr, Bool-cases,
}
use runtime_bridge.Runner.StateMachine.{
  s_starting, s_synching, s_synched, s_pre_active, s_active, should_start, should_mark_synching,
  should_mark_synched, should_mark_pre_active, should_mark_active, new_machine,
}
use runtime_bridge.Runner.StateMachine.Actions.{
  fulfilled, Effect, register, sync_messages, SessionState, worker_idle, unused,
  worker_unresponsive, worker_cooling_down, ready, start_computing, restart_computing, Answers,
  is_other_pool, is_cooling_down, is_computing, drive, starting, synching, synched_action,
  pre_active, emits, update_stake, start_worker, send, await,
}

-- The transactions of the last action, for each state of the session.
abbrev restarts : Answers → List Effect
restarts a = if ltb a.on_chain_stake a.stake then restart_computing a.stake ∷ [] else []

abbrev starts : Answers → List Effect
starts a = if a.skip_ra then [] else start_computing ∷ []

abbrev pub final_effects : SessionState → Answers → List Effect
final_effects worker_idle a = restarts a
final_effects unused a = restarts a
final_effects worker_unresponsive a = restarts a
final_effects worker_cooling_down a = starts a
final_effects ready a = starts a

module _ (a : Answers) (initialised : a.initialised ≡ fulfilled)
    (own_pool : is_other_pool a.pid a.assigned_pool ≡ false) (subscribed : a.subscribed ≡ fulfilled)
    (is_synched : a.synched ≡ fulfilled) (registered : a.registered ≡ fulfilled)
    (not_cooling : is_cooling_down a.session ≡ false) (not_sync_only : a.sync_only ≡ false)
    (mq_synched : a.mq_synched ≡ fulfilled) (restarted : a.restarted ≡ fulfilled)
    (gets_ready : a.gets_ready ≡ fulfilled) (started : a.started ≡ fulfilled) where
  starting_lem : starting a ≡ emits should_mark_synching
  unfolding starting
  starting_lem = rw (initialised, own_pool, subscribed)

  synching_lem : synching a ≡ emits should_mark_synched
  unfolding synching
  synching_lem = rw is_synched

  synched_action_lem : synched_action a ≡ record {
    effects = (if a.force_ra then register ∷ [] else []) ++ sync_messages ∷ [];
    event = some should_mark_pre_active;
  }
  unfolding synched_action
  synched_action_lem = elim (Bool-cases a.force_ra) [
    | inl e ↦ rw (e, registered, not_cooling, not_sync_only, mq_synched)
    | inr e ↦ rw (e, not_cooling, not_sync_only, mq_synched)
  ]

  update_stake_lem : update_stake a ≡ record {
    effects = if ltb a.on_chain_stake a.stake then restart_computing a.stake ∷ [] else [];
    event = some should_mark_active;
  }
  update_stake_lem = elim (Bool-cases (ltb a.on_chain_stake a.stake)) [
    | inl e ↦ rw (e, restarted)
    | inr e ↦ rw e
  ]

  start_worker_lem : start_worker a ≡ record {
    effects = if a.skip_ra then [] else start_computing ∷ [];
    event = some should_mark_active;
  }
  start_worker_lem = elim (Bool-cases a.skip_ra) [
    | inl e ↦ rw e
    | inr e ↦ rw (e, gets_ready, started)
  ]

  by_session :
      (x : SessionState)
      → (if is_computing x then update_stake a else start_worker a)
        ≡ record { effects = final_effects x a; event = some should_mark_active }
  by_session worker_idle = update_stake_lem
  by_session unused = update_stake_lem
  by_session worker_unresponsive = update_stake_lem
  by_session worker_cooling_down = start_worker_lem
  by_session ready = start_worker_lem

  pre_active_lem :
      pre_active a
      ≡ record { effects = register ∷ final_effects a.session a; event = some should_mark_active }
  unfolding pre_active
  pre_active_lem =
      ap
        (λ p.
          send register
            (await p (if is_computing a.session then update_stake a else start_worker a)))
        registered
      ∙ ap (send register) (by_session a.session)

  -- A worker that starts becomes active, on any fuel of five or more, when every promise that its
  -- actions await is fulfilled, its pool is free or its own, and it is neither cooling down nor in
  -- sync-only mode. It passes through each stage once. What its actions set going is, in order, a
  -- re-registration when that is forced, the synching of messages, a registration, and then, for a
  -- session that is idle, unused or unresponsive, a transaction that restarts computing if the stake
  -- is to grow, and for another one a transaction that starts computing unless the attestation is
  -- skipped. What the registrations and the synching of messages send is not told here.
  pub drive-s_active :
      (extra : ℕ)
      → drive (suc (suc (suc (suc (suc extra))))) a new_machine should_start ≡ (
        record {
          state = s_active;
          entered = s_starting ∷ s_synching ∷ s_synched ∷ s_pre_active ∷ s_active ∷ [];
        },
        (if a.force_ra then register ∷ [] else [])
            ++ sync_messages ∷ register ∷ final_effects a.session a,
      )
  unfolding drive
  drive-s_active extra =
      rw
        (
          starting_lem,
          synching_lem,
          synched_action_lem,
          pre_active_lem,
          append-nil (final_effects a.session a),
          append_assoc (if a.force_ra then register ∷ [] else []) (sync_messages ∷ [])
              (register ∷ final_effects a.session a),
        )
        refl
