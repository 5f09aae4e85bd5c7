-- ===== src/Runner/StateMachine/Actions.antt =====
-- state_machine.js: the actions of the transitions. A promise that an action awaits is fulfilled,
-- rejected or pending for ever, as `Answers` says; a rejection is handled as an ERROR event.
pub mod Course
use Prim.Native.String.{String}
use text.Mathlib.Text
use runtime_bridge.Prelude.{
  ℕ, zero, suc, Bool, true, false, Option, none, some, List, [], ◌∷◌, ◌++◌, if◌then◌else◌, not,
  ◌||◌, ltb, ◌==◌,
}
use runtime_bridge.Runner.StateMachine.{
  State, Event, should_mark_synching, should_mark_synched, should_mark_pre_active,
  should_mark_active, error_event, Action, on_starting, on_synching, on_synched, on_pre_active,
  on_active, on_error, on_kicked, Transition, Machine, move, find_transition, state_machine,
  state_code,
}

pub data Promised : Type 0 where
  fulfilled rejected pending : Promised

-- The state of the worker's session on chain.
pub data SessionState : Type 0 where
  worker_idle unused worker_unresponsive worker_cooling_down ready : SessionState

-- What the actions set going: calls of `registerWorker`, of `startSyncMessage` and of
-- `destroyWorkerContext`, which send what they send on their own, the request /kick, and the
-- transactions of the last action.
pub data Effect : Type 0 where
  register sync_messages destroy kick start_computing : Effect
  restart_computing : ℕ → Effect

pub record Answers : Type 0 where
  pub initialised : Promised  -- `initRuntime`
  pub pid : String
  pub assigned_pool : Option String
  pub subscribed : Promised
  pub synched : Promised
  pub force_ra : Bool
  pub registered : Promised
  pub sync_only : Bool  -- of the process, the pool or the worker
  pub mq_synched : Promised
  pub session : SessionState
  pub on_chain_stake : ℕ
  pub stake : ℕ
  pub restarted : Promised
  pub skip_ra : Bool
  pub gets_ready : Promised  -- `waitUntilWorkerReady`
  pub started : Promised

-- What an action has sent, and the event that it handles at its end.
pub record Outcome : Type 0 where
  pub effects : List Effect
  pub event : Option Event

abbrev pub emits : Event → Outcome
emits e = record { effects = []; event = some e }

abbrev pub nothing_more : Outcome
nothing_more = record { effects = []; event = none }

abbrev pub await : Promised → Outcome → Outcome
await fulfilled o = o
await rejected o = emits error_event
await pending o = nothing_more

abbrev pub send : Effect → Outcome → Outcome
send e o = record o { effects = e ∷ o.effects }

-- `currentPool.isSome && currentPool.toString() !== pid`
abbrev pub is_other_pool : String → Option String → Bool
is_other_pool pid none = false
is_other_pool pid (some p) = not (Text.◌==◌ p pid)

unfoldable pub starting : Answers → Outcome
starting a = await a.initialised (
    if is_other_pool a.pid a.assigned_pool
    then emits error_event
    else await a.subscribed (emits should_mark_synching))

unfoldable pub synching : Answers → Outcome
synching a = await a.synched (emits should_mark_synched)

abbrev pub is_cooling_down : SessionState → Bool
is_cooling_down worker_cooling_down = true
is_cooling_down _ = false

-- `onSynched` after the re-registration
abbrev pub after_force_ra : Answers → Outcome
after_force_ra a =
    if is_cooling_down a.session || a.sync_only
    then nothing_more
    else send sync_messages (await a.mq_synched (emits should_mark_pre_active))

unfoldable pub synched_action : Answers → Outcome
synched_action a =
    if a.force_ra then send register (await a.registered (after_force_ra a)) else after_force_ra a

-- `isWorkerIdle || isUnused || isWorkerUnresponsive`
abbrev pub is_computing : SessionState → Bool
is_computing worker_idle = true
is_computing unused = true
is_computing worker_unresponsive = true
is_computing _ = false

abbrev pub update_stake : Answers → Outcome
update_stake a =
    if ltb a.on_chain_stake a.stake
    then send (restart_computing a.stake) (await a.restarted (emits should_mark_active))
    else emits should_mark_active

abbrev pub start_worker : Answers → Outcome
start_worker a =
    if a.skip_ra
    then emits should_mark_active
    else await a.gets_ready (send start_computing (await a.started (emits should_mark_active)))

unfoldable pub pre_active : Answers → Outcome
pre_active a =
    send register
      (await a.registered (if is_computing a.session then update_stake a else start_worker a))

-- `onError` and `onKicked` do nothing more when the state stays the same.
abbrev pub stop : Bool → List Effect → Outcome
stop true es = nothing_more
stop false es = record { effects = es; event = none }

unfoldable pub run_action : Action → Bool → Answers → Outcome
unfolding starting synching synched_action pre_active
run_action on_starting same a = starting a
run_action on_synching same a = synching a
run_action on_synched same a = synched_action a
run_action on_pre_active same a = pre_active a
run_action on_active same a = nothing_more
run_action on_error same a = stop same (destroy ∷ [])
run_action on_kicked same a = stop same (destroy ∷ kick ∷ [])

-- An action's outcome is handled by the same machine, as `rest` does.
abbrev pub go_on : (Event → Machine × List Effect) → Machine → Outcome → Machine × List Effect
go_on rest m o = elim o.event [
  | none ↦ (m, o.effects)
  | some e ↦ ((rest e).0, o.effects ++ (rest e).1)
]

abbrev pub follow :
    (Machine → Event → Machine × List Effect)
    → Answers
    → Machine
    → Option Transition
    → Machine × List Effect
follow rest a m none = (m, [])
follow rest a m (some t) =
    let m' = move m (some t) in
    go_on (rest m') m' (run_action t.action (state_code m.state == state_code t.target) a)

-- An event with all that follows from it, on fuel, the number of transitions.
unfoldable pub drive : ℕ → Answers → Machine → Event → Machine × List Effect
unfolding run_action find_transition state_machine
drive zero a m e = (m, [])
drive (suc fuel) a m e =
    let rest = drive fuel a in follow rest a m (find_transition m.state e state_machine)
