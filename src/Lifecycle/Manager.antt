-- ===== src/Lifecycle/Manager.antt =====
-- src/lifecycle/runner_manager.ts and ptp/lifecycle.ts: how workers are shared out among runners, and
-- how the requests of an operator reach them. The ids of workers and of runners are numbers; what a
-- worker reports is a parameter.
pub mod Chunks
pub mod Commands
pub mod Tests
use runtime_bridge.Runner.Workers.Reports.{WorkerState}
use Prim.Native.Nat.{◌/◌}
use runtime_bridge.Prelude.{
  ℕ, zero, suc, ◌+◌, ◌==◌, Bool, true, false, Option, none, some, List, [], ◌∷◌, ◌++◌,
  if◌then◌else◌,
}

module _ {ℓ} {A : Type ℓ} where
  -- `resultArray[chunkIndex].push(item)`, where a chunk that is missing is started; what is skipped
  -- is empty.
  abbrev pub push_at : ℕ → A → List (List A) → List (List A)
  push_at zero x [] = (x ∷ []) ∷ []
  push_at zero x (c ∷ cs) = (c ++ (x ∷ [])) ∷ cs
  push_at (suc i) x [] = [] ∷ push_at i x []
  push_at (suc i) x (c ∷ cs) = c ∷ push_at i x cs

  -- The `reduce` over the ids.
  unfoldable pub chunks_from : ℕ → ℕ → List (List A) → List A → List (List A)
  chunks_from per_chunk index chunks [] = chunks
  chunks_from per_chunk index chunks (x ∷ xs) =
      chunks_from per_chunk (index + 1) (push_at (index / per_chunk) x chunks) xs

  abbrev pub not_empty : List (List A) → List (List A)
  not_empty [] = []
  not_empty ([] ∷ cs) = not_empty cs
  not_empty ((x ∷ xs) ∷ cs) = (x ∷ xs) ∷ not_empty cs

  -- `workerIdGroups`
  unfoldable pub worker_id_groups : ℕ → List A → List (List A)
  unfolding chunks_from
  worker_id_groups per_chunk ids = not_empty (chunks_from per_chunk 0 [] ids)

-- `context.workers[id]`, with the runner that reports for the worker.
pub record WorkerMeta (State : Type 0) : Type 0 where
  pub runner : ℕ
  pub state : State

-- The requests of an operator, and the messages that they send to the runners.
pub data Command : Type 0 where
  restart refresh_ra_and_restart kick : Command

pub record Sent : Type 0 where
  pub runner : ℕ
  pub command : Command
  pub worker : ℕ

pub data Response (State : Type 0) : Type 0 where
  states : List (Option State) → Response State
  not_found : ℕ → Response State
  type_error : Response State

abbrev pub Workers : Type 0 → Type 0
Workers State = ℕ → Option (WorkerMeta State)

-- The look-ups of `Worker.findByPk`: the first id that is not there.
abbrev pub first_missing : (ℕ → Bool) → List ℕ → Option ℕ
first_missing exists [] = none
first_missing exists (id ∷ ids) = if exists id then first_missing exists ids else some id

-- A message is sent before the others.
abbrev pub after_send : Sent → Bool × List Sent → Bool × List Sent
after_send s (sound, sent) = (sound, s ∷ sent)

-- `Object.assign` of a field: one that is undefined is not in the JSON of a message.
abbrev pub or_older : {A : Type 0} → Option A → Option A → Option A
or_older old none = old
or_older old (some new) = some new

abbrev pub assign : WorkerState → WorkerState → WorkerState
assign old new = record {
  status = or_older old.status new.status;
  initialized = or_older old.initialized new.initialized;
  parent_header_synched_to = or_older old.parent_header_synched_to new.parent_header_synched_to;
  para_header_synched_to = or_older old.para_header_synched_to new.para_header_synched_to;
  para_block_dispatched_to = or_older old.para_block_dispatched_to new.para_block_dispatched_to;
  worker = or_older old.worker new.worker;
  public_key = or_older old.public_key new.public_key;
  last_message = or_older old.last_message new.last_message;
  worker_account_id = or_older old.worker_account_id new.worker_account_id;
  session_info = or_older old.session_info new.session_info;
}

-- `managerShouldUpdateWorkerInfo`, for one worker: one that is known keeps its runner. The status
-- is set each time, also when it is undefined.
abbrev pub merged : ℕ → WorkerState → Option (WorkerMeta WorkerState) → WorkerMeta WorkerState
merged runner state none = record { runner = runner; state = state }
merged runner state (some m) = record {
  runner = m.runner;
  state = record (assign m.state state) { status = state.status };
}

unfoldable pub update_worker_info :
    ℕ → List (ℕ × WorkerState) → Workers WorkerState → Workers WorkerState
update_worker_info runner [] workers = workers
update_worker_info runner ((id, state) ∷ infos) workers =
    update_worker_info runner infos
      (λ i. if i == id then some (merged runner state (workers id)) else workers i)

-- All reports so far, each of a runner.
unfoldable pub reported :
    List (ℕ × List (ℕ × WorkerState)) → Workers WorkerState → Workers WorkerState
unfolding update_worker_info
reported [] workers = workers
reported ((runner, infos) ∷ reports) workers =
    reported reports (update_worker_info runner infos workers)

module _ {State : Type 0} where
  abbrev pub states_of : Workers State → List ℕ → List (Option State)
  states_of workers [] = []
  states_of workers (id ∷ ids) =
      elim (workers id) [ none ↦ none | some m ↦ some m.state ] ∷ states_of workers ids

  -- One message, before the rest: a worker that no runner has reported yet is a TypeError.
  abbrev pub send_to : Command → ℕ → Bool × List Sent → Option (WorkerMeta State) → Bool × List Sent
  send_to command id rest none = (false, [])
  send_to command id rest (some m) =
      after_send (record { runner = m.runner; command = command; worker = id }) rest

  unfoldable pub send_all : Command → Workers State → List ℕ → Bool × List Sent
  send_all command workers [] = (true, [])
  send_all command workers (id ∷ ids) =
      send_to command id (send_all command workers ids) (workers id)

  abbrev pub respond : Workers State → List ℕ → Bool × List Sent → Response State × List Sent
  respond workers ids (true, sent) = (states (states_of workers ids), sent)
  respond workers ids (false, sent) = (type_error, sent)

  -- The error for an id that is not there comes before any message.
  abbrev pub unless_missing : Option ℕ → Response State × List Sent → Response State × List Sent
  unless_missing none answer = answer
  unless_missing (some id) answer = (not_found id, [])

  -- `RestartWorker`, `RefreshRaAndRestartWorker` and `KickWorker`
  unfoldable pub handle_command :
      Command → (ℕ → Bool) → Workers State → List ℕ → Response State × List Sent
  unfolding send_all
  handle_command command exists workers ids =
      unless_missing (first_missing exists ids) (respond workers ids (send_all command workers ids))
