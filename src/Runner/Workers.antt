-- ===== src/Runner/Workers.antt =====
-- src/lifecycle/runner/index.ts and worker.js: the contexts of the workers of one runner, from
-- startWorkers on, and the messages of the manager that restart or kick workers. Contexts are
-- references to a heap, since a restart that waits keeps the old one. Workers are named by the
-- numbers of their rows. The rows and what their on-chain subscriptions answer are parameters.
pub mod Lone
pub mod Reports
pub mod Status
pub mod Tests
use runtime_bridge.Prelude.{
  pick_at, put_at, ℕ, zero, suc, ◌+◌, ◌==◌, Bool, true, false, Option, none, some, List, [], ◌∷◌,
  ◌++◌, ltb, if◌then◌else◌,
}

-- `workerContext`: its row, `forceRa`, whether `destroyWorkerContext` told it to stop, and the events
-- that its state machine was given.
pub data MachineEvent : Type 0 where
  should_start should_kick : MachineEvent

pub record Context : Type 0 where
  pub row : ℕ
  pub force_ra : Bool
  pub told_to_stop : Bool
  pub events : List MachineEvent

-- A restart that waits for the old context's subscription to end.
pub record Restart : Type 0 where
  pub context : ℕ
  pub force_ra : Bool

-- `context.workers`, the heap, the restarts that wait, and whether the process has exited.
pub record Runner : Type 0 where
  pub workers : ℕ → Option ℕ
  pub heap : ℕ → Context
  pub next : ℕ
  pub pending : List Restart
  pub exited : Bool

abbrev pub no_context : Context
no_context = record { row = 0; force_ra = false; told_to_stop = true; events = [] }

abbrev pub new_runner : Runner
new_runner = record {
  workers = λ id. none;
  heap = λ c. no_context;
  next = 0;
  pending = [];
  exited = false;
}

abbrev pub bn_1pha : ℕ
bn_1pha = 1000000000000

-- `destroyWorkerContext(i, false)` up to its `await` clears a queue that has no other use here.
abbrev pub begin_restart : Bool → Option ℕ → Runner → Runner
begin_restart force none s = s
begin_restart force (some c) s = record s {
  pending = record { context = c; force_ra = force } ∷ s.pending;
}

-- `makeRunnerShouldRestartWorker` and `makeRunnerShouldRefreshRaAndRestartWorker`
unfoldable pub should_restart : Bool → List ℕ → Runner → Runner
should_restart force [] s = s
should_restart force (id ∷ ids) s = should_restart force ids (begin_restart force (s.workers id) s)

abbrev pub kicked : Context → Context
kicked c = record c { events = c.events ++ (should_kick ∷ []) }

abbrev pub kick : Option ℕ → Runner → Runner
kick none s = s
kick (some c) s = record s { heap = put_at c (kicked (s.heap c)) s.heap }

-- `makeRunnerShouldKickWorker`
unfoldable pub should_kick_workers : List ℕ → Runner → Runner
should_kick_workers [] s = s
should_kick_workers (id ∷ ids) s = should_kick_workers ids (kick (s.workers id) s)

abbrev pub stopped : Context → Context
stopped c = record c { told_to_stop = true }

-- The end of `destroyWorkerContext`
abbrev pub stop : ℕ → Runner → Runner
stop c s = record s { heap = put_at c (stopped (s.heap c)) s.heap }

-- An error of a restart is not caught by anyone; the worker then has its old context.
abbrev pub or_same : Runner → Option Runner → Runner
or_same s none = s
or_same s (some t) = t

-- The subscription cannot be ended, so the restart fails where it waits.
abbrev pub fail : Option (Restart × List Restart) → Runner → Runner
fail none s = s
fail (some (r, rest)) s = record s { pending = rest }

-- An error of `startWorkers` exits the process.
abbrev pub or_exit : Runner → Option Runner → Runner
or_exit s none = record s { exited = true }
or_exit s (some t) = t

-- A message of the manager, or a subscription that ends or fails to.
pub data Event : Type 0 where
  restarts : Bool → List ℕ → Event
  kicks : List ℕ → Event
  unsubscribed unsubscribe_fails : ℕ → Event

module _ (stake : ℕ → ℕ) where
  -- `createWorkerContext`, with the assignment of its result; `none` is its error for a low stake.
  unfoldable pub create : ℕ → Bool → Runner → Option Runner
  create row force s =
      if ltb (stake row) bn_1pha
      then none
      else some record s {
        workers = put_at row (some s.next) s.workers;
        heap =
            put_at s.next
              (record {
                row = row;
                force_ra = force;
                told_to_stop = false;
                events = should_start ∷ [];
              })
              s.heap;
        next = s.next + 1;
      }

  abbrev pub finish : Option (Restart × List Restart) → Runner → Runner
  finish none s = s
  finish (some (r, rest)) s =
      let t = stop r.context (record s { pending = rest }) in
      or_same t (create (s.heap r.context).row r.force_ra t)

  -- `startWorkers`, for the rows that it found.
  unfoldable pub start_workers : List ℕ → Runner → Runner
  unfolding create
  start_workers [] s = s
  start_workers (row ∷ rows) s = start_workers rows (or_exit s (create row false s))

  unfoldable pub handle : Event → Runner → Runner
  unfolding should_restart should_kick_workers create
  handle (restarts force ids) s = should_restart force ids s
  handle (kicks ids) s = should_kick_workers ids s
  handle (unsubscribed k) s = finish (pick_at k s.pending) s
  handle (unsubscribe_fails k) s = fail (pick_at k s.pending) s

  unfoldable pub run : List Event → Runner → Runner
  unfolding handle
  run [] s = s
  run (e ∷ es) s = run es (if s.exited then s else handle e s)
