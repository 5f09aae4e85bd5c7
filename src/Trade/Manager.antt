-- ===== src/Trade/Manager.antt =====
-- src/trade/trader_manager.js, `class TraderManager`: the trader process as a child, and the promises
-- of the batches that were sent to it. The process is the cluster's primary, so `#forkProcess`
-- does not throw. A promise settles once; later resolutions and rejections are ignored.
pub mod Events
pub mod Promises
pub mod Restart
pub mod Tests
use Prim.Native.String.{String}
use text.Mathlib.Text.{◌==◌}
use runtime_bridge.Prelude.{
  ℕ, suc, Bool, true, false, Option, none, some, List, [], ◌∷◌, ◌++◌, if◌then◌else◌,
}
use runtime_bridge.Trade.Call.{Call}
use runtime_bridge.Trade.PoolQueue.{Batch, Job}
use runtime_bridge.Trade.Trader.{FailedCall}
use runtime_bridge.Trade.Verdict.{Report, report_of}

pub data Promise (A : Type 0) : Type 0 where
  pending : Promise A
  resolved : A → Promise A
  rejected : Option String → Promise A  -- with an error or with undefined

abbrev pub settle : {A : Type 0} → Promise A → Promise A → Promise A
settle pending new = new
settle (resolved a) new = resolved a
settle (rejected e) new = rejected e

-- TM_DOWN, TM_STARTING, TM_UP_IDLE, TM_UP_WORKING, TM_ERROR
pub data Status : Type 0 where
  down starting up_idle up_working error : Status

-- A batch with its promises.
pub record Entry : Type 0 where
  pub batch : Batch
  pub added : Promise (Unit {0})
  pub started : Promise (Unit {0})
  pub finished : Promise Report

-- What is sent to the process: MA_ADD_BATCH.
pub record AddRequest : Type 0 where
  pub id : String
  pub pid : Option String
  pub calls : List Call

pub record Manager : Type 0 where
  pub status : Status
  pub forks : ℕ  -- the processes that were forked; the last one is #process
  pub batch_jobs : String → Option Entry
  pub current_batch_job_ids : List String
  pub active_batch_job_ids : List String
  pub current_error : Option String
  pub outbox : List AddRequest

abbrev pub set_entry : (String → Option Entry) → String → Entry → String → Option Entry
set_entry f id e j = if j == id then some e else f j

-- `this.#batchJobs[id]?.…`: an unknown id is ignored.
unfoldable pub change_entry : (Entry → Entry) → String → Option Entry → Manager → Manager
change_entry f id none m = m
change_entry f id (some e) m = record m { batch_jobs = set_entry m.batch_jobs id (f e) }

abbrev pub on_entry : (Entry → Entry) → String → Manager → Manager
on_entry f id m = change_entry f id (m.batch_jobs id) m

-- `#onBatchJobAdded`, `#onBatchJobRejected`, `#onBatchJobWorking`, `#onBatchJobFinished` and
-- `#onBatchJobFailed`, on the entry.
abbrev pub mark_added : Entry → Entry
mark_added e = record e { added = settle e.added (resolved tt) }

abbrev pub mark_rejected : Entry → Entry
mark_rejected e = record e { added = settle e.added (rejected none) }

abbrev pub mark_working : Entry → Entry
mark_working e = record e { started = settle e.started (resolved tt) }

abbrev pub mark_finished : List FailedCall → Entry → Entry
mark_finished failed e = record e {
  finished = settle e.finished (resolved (report_of e.batch failed));
}

abbrev pub mark_failed : String → Entry → Entry
mark_failed why e = record e {
  started = settle e.started (rejected (some why));
  finished = settle e.finished (rejected (some why));
}

-- A message of the process.
pub data Message : Type 0 where
  online : Message
  trader_error : String → Message
  added rejected_batch working : String → Message
  finished_batch : String → List FailedCall → Message
  failed_batch : String → String → Message
  unknown : Message

-- The `message` handler, with `#handleProcessMessage`.
unfoldable pub handle_message : Message → Manager → Manager
unfolding change_entry
handle_message online m = record m { status = up_idle }
handle_message (trader_error payload) m = record m { status = error; current_error = some payload }
handle_message (added id) m = on_entry mark_added id m
handle_message (rejected_batch id) m = on_entry mark_rejected id m
handle_message (working id) m = on_entry mark_working id m
handle_message (finished_batch id failed) m = on_entry (mark_finished failed) id m
handle_message (failed_batch id e) m = on_entry (mark_failed e) id m
handle_message unknown m = m

-- `isUp`, `isDown`
abbrev pub is_up : Status → Bool
is_up up_idle = true
is_up up_working = true
is_up _ = false

abbrev pub is_down : Status → Bool
is_down down = true
is_down error = true
is_down _ = false

-- `#startProcess` with `#forkProcess`, up to the wait at its end. `#stopProcess` does nothing, so
-- `restartProcess` is the same.
unfoldable pub start_from : Status → Manager → Manager
start_from starting m = m
start_from up_idle m = m
start_from up_working m = m
start_from _ m = record m { status = starting; forks = suc m.forks }

unfoldable pub start_process : Manager → Manager
unfolding start_from
start_process m = start_from m.status m

-- The loop of `#onProcessExited` over the active ids; `none` is the TypeError of a job that has no
-- `startedPromise__reject`, which no job has.
abbrev pub drop_head : String → List String → List String
drop_head id [] = []
drop_head id (c ∷ cs) = if c == id then cs else c ∷ cs

abbrev pub has_jobs : Option Entry → Bool
has_jobs none = false
has_jobs (some e) = elim e.batch.jobs [ [] ↦ false | j ∷ js ↦ true ]

unfoldable pub reject_active : List String → Manager → Option Manager
reject_active [] m = some m
reject_active (id ∷ ids) m =
    let rest =
      reject_active ids
        (record m { current_batch_job_ids = drop_head id m.current_batch_job_ids }) in
    if has_jobs (m.batch_jobs id) then none else rest

-- What follows the loop: the process is started again, unless it threw, which is only logged.
unfoldable pub after_exit : Manager → Option Manager → Manager
unfolding start_process
after_exit m none = m
after_exit m (some m') = start_process (record m' { active_batch_job_ids = [] })

-- The `exit` handler: the status becomes down, unless it shows an error.
abbrev pub exit_status : Status → Status
exit_status error = error
exit_status _ = down

unfoldable pub on_exit : Manager → Manager
unfolding reject_active after_exit
on_exit m =
    let m' : Manager = record m { status = exit_status m.status } in
    after_exit m' (reject_active m'.active_batch_job_ids m')

-- `batch.jobs[0].pid`
abbrev pub first_pid : List Job → Option String
first_pid [] = none
first_pid (j ∷ js) = some j.pid

-- The executor in `#addBatch`: a fresh added promise for the batch, with the promises that it has
-- by then, and it replaces what is there under its id.
abbrev pub renew : Entry → Entry
renew e = record e { added = pending }

unfoldable pub send_batch : Entry → Manager → Manager
send_batch e m = record m {
  batch_jobs = set_entry m.batch_jobs e.batch.batch_id (renew e);
  outbox =
      m.outbox
      ++ record { id = e.batch.batch_id; pid = first_pid e.batch.jobs; calls = e.batch.calls } ∷ [];
}

-- A turn of `#addBatch` behind `waitUntilUp`: it throws TraderDownError, waits, or sends.
pub data Turn : Type 0 where
  trader_down waiting : Turn
  sent : Manager → Turn

unfoldable pub add_batch : Entry → Manager → Turn
unfolding send_batch
add_batch e m =
    if is_down m.status
    then trader_down
    else if is_up m.status
    then sent (send_batch e m)
    else waiting
