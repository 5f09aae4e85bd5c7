-- ===== src/Trade/Manager/Tests.antt =====
-- trader_manager.js at a batch that was sent to the trader process.
use runtime_bridge.Prelude.{suc, ◌≡◌, some, List, [], ◌∷◌}
use runtime_bridge.Trade.PoolQueue.{Batch}
use runtime_bridge.Trade.Manager
use runtime_bridge.Trade.Manager.Events
use runtime_bridge.Trade.Manager.{Entry, Manager, pending}
use runtime_bridge.Trade.Manager.Events.{new_manager}
use runtime_bridge.Trade.Manager.Restart.{run-on_exit}
use runtime_bridge.Trade.Trader.{FailedCall}
use runtime_bridge.Trade.Tests.{first}

-- A batch that was sent to the trader process.
abbrev sent_batch : Batch
sent_batch = record {
  batch_id = "u0";
  jobs = first ∷ [];
  calls = first.calls;
  call_to_job_id = λ i. some "1";
}

abbrev entry : Entry
entry = record { batch = sent_batch; added = pending; started = pending; finished = pending }

abbrev adding : List Events.Event
adding = Events.message Manager.online ∷ Events.add entry ∷ []

abbrev manager : Manager
manager = Events.run_events adding new_manager

run-on_exit_example :
    Manager.on_exit manager
    ≡ record manager { status = Manager.starting; forks = suc manager.forks }
run-on_exit_example = run-on_exit adding

abbrev failed_call : FailedCall
failed_call = record { index = 0; reason = "mq.Late: too late" }

abbrev later : List Events.Event
later = Events.exit ∷ Events.message (Manager.failed_batch "u0" "gone") ∷ []

abbrev finished : Manager
finished =
    Events.run_events (Events.message (Manager.finished_batch "u0" (failed_call ∷ [])) ∷ later)
      manager
