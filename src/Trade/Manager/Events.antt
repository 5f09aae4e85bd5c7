-- ===== src/Trade/Manager/Events.antt =====
-- trader_manager.js: what may happen to the manager, one event after another.
use runtime_bridge.Prelude.{none, List, [], ◌∷◌}
use runtime_bridge.Trade.Manager.{
  Entry, Manager, Message, Turn, trader_down, waiting, sent, down, handle_message, on_exit,
  add_batch, start_process,
}

-- What may happen to the manager.
pub data Event : Type 0 where
  message : Message → Event
  exit : Event
  add : Entry → Event  -- `#addBatch`, at a poll of `waitUntilUp`, with the batch as it is then
  restart : Event  -- `restartProcess`, after a rejected addition

abbrev pub after_turn : Manager → Turn → Manager
after_turn m trader_down = m
after_turn m waiting = m
after_turn m (sent m') = m'

unfoldable pub step : Event → Manager → Manager
unfolding handle_message on_exit add_batch start_process
step (message x) m = handle_message x m
step exit m = on_exit m
step (add e) m = after_turn m (add_batch e m)
step restart m = start_process m

unfoldable pub run_events : List Event → Manager → Manager
unfolding step
run_events [] m = m
run_events (e ∷ es) m = run_events es (step e m)

-- `new TraderManager(appContext)`, whose constructor starts the process.
unfoldable pub new_manager : Manager
unfolding start_process
new_manager = start_process (record {
  status = down;
  forks = 0;
  batch_jobs = λ id. none;
  current_batch_job_ids = [];
  active_batch_job_ids = [];
  current_error = none;
  outbox = [];
})
