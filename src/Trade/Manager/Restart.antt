-- ===== src/Trade/Manager/Restart.antt =====
-- trader_manager.js: the trader process as it is seen, and what an exit of it does.
use runtime_bridge.Prelude.{suc, ◌≡◌, List, [], ◌∷◌, arith, ◌≢◌}
use runtime_bridge.Trade.Manager.{
  down, starting, up_working, Manager, Message, handle_message, start_process, on_exit, online,
  trader_error, added, rejected_batch, working, finished_batch, failed_batch, unknown,
}
use runtime_bridge.Trade.Manager.Events.{
  Event, message, exit, add, restart, step, run_events, new_manager,
}

-- The process is never seen as down or working, and no batch is ever noted as active or current.
pub record IsRunning (m : Manager) : Type 0 where
  pub not_down : m.status ≢ down
  pub not_working : m.status ≢ up_working
  pub no_active : m.active_batch_job_ids ≡ []
  pub no_current : m.current_batch_job_ids ≡ []

handle_message-IsRunning :
    (x : Message) (m : Manager) → IsRunning m → IsRunning (handle_message x m)
unfolding handle_message
handle_message-IsRunning online m v = ground arith
handle_message-IsRunning (trader_error p) m v = ground arith
handle_message-IsRunning (added id) m v = ground arith
handle_message-IsRunning (rejected_batch id) m v = ground arith
handle_message-IsRunning (working id) m v = ground arith
handle_message-IsRunning (finished_batch id f) m v = ground arith
handle_message-IsRunning (failed_batch id e) m v = ground arith
handle_message-IsRunning unknown m v = v

start_process-IsRunning :
    (m : Manager)
    → m.status ≢ up_working
    → m.active_batch_job_ids ≡ []
    → m.current_batch_job_ids ≡ []
    → IsRunning (start_process m)
unfolding start_process
start_process-IsRunning m w a c = ground arith

on_exit-restarts :
    (m : Manager) → IsRunning m → on_exit m ≡ record m { status = starting; forks = suc m.forks }
unfolding on_exit
on_exit-restarts m v = ground arith

step-IsRunning : (e : Event) (m : Manager) → IsRunning m → IsRunning (step e m)
unfolding step
step-IsRunning (message x) m v = handle_message-IsRunning x m v
step-IsRunning exit m v = ground (arith, on_exit-restarts m v)
step-IsRunning (add b) m v = ground arith
step-IsRunning restart m v = start_process-IsRunning m v.not_working v.no_active v.no_current

run_events-IsRunning : (es : List Event) (m : Manager) → IsRunning m → IsRunning (run_events es m)
unfolding run_events
run_events-IsRunning [] m v = v
run_events-IsRunning (e ∷ es) m v = run_events-IsRunning es (step e m) (step-IsRunning e m v)

new_manager-IsRunning : IsRunning new_manager
unfolding new_manager
new_manager-IsRunning = ground arith

-- Whatever happened before, an exit of the trader process starts a new one and does nothing else:
-- every promise of a batch that was sent to the old process stays as it is, and nothing is sent
-- again.
pub run-on_exit :
    (es : List Event)
    → let m = run_events es new_manager in
      on_exit m ≡ record m { status = starting; forks = suc m.forks }
run-on_exit es = on_exit-restarts _ (run_events-IsRunning es new_manager new_manager-IsRunning)
