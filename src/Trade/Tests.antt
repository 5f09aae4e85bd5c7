-- ===== src/Trade/Tests.antt =====
-- src/trade at concrete requests: two jobs in one batch, of which one has a failing call.
use Prim.Native.String.{String}
use runtime_bridge.Prelude.{◌≡◌, refl, true, false, some, List, [], ◌∷◌, ◌++◌}
use runtime_bridge.Trade.Call.{Call, prop, args}
use runtime_bridge.Trade.PoolQueue.{Job, Event, arrive, fire, take, run}
use runtime_bridge.Trade.PoolQueue.Invariant.{IsValid, run-IsValid, held}
use runtime_bridge.Trade.PoolQueue.Owners.{IsIndexed, run-IsIndexed}
use runtime_bridge.Trade.PoolQueue.Fifo.{jobs_at, run-fifo}

abbrev pub call : String → Call
call method = prop "tx" ∷ prop "phalaMq" ∷ prop method ∷ args ("0x1" ∷ []) ∷ []

abbrev pub first : Job
first = record { id = "1"; pid = "7"; calls = call "a" ∷ call "b" ∷ []; should_retry = false }

abbrev pub second : Job
second = record { id = "2"; pid = "7"; calls = call "c" ∷ []; should_retry = true }

abbrev pub history : List Event
history =
    arrive "u0" first ∷ arrive "u1" second ∷ fire 0 ∷ fire 0 ∷ take ∷ arrive "u2" first ∷ take ∷ []

history_runs :
    let s = run "7" history in
    (s.sent ≡ 0 ∷ []) × (s.pool.queue ≡ []) × (s.pool.current_batch ≡ some 1)
unfolding run
history_runs = (refl, refl, refl)

run-IsValid_example : IsValid (run "7" history)
run-IsValid_example = run-IsValid "7" history

run-IsIndexed_example : IsIndexed ((run "7" history).pool.heap 0)
run-IsIndexed_example = run-IsIndexed "7" history 0

run-fifo_example :
    let s = run "7" history in
    jobs_at s.pool.heap (s.sent ++ (s.pool.queue ++ held s.pool.current_batch))
    ≡ first ∷ second ∷ first ∷ []
run-fifo_example = run-fifo "7" history
