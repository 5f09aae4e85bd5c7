-- ===== src/Trade/PoolQueue/Bounds.antt =====
-- bus.js, PoolQueue: how large a batch can grow.
use Prim.Native.String.{String}
use runtime_bridge.Prelude.{ℕ, ◌+◌, ◌≤◌, List, arith, length, length-append, ap}
use runtime_bridge.Trade.PoolQueue.{Job, Batch, Event, tx_batch_size, extend_batch, run}
use runtime_bridge.Trade.PoolQueue.Heap.{Arrivals, run-heap}
use runtime_bridge.Trade.PoolQueue.Owners.{extend_batch-calls}

extend_batch-bound :
    (k : ℕ) (job : Job) (b : Batch)
    → length job.calls ≤ k
    → length b.calls ≤ tx_batch_size
    → length (extend_batch job b).calls ≤ tx_batch_size + k
extend_batch-bound k job b h l =
    omega (arith, ap length (extend_batch-calls job b), length-append b.calls job.calls)

-- If no request has more than `k` calls, no batch ever has more than 100 + k: `TX_BATCH_SIZE` is
-- the size from which a batch takes no more requests, and the last one may overshoot it.
pub run-bound :
    (k : ℕ) (pid : String) (es : List Event)
    → Arrivals (λ (job : Job). length job.calls ≤ k) es
    → (r : ℕ) → length ((run pid es).pool.heap r).calls ≤ tx_batch_size + k
run-bound k =
    run-heap (λ b. length b.calls ≤ tx_batch_size + k) (λ (job : Job). length job.calls ≤ k)
      (λ uuid. omega arith) (λ job b h l p. extend_batch-bound k job b h l)
