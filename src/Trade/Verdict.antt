-- ===== src/Trade/Verdict.antt =====
-- How the failed calls of a batch become the result of each of its jobs: `#onBatchJobFinished` of
-- src/trade/trader_manager.js, and what `enqueue` of src/trade/bus.js returns.
pub mod EndToEnd
use Prim.Native.String.{String}
use mathlib.Core.Option
use text.Mathlib.Text.{◌==◌}
use runtime_bridge.Prelude.{
  ℕ, suc, Option, none, some, List, [], ◌∷◌, map, get_elem?, if◌then◌else◌, Bool, false,
}
use runtime_bridge.Trade.PoolQueue.{Batch}
use runtime_bridge.Trade.Trader.{FailedCall}

-- What `finishedPromise` resolves with.
pub record Report : Type 0 where
  pub indexes : List (Option String)
  pub reasons : List FailedCall

-- `failedCalls.map((i) => batch.callToJobId[i.index])`; a missing entry is undefined.
unfoldable pub report_of : Batch → List FailedCall → Report
report_of b failed = record {
  indexes = map (λ (f : FailedCall). b.call_to_job_id f.index) failed;
  reasons = failed;
}

abbrev pub is_id : String → Option String → Bool
is_id id none = false
is_id id (some j) = j == id

-- `indexes.indexOf(id)`, with -1 as `none`.
unfoldable pub index_of : String → List (Option String) → Option ℕ
index_of id [] = none
index_of id (o ∷ os) =
    let rest = Option.map suc (index_of id os) in if is_id id o then some 0 else rest

-- How `waitUntilFinished` of a job ends: it returns, throws the reason of a failed call, or fails
-- on `reasons[reasonId].reason` with no such entry.
pub data JobResult : Type 0 where
  succeeded broken : JobResult
  tx_failed : String → JobResult

abbrev pub reason_at : Option FailedCall → JobResult
reason_at none = broken
reason_at (some f) = tx_failed f.reason

-- The `if (reasonId > -1)`.
unfoldable pub result_at : Option ℕ → List FailedCall → JobResult
result_at none reasons = succeeded
result_at (some k) reasons = reason_at (get_elem? reasons k)

unfoldable pub job_result : String → Report → JobResult
unfolding index_of result_at
job_result id r = result_at (index_of id r.indexes) r.reasons
