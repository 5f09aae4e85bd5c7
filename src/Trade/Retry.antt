-- ===== src/Trade/Retry.antt =====
-- src/trade/bus.js, the handler of the input queue: the life of one request, with its retries.
-- What an attempt meets, the batch's start and its end, is a parameter: the k-th call of
-- `processJob` meets `attempt k`. Reports to the queue are taken to go through.
pub mod Attempts
use Prim.Native.String.{String}
use runtime_bridge.Prelude.{
  ℕ, zero, suc, ◌+◌, Bool, Option, none, some, List, [], ◌∷◌, ◌++◌, if◌then◌else◌, ◌⊎◌, inl, inr,
}
use runtime_bridge.Trade.PoolQueue.{Job}

-- The constants RP_….
pub data Progress : Type 0 where
  init preprocessed should_retry working failed finished : Progress

-- The batch's start is rejected, its end is rejected or names a failed call of the job, or the job
-- went through.
pub data Attempt : Type 0 where
  not_started : String → Attempt
  not_finished : String → Attempt
  went_through : Attempt

-- What was reported, and the error that the handler throws, if it does.
pub record Handled : Type 0 where
  pub reports : List Progress
  pub error : Option String

abbrev pub tx_retry_times : ℕ
tx_retry_times = 3

abbrev pub report_first : List Progress → Handled → Handled
report_first ps h = record h { reports = ps ++ h.reports }

-- `rescueJob`, with what a further attempt gives.
unfoldable pub rescue_job : (ℕ → Handled) → ℕ → String → Handled
rescue_job again zero e = record { reports = failed ∷ []; error = some e }
rescue_job again (suc remaining) e = report_first (should_retry ∷ []) (again remaining)

-- `processJob` and the `catch` behind it, for one attempt.
unfoldable pub after_attempt : (ℕ → Handled) → ℕ → Attempt → Handled
unfolding rescue_job
after_attempt again remaining (not_started e) = rescue_job again remaining e
after_attempt again remaining (not_finished e) =
    report_first (working ∷ []) (rescue_job again remaining e)
after_attempt again remaining went_through = record {
  reports = working ∷ finished ∷ [];
  error = none;
}

-- With no retries left, `rescueJob` makes no further attempt.
abbrev pub no_more : ℕ → Handled
no_more r = record { reports = []; error = none }

-- `processJob().catch(rescueJob)`: a retry lowers `remainingRetries` and meets the next attempt.
unfoldable pub process_job : ℕ → (ℕ → Attempt) → Handled
unfolding after_attempt
process_job zero attempt = after_attempt no_more zero (attempt 0)
process_job (suc remaining) attempt =
    let rest = process_job remaining (λ i. attempt (suc i)) in
    after_attempt (λ r. rest) (suc remaining) (attempt 0)

abbrev pub retries_of : Job → ℕ
retries_of job = if job.should_retry then tx_retry_times else 0

-- The handler, given what `preprocess` returned or threw.
unfoldable pub handle_request : (ℕ → Attempt) → String ⊎ Job → Handled
unfolding process_job
handle_request attempt (inl e) = record { reports = init ∷ []; error = some e }
handle_request attempt (inr job) =
    report_first (init ∷ preprocessed ∷ []) (process_job (retries_of job) attempt)
