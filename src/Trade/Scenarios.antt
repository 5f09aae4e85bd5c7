-- ===== src/Trade/Scenarios.antt =====
-- src/trade at concrete requests: from a request to its call, through the trader process and the
-- chain's events, to the result of each job.
use Prim.Native.String.{String}
use text.Mathlib.TextEquality.{eq_iff}
use runtime_bridge.Prelude.{
  ℕ, zero, suc, ◌≡◌, ◌≢◌, refl, true, false, Option, none, some, List, [], ◌∷◌, ◌++◌, arith, All,
  ◌>>=◌,
}
use runtime_bridge.Trade.Call.{
  Call, prop, args, string, to_text, record_call, replay, Api, replay-record_call,
}
use runtime_bridge.Trade.PoolQueue.{Job, run}
use runtime_bridge.Trade.Preprocess.{Request, preprocess}
use runtime_bridge.Trade.Trader.{
  Meta, module_error, item_completed, item_failed, other_event, proxy_executed,
  batch_completed_with_errors, in_block, TxResult, FailedCall, resolved, resolve_dispatch_error,
  join, on_result,
}
use runtime_bridge.Trade.Trader.Outcomes.{Outcome, failed_from, IsForceBatch}
use runtime_bridge.Trade.Verdict.{report_of, succeeded, tx_failed, job_result}
use runtime_bridge.Trade.Verdict.EndToEnd.{job_verdict}
use runtime_bridge.Trade.Retry.{Attempt, not_started, went_through}
use runtime_bridge.Trade.Trader.Process.{Nonce, undefined, number, Answers, run_events, new_trader}
use runtime_bridge.Trade.Trader.Process
use runtime_bridge.Trade.Trader.Process.Laws.{
  IsFresh, final_ids, count, nonces-IsFresh, run_events-final_ids,
}
use runtime_bridge.Trade.Tests.{call, first, second, history}

-- A registry of errors, and the three calls of the first batch: the middle one fails.
abbrev registry : ℕ → Meta
registry n = record { docs = some ("too" ∷ "late" ∷ []); name = "Late"; section = "mq" }

abbrev outcomes : List (Outcome ℕ)
outcomes = none ∷ some (module_error 4) ∷ none ∷ []

abbrev executed : TxResult ℕ
executed = record {
  status = in_block;
  dispatch_error = none;
  events =
      other_event
      ∷ item_completed
      ∷ item_failed (module_error 4)
      ∷ other_event
      ∷ item_completed
      ∷ batch_completed_with_errors
      ∷ proxy_executed none
      ∷ [];
}

executed-IsForceBatch : IsForceBatch registry true outcomes executed
unfolding on_result
executed-IsForceBatch = record {
  included = refl;
  dispatched = refl;
  proxied = λ e. refl;
  items = refl;
  with_errors = refl;
  completed = refl;
}

late_text : resolve_dispatch_error registry (module_error 4) ≡ "mq.Late: too late"
unfolding resolve_dispatch_error join
late_text = refl

two_ne_one : ◌≢◌ {A = String} "2" "1"
two_ne_one = ground (arith, eq_iff "2" "1")

job_verdict_example :
    (failed : List FailedCall) × (on_result registry true executed ≡ some (resolved failed))
    × (job_result "1" (report_of ((run "7" history).pool.heap 0) failed)
        ≡ tx_failed (resolve_dispatch_error registry (module_error 4)))
unfolding run
job_verdict_example =
    job_verdict registry "7" history 0 [] (second ∷ []) first true executed []
      (none ∷ some (module_error 4) ∷ []) (none ∷ []) refl tt (two_ne_one, tt) refl refl
      executed-IsForceBatch

-- The second job of the same batch, whose call went through.
second_succeeds :
    job_result "2" (report_of ((run "7" history).pool.heap 0) (failed_from registry 0 outcomes))
    ≡ succeeded
unfolding run job_result report_of resolve_dispatch_error
second_succeeds = refl

-- An API whose objects are the paths that lead to them.
abbrev paths : Api
paths = record {
  Node = Call;
  root = [];
  get = λ x p. some (x ++ prop p ∷ []);
  apply = λ x vs. some (x ++ args vs ∷ []);
}

replay-record_call_example :
    (record_call "tx" ("phalaMq" ∷ "a" ∷ []) (string "0x1" ∷ []) >>= replay paths [])
    ≡ some (call "a")
unfolding to_text
replay-record_call_example =
    replay-record_call paths "tx" ("phalaMq" ∷ "a" ∷ []) (string "0x1" ∷ []) ("0x1" ∷ []) refl

abbrev add_request : Request
add_request = record {
  id = "9";
  action = some "ADD_WORKER";
  payload = some (record {
    pid = some "7";
    messages = none;
    runtime_info = none;
    attestation = none;
    public_key = some "0xab";
    stake = none;
  });
}

abbrev add_job : Job
add_job = record {
  id = "9";
  pid = "7";
  calls =
      (prop "tx" ∷ prop "phalaStakePoolv2" ∷ prop "addWorker" ∷ args ("7" ∷ "0xab" ∷ []) ∷ []) ∷ [];
  should_retry = true;
}

abbrev no_codec : String → Option String → String
no_codec type_name v = "0x"

add_request_accepted : preprocess no_codec add_request ≡ some add_job
unfolding preprocess record_call
add_request_accepted = refl

-- The missing pid is not noticed: the request goes to the pool named "undefined".
abbrev no_pid : Request
no_pid = record {
  id = "9";
  action = some "BATCH_SYNC_MQ_MESSAGE";
  payload = some (record {
    pid = none;
    messages = some [];
    runtime_info = none;
    attestation = none;
    public_key = none;
    stake = none;
  });
}

no_pid_accepted :
    preprocess no_codec no_pid
    ≡ some (record { id = "9"; pid = "undefined"; calls = []; should_retry = false })
unfolding preprocess
no_pid_accepted = refl

-- The second attempt goes through.
abbrev attempts : ℕ → Attempt
attempts zero = not_started "down"
attempts (suc n) = went_through

-- Two batches of one pool: the first is sent with no nonce, the second with the chain's.
abbrev answers : Answers
answers = record { pool_id = some 7; formed = true; next_index = some 42; settled = resolved [] }

abbrev batches : List Process.Event
batches = Process.accept "u0" ∷ Process.process "u0" answers ∷ Process.process "u1" answers ∷ []

batches_run : (run_events batches new_trader).nonces_used ≡ undefined ∷ number 42 ∷ []
unfolding run_events new_trader
batches_run = refl

nonces-IsFresh_example : All (IsFresh (λ n. n ≡ 42)) (run_events batches new_trader).nonces_used
nonces-IsFresh_example = nonces-IsFresh (λ n. n ≡ 42) batches (refl, (refl, tt))

run_events-final_ids_example : count "u1" (final_ids (run_events batches new_trader).sent) ≡ 1
run_events-final_ids_example = run_events-final_ids batches "u1"
