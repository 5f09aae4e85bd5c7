-- ===== src/Runner/Runtime.antt =====
-- src/lifecycle/runner/pruntime.js: what is asked of a worker and of the chain before it synchs, and
-- the loop that keeps its information up to date. Each answer is a parameter; accounts, pools and
-- keys are numbers, the account of a pool's key pair is its owner's, and a score that the chain does
-- not have is 0.
pub mod Registration
pub mod Updates
pub mod Tests
use runtime_bridge.Prelude.{
  ℕ, zero, suc, ◌+◌, ◌==◌, Bool, true, false, not, ◌&&◌, ◌||◌, Option, none, some, List, [], ◌∷◌,
  ◌++◌, if◌then◌else◌, ltb,
}
use runtime_bridge.Iterate.{Outcome, done, threw}
use runtime_bridge.Runner.Sync.{Answer, ok, fails}

-- The fields of `runtimeInfo` that are read here.
pub record RuntimeInfo : Type 0 where
  pub initialized : Bool
  pub registered : Bool
  pub public_key : ℕ

-- `runtime` and its worker context.
pub record Setup : Type 0 where
  pub pid : ℕ
  pub is_proxy : Bool
  pub proxied_account : ℕ
  pub owner : ℕ
  pub min_bench_score : ℕ
  pub enforce_min_bench_score : Bool

-- The operator that a worker is to have: `encodedOperator` and the account that is compared.
abbrev pub operator_of : Setup → ℕ
operator_of s = if s.is_proxy then s.proxied_account else s.owner

-- The requests that `initRuntime` makes, with what they are given.
pub data Request : Type 0 where
  get_info get_runtime_info : Request
  init_runtime : ℕ → Option ℕ → Request  -- the operator, and `debugSetKey` with `skipRa`

abbrev pub init_request : Setup → Bool → ℕ → Request
init_request s skip_ra debug_set_key =
    init_runtime (operator_of s) (if skip_ra then some debug_set_key else none)

-- The requests in their order, and how they end; `init_info` is filled by an answer.
pub record Run (E : Type 0) : Type 0 where
  pub outcome : Outcome E
  pub requests : List Request
  pub init_info : Option ℕ

module _ {E : Type 0} where
  abbrev pub ended : Outcome E → List Request → Option ℕ → Run E
  ended o requests init_info = record { outcome = o; requests = requests; init_info = init_info }

  -- The second `updateInfo` of `initRuntime`.
  abbrev pub updates_again : Answer E RuntimeInfo → List Request → Option ℕ → Run E
  updates_again (fails e) requests init_info =
      ended (threw e) (requests ++ (get_info ∷ [])) init_info
  updates_again (ok info) requests init_info = ended done (requests ++ (get_info ∷ [])) init_info

  abbrev pub fills : Answer E RuntimeInfo → Answer E ℕ → List Request → Run E
  fills again (fails e) requests = ended (threw e) requests none
  fills again (ok report) requests = updates_again again requests (some report)

  abbrev pub after_info :
      Setup → Bool → ℕ → Answer E RuntimeInfo → Answer E RuntimeInfo → Answer E ℕ → Run E
  after_info s skip_ra key (fails e) again report = ended (threw e) (get_info ∷ []) none
  after_info s skip_ra key (ok info) again report =
      if info.initialized && info.registered
      then updates_again again (get_info ∷ []) none
      else if info.initialized
      then fills again report (get_info ∷ get_runtime_info ∷ [])
      else fills again report (get_info ∷ init_request s skip_ra key ∷ [])

  -- `initRuntime`, less the loop that it starts: the worker's two answers with its information and
  -- its answer with a report.
  unfoldable pub init_runtime_with :
      Setup → Bool → ℕ → Answer E RuntimeInfo → Answer E RuntimeInfo → Answer E ℕ → Run E
  init_runtime_with = after_info

  -- `updateInfoLoop`, on fuel: the answers of the worker and the flag `shouldStopUpdateInfo` over
  -- the rounds, the failures so far without a success between, and the round. It ends with the
  -- round of its end.
  abbrev pub after_update :
      (ℕ → ℕ → Option (Outcome E × ℕ))
      → Bool
      → ℕ
      → ℕ
      → Answer E RuntimeInfo
      → Option (Outcome E × ℕ)
  after_update again stop retries i (ok info) = if stop then some (done, i) else again 0 (i + 1)
  after_update again stop retries i (fails e) =
      if ltb 5 (retries + 1) then some (threw e, i) else again (retries + 1) (i + 1)

  unfoldable pub update_info_loop :
      (ℕ → Answer E RuntimeInfo) → (ℕ → Bool) → ℕ → ℕ → ℕ → Option (Outcome E × ℕ)
  update_info_loop answers stops zero retries i = none
  update_info_loop answers stops (suc fuel) retries i =
      after_update (update_info_loop answers stops fuel) (stops i) retries i (answers i)

-- `phalaRegistry.workers`
pub record WorkerInfo : Type 0 where
  pub initial_score : ℕ
  pub operator : ℕ

-- What `registerWorker` does to the outside.
pub data Effect : Type 0 where
  triggers_ra : ℕ → Effect  -- a report for the operator
  registers : ℕ → Effect  -- REGISTER_WORKER of the pool
  adds : ℕ → ℕ → Effect  -- ADD_WORKER of the pool, with the worker's key

-- What it awaits; `scores` are the looks at the worker's score while it waits for one.
pub record Chain (E : Type 0) : Type 0 where
  pub current_pool : Answer E (Option ℕ)
  pub worker_info : Answer E WorkerInfo
  pub ra_report : Answer E Unit
  pub register_tx : Answer E Unit
  pub scores : ℕ → Answer E ℕ
  pub add_tx : Answer E Unit
  pub other_pool : E  -- 'Worker is assigned to other pool!'

module _ {E : Type 0} (s : Setup) (info : RuntimeInfo) (c : Chain E) where
  abbrev pub Done : Type 0
  Done = Option (Outcome E × List Effect)

  abbrev pub is_other_pool : Option ℕ → Bool
  is_other_pool none = false
  is_other_pool (some pool) = not (pool == s.pid)

  unfoldable pub should_register : WorkerInfo → Bool
  should_register w =
      not info.registered
      || not (ltb s.min_bench_score w.initial_score)
      || not (w.operator == operator_of s)

  abbrev pub min_score : ℕ
  min_score = if s.enforce_min_bench_score then s.min_bench_score else 0

  abbrev pub after_add : List Effect → Answer E Unit → Done
  after_add log (fails e) = some (threw e, log)
  after_add log (ok u) = some (done, log)

  -- `waitUntilWorkerHasInitialScore`, on fuel, and ADD_WORKER.
  abbrev pub after_score : (ℕ → Done) → List Effect → ℕ → Answer E ℕ → Done
  after_score again log i (fails e) = some (threw e, log)
  after_score again log i (ok score) =
      if ltb min_score score
      then after_add (log ++ (adds s.pid info.public_key ∷ [])) c.add_tx
      else again (i + 1)

  unfoldable pub wait_and_add : ℕ → List Effect → ℕ → Done
  wait_and_add zero log i = none
  wait_and_add (suc fuel) log i = after_score (wait_and_add fuel log) log i (c.scores i)

  abbrev pub add_if_free : ℕ → Bool → Option ℕ → List Effect → Done
  add_if_free fuel true pool log = some (done, log)
  add_if_free fuel false none log = wait_and_add fuel log 0
  add_if_free fuel false (some pool) log = some (done, log)

  abbrev pub after_register : ℕ → Bool → Option ℕ → Answer E Unit → Done
  after_register fuel force pool (fails e) =
      some (threw e, triggers_ra (operator_of s) ∷ registers s.pid ∷ [])
  after_register fuel force pool (ok u) =
      add_if_free fuel force pool (triggers_ra (operator_of s) ∷ registers s.pid ∷ [])

  abbrev pub after_ra : ℕ → Bool → Option ℕ → Answer E Unit → Done
  after_ra fuel force pool (fails e) = some (threw e, triggers_ra (operator_of s) ∷ [])
  after_ra fuel force pool (ok u) = after_register fuel force pool c.register_tx

  abbrev pub after_worker : ℕ → Bool → Option ℕ → Answer E WorkerInfo → Done
  after_worker fuel force pool (fails e) = some (threw e, [])
  after_worker fuel force pool (ok w) =
      if force || should_register w
      then after_ra fuel force pool c.ra_report
      else add_if_free fuel force pool []

  abbrev pub after_pool : ℕ → Bool → Answer E (Option ℕ) → Done
  after_pool fuel force (fails e) = some (threw e, [])
  after_pool fuel force (ok pool) =
      if is_other_pool pool
      then some (threw c.other_pool, [])
      else after_worker fuel force pool c.worker_info

  -- `registerWorker`, with the effects that it had when it ends.
  unfoldable pub register_worker : ℕ → Bool → Done
  unfolding should_register wait_and_add
  register_worker fuel force_ra = after_pool fuel force_ra c.current_pool
