-- ===== src/Lifecycle/EndToEnd.antt =====
-- runner_manager.ts, runner/worker.js and ptp/lifecycle.ts together: the workers are shared out among
-- runners, the runners report, in any order and as often as they like, and an operator's request
-- goes to the runners. A runner is named by the index of its group.
use runtime_bridge.Prelude.{ℕ, zero, suc, ◌+◌, Option, List, [], ◌∷◌, has, if◌then◌else◌}
use runtime_bridge.Runner.Workers.Reports.{ContextView, WorkerState, get_worker_states}

-- `runnerMeta.workerIds`
abbrev pub group_of : List (List ℕ) → ℕ → List ℕ
group_of [] k = []
group_of (g ∷ gs) zero = g
group_of (g ∷ gs) (suc k) = group_of gs k

-- A runner reports, with the contexts that it has then.
abbrev pub reports_of :
    List (List ℕ) → List (ℕ × (ℕ → Option ContextView)) → List (ℕ × List (ℕ × WorkerState))
reports_of groups [] = []
reports_of groups ((k, workers) ∷ rest) =
    (k, get_worker_states (group_of groups k) workers) ∷ reports_of groups rest

-- The runner whose group has the worker.
abbrev pub runner_from : ℕ → List (List ℕ) → ℕ → ℕ
runner_from k [] id = k
runner_from k (g ∷ gs) id = if has id g then k else runner_from (k + 1) gs id

abbrev pub runner_of : List (List ℕ) → ℕ → ℕ
runner_of = runner_from 0
