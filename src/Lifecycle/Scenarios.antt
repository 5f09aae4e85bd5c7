-- ===== src/Lifecycle/Scenarios.antt =====
-- Three workers in two runners, both of which report.
use runtime_bridge.Prelude.{ℕ, ◌≡◌, refl, Option, none, some, List, [], ◌∷◌}
use runtime_bridge.Runner.Workers.Reports.{ContextView}
use runtime_bridge.Lifecycle.Manager.{chunks_from, worker_id_groups}
use runtime_bridge.Lifecycle.EndToEnd.{runner_of}

abbrev view : ℕ → Option ContextView
view id = some record {
  state_machine_state = 3;
  snapshot_brief = id;
  message = 0;
  runtime = none;
  on_chain_state = none;
}

abbrev events : List (ℕ × (ℕ → Option ContextView))
events = (1, view) ∷ (0, view) ∷ (1, view) ∷ []

abbrev ids : List ℕ
ids = 51 ∷ 52 ∷ 53 ∷ []

runner_of_53 : runner_of (worker_id_groups 2 ids) 53 ≡ 1
unfolding worker_id_groups chunks_from
runner_of_53 = refl
