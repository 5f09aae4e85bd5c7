-- ===== src/Lifecycle/Manager/Tests.antt =====
-- The lifecycle manager with three workers and two runners.
use runtime_bridge.Prelude.{
  ℕ, ◌≡◌, refl, true, Option, none, some, List, [], ◌∷◌, All, leb, if◌then◌else◌, arith,
}
use runtime_bridge.Runner.Workers.Reports.{WorkerState}
use runtime_bridge.Lifecycle.Manager.{
  states_of, kick, type_error, update_worker_info, reported, send_all, handle_command, chunks_from,
  worker_id_groups,
}
use runtime_bridge.Lifecycle.Manager.Chunks.{join, IsChunk, worker_id_groups-IsChunk}

abbrev ids : List ℕ
ids = 1 ∷ 2 ∷ 3 ∷ []

worker_id_groups-IsChunk_example :
    (join (worker_id_groups 2 ids) ≡ ids) × All (IsChunk 2 (omega arith)) (worker_id_groups 2 ids)
worker_id_groups-IsChunk_example = worker_id_groups-IsChunk 2 (omega arith) ids

groups_of_two : worker_id_groups 2 ids ≡ (1 ∷ 2 ∷ []) ∷ (3 ∷ []) ∷ []
unfolding worker_id_groups chunks_from
groups_of_two = refl

-- Runner 8 has the first two workers, and runner 9 the third.
abbrev owner : ℕ → ℕ
owner id = if leb id 2 then 8 else 9

abbrev saying : Option ℕ → WorkerState
saying message = record {
  status = some 3;
  initialized = none;
  parent_header_synched_to = none;
  para_header_synched_to = none;
  para_block_dispatched_to = none;
  worker = none;
  public_key = none;
  last_message = message;
  worker_account_id = none;
  session_info = none;
}

abbrev reports : List (ℕ × List (ℕ × WorkerState))
reports =
    (8, (1, saying (some 100)) ∷ (2, saying (some 200)) ∷ [])
    ∷ (9, (3, saying none) ∷ [])
    ∷ (8, (1, saying none) ∷ [])
    ∷ []

-- A field that a report lacks keeps its last value.
message_stays :
    states_of (reported reports (λ id. none)) (1 ∷ 3 ∷ 4 ∷ [])
    ≡ some (saying (some 100)) ∷ some (saying none) ∷ none ∷ []
unfolding reported update_worker_info
message_stays = refl

-- A worker that was never reported: the message before it is sent, and the request fails.
sends_before_type_error :
    handle_command kick (λ id. true) (reported reports (λ id. none)) (1 ∷ 4 ∷ 3 ∷ [])
    ≡ (type_error, record { runner = 8; command = kick; worker = 1 } ∷ [])
unfolding handle_command send_all reported update_worker_info
sends_before_type_error = refl
