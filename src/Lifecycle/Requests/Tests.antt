-- ===== src/Lifecycle/Requests/Tests.antt =====
-- The requests of ptp/db.ts on a small database, with a client that keeps lists of rows.
use runtime_bridge.Prelude.{
  ℕ, ◌+◌, ◌==◌, ◌≡◌, refl, Bool, true, false, Option, none, some, List, [], ◌∷◌, if◌then◌else◌,
}
use runtime_bridge.Runner.Sync.{ok, fails}
use runtime_bridge.Lifecycle.Requests.{
  Pool, Worker, Query, by_id, by_name, by_pid, not_found, type_error, Client, RowId, WorkerFields,
  NewPool, NewWorker, WorkerItem,
}
use runtime_bridge.Lifecycle.Requests.Pools.{create_pools, create_pool}
use runtime_bridge.Lifecycle.Requests.Workers.{
  pool_of_pid, create_workers, create_worker, update_worker,
}
use runtime_bridge.Lifecycle.Requests.Updated.{update_worker_directly, update_worker-directly}

abbrev Rows : Type 0
Rows = List Pool × List Worker

abbrev is_pool : Query → Pool → Bool
is_pool (by_id n) p = p.id == n
is_pool (by_name n) p = p.name == n
is_pool (by_pid n) p = p.pid == n

abbrev is_worker : Query → Worker → Bool
is_worker (by_id n) w = w.id == n
is_worker (by_name n) w = w.name == n
is_worker (by_pid n) w = false

abbrev first : {A : Type 0} → (A → Bool) → List A → Option A
first f [] = none
first f (x ∷ xs) = if f x then some x else first f xs

abbrev without : {A : Type 0} → (A → Bool) → List A → List A
without f [] = []
without f (x ∷ xs) = let rest = without f xs in if f x then rest else x ∷ rest

abbrev client : Client
client = record {
  Db = Rows;
  Error = ℕ;
  find_pool = λ q db. ok (first (is_pool q) db.0);
  find_worker = λ q db. ok (first (is_worker q) db.1);
  save_pool = λ p db. ok (p ∷ without (is_pool (by_id p.id)) db.0, db.1);
  save_worker = λ w db. ok (db.0, w ∷ without (is_worker (by_id w.id)) db.1);
  destroy_pool = λ p db. ok (without (is_pool (by_id p.id)) db.0, db.1);
  destroy_worker = λ w db. ok (db.0, without (is_worker (by_id w.id)) db.1);
  commit_fails = λ db. none;
  encrypt_operator = λ mnemonic. elim mnemonic [ none ↦ fails type_error | some m ↦ ok (m + 1000) ];
}

abbrev new_pool : NewPool
new_pool = record {
  uuid = 1;
  pid = 40;
  name = 5;
  enabled = true;
  real_phala_ss58 = 0;
  owner = some (some 7);
  sync_only = false;
}

abbrev pool : Pool
pool = record {
  id = 1;
  pid = 40;
  name = 5;
  enabled = true;
  proxied_account_ss58 = 0;
  encrypted_operator = 1007;
  sync_only = false;
}

creates_pool : create_pool client (new_pool ∷ []) ([], []) ≡ (ok (pool ∷ []), (pool ∷ [], []))
unfolding create_pool create_pools
creates_pool = refl

abbrev fields : ℕ → ℕ → WorkerFields
fields name pid = record {
  deleted = false;
  pid = some pid;
  name = name;
  endpoint = 80;
  enabled = true;
  stake = 9;
  sync_only = false;
}

abbrev db : Rows
db = (pool ∷ [], [])

abbrev two_workers : List NewWorker
two_workers =
    record { uuid = 2; fields = fields 20 40 } ∷ record { uuid = 3; fields = fields 30 40 } ∷ []

-- The second worker's pool is not there, and neither worker is created.
all_or_nothing :
    create_worker client
      (record { uuid = 2; fields = fields 20 40 } ∷ record { uuid = 3; fields = fields 30 41 } ∷ [])
      db
    ≡ (fails not_found, db)
unfolding create_worker create_workers pool_of_pid
all_or_nothing = refl

abbrev named : ℕ → RowId
named n = record { uuid = none; name = some n; pid = none }

abbrev worker : Worker
worker = record {
  id = 2;
  name = 20;
  endpoint = 8;
  enabled = false;
  stake = 9;
  pool_id = 1;
  sync_only = false;
}

abbrev items : List WorkerItem
items =
    record { id = named 20; worker = some (fields 21 40) }
    ∷ record { id = named 20; worker = some (fields 22 40) }
    ∷ []

update_worker-directly_example :
    update_worker client items (pool ∷ [], worker ∷ [])
    ≡ update_worker_directly client items (pool ∷ [], worker ∷ [])
update_worker-directly_example = update_worker-directly client (pool ∷ [], worker ∷ []) items
