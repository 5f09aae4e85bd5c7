-- ===== src/Lifecycle/Requests/Workers.antt =====
-- src/lifecycle/ptp/db.ts: makeCreateWorker and makeUpdateWorker, with their table of pools.
use runtime_bridge.Prelude.{ℕ, true, false, Option, none, some, List, [], ◌∷◌, ◌++◌, put_at}
use runtime_bridge.Runner.Sync.{ok, fails}
use runtime_bridge.Lifecycle.Requests.{
  Pool, Worker, by_id, by_name, by_pid, not_found, Client, RowId, WorkerFields, NewWorker,
  WorkerItem, ◌>>=◌, or_type_error, or_not_found, Reply, Progress, transact,
}

module _ (client : Client) where
  open client use {Db, Error}

  -- The look-up of `makeUpdateWorker`
  abbrev pub find_worker_by : RowId → Db → Reply client (Option Worker)
  find_worker_by id db = elim id.uuid [
    | some uuid ↦ client.find_worker (by_id uuid) db
    | none ↦ elim id.name [ some name ↦ client.find_worker (by_name name) db | none ↦ ok none ]
  ]

  -- `poolLookupTable`, for the handlers of workers: a pool that is not in the table is looked up,
  -- and put there when it is found.
  abbrev pub Table : Type 0
  Table = ℕ → Option Pool

  abbrev pub found_pool : ℕ → Table → Option Pool → Reply client (Pool × Table)
  found_pool pid table none = fails not_found
  found_pool pid table (some pool) = ok (pool, put_at pid (some pool) table)

  abbrev pub look_up : Db → ℕ → Table → Option Pool → Reply client (Pool × Table)
  look_up db pid table (some pool) = ok (pool, table)
  look_up db pid table none =
      client.find_pool (by_pid pid) db >>= λ found. found_pool pid table found

  unfoldable pub pool_of_pid : Db → ℕ → Table → Reply client (Pool × Table)
  pool_of_pid db pid table = look_up db pid table (table pid)

  abbrev pub worker_of : ℕ → WorkerFields → Pool → Worker
  worker_of id w pool = record {
    id = id;
    name = w.name;
    endpoint = w.endpoint;
    enabled = w.enabled;
    stake = w.stake;
    pool_id = pool.id;
    sync_only = w.sync_only;
  }

  abbrev pub save_one_worker :
      Worker → Progress client Worker → Reply client (Progress client Worker)
  save_one_worker w p = client.save_worker w p.1 >>= λ pending. ok (p.0 ++ (w ∷ []), pending)

  -- `makeCreateWorker`
  unfoldable pub create_workers :
      Db → List NewWorker → Table → Progress client Worker → Reply client (Progress client Worker)
  unfolding pool_of_pid
  create_workers db [] table p = ok p
  create_workers db (w ∷ ws) table p = or_type_error w.fields.pid >>= λ pid.
      pool_of_pid db pid table >>= λ t.
      save_one_worker (worker_of w.uuid w.fields t.0) p >>= λ q. create_workers db ws t.1 q

  unfoldable pub create_worker : List NewWorker → Db → Reply client (List Worker) × Db
  unfolding create_workers
  create_worker workers db = transact client db (create_workers db workers (λ pid. none) ([], db))

  -- One item of `makeUpdateWorker`: the row is read only after the pool was looked up.
  abbrev pub delete_worker :
      Option Worker → Table → Progress client Worker → Reply client (Table × Progress client Worker)
  delete_worker found table p = or_type_error found >>= λ row.
      client.destroy_worker row p.1 >>= λ pending. ok (table, (p.0, pending))

  abbrev pub change_worker :
      Db
      → Option Worker
      → WorkerFields
      → Table
      → Progress client Worker
      → Reply client (Table × Progress client Worker)
  change_worker db found c table p = or_type_error c.pid >>= λ pid.
      pool_of_pid db pid table >>= λ t.
      or_type_error found >>= λ row. save_one_worker (worker_of row.id c t.0) p >>= λ q. ok (t.1, q)

  abbrev pub update_one_worker :
      Db
      → WorkerItem
      → Table
      → Progress client Worker
      → Reply client (Table × Progress client Worker)
  update_one_worker db item table p = find_worker_by item.id db >>= λ found.
      or_not_found item.worker >>= λ c. elim c.deleted [
        | true ↦ delete_worker found table p
        | false ↦ change_worker db found c table p
      ]

  unfoldable pub update_workers :
      Db → List WorkerItem → Table → Progress client Worker → Reply client (Progress client Worker)
  unfolding pool_of_pid
  update_workers db [] table p = ok p
  update_workers db (item ∷ items) table p =
      update_one_worker db item table p >>= λ q. update_workers db items q.0 q.1

  -- `makeUpdateWorker`
  unfoldable pub update_worker : List WorkerItem → Db → Reply client (List Worker) × Db
  unfolding update_workers
  update_worker items db = transact client db (update_workers db items (λ pid. none) ([], db))
