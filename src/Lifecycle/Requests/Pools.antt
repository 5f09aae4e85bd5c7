-- ===== src/Lifecycle/Requests/Pools.antt =====
-- src/lifecycle/ptp/db.ts: makeCreatePool and makeUpdatePool.
use runtime_bridge.Prelude.{ℕ, true, false, Option, none, some, List, [], ◌∷◌, ◌++◌}
use runtime_bridge.Runner.Sync.{ok}
use runtime_bridge.Lifecycle.Requests.{
  Pool, by_id, by_name, by_pid, Client, NewPool, RowId, PoolChange, PoolItem, ◌>>=◌, or_type_error,
  or_not_found, Reply, Progress, transact,
}

module _ (client : Client) where
  open client use {Db, Error}

  abbrev pub pool_of : NewPool → ℕ → Pool
  pool_of r operator = record {
    id = r.uuid;
    pid = r.pid;
    name = r.name;
    enabled = r.enabled;
    proxied_account_ss58 = r.real_phala_ss58;
    encrypted_operator = operator;
    sync_only = r.sync_only;
  }

  -- `makeCreatePool`
  unfoldable pub create_pools :
      List NewPool → Progress client Pool → Reply client (Progress client Pool)
  create_pools [] p = ok p
  create_pools (r ∷ rs) p = or_type_error r.owner >>= λ mnemonic.
      client.encrypt_operator mnemonic >>= λ operator.
      client.save_pool (pool_of r operator) p.1 >>= λ pending.
      create_pools rs (p.0 ++ (pool_of r operator ∷ []), pending)

  unfoldable pub create_pool : List NewPool → Db → Reply client (List Pool) × Db
  unfolding create_pools
  create_pool pools db = transact client db (create_pools pools ([], db))

  -- The look-up of `makeUpdatePool`
  abbrev pub find_pool_by : RowId → Db → Reply client (Option Pool)
  find_pool_by id db = elim id.uuid [
    | some uuid ↦ client.find_pool (by_id uuid) db
    | none ↦ elim id.name [
      | some name ↦ client.find_pool (by_name name) db
      | none ↦ or_type_error id.pid >>= λ pid. client.find_pool (by_pid pid) db
    ]
  ]

  -- `operatorMnemonic` is set only when there is one.
  abbrev pub operator_or : ℕ → Option ℕ → Reply client ℕ
  operator_or old none = ok old
  operator_or old (some mnemonic) = client.encrypt_operator (some mnemonic)

  abbrev pub changed_pool : Pool → PoolChange → ℕ → ℕ → Pool
  changed_pool row c operator pid = record {
    id = row.id;
    pid = pid;
    name = c.name;
    enabled = c.enabled;
    proxied_account_ss58 = c.real_phala_ss58;
    encrypted_operator = operator;
    sync_only = c.sync_only;
  }

  -- One item of `makeUpdatePool`, with the row that was found for it, if any.
  abbrev pub delete_pool : Option Pool → Progress client Pool → Reply client (Progress client Pool)
  delete_pool found p =
      or_type_error found >>= λ row. client.destroy_pool row p.1 >>= λ pending. ok (p.0, pending)

  abbrev pub change_pool :
      Option Pool → PoolChange → Progress client Pool → Reply client (Progress client Pool)
  change_pool found c p = or_type_error found >>= λ row.
      operator_or row.encrypted_operator c.mnemonic >>= λ operator. or_type_error c.pid >>= λ pid.
      client.save_pool (changed_pool row c operator pid) p.1 >>= λ pending.
      ok (p.0 ++ (changed_pool row c operator pid ∷ []), pending)

  abbrev pub update_one_pool :
      Db → PoolItem → Progress client Pool → Reply client (Progress client Pool)
  update_one_pool db item p = find_pool_by item.id db >>= λ found. or_not_found item.pool >>= λ c.
      elim c.deleted [ true ↦ delete_pool found p | false ↦ change_pool found c p ]

  unfoldable pub update_pools :
      Db → List PoolItem → Progress client Pool → Reply client (Progress client Pool)
  update_pools db [] p = ok p
  update_pools db (item ∷ items) p = update_one_pool db item p >>= λ q. update_pools db items q

  -- `makeUpdatePool`
  unfoldable pub update_pool : List PoolItem → Db → Reply client (List Pool) × Db
  unfolding update_pools
  update_pool items db = transact client db (update_pools db items ([], db))
