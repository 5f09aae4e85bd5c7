-- ===== src/Lifecycle/Requests/Updated.antt =====
-- ptp/db.ts: the table of pools of a request that updates workers.
use runtime_bridge.Prelude.{
  ℕ, ◌≡◌, refl, ap, true, false, Option, none, some, none-some, List, [], ◌∷◌,
}
use runtime_bridge.Runner.Sync.{ok, fails}
use runtime_bridge.Lifecycle.Requests.{
  Pool, Worker, by_pid, Client, WorkerFields, WorkerItem, ◌>>=◌, or_type_error, or_not_found, Reply,
  Progress, transact,
}
use runtime_bridge.Lifecycle.Requests.Workers.{
  find_worker_by, Table, found_pool, look_up, pool_of_pid, worker_of, save_one_worker,
  delete_worker, change_worker, update_one_worker, update_workers, update_worker,
}
use runtime_bridge.Lifecycle.Requests.Created.{IsLookedUp, pool_of_pid-ok}

module _ (client : Client) where
  open client use {Db, Error}

  -- The look-up without a table.
  abbrev pub pool_with_pid : Db → ℕ → Reply client Pool
  pool_with_pid db pid = client.find_pool (by_pid pid) db >>= or_not_found

  abbrev change_directly :
      Db
      → Option Worker
      → WorkerFields
      → Progress client Worker
      → Reply client (Progress client Worker)
  change_directly db found c p = or_type_error c.pid >>= λ pid. pool_with_pid db pid >>= λ pool.
      or_type_error found >>= λ row. save_one_worker client (worker_of client row.id c pool) p

  abbrev delete_directly :
      Option Worker → Progress client Worker → Reply client (Progress client Worker)
  delete_directly found p =
      or_type_error found >>= λ row. client.destroy_worker row p.1 >>= λ pending. ok (p.0, pending)

  abbrev update_one_directly :
      Db → WorkerItem → Progress client Worker → Reply client (Progress client Worker)
  update_one_directly db item p = find_worker_by client item.id db >>= λ found.
      or_not_found item.worker >>= λ c. elim c.deleted [
        | true ↦ delete_directly found p
        | false ↦ change_directly db found c p
      ]

  abbrev update_all_directly :
      Db → List WorkerItem → Progress client Worker → Reply client (Progress client Worker)
  update_all_directly db [] p = ok p
  update_all_directly db (item ∷ items) p =
      update_one_directly db item p >>= λ q. update_all_directly db items q

  -- The request with a look-up of the pool for each item.
  abbrev pub update_worker_directly : List WorkerItem → Db → Reply client (List Worker) × Db
  update_worker_directly items db = transact client db (update_all_directly db items ([], db))

  module _ (db : Db) where
    -- The same answer, where a table has only what was looked up.
    abbrev Agrees : {A : Type 0} → Reply client (Table client × A) → Reply client A → Type 0
    Agrees (ok (table, a)) r = (r ≡ ok a) × IsLookedUp client db table
    Agrees (fails e) r = r ≡ fails e

    Agrees-bind :
        {A B : Type 0} (m : Reply client A) (f : A → Reply client (Table client × B))
        (g : A → Reply client B)
        → ((a : A) → Agrees (f a) (g a))
        → Agrees (m >>= f) (m >>= g)
    Agrees-bind (ok a) f g h = h a
    Agrees-bind (fails e) f g h = refl

    Agrees-kept :
        {A : Type 0} (m : Reply client A) (table : Table client)
        → IsLookedUp client db table
        → Agrees (m >>= λ q. ok (table, q)) m
    Agrees-kept (ok a) table l = (refl, l)
    Agrees-kept (fails e) table l = refl

    -- The two results of a look-up in the table, the other way round.
    abbrev swapped : Pool × Table client → Table client × Pool
    swapped (pool, table) = (table, pool)

    found_pool-Agrees :
        (pid : ℕ) (table : Table client) (o : Option Pool)
        → ((t : Pool × Table client)
            → found_pool client pid table o ≡ ok t
            → IsLookedUp client db t.1)
        → Agrees (found_pool client pid table o >>= λ t. ok (swapped t)) (or_not_found o)
    found_pool-Agrees pid table none h = refl
    found_pool-Agrees pid table (some pool) h = (refl, h _ refl)

    Agrees-then :
        {B : Type 0} (r : Reply client (Pool × Table client)) (s : Reply client Pool)
        (f : Pool × Table client → Reply client (Table client × B)) (g : Pool → Reply client B)
        → Agrees (r >>= λ t. ok (swapped t)) s
        → ((pool : Pool) (table : Table client)
            → IsLookedUp client db table
            → Agrees (f (pool, table)) (g pool))
        → Agrees (r >>= f) (s >>= g)
    Agrees-then (ok (pool, table)) s f g a h = rw (a.0) (h pool table a.1)
    Agrees-then (fails e) s f g a h = rw a refl

    look_up-Agrees :
        (pid : ℕ) (table : Table client) (o : Option Pool)
        → table pid ≡ o
        → IsLookedUp client db table
        → ((t : Pool × Table client)
            → look_up client db pid table o ≡ ok t
            → IsLookedUp client db t.1)
        → Agrees (look_up client db pid table o >>= λ t. ok (swapped t)) (pool_with_pid db pid)
    look_up-Agrees pid table (some pool) q l h = (rw (l pid pool q) refl, l)
    look_up-Agrees pid table none q l h =
        elim (client.find_pool (by_pid pid) db)
            as (λ m.
              ((t : Pool × Table client)
                → (m >>= λ found. found_pool client pid table found) ≡ ok t
                → IsLookedUp client db t.1)
              → Agrees ((m >>= λ found. found_pool client pid table found) >>= λ t. ok (swapped t))
                  (m >>= or_not_found)) [
                    | ok found ↦ λ k. found_pool-Agrees pid table found k
                    | fails e ↦ λ k. refl
                  ]
          h

    pool_of_pid-Agrees :
        (pid : ℕ) (table : Table client)
        → IsLookedUp client db table
        → Agrees (pool_of_pid client db pid table >>= λ t. ok (swapped t)) (pool_with_pid db pid)
    unfolding pool_of_pid
    pool_of_pid-Agrees pid table l =
        look_up-Agrees pid table (table pid) refl l
          (λ t e. (pool_of_pid-ok client db pid table t e l).1)

    change_worker-Agrees :
        (found : Option Worker) (c : WorkerFields) (table : Table client)
        (p : Progress client Worker)
        → IsLookedUp client db table
        → Agrees (change_worker client db found c table p) (change_directly db found c p)
    change_worker-Agrees found c table p l = Agrees-bind (or_type_error c.pid) _ _ (λ pid.
        Agrees-then (pool_of_pid client db pid table) (pool_with_pid db pid) _ _
          (pool_of_pid-Agrees pid table l)
          (λ pool next k. Agrees-bind (or_type_error found) _ _ (λ row.
            Agrees-kept (save_one_worker client (worker_of client row.id c pool) p) next k)))

    delete_worker-Agrees :
        (found : Option Worker) (table : Table client) (p : Progress client Worker)
        → IsLookedUp client db table
        → Agrees (delete_worker client found table p) (delete_directly found p)
    delete_worker-Agrees found table p l =
        Agrees-bind (or_type_error found) _ _
          (λ row. Agrees-bind (client.destroy_worker row p.1) _ _ (λ pending. (refl, l)))

    update_one_worker-Agrees :
        (item : WorkerItem) (table : Table client) (p : Progress client Worker)
        → IsLookedUp client db table
        → Agrees (update_one_worker client db item table p) (update_one_directly db item p)
    update_one_worker-Agrees item table p l =
        Agrees-bind (find_worker_by client item.id db) _ _ (λ found.
          Agrees-bind (or_not_found item.worker) _ _ (λ c.
            elim c.deleted
              as (λ b.
                Agrees
                  (elim b [
                    | true ↦ delete_worker client found table p
                    | false ↦ change_worker client db found c table p
                  ])
                  (elim b [
                    | true ↦ delete_directly found p
                    | false ↦ change_directly db found c p
                  ])) [
                    | true ↦ delete_worker-Agrees found table p l
                    | false ↦ change_worker-Agrees found c table p l
                  ]))

    -- The rest of the items, after one for which the two agree.
    rest_equal :
        (r : Reply client (Table client × Progress client Worker))
        (s : Reply client (Progress client Worker))
        (f : Table client × Progress client Worker → Reply client (Progress client Worker))
        (g : Progress client Worker → Reply client (Progress client Worker))
        → Agrees r s
        → ((table : Table client) (q : Progress client Worker)
            → IsLookedUp client db table
            → f (table, q) ≡ g q)
        → (r >>= f) ≡ (s >>= g)
    rest_equal (ok (table, q)) s f g a h = rw (a.0) (h table q a.1)
    rest_equal (fails e) s f g a h = rw a refl

    update_workers-directly :
        (items : List WorkerItem) (table : Table client) (p : Progress client Worker)
        → IsLookedUp client db table
        → update_workers client db items table p ≡ update_all_directly db items p
    unfolding update_workers
    update_workers-directly [] table p l = refl
    update_workers-directly (item ∷ items) table p l =
        rest_equal (update_one_worker client db item table p) (update_one_directly db item p) _ _
          (update_one_worker-Agrees item table p l)
          (λ next q k. update_workers-directly items next q k)

    -- The handler's table of pools changes nothing: a request that updates workers has the reply and
    -- the effect of one that looks the pool up in the database for each item.
    pub update_worker-directly :
        (items : List WorkerItem) → update_worker client items db ≡ update_worker_directly items db
    unfolding update_worker
    update_worker-directly items =
        ap (λ r. transact client db r)
          (update_workers-directly items (λ pid. none) ([], db)
            (λ pid pool e. absurd (none-some e)))
