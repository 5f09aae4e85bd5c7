-- ===== src/Lifecycle/Requests/Created.antt =====
-- ptp/db.ts: what a request that creates workers does to the database, and what it replies.
use runtime_bridge.Prelude.{
  ℕ, ◌≡◌, refl, sym, ap, subst, ◌∙◌, Option, none, some, some_inj, List, [], ◌∷◌, ◌++◌, inl, inr,
  put_at, put_at-cases,
}
use runtime_bridge.Runner.Sync.{Answer, ok, fails}
use runtime_bridge.Lifecycle.Requests.{
  Pool, Worker, by_pid, Client, NewWorker, ◌>>=◌, Reply, Progress,
}
use runtime_bridge.Lifecycle.Requests.Workers.{Table, found_pool, look_up, pool_of_pid, worker_of}

pub bind-ok :
    {E A B : Type 0} (m : Answer E A) (f : A → Answer E B) (b : B)
    → (m >>= f) ≡ ok b
    → (a : A) × (m ≡ ok a) × (f a ≡ ok b)
bind-ok (ok a) f b e = (a, refl, e)
bind-ok (fails x) f b e = cc

pub ok_inj : {E A : Type 0} {a b : A} → ◌≡◌ {A = Answer E A} (ok a) (ok b) → a ≡ b
ok_inj e = cc

module _ (client : Client) (db : client.Db) where
  open client use {Db, Error}

  -- What the table has was looked up.
  abbrev pub IsLookedUp : Table client → Type 0
  IsLookedUp table =
      (pid : ℕ) (pool : Pool)
      → table pid ≡ some pool
      → client.find_pool (by_pid pid) db ≡ ok (some pool)

  put_at-IsLookedUp :
      (pid : ℕ) (pool : Pool) (table : Table client)
      → client.find_pool (by_pid pid) db ≡ ok (some pool)
      → IsLookedUp table
      → IsLookedUp (put_at pid (some pool) table)
  put_at-IsLookedUp pid pool table e h i other q = elim (put_at-cases pid (some pool) table i) [
    | inl (same, new) ↦ rw (same, sym (some_inj (sym new ∙ q))) e
    | inr (n, old) ↦ h i other (sym old ∙ q)
  ]

  found_pool-ok :
      (pid : ℕ) (table : Table client) (o : Option Pool) (t : Pool × Table client)
      → found_pool client pid table o ≡ ok t
      → (o ≡ some t.0) × (t.1 ≡ put_at pid (some t.0) table)
  found_pool-ok pid table none t e = cc
  found_pool-ok pid table (some pool) t e = let q = ok_inj e in rw (sym q) (refl, refl)

  look_up-ok :
      (pid : ℕ) (table : Table client) (o : Option Pool) (t : Pool × Table client)
      → table pid ≡ o
      → look_up client db pid table o ≡ ok t
      → IsLookedUp table
      → (client.find_pool (by_pid pid) db ≡ ok (some t.0)) × IsLookedUp t.1
  look_up-ok pid table (some pool) t q e h = let r = ok_inj e in rw (sym r) (h pid pool q, h)
  look_up-ok pid table none t q e h =
      let (found, a, b) = bind-ok (client.find_pool (by_pid pid) db) _ t e in
      let (c, d) = found_pool-ok pid table found t b in
      let here = a ∙ ap (λ o. ok o) c in
      (here, subst IsLookedUp (sym d) (put_at-IsLookedUp pid t.0 table here h))

  pub pool_of_pid-ok :
      (pid : ℕ) (table : Table client) (t : Pool × Table client)
      → pool_of_pid client db pid table ≡ ok t
      → IsLookedUp table
      → (client.find_pool (by_pid pid) db ≡ ok (some t.0)) × IsLookedUp t.1
  unfolding pool_of_pid
  pool_of_pid-ok pid table t e h = look_up-ok pid table (table pid) t refl e h

  -- The row for an item: it says what the item says, and belongs to the pool with the item's pid.
  pub record IsCreated (item : NewWorker) (row : Worker) : Type 0 where
    pub pid : ℕ
    pub pool : Pool
    pub has_pid : item.fields.pid ≡ some pid
    pub found : client.find_pool (by_pid pid) db ≡ ok (some pool)
    pub row_lem : row ≡ worker_of client item.uuid item.fields pool

  abbrev pub AreCreated : List NewWorker → List Worker → Type 0
  AreCreated [] [] = Unit
  AreCreated (item ∷ items) (row ∷ rows) = IsCreated item row × AreCreated items rows
  AreCreated [] (row ∷ rows) = ⊥
  AreCreated (item ∷ items) [] = ⊥

  abbrev pub save_all : List Worker → Db → Reply client Db
  save_all [] pending = ok pending
  save_all (row ∷ rows) pending = client.save_worker row pending >>= λ next. save_all rows next

  -- The rows that were added, with the database that they give.
  Adds : List NewWorker → Progress client Worker → Progress client Worker → Type 0
  Adds items p q =
      (rows : List Worker) × ((q.0 ≡ p.0 ++ rows)
        × (AreCreated items rows × (save_all rows p.1 ≡ ok q.1)))

  -- A reply, and the database after it.
  abbrev pub IsOutcome : List NewWorker → Reply client (List Worker) × Db → Type 0
  IsOutcome items (ok rows, after) = AreCreated items rows × (save_all rows db ≡ ok after)
  IsOutcome items (fails e, after) = after ≡ db
