-- ===== src/Lifecycle/Requests.antt =====
-- src/lifecycle/ptp/db.ts: the requests that create and update pools and workers, on the local
-- database. The database client is a parameter: its look-ups, which the handlers make outside of
-- their transaction and so on what is committed, and its writes, which go to the transaction. Texts
-- and keys are numbers. One request runs at a time; how a row is printed in a reply is left out.
pub mod Created
pub mod Pools
pub mod Updated
pub mod Workers
pub mod Tests
use runtime_bridge.Prelude.{
  ℕ, Bool, true, false, Option, none, some, List, [], ◌∷◌, ◌++◌, if◌then◌else◌,
}
use runtime_bridge.Runner.Sync.{Answer, ok, fails}

-- The columns of local_db/pool_model.ts and local_db/worker_model.ts
pub record Pool : Type 0 where
  pub id : ℕ
  pub pid : ℕ
  pub name : ℕ
  pub enabled : Bool
  pub proxied_account_ss58 : ℕ
  pub encrypted_operator : ℕ
  pub sync_only : Bool

pub record Worker : Type 0 where
  pub id : ℕ
  pub name : ℕ
  pub endpoint : ℕ
  pub enabled : Bool
  pub stake : ℕ
  pub pool_id : ℕ
  pub sync_only : Bool

-- The `where` of a look-up.
pub data Query : Type 0 where
  by_id by_name by_pid : ℕ → Query

-- NOT_FOUND of PrbError, a TypeError, or an error of the client.
pub data Failure (E : Type 0) : Type 0 where
  not_found type_error : Failure E
  thrown : E → Failure E

-- The client, and `set operatorMnemonic` of a pool.
pub record Client : Type 1 where
  pub Db : Type 0
  pub Error : Type 0
  pub find_pool : Query → Db → Answer (Failure Error) (Option Pool)
  pub find_worker : Query → Db → Answer (Failure Error) (Option Worker)
  pub save_pool : Pool → Db → Answer (Failure Error) Db
  pub save_worker : Worker → Db → Answer (Failure Error) Db
  pub destroy_pool : Pool → Db → Answer (Failure Error) Db
  pub destroy_worker : Worker → Db → Answer (Failure Error) Db
  pub commit_fails : Db → Option Error
  pub encrypt_operator : Option ℕ → Answer (Failure Error) ℕ

-- What a request says of a row; the new row's random id is an argument.
pub record NewPool : Type 0 where
  pub uuid : ℕ
  pub pid : ℕ
  pub name : ℕ
  pub enabled : Bool
  pub real_phala_ss58 : ℕ
  pub owner : Option (Option ℕ)
  pub sync_only : Bool

pub record RowId : Type 0 where
  pub uuid : Option ℕ
  pub name : Option ℕ
  pub pid : Option ℕ

-- The payload of an update of a pool; `mnemonic` is `pool.owner?.mnemonic`.
pub record PoolChange : Type 0 where
  pub deleted : Bool
  pub pid : Option ℕ
  pub name : ℕ
  pub enabled : Bool
  pub real_phala_ss58 : ℕ
  pub mnemonic : Option ℕ
  pub sync_only : Bool

pub record PoolItem : Type 0 where
  pub id : RowId
  pub pool : Option PoolChange

-- The payload of a worker, whose `deleted` only an update reads.
pub record WorkerFields : Type 0 where
  pub deleted : Bool
  pub pid : Option ℕ
  pub name : ℕ
  pub endpoint : ℕ
  pub enabled : Bool
  pub stake : ℕ
  pub sync_only : Bool

pub record NewWorker : Type 0 where
  pub uuid : ℕ
  pub fields : WorkerFields

pub record WorkerItem : Type 0 where
  pub id : RowId
  pub worker : Option WorkerFields

-- `await`, and an error that is thrown.
infixl 10 ◌>>=◌
abbrev pub ◌>>=◌ : {E A B : Type 0} → Answer E A → (A → Answer E B) → Answer E B
ok a >>= f = f a
fails e >>= f = fails e

-- A member of undefined, and the check that throws NOT_FOUND.
abbrev pub or_type_error : {E A : Type 0} → Option A → Answer (Failure E) A
or_type_error none = fails type_error
or_type_error (some a) = ok a

abbrev pub or_not_found : {E A : Type 0} → Option A → Answer (Failure E) A
or_not_found none = fails not_found
or_not_found (some a) = ok a

module _ (client : Client) where
  open client use {Db, Error}

  abbrev pub Reply : Type 0 → Type 0
  Reply A = Answer (Failure Error) A

  -- The rows of the reply so far, and what the transaction has written.
  abbrev pub Progress : Type 0 → Type 0
  Progress A = List A × Db

  abbrev pub after_commit : {A : Type 0} → Db → Progress A → Option Error → Reply (List A) × Db
  after_commit db (rows, pending) none = (ok rows, pending)
  after_commit db (rows, pending) (some e) = (fails (thrown e), db)

  -- `transaction.commit()`, or `transaction.rollback()` and the error again.
  abbrev pub transact : {A : Type 0} → Db → Reply (Progress A) → Reply (List A) × Db
  transact db (ok (rows, pending)) = after_commit db (rows, pending) (client.commit_fails pending)
  transact db (fails e) = (fails e, db)
