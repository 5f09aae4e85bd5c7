-- ===== src/DataProvider/Fetch.antt =====
-- src/data_provider/block.js, io/block.js and fetch_block.ts: fetching blocks into the store. A
-- block's number is a natural number. What the node answers is a parameter, one answer for each
-- attempt, and so are the hash of a header and the parent hash in it. `promiseRetry` makes further
-- attempts until one succeeds or none is left.
pub mod Links
pub mod Chain
pub mod Parents
pub mod Served
pub mod Slots
pub mod Tests
use runtime_bridge.Prelude.{
  ℕ, zero, suc, ◌≡◌, ◌+◌, ◌-◌, Bool, true, false, not, Option, none, some, List, [], ◌∷◌, leb, ltb,
  ◌==◌, if◌then◌else◌, ◌>>=◌,
}

-- What the program takes from a header's bytes, in hexadecimal.
pub record Headers : Type 1 where
  pub Bytes : Type 0
  pub Hash : Type 0
  pub eqb_hash : Hash → Hash → Bool
  pub blake2 : Bytes → Hash
  pub parent_hash : Bytes → Hash
  pub eqb_hash_eq : (a b : Hash) → eqb_hash a b ≡ true → a ≡ b

-- How a step ends: with a value, by the end of the process, or with a rejection.
pub data Ended (A : Type 0) : Type 0 where
  done : A → Ended A
  exits : ℕ → Ended A
  rejects : Ended A

module _ (headers : Headers) where
  open headers use {Bytes, Hash, eqb_hash, blake2, parent_hash}

  -- A stored para block, with the fields that the store encodes.
  pub record StoredPara : Type 0 where
    pub number : ℕ
    pub hash : Hash
    pub header : Bytes
    pub dispatch_block_data : Bytes

  pub record StoredParent : Type 0 where
    pub number : ℕ
    pub hash : Hash
    pub header : Bytes
    pub set_id : ℕ
    pub has_justification : Bool
    pub para_number : ℕ
    pub sync_header_data : Bytes
    pub authority_set_change : Option Bytes
    pub para_proof : Bytes

  -- The entries `…:pb` and `…:written` of the database.
  pub record Blocks : Type 0 where
    pub paras : ℕ → Option StoredPara
    pub para_written : ℕ → Bool
    pub parents : ℕ → Option StoredParent
    pub parent_written : ℕ → Bool

  abbrev pub at {ℓ} : {A : Type ℓ} → ℕ → A → (ℕ → A) → ℕ → A
  at n a f m = if m == n then a else f m

  -- `setParaBlock`, `getParaBlock` and the like
  unfoldable pub set_para_block : ℕ → StoredPara → Blocks → Blocks
  set_para_block n b db = record db {
    paras = at n (some b) db.paras;
    para_written = at n true db.para_written;
  }

  unfoldable pub get_para_block : ℕ → Blocks → Option StoredPara
  get_para_block n db = db.paras n

  unfoldable pub set_parent_block : ℕ → StoredParent → Blocks → Blocks
  set_parent_block n b db = record db {
    parents = at n (some b) db.parents;
    parent_written = at n true db.parent_written;
  }

  unfoldable pub get_parent_block_existence : ℕ → Blocks → Bool
  get_parent_block_existence n db = db.parent_written n

  -- `_waitForParaBlock` over the states of the database at its looks.
  unfoldable pub wait_for_para_block : ℕ → List Blocks → Option StoredPara
  unfolding get_para_block
  wait_for_para_block n [] = none
  wait_for_para_block n (db ∷ dbs) = elim (get_para_block n db) [
    | none ↦ wait_for_para_block n dbs
    | some b ↦ some b
  ]

  -- The node's answers to the calls of `processParaBlock`.
  pub record Answer : Type 0 where
    pub hash : Hash
    pub header : Bytes
    pub dispatch_block_data : Bytes

  -- An attempt: the node fails, or it answers.
  abbrev pub Attempt : Type 0
  Attempt = Option Answer

  -- `processParaBlock`
  unfoldable pub process_para_block : ℕ → Attempt → Ended StoredPara
  process_para_block n none = rejects
  process_para_block n (some a) =
      if eqb_hash a.hash (blake2 a.header)
      then done (record {
        number = n;
        hash = a.hash;
        header = a.header;
        dispatch_block_data = a.dispatch_block_data;
      })
      else exits 254

  -- The hash of the block before, which is read from the database when it is not given. A missing
  -- block is a TypeError.
  abbrev pub last_hash : ℕ → Option Hash → Blocks → Option Hash
  last_hash n (some h) db = some h
  last_hash n none db = elim (db.paras (n - 1)) [ none ↦ none | some b ↦ some (blake2 b.header) ]

  -- The test of the hash, and what is stored and returned.
  abbrev pub store_checked : ℕ → StoredPara → Option Hash → Blocks → Ended (Option Hash × Blocks)
  store_checked n b none db = rejects
  store_checked n b (some h) db =
      if eqb_hash (parent_hash b.header) h
      then done (some b.hash, set_para_block n b db)
      else exits 255

  abbrev pub after_process :
      ℕ → Option Hash → Blocks → Ended StoredPara → Ended (Option Hash × Blocks)
  after_process n last db rejects = rejects
  after_process n last db (exits c) = exits c
  after_process n last db (done b) =
      if leb 2 n
      then store_checked n b (last_hash n last db) db
      else done (some b.hash, set_para_block n b db)

  abbrev pub is_some {ℓ} : {A : Type ℓ} → Option A → Bool
  is_some none = false
  is_some (some a) = true

  -- `_walkParaBlock`
  unfoldable pub walk_para_block_once :
      ℕ → Option Hash → Blocks → Attempt → Ended (Option Hash × Blocks)
  unfolding get_para_block process_para_block set_para_block
  walk_para_block_once n last db attempt =
      if is_some (get_para_block n db)
      then done (none, db)
      else after_process n last db (process_para_block n attempt)

  -- `walkParaBlock`: up to four attempts.
  abbrev pub or_again :
      Ended (Option Hash × Blocks) → Ended (Option Hash × Blocks) → Ended (Option Hash × Blocks)
  or_again (done r) rest = done r
  or_again (exits c) rest = exits c
  or_again rejects rest = rest

  unfoldable pub try_para_block :
      ℕ → ℕ → Option Hash → Blocks → (ℕ → Attempt) → Ended (Option Hash × Blocks)
  unfolding walk_para_block_once
  try_para_block zero n last db attempts = walk_para_block_once n last db (attempts 0)
  try_para_block (suc retries) n last db attempts =
      or_again (walk_para_block_once n last db (attempts 0))
        (try_para_block retries n last db (λ i. attempts (suc i)))

  unfoldable pub walk_para_block :
      ℕ → Option Hash → Blocks → (ℕ → Attempt) → Ended (Option Hash × Blocks)
  unfolding try_para_block
  walk_para_block = try_para_block 3

  -- `iteratePara` for the next blocks, `count` of them, from `n` on: each gets what the one before
  -- returned.
  abbrev pub then_fetch :
      (Option Hash → Blocks → Ended (Option Hash × Blocks))
      → Ended (Option Hash × Blocks)
      → Ended (Option Hash × Blocks)
  then_fetch rest (done r) = rest r.0 r.1
  then_fetch rest (exits c) = exits c
  then_fetch rest rejects = rejects

  unfoldable pub iterate_para :
      ℕ → ℕ → Option Hash → Blocks → (ℕ → ℕ → Attempt) → Ended (Option Hash × Blocks)
  unfolding walk_para_block
  iterate_para zero n last db attempts = done (last, db)
  iterate_para (suc count) n last db attempts =
      then_fetch (λ l d. iterate_para count (n + 1) l d attempts)
        (walk_para_block n last db (attempts n))

  -- `_walkParentBlock`, given what `processParentBlock` settles with.
  unfoldable pub walk_parent_block_once : ℕ → Blocks → Option StoredParent → Ended Blocks
  unfolding get_parent_block_existence set_parent_block
  walk_parent_block_once n db none = if get_parent_block_existence n db then done db else rejects
  walk_parent_block_once n db (some b) =
      if get_parent_block_existence n db then done db else done (set_parent_block n b db)
