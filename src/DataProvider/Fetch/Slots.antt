-- ===== src/DataProvider/Fetch/Slots.antt =====
-- block.js: the number under which a fetched para block is stored.
use runtime_bridge.Prelude.{ℕ, ◌≡◌, some, arith}
use runtime_bridge.DataProvider.Fetch.{Headers, StoredPara, Blocks, set_para_block}

module _ (headers : Headers) (n : ℕ) (b : StoredPara headers) (db : Blocks headers) where
  pub set_para_block_self : (set_para_block headers n b db).paras n ≡ some b
  unfolding set_para_block
  set_para_block_self = ground arith

  pub set_para_block_ne : (m : ℕ) → ¬ (m ≡ n) → (set_para_block headers n b db).paras m ≡ db.paras m
  unfolding set_para_block
  set_para_block_ne m ne = ground arith
