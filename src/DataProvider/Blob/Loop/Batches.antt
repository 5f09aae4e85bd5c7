-- ===== src/DataProvider/Blob/Loop/Batches.antt =====
-- blob.js, `walkParaBlockBatch` and `walkWindow`: what is stored and found again.
use runtime_bridge.Prelude.{
  ℕ, zero, suc, ◌≡◌, refl, ap, ◌∙◌, some, List, [], ◌∷◌, map, arith, Settles,
}
use runtime_bridge.Prelude.Int.{ℤ, pos, ◌+ℤ◌, int_laws}
use runtime_bridge.DataProvider.Store.{
  range_para_key, range_para_buffer, ParaBlock, Wire, put, put_self, BlockRange,
}
use runtime_bridge.DataProvider.Window.{Db, last}
use runtime_bridge.DataProvider.Window.Progress.{
  get_para_block_range, get_last_committed_para_block_batch, get_number, set_number,
  set_last_committed_para_block_batch, set_range_para_block_buffer,
}
use runtime_bridge.DataProvider.Blob.{Chain, one}
use runtime_bridge.DataProvider.Blob.Loop.{collect, walk_para_block_batch}

module _ (wire : Wire) (chain : Chain wire.Bytes) (para : ℤ → ParaBlock wire.Bytes) where
  open wire use {Bytes}

  unfoldable pub blocks_from : ℕ → ℤ → List (ParaBlock Bytes)
  blocks_from zero n = []
  blocks_from (suc count) n = para n ∷ blocks_from count (n +ℤ one)

  module _ (paras_there : (n : ℤ) → chain.paras n ≡ some (para n))
      (para_number : (n : ℤ) → (para n).number ≡ n) where
    collect-blocks_from :
        (count : ℕ) (n : ℤ) → collect wire chain count n ≡ some (blocks_from count n)
    unfolding collect blocks_from
    collect-blocks_from zero n = refl
    collect-blocks_from (suc count) n = rw (paras_there n, collect-blocks_from count (n +ℤ one))

    last-blocks_from :
        (count : ℕ) (n : ℤ) → last (blocks_from (suc count) n) ≡ some (para (n +ℤ pos count))
    unfolding blocks_from
    last-blocks_from zero n = ap (λ x. some (para x)) (omega int_laws)
    last-blocks_from (suc count) n =
        last-blocks_from count (n +ℤ one) ∙ ap (λ x. some (para x)) (omega int_laws)

    -- The batch that starts at a block.
    abbrev pub range_of : ℕ → ℤ → BlockRange
    range_of m n = record {
      buffer_key = some (range_para_buffer n);
      first_block_number = n;
      last_block_number = n +ℤ pos m;
    }

    abbrev stored : ℕ → ℤ → Db wire → Db wire
    stored m n db = set_last_committed_para_block_batch wire (n +ℤ pos m) (
        put (range_para_key n) (wire.encode_json_range (range_of m n)) (
          put (range_para_buffer n)
            (wire.encode_blocks
              (map (λ (b : ParaBlock Bytes). b.dispatch_block_data) (blocks_from (suc m) n)))
            db))

    stored-range :
        (m : ℕ) (n : ℤ) (db : Db wire)
        → stored m n db (range_para_key n) ≡ some (wire.encode_json_range (range_of m n))
    unfolding set_last_committed_para_block_batch set_number put
    stored-range m n db = ground arith

    stored-buffer :
        (m : ℕ) (n : ℤ) (db : Db wire)
        → stored m n db (range_para_buffer n)
          ≡ some (
              wire.encode_blocks
                (map (λ (b : ParaBlock Bytes). b.dispatch_block_data) (blocks_from (suc m) n)))
    unfolding set_last_committed_para_block_batch set_number put
    stored-buffer m n db = ground arith

    stored-progress :
        (m : ℕ) (n : ℤ) (db : Db wire)
        → get_last_committed_para_block_batch wire (stored m n db) ≡ n +ℤ pos m
    unfolding set_last_committed_para_block_batch set_number get_last_committed_para_block_batch
        get_number
    stored-progress m n db = rw (put_self, wire.number_law)

    walk_para_block_batch-stored :
        (m : ℕ) (n : ℤ) (db : Db wire)
        → walk_para_block_batch wire chain (suc m) n db ≡ some (n +ℤ pos m, stored m n db)
    unfolding walk_para_block_batch blocks_from set_range_para_block_buffer
    walk_para_block_batch-stored m n db = rw (
      collect-blocks_from (suc m) n,
      last-blocks_from m n,
      para_number (n +ℤ pos m),
      para_number n,
    )

    -- When the store has every para block under its number, `walkParaBlockBatch` with a size of
    -- m + 1 returns the number of the last of the m + 1 blocks from n on. The range of these blocks
    -- is then found by the number n, their encoding under the range's buffer key, and the returned
    -- number as the last one committed.
    pub walk_para_block_batch-get_para_block_range :
        (m : ℕ) (n : ℤ) (db : Db wire)
        → Settles
            (λ (r : ℤ × Db wire).
              (r.0 ≡ n +ℤ pos m)
              × ((get_para_block_range wire n r.1 ≡ some (range_of m n))
                  × ((r.1 (range_para_buffer n)
                        ≡ some (
                            wire.encode_blocks (
                              map
                                (λ (b : ParaBlock Bytes). b.dispatch_block_data)
                                (blocks_from (suc m) n))))
                      × (get_last_committed_para_block_batch wire r.1 ≡ n +ℤ pos m))))
            (walk_para_block_batch wire chain (suc m) n db)
    unfolding get_para_block_range
    walk_para_block_batch-get_para_block_range m n db = rw (walk_para_block_batch-stored m n db) (
      refl,
      (
        rw (stored-range m n db, wire.json_range_law),
        (stored-buffer m n db, stored-progress m n db),
      ),
    )
