-- ===== src/DataProvider/Window/Progress.antt =====
-- window.js: the marks of progress, and the ranges of para blocks.
use runtime_bridge.Prelude.{Option, none, some, List, [], ◌∷◌, map, if◌then◌else◌, ◌>>=◌}
use runtime_bridge.Prelude.Int.{ℤ, pos}
use runtime_bridge.DataProvider.Store.{
  Key, dry_para_block, range_para_key, range_para_buffer, last_committed_para_block,
  last_committed_para_block_batch, last_committed_parent_block, ParaBlock, BlockRange, Wire, put,
  exists,
}
use runtime_bridge.DataProvider.Window.{Db, first, last}

module _ (wire : Wire) where
  open wire use {Bytes}

  -- `parseInt(await db.getJson(key)) || 0`
  abbrev pub number_or_zero : Option ℤ → ℤ
  number_or_zero none = pos 0
  number_or_zero (some n) = n

  unfoldable pub get_number : Key → Db wire → ℤ
  get_number k db = number_or_zero (db k >>= wire.parse_number)

  unfoldable pub set_number : Key → ℤ → Db wire → Db wire
  set_number k n db = put k (wire.encode_number n) db

  unfoldable pub get_last_committed_para_block : Db wire → ℤ
  unfolding get_number
  get_last_committed_para_block = get_number last_committed_para_block

  unfoldable pub set_last_committed_para_block : ℤ → Db wire → Db wire
  unfolding set_number
  set_last_committed_para_block = set_number last_committed_para_block

  unfoldable pub get_last_committed_para_block_batch : Db wire → ℤ
  unfolding get_number
  get_last_committed_para_block_batch = get_number last_committed_para_block_batch

  unfoldable pub set_last_committed_para_block_batch : ℤ → Db wire → Db wire
  unfolding set_number
  set_last_committed_para_block_batch = set_number last_committed_para_block_batch

  unfoldable pub get_last_committed_parent_block : Db wire → ℤ
  unfolding get_number
  get_last_committed_parent_block = get_number last_committed_parent_block

  unfoldable pub set_last_committed_parent_block : ℤ → Db wire → Db wire
  unfolding set_number
  set_last_committed_parent_block = set_number last_committed_parent_block

  -- `setDryParaBlockRange`
  unfoldable pub set_dry_para_block_range : ParaBlock Bytes → Db wire → Db wire
  set_dry_para_block_range block db =
      if exists db (dry_para_block block.number)
      then db
      else put (range_para_key block.number)
          (wire.encode_json_range (record {
            buffer_key = none;
            first_block_number = block.number;
            last_block_number = block.number;
          }))
          (put (dry_para_block block.number) (wire.encode_blocks (block.dispatch_block_data ∷ []))
            db)

  -- `setRangeParaBlockBuffer`, which overrides what is there.
  unfoldable pub set_range_para_block_buffer : List (ParaBlock Bytes) → Db wire → Option (Db wire)
  set_range_para_block_buffer blocks db = do
    head ← first blocks
    stop ← last blocks
    some (
        put (range_para_key head.number)
          (wire.encode_json_range (record {
            buffer_key = some (range_para_buffer head.number);
            first_block_number = head.number;
            last_block_number = stop.number;
          }))
          (put (range_para_buffer head.number)
            (wire.encode_blocks (map (λ (b : ParaBlock Bytes). b.dispatch_block_data) blocks)) db))

  -- `getParaBlockRange`
  unfoldable pub get_para_block_range : ℤ → Db wire → Option BlockRange
  get_para_block_range n db =
      db (range_para_key n) >>= λ buffer. some (wire.decode_json_range buffer)
