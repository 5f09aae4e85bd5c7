-- ===== src/DataProvider/Blob/Loop.antt =====
-- src/data_provider/blob.js: the loops over blocks. `walkBlock` calls itself for the next parent
-- block until its window is finished; here that is recursion on fuel, the number of parent blocks
-- that it may take.
pub mod Batches
pub mod Cached
pub mod Starts
pub mod Steps
pub mod Windows
use runtime_bridge.Prelude.{
  ℕ, zero, suc, Bool, true, false, Option, none, some, List, [], ◌∷◌, if◌then◌else◌, ◌>>=◌, ◌⊎◌,
  inl, inr,
}
use runtime_bridge.Prelude.Int.{ℤ, pos, ◌+ℤ◌, ◌-ℤ◌, eqb_ℤ}
use runtime_bridge.DataProvider.Store.{WindowData, ParentBlock, ParaBlock, Wire}
use runtime_bridge.DataProvider.Window.{Db, get_window, set_empty_window, last}
use runtime_bridge.DataProvider.Window.Progress.{
  set_last_committed_para_block, set_last_committed_para_block_batch,
  set_last_committed_parent_block, set_dry_para_block_range, set_range_para_block_buffer,
}
use runtime_bridge.DataProvider.Blob.{Genesis, Chain, Context, Walk, one, walk_with}

module _ (wire : Wire) (chain : Chain wire.Bytes) where
  open wire use {Bytes}

  -- One call of `walkBlock`.
  unfoldable pub walk_block_once : Walk Bytes → Option ((WindowData × Db wire) ⊎ Walk Bytes)
  walk_block_once s = do
    parent ← chain.parents s.parent_number
    para ← chain.paras s.para_number
    walk_with wire parent para s

  -- What comes after a call, given the rest of the walk.
  abbrev pub continue_walk :
      (Walk Bytes → Option (WindowData × Db wire))
      → (WindowData × Db wire) ⊎ Walk Bytes
      → Option (WindowData × Db wire)
  continue_walk rest (inl done) = some done
  continue_walk rest (inr s) = rest s

  unfoldable pub walk_block : ℕ → Walk Bytes → Option (WindowData × Db wire)
  unfolding walk_block_once
  walk_block zero s = none
  walk_block (suc fuel) s = let rest = walk_block fuel in walk_block_once s >>= continue_walk rest

  -- `paraStartBlock` of the window after `lastWindow`
  abbrev pub next_para_start : WindowData → ℤ
  next_para_start w =
      if eqb_ℤ w.para_start_block w.para_stop_block
      then w.para_stop_block
      else w.para_stop_block +ℤ one

  -- The first parent and para block of a window that is not stored yet, and the block before it,
  -- which is waited for in the first window only. A missing genesis or last window is a throw.
  unfoldable pub new_window_start :
      ℤ → Option WindowData → Option (ℤ × (ℤ × Option (ParentBlock Bytes)))
  new_window_start id last_window =
      if eqb_ℤ id (pos 0)
      then (chain.genesis >>= λ g. chain.parents g.parent_number >>= λ b.
          some (g.parent_number +ℤ one, (g.para_number +ℤ one, some b)))
      else (last_window >>= λ w. some (w.parent_stop_block +ℤ one, (next_para_start w, none)))

  abbrev pub walk_from : WindowData → ℤ → ℤ → Option (ParentBlock Bytes) → Db wire → Walk Bytes
  walk_from w parent_start para_start last_parent db = record {
    current_window = w;
    parent_number = parent_start;
    para_number = para_start;
    context = record {
      parent_start_block = parent_start;
      para_start_block = para_start;
      para_blocks = [];
      parent_blocks = [];
      acc_para_blocks = [];
      acc_parent_blocks = [];
    };
    para_ranges = [];
    last_parent_block = last_parent;
    db = db;
  }

  -- The walk of a window that is not finished: of the stored one, or of a new one.
  unfoldable pub start_window :
      ℤ → Option WindowData → Db wire → Option WindowData → Option (Walk Bytes)
  unfolding new_window_start
  start_window id last_window db (some w) =
      some (walk_from w w.parent_start_block w.para_start_block none db)
  start_window id last_window db none = new_window_start id last_window >>= λ s.
      let created = set_empty_window wire id s.0 s.1.0 db in
      some (walk_from created.0 s.0 s.1.0 s.1.1 created.1)

  abbrev pub is_finished : Option WindowData → Bool
  is_finished none = false
  is_finished (some w) = w.is_finished

  -- `walkWindow`
  unfoldable pub walk_window : ℕ → ℤ → Option WindowData → Db wire → Option (WindowData × Db wire)
  unfolding walk_block start_window
  walk_window fuel id last_window db =
      let stored = get_window wire id db in
      if is_finished stored
      then (stored >>= λ w. some (w, db))
      else (start_window id last_window db stored >>= λ s. walk_block fuel s >>= λ done.
          some (
            done.0,
            set_last_committed_parent_block wire (done.0.parent_start_block -ℤ one) done.1,
          ))

  -- `walkParaBlock`
  unfoldable pub walk_para_block : ℤ → Db wire → Option (Db wire)
  walk_para_block n db = chain.paras n >>= λ block.
      some (set_last_committed_para_block wire (n -ℤ one) (set_dry_para_block_range wire block db))

  -- The blocks that `walkParaBlockBatch` collects, `count` of them.
  unfoldable pub collect : ℕ → ℤ → Option (List (ParaBlock Bytes))
  collect zero n = some []
  collect (suc count) n =
      let rest = collect count (n +ℤ one) in chain.paras n >>= λ b. rest >>= λ bs. some (b ∷ bs)

  -- `walkParaBlockBatch` with `BLOB_MAX_PARA_BLOCK_RANGE_COUNT`, which the environment sets. Its
  -- `getParaBlockRange(number)` is a promise, not awaited, so that `meta.bufferKey` is undefined
  -- and the stored range is never used.
  unfoldable pub walk_para_block_batch : ℕ → ℤ → Db wire → Option (ℤ × Db wire)
  unfolding collect
  walk_para_block_batch max_count n db = do
    blocks ← collect max_count n
    stop ← last blocks
    db' ← set_range_para_block_buffer wire blocks db
    some (stop.number, set_last_committed_para_block_batch wire stop.number db')
