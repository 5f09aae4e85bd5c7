-- ===== src/DataProvider/Window.antt =====
-- src/data_provider/io/window.js: windows, dry ranges, blob ranges and progress marks in the local
-- database. A batch write is atomic. `none` is a throw.
pub mod Blobs
pub mod Progress
pub mod Ranges
use mathlib.Core.List
use runtime_bridge.Prelude.{
  ℕ, Bool, true, false, Option, none, some, List, [], ◌∷◌, ◌++◌, map, if◌then◌else◌, ◌>>=◌,
}
use runtime_bridge.Prelude.Int.{ℤ, pos, minus_one}
use runtime_bridge.DataProvider.Store.{
  Suffix, Key, window, range_by_parent_block, range_by_para_block, dry_para_block, range_para_key,
  range_para_buffer, range_written, dry_sync_header, blob_range_committed, blob_range_req,
  last_committed_para_block, last_committed_para_block_batch, last_committed_parent_block,
  WindowData, RangeMeta, ParentBlock, ParaBlock, HeaderToSync, encoded, unjustified, SyncReq,
  BlockRange, Wire, put, exists,
}

-- `xs[xs.length - 1]` and `xs[0]`
abbrev pub last {ℓ} : {A : Type ℓ} → List A → Option A
last [] = none
last (x ∷ []) = some x
last (x ∷ y ∷ ys) = last (y ∷ ys)

abbrev pub first {ℓ} : {A : Type ℓ} → List A → Option A
first [] = none
first (x ∷ xs) = some x

module _ (wire : Wire) where
  open wire use {Bytes}

  abbrev pub Db : Type 0
  Db = Key → Option Bytes

  -- `getWindow`
  unfoldable pub get_window : ℤ → Db → Option WindowData
  get_window id db = db (window id) >>= λ buffer. some (wire.decode_window buffer)

  -- `createWindow`, which returns what it stored.
  unfoldable pub create_window : ℤ → WindowData → Db → WindowData × Db
  create_window id w db = (w, put (window id) (wire.encode_window w) db)

  unfoldable pub set_empty_window : ℤ → ℤ → ℤ → Db → WindowData × Db
  unfolding create_window
  set_empty_window id parent_start para_start db =
      create_window id
        (record {
          window_id = id;
          parent_start_block = parent_start;
          parent_stop_block = minus_one;
          para_start_block = para_start;
          para_stop_block = minus_one;
          set_id = minus_one;
          stop_block = minus_one;
          is_finished = false;
        })
        db

  -- `updateWindow` of a window object; `change` is `Object.assign` of the data.
  unfoldable pub update_window : WindowData → (WindowData → WindowData) → Db → WindowData × Db
  update_window w change db =
      let w' = change w in (w', put (window w.window_id) (wire.encode_window w') db)

  unfoldable pub get_range_by_parent_number : ℤ → Db → Option RangeMeta
  get_range_by_parent_number n db =
      db (range_by_parent_block n) >>= λ buffer. some (wire.decode_range buffer)

  unfoldable pub get_range_by_para_number : ℤ → Db → Option RangeMeta
  get_range_by_para_number n db =
      db (range_by_para_block n) >>= λ buffer. some (wire.decode_range buffer)

  -- The request of a dry range, whose last parent block is `stop`.
  unfoldable pub dry_req :
      ParentBlock Bytes → List (ParaBlock Bytes) → List (ParentBlock Bytes) → Bool → SyncReq Bytes
  dry_req stop para_blocks parent_blocks set_id_changed = record {
    relaychain_headers = map (λ (b : ParentBlock Bytes). encoded b.sync_header_data) parent_blocks;
    authority_set_change = if set_id_changed then some stop.authority_set_change else none;
    parachain_headers = map (λ (b : ParaBlock Bytes). b.header) para_blocks;
    proof = elim para_blocks [ [] ↦ none | b ∷ bs ↦ some stop.para_proof ];
  }

  abbrev pub para_stop_of : Option (ParaBlock Bytes) → ℤ
  para_stop_of none = minus_one
  para_stop_of (some b) = b.number

  abbrev pub dry_suffix : ℤ → ℤ → List (ParaBlock Bytes) → ParentBlock Bytes → Suffix
  dry_suffix parent_start para_start para_blocks stop = record {
    parent_start = parent_start;
    parent_stop = stop.number;
    para_start = para_start;
    para_stop = para_stop_of (last para_blocks);
  }

  abbrev pub dry_meta :
      ℤ → ℤ → List (ParaBlock Bytes) → List (ParentBlock Bytes) → ℤ → ParentBlock Bytes → RangeMeta
  dry_meta parent_start para_start para_blocks parent_blocks latest_set_id stop = record {
    parent_start_block = parent_start;
    parent_stop_block = stop.number;
    para_start_block = para_start;
    para_stop_block = para_stop_of (last para_blocks);
    parent_range = map (λ (b : ParentBlock Bytes). b.number) parent_blocks;
    para_range = map (λ (b : ParaBlock Bytes). b.number) para_blocks;
    dry_sync_header_req_key = dry_sync_header (dry_suffix parent_start para_start para_blocks stop);
    latest_set_id = latest_set_id;
    blob_parent_stop_block = none;
    blob_para_stop_block = none;
    blob_sync_header_req_key = none;
  }

  -- The batch of `setDryRange`: the second index entry has the parent's start in its key, too.
  unfoldable pub write_dry_range : Suffix → RangeMeta → SyncReq Bytes → Db → Db
  write_dry_range suffix meta req db = put (range_written suffix) wire.mark (
      put (range_by_para_block meta.parent_start_block) (wire.encode_range meta) (
        put (range_by_parent_block meta.parent_start_block) (wire.encode_range meta)
          (put (dry_sync_header suffix) (wire.encode_req req) db)))

  -- `setDryRange`, given the last parent block.
  unfoldable pub set_dry_range_to :
      ParentBlock Bytes
      → ℤ
      → ℤ
      → List (ParaBlock Bytes)
      → List (ParentBlock Bytes)
      → ℤ
      → Bool
      → Db
      → RangeMeta × Db
  unfolding write_dry_range dry_req
  set_dry_range_to stop parent_start para_start para_blocks parent_blocks set_id changed db =
      let suffix = dry_suffix parent_start para_start para_blocks stop in
      let meta = dry_meta parent_start para_start para_blocks parent_blocks set_id stop in
      if exists db (range_written suffix)
      then (meta, db)
      else (meta, write_dry_range suffix meta (dry_req stop para_blocks parent_blocks changed) db)

  unfoldable pub set_dry_range :
      ℤ
      → ℤ
      → List (ParaBlock Bytes)
      → List (ParentBlock Bytes)
      → ℤ
      → Bool
      → Db
      → Option (RangeMeta × Db)
  unfolding set_dry_range_to
  set_dry_range parent_start para_start para_blocks parent_blocks set_id changed db =
      last parent_blocks >>= λ stop.
      some
        (set_dry_range_to stop parent_start para_start para_blocks parent_blocks set_id changed db)

  -- The headers of a blob: all but the last one without justification.
  abbrev pub blob_headers : List (ParentBlock Bytes) → List (HeaderToSync Bytes)
  blob_headers [] = []
  blob_headers (b ∷ []) = encoded b.sync_header_data ∷ []
  blob_headers (b ∷ c ∷ bs) = unjustified b.header ∷ blob_headers (c ∷ bs)

  unfoldable pub blob_req :
      ParentBlock Bytes → List (ParentBlock Bytes) → List (ParaBlock Bytes) → SyncReq Bytes
  blob_req stop parent_blocks para_blocks = record {
    relaychain_headers = blob_headers parent_blocks;
    authority_set_change = some stop.authority_set_change;
    parachain_headers = map (λ (b : ParaBlock Bytes). b.header) para_blocks;
    proof = some stop.para_proof;
  }

  abbrev pub with_blob : Suffix → RangeMeta → RangeMeta
  with_blob suffix meta = record meta {
    blob_parent_stop_block = some suffix.parent_stop;
    blob_para_stop_block = some suffix.para_stop;
    blob_sync_header_req_key = some (blob_range_req suffix);
  }

  -- The loop over the parent blocks: it reads the database `db` and writes to the batch, which is
  -- here the database to come.
  abbrev pub put_blob_meta : Suffix → ℤ → Option Bytes → Db → Db
  put_blob_meta suffix n none batch = batch
  put_blob_meta suffix n (some buffer) batch =
      put (range_by_parent_block n)
        (wire.encode_range (with_blob suffix (wire.decode_range buffer))) batch

  unfoldable pub mark_blob_ranges : Suffix → List (ParentBlock Bytes) → Db → Db → Db
  mark_blob_ranges suffix [] db batch = batch
  mark_blob_ranges suffix (b ∷ bs) db batch =
      mark_blob_ranges suffix bs db
        (put_blob_meta suffix b.number (db (range_by_parent_block b.number)) batch)

  abbrev pub blob_suffix : ℤ → ℤ → ℤ → ℤ → List (ParaBlock Bytes) → Suffix
  blob_suffix parent_start parent_stop para_start para_stop para_blocks = record {
    parent_start = parent_start;
    parent_stop = parent_stop;
    para_start = elim para_blocks [ [] ↦ minus_one | b ∷ bs ↦ para_start ];
    para_stop = elim para_blocks [ [] ↦ minus_one | b ∷ bs ↦ para_stop ];
  }

  -- `commitBlobRange`, given its key suffix: the batch, and then the mark. Its emptying of the two
  -- accumulated lists is left to the caller, which drops them.
  unfoldable pub commit_blob_range :
      Suffix → List (ParentBlock Bytes) → List (ParaBlock Bytes) → Db → Option Db
  unfolding mark_blob_ranges blob_req
  commit_blob_range suffix parent_blocks para_blocks db =
      if exists db (blob_range_committed suffix)
      then some db
      else (last parent_blocks >>= λ stop. some (
          put (blob_range_committed suffix) wire.mark (
            put (blob_range_req suffix) (wire.encode_req (blob_req stop parent_blocks para_blocks))
              (mark_blob_ranges suffix parent_blocks db db))))
