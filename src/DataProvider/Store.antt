-- ===== src/DataProvider/Store.antt =====
-- The local database behind src/data_provider/io: keys, blocks and the encodings of values. The
-- database maps keys to bytes; a key is a case for each template string of the program, with the
-- numbers that it inserts. Protocol buffers, SCALE and JSON are a parameter, `Wire`, with the law
-- that what is encoded decodes to itself.
use mathlib.Core.Logic.{ite, if_pos, if_neg}
use runtime_bridge.Prelude.{◌≡◌, ◌≢◌, refl, Bool, true, false, Option, none, some, List}
use runtime_bridge.Prelude.Int.{ℤ, ℤ-discrete}

-- `${parentStartBlock}:${parentStopBlock}:${paraStartBlock}:${paraStopBlock}`
pub record Suffix : Type 0 where
  pub parent_start : ℤ
  pub parent_stop : ℤ
  pub para_start : ℤ
  pub para_stop : ℤ

pub data Key : Type 0 where
  window range_by_parent_block range_by_para_block dry_para_block range_para_key range_para_buffer :
      ℤ → Key
  range_written dry_sync_header blob_range_committed blob_range_req : Suffix → Key
  last_committed_para_block last_committed_para_block_batch last_committed_parent_block : Key

unfoldable pub Suffix-discrete : Discrete Suffix
Suffix-discrete = hlevel ℤ-discrete

unfoldable pub Key-discrete : Discrete Key
Key-discrete = hlevel (ℤ-discrete, Suffix-discrete)

-- `prb.db.Window`
pub record WindowData : Type 0 where
  pub window_id : ℤ
  pub parent_start_block : ℤ
  pub parent_stop_block : ℤ
  pub para_start_block : ℤ
  pub para_stop_block : ℤ
  pub set_id : ℤ
  pub stop_block : ℤ
  pub is_finished : Bool

-- `prb.db.RangeMeta`; the blob fields are written by `commitBlobRange`.
pub record RangeMeta : Type 0 where
  pub parent_start_block : ℤ
  pub parent_stop_block : ℤ
  pub para_start_block : ℤ
  pub para_stop_block : ℤ
  pub parent_range : List ℤ
  pub para_range : List ℤ
  pub dry_sync_header_req_key : Key
  pub latest_set_id : ℤ
  pub blob_parent_stop_block : Option ℤ
  pub blob_para_stop_block : Option ℤ
  pub blob_sync_header_req_key : Option Key

-- Blocks as they are read from the database, with their SCALE fields as bytes.
pub record ParentBlock (Bytes : Type 0) : Type 0 where
  pub number : ℤ
  pub set_id : ℤ
  pub has_justification : Bool
  pub para_number : ℤ
  pub header : Bytes
  pub sync_header_data : Bytes
  pub authority_set_change : Bytes
  pub para_proof : Bytes

pub record ParaBlock (Bytes : Type 0) : Type 0 where
  pub number : ℤ
  pub header : Bytes
  pub dispatch_block_data : Bytes

-- An element of 'Vec<HeaderToSync>': an encoded one, or a header with no justification.
pub data HeaderToSync (Bytes : Type 0) : Type 0 where
  encoded : Bytes → HeaderToSync Bytes
  unjustified : Bytes → HeaderToSync Bytes

-- 'SyncCombinedHeadersReq'; a missing change or proof is null or [].
pub record SyncReq (Bytes : Type 0) : Type 0 where
  pub relaychain_headers : List (HeaderToSync Bytes)
  pub authority_set_change : Option Bytes
  pub parachain_headers : List Bytes
  pub proof : Option Bytes

-- The first and last block that an index entry names, with the key of the buffer, if it has one.
pub record BlockRange : Type 0 where
  pub buffer_key : Option Key
  pub first_block_number : ℤ
  pub last_block_number : ℤ

pub record Wire : Type 1 where
  pub Bytes : Type 0
  pub encode_window : WindowData → Bytes
  pub decode_window : Bytes → WindowData
  pub encode_range : RangeMeta → Bytes
  pub decode_range : Bytes → RangeMeta
  pub encode_req : SyncReq Bytes → Bytes
  pub encode_blocks : List Bytes → Bytes  -- 'Vec<BlockHeaderWithChanges>'
  pub encode_json_range : BlockRange → Bytes
  pub decode_json_range : Bytes → BlockRange
  pub encode_number : ℤ → Bytes
  pub parse_number : Bytes → Option ℤ  -- `none` is NaN
  pub mark : Bytes  -- `Buffer.from([1])`
  pub window_law : (w : WindowData) → decode_window (encode_window w) ≡ w
  pub range_law : (r : RangeMeta) → decode_range (encode_range r) ≡ r
  pub json_range_law : (r : BlockRange) → decode_json_range (encode_json_range r) ≡ r
  pub number_law : (n : ℤ) → parse_number (encode_number n) ≡ some n

module _ {Bytes : Type 0} where
  unfoldable pub put : Key → Bytes → (Key → Option Bytes) → Key → Option Bytes
  put k v db j = ite (Key-discrete j k) (some v) (db j)

  -- `getKeyExistence`
  abbrev pub exists : (Key → Option Bytes) → Key → Bool
  exists db k = elim (db k) [ none ↦ false | some v ↦ true ]

  pub put_self : (k : Key) (v : Bytes) (db : Key → Option Bytes) → put k v db k ≡ some v
  unfolding put
  put_self k v db = if_pos _ refl (some v) (db k)

  pub put_ne : (k j : Key) (v : Bytes) (db : Key → Option Bytes) → j ≢ k → put k v db j ≡ db j
  unfolding put
  put_ne k j v db h = if_neg _ h (some v) (db j)
