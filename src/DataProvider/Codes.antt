-- ===== src/DataProvider/Codes.antt =====
-- Concrete encodings and a concrete chain for the scenarios of src/data_provider.
use runtime_bridge.Prelude.{ℕ, refl, true, false, Option, none, some, [], if◌then◌else◌}
use runtime_bridge.Prelude.Int.{ℤ, pos, ◌+ℤ◌, ltb_ℤ}
use runtime_bridge.DataProvider.Store.{
  range_by_parent_block, WindowData, RangeMeta, ParentBlock, ParaBlock, BlockRange, Wire,
}
use runtime_bridge.DataProvider.Window.{Db}
use runtime_bridge.DataProvider.Blob.{Chain}

-- Encodings that keep what is decoded again, and tell the rest apart by a tag.
pub data Code : Type 0 where
  window_code : WindowData → Code
  range_code : RangeMeta → Code
  json_code : BlockRange → Code
  number_code : ℤ → Code
  tag : ℕ → Code

abbrev pub no_window : WindowData
no_window = record {
  window_id = pos 0;
  parent_start_block = pos 101;
  parent_stop_block = pos 0;
  para_start_block = pos 7;
  para_stop_block = pos 0;
  set_id = pos 1;
  stop_block = pos 0;
  is_finished = false;
}

abbrev pub no_range : RangeMeta
no_range = record {
  parent_start_block = pos 0;
  parent_stop_block = pos 0;
  para_start_block = pos 0;
  para_stop_block = pos 0;
  parent_range = [];
  para_range = [];
  dry_sync_header_req_key = range_by_parent_block (pos 0);
  latest_set_id = pos 0;
  blob_parent_stop_block = none;
  blob_para_stop_block = none;
  blob_sync_header_req_key = none;
}

abbrev pub no_block_range : BlockRange
no_block_range = record { buffer_key = none; first_block_number = pos 0; last_block_number = pos 0 }

abbrev pub to_window : Code → WindowData
to_window (window_code w) = w
to_window _ = no_window

abbrev pub to_range : Code → RangeMeta
to_range (range_code r) = r
to_range _ = no_range

abbrev pub to_json : Code → BlockRange
to_json (json_code r) = r
to_json _ = no_block_range

abbrev pub to_number : Code → Option ℤ
to_number (number_code n) = some n
to_number _ = none

abbrev pub codes : Wire
codes = record {
  Bytes = Code;
  encode_window = window_code;
  decode_window = to_window;
  encode_range = range_code;
  decode_range = to_range;
  encode_req = λ r. tag 1;
  encode_blocks = λ bs. tag 2;
  encode_json_range = json_code;
  decode_json_range = to_json;
  encode_number = number_code;
  parse_number = to_number;
  mark = tag 0;
  window_law = λ w. refl;
  range_law = λ r. refl;
  json_range_law = λ r. refl;
  number_law = λ n. refl;
}

-- The parent blocks from 102 on have the next set id; all of them name para block 7.
abbrev pub parent_block : ℤ → ParentBlock Code
parent_block n = record {
  number = n;
  set_id = if ltb_ℤ (pos 101) n then pos 2 else pos 1;
  has_justification = true;
  para_number = pos 7;
  header = tag 10;
  sync_header_data = tag 11;
  authority_set_change = tag 12;
  para_proof = tag 13;
}

abbrev pub para_block : ℤ → ParaBlock Code
para_block n = record { number = n; header = tag 20; dispatch_block_data = tag 21 }

abbrev pub chain : Chain Code
chain = record {
  parents = λ n. some (parent_block n);
  paras = λ n. some (para_block n);
  genesis = none;
}

abbrev pub no_db : Db codes
no_db k = none

abbrev pub window_parent : ℕ → ParentBlock Code
window_parent i = parent_block (pos 101 +ℤ pos i)
