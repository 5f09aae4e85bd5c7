-- ===== src/DataProvider/Heights.antt =====
-- src/data_provider/ipc.ts and index.ts: the heights that the data provider reports. Three processes
-- send their progress, and the messages of different processes arrive in any order.
pub mod Order
pub mod Tests
use runtime_bridge.Prelude.{ℕ, Bool, true, false, ◌==◌, ◌&&◌, List, [], ◌∷◌, if◌then◌else◌}
use runtime_bridge.Prelude.Int.{ℤ, pos, ltb_ℤ, ◌-ℤ◌, minus_one}

-- The keys of `info` that messages update.
pub data Height : Type 0 where
  parent_target parent_fetched_height parent_processed_height parent_committed_height para_target
        para_fetched_height para_processed_height para_committed_height :
      Height

abbrev pub height_code : Height → ℕ
height_code parent_target = 0
height_code parent_fetched_height = 1
height_code parent_processed_height = 2
height_code parent_committed_height = 3
height_code para_target = 4
height_code para_fetched_height = 5
height_code para_processed_height = 6
height_code para_committed_height = 7

abbrev pub Heights : Type 0
Heights = Height → ℤ

-- `info` at the start.
abbrev pub no_heights : Heights
no_heights k = minus_one

abbrev pub raised : ℤ → ℤ → ℤ
raised old num = if ltb_ℤ old num then num else old

-- `updateNumber`
unfoldable pub update_number : Height → ℤ → Heights → Heights
update_number key num info k =
    if height_code k == height_code key then raised (info k) num else info k

-- The handlers of the messages `set…`, in the order in which they arrive.
unfoldable pub handle_messages : List (Height × ℤ) → Heights → Heights
unfolding update_number
handle_messages [] info = info
handle_messages ((key, num) ∷ messages) info = handle_messages messages (update_number key num info)

pub data Status : Type 0 where
  s_idle s_synching : Status

abbrev pub min_synched_distance : ℤ
min_synched_distance = pos 3

-- The getter `status`
unfoldable pub status : Heights → Status
status info =
    if ltb_ℤ (info para_target -ℤ info para_processed_height) min_synched_distance
      && ltb_ℤ (info parent_target -ℤ info parent_processed_height) min_synched_distance
    then s_idle
    else s_synching
