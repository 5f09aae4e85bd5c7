-- ===== src/DataProvider/Scenarios.antt =====
-- src/data_provider at concrete blocks: a window of two parent blocks, with one para block.
use runtime_bridge.Prelude.{
  ℕ, zero, suc, ◌≡◌, ◌<◌, ◌≢◌, refl, true, false, none, some, List, [], ◌∷◌, arith, Settles,
}
use runtime_bridge.Prelude.Int.{ℤ, pos, ◌+ℤ◌}
use runtime_bridge.DataProvider.Store.{
  window, Suffix, range_by_parent_block, range_para_buffer, WindowData, RangeMeta, ParentBlock,
  ParaBlock, SyncReq, put, put_self,
}
use runtime_bridge.DataProvider.Window.{get_window, Db}
use runtime_bridge.DataProvider.Window.Progress.{
  get_para_block_range, get_last_committed_para_block_batch,
}
use runtime_bridge.DataProvider.Window.Ranges.{set_here, req_here}
use runtime_bridge.DataProvider.Blob.{set_id_grown}
use runtime_bridge.DataProvider.Blob.Loop.{
  walk_window, walk_block, walk_from, walk_para_block_batch,
}
use runtime_bridge.DataProvider.Blob.Loop.Cached.{walk_window-resumes}
use runtime_bridge.DataProvider.Blob.Loop.Windows.{Ends, last_before, walk_block-finishes}
use runtime_bridge.DataProvider.Blob.Loop.Batches.{walk_para_block_batch-get_para_block_range}
use runtime_bridge.DataProvider.Codes.{
  window_code, Code, range_code, tag, no_window, no_range, codes, para_block, chain, no_db,
  window_parent,
}

seven_ne : pos 7 ≢ pos 101
seven_ne = ground arith

not_101 : pos 200 ≢ pos 101
not_101 = ground arith

not_102 : pos 200 ≢ pos 102
not_102 = ground arith

impossible : (i : ℕ) → ¬ (suc i < 1)
impossible i h = omega arith

same_set :
    (i : ℕ)
    → i < 1
    → set_id_grown (window_parent i) (last_before codes chain no_window window_parent para_block i)
      ≡ false
unfolding last_before
same_set zero h = refl
same_set (suc i) h = elim (impossible i h) [ ]

next_set :
    set_id_grown (window_parent 1) (last_before codes chain no_window window_parent para_block 1)
    ≡ true
unfolding last_before ◌+ℤ◌
next_set = refl

walk_block-finishes_example :
    Settles
      (Ends codes chain no_window window_parent para_block 1)
      (walk_block codes chain 2 (walk_from codes chain no_window (pos 101) (pos 7) none no_db))
walk_block-finishes_example =
    walk_block-finishes codes chain no_window window_parent para_block 1 (λ i h. refl) (λ i. refl)
      (λ n. refl) (λ n. refl) same_set next_set no_db

-- The window is stored, unfinished, and its walk is taken up again.
abbrev window_db : Db codes
window_db = put (window (pos 0)) (window_code no_window) no_db

stored_window : get_window codes (pos 0) window_db ≡ some no_window
unfolding get_window
stored_window = rw put_self

walk_window-resumes_example :
    Settles
      (λ (d : WindowData × Db codes).
        (d.0.parent_stop_block ≡ pos 102)
        × ((d.0.is_finished ≡ true) × (walk_window codes chain 1 (pos 0) none d.1 ≡ some d)))
      (walk_window codes chain 2 (pos 0) none window_db)
unfolding ◌+ℤ◌
walk_window-resumes_example =
    walk_window-resumes codes chain no_window window_parent para_block 1 (λ i h. refl) (λ i. refl)
      (λ n. refl) (λ n. refl) same_set next_set none window_db 1 stored_window refl

walk_para_block_batch-get_para_block_range_example :
    Settles
      (λ (r : ℤ × Db codes).
        (r.0 ≡ pos 9)
        × ((get_para_block_range codes (pos 7) r.1
              ≡ some (record {
                buffer_key = some (range_para_buffer (pos 7));
                first_block_number = pos 7;
                last_block_number = pos 9;
              }))
            × ((r.1 (range_para_buffer (pos 7)) ≡ some (tag 2))
                × (get_last_committed_para_block_batch codes r.1 ≡ pos 9))))
      (walk_para_block_batch codes chain 3 (pos 7) no_db)
unfolding ◌+ℤ◌
walk_para_block_batch-get_para_block_range_example =
    walk_para_block_batch-get_para_block_range codes chain para_block (λ n. refl) (λ n. refl) 2
      (pos 7) no_db

-- A dry range of the window's two parent blocks.
abbrev two_parents : List (ParentBlock Code)
two_parents = window_parent 0 ∷ window_parent 1 ∷ []

abbrev seven : List (ParaBlock Code)
seven = para_block (pos 7) ∷ []

abbrev stored_range : RangeMeta × Db codes
stored_range =
    set_here codes (window_parent 1) (pos 101) (pos 7) seven two_parents (pos 2) true no_db

abbrev stored_req : SyncReq Code
stored_req = req_here codes (window_parent 1) (pos 101) (pos 7) seven two_parents (pos 2) true

abbrev blob : Suffix
blob = record {
  parent_start = pos 101;
  parent_stop = pos 102;
  para_start = pos 7;
  para_stop = pos 7;
}

-- A database with the range of parent block 101 alone.
abbrev one_range : Db codes
one_range = put (range_by_parent_block (pos 101)) (range_code no_range) no_db
