-- ===== src/Runner/Sync/Single/Tests.antt =====
-- single_sync.js with a worker that is two blocks behind, and the theorems applied to it.
use runtime_bridge.Prelude.{
  ℕ, ◌≡◌, ◌≤◌, ◌⊎◌, refl, ◌-◌, ◌==◌, true, false, none, some, [], ◌∷◌, arith, if◌then◌else◌, leb,
}
use runtime_bridge.Prelude.Int.{pos, ◌-ℤ◌}
use runtime_bridge.Iterate.{
  done, iterate, process, call_item, after_call, after_handler, after_item, on_yield,
}
use runtime_bridge.Runner.Sync.{
  Info, ok, fails, resolved, World, Sync, top, stop_sync, do_reject, await, note_dispatched,
  note_headers,
}
use runtime_bridge.Runner.Sync.Single.{
  Result, start_sync, do_incremental_header_sync, do_batch_header_sync, difference_sync,
  sync_iterator, callbacks, run,
}
use runtime_bridge.Runner.Sync.Kept.{IsPending, IsFinished}
use runtime_bridge.Runner.Sync.Single.Promise.{run-IsSettled}
use runtime_bridge.Runner.Sync.Single.CatchUp.{IsProgressing}
use runtime_bridge.Runner.Sync.Single.Serving.{IsServing, difference_sync-CatchesUp}

-- A blob of a block is its number, and a dispatch gets to it; a blob of headers is the relay chain's
-- number, and the worker's para headers follow two behind.
abbrev world : World ℕ
world = record {
  fetch_status = λ i. record {
    parent_processed_height = pos 100;
    parent_committed_height = pos 100;
    para_fetched_height = pos 100;
    para_processed_height = pos 8;
    para_committed_height = pos 8;
  };
  stops = λ i. false;
  get_header_blob = λ i n c p. if leb 12 n then ok none else ok (some (n ∷ []));
  get_para_block_blob = λ i n to c. ok (some (n ∷ []));
  sync_combined_headers = λ i blob. ok (elim blob [ [] ↦ (0, 0) | n ∷ _ ↦ (n, n - 2) ]);
  dispatch_block = λ i blob. ok (elim blob [ [] ↦ 0 | n ∷ _ ↦ n ]);
  update_info = λ i. fails 1;
}

abbrev stopped : World ℕ
stopped = record world { stops = λ i. i == 8 }

abbrev info : Info
info = record { headernum = 10; para_headernum = 9; blocknum = 7 }

abbrev behind : Sync ℕ
behind = start_sync info

world-IsProgressing : IsProgressing world
unfolding IsProgressing
world-IsProgressing i j n to c blob d e f = ground arith

world-IsServing : IsServing world
world-IsServing = record {
  stays = λ i. refl;
  blob = λ i n to c. (n, [], refl);
  dispatched = λ j bytes. (_, refl);
}

difference_sync-CatchesUp_example :
    (r : Result world) × (difference_sync world 3 behind ≡ some r)
    × (r.0 ≡ done)
    × (r.1.para_header_sync_number ≤ r.1.para_block_sync_number)
difference_sync-CatchesUp_example =
    difference_sync-CatchesUp world 3 behind world-IsProgressing world-IsServing refl (omega arith)

-- Resolved when block 8 is dispatched, stopped at the ninth await.
abbrev last : Sync ℕ
last = record {
  should_stop = true;
  has_stop_sync = false;
  should_stop_update_info = false;
  sync_status = record {
    parent_header_synched_to = pos 11;
    para_header_synched_to = pos 9;
    para_block_dispatched_to = pos 9;
  };
  synched_to_target_finished = true;
  settled = resolved 8 ∷ [];
  header_sync_number = 12;
  para_header_sync_number = 10;
  para_block_sync_number = 10;
  awaits = 10;
  stage = top;
}

runs : run stopped 3 20 info ≡ some (done, last)
unfolding run iterate callbacks sync_iterator on_yield process call_item after_call after_handler
    after_item do_incremental_header_sync do_batch_header_sync difference_sync await stop_sync
    do_reject note_dispatched note_headers ◌-ℤ◌
runs = refl

run-IsSettled_example : (IsPending last ⊎ IsFinished last) × (last.should_stop ≡ true)
run-IsSettled_example = run-IsSettled stopped 3 20 info (done, last) runs
