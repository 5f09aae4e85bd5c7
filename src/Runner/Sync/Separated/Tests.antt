-- ===== src/Runner/Sync/Separated/Tests.antt =====
-- separated_sync.js with a worker that is one block behind: two schedules, and the theorem applied.
use runtime_bridge.Prelude.{ℕ, ◌≡◌, ◌⊎◌, refl, ◌-◌, false, some, List, [], ◌∷◌, ◌++◌}
use runtime_bridge.Prelude.Int.{pos}
use runtime_bridge.Runner.Sync.{
  Info, ok, fails, resolved, World, stop_sync, do_reject, await, note_dispatched,
}
use runtime_bridge.Runner.Sync.Kept.{IsPending, IsFinished}
use runtime_bridge.Runner.Sync.Separated.{
  Turn, of_headers, of_blocks, header_side, block_side, turn, take_turn, run, started,
}
use runtime_bridge.Runner.Sync.Separated.Settling.{IsAt, run-StaysSettled}

abbrev world : World ℕ
world = record {
  fetch_status = λ i. record {
    parent_processed_height = pos 10;
    parent_committed_height = pos 10;
    para_fetched_height = pos 10;
    para_processed_height = pos 8;
    para_committed_height = pos 8;
  };
  stops = λ i. false;
  get_header_blob = λ i n c p. ok (some (n ∷ []));
  get_para_block_blob = λ i n to c. ok (some (n ∷ []));
  sync_combined_headers = λ i bytes. ok (elim bytes [ [] ↦ (0, 0) | n ∷ _ ↦ (n, n - 2) ]);
  dispatch_block = λ i bytes. ok (elim bytes [ [] ↦ 0 | n ∷ _ ↦ n ]);
  update_info = λ i. fails 1;
}

abbrev info : Info
info = record { headernum = 10; para_headernum = 9; blocknum = 8 }

-- The blocks wait until the headers are there.
abbrev turns : List Turn
turns =
    of_blocks ∷ of_headers ∷ of_blocks ∷ of_headers ∷ of_headers ∷ of_blocks ∷ of_blocks ∷ of_blocks
    ∷ []

resolves_at_8 : (run world turns (started info)).sync.settled ≡ resolved 8 ∷ []
unfolding run take_turn turn header_side block_side await do_reject stop_sync note_dispatched
resolves_at_8 = refl

run-StaysSettled_example :
    (IsPending (run world turns (started info)).sync
      ⊎ (IsFinished (run world turns (started info)).sync
          × ((run world (turns ++ turns) (started info)).sync.settled
              ≡ (run world turns (started info)).sync.settled)))
    × IsAt world (run world turns (started info)).headers_at (run world turns (started info)).sync
    × IsAt world (run world turns (started info)).blocks_at (run world turns (started info)).sync
run-StaysSettled_example = run-StaysSettled world turns turns info
