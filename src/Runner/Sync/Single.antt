-- ===== src/Runner/Sync/Single.antt =====
-- single_sync.js: one loop that synchs headers and blocks in turn.
pub mod Promise
pub mod CatchUp
pub mod Serving
pub mod Batches
pub mod Tests
use runtime_bridge.Prelude.{
  ℕ, zero, suc, ◌≡◌, ◌+◌, ◌-◌, Bool, true, false, not, ◌&&◌, ◌||◌, Option, none, some, List, [],
  ◌∷◌, ◌++◌, if◌then◌else◌, leb, ltb,
}
use runtime_bridge.Prelude.Int.{ℤ, pos, negsuc, leb_ℤ, ltb_ℤ, ◌-ℤ◌}
use runtime_bridge.Iterate.{Outcome, done, threw, Callbacks, Yield, finished, item, iterate}
use runtime_bridge.Runner.Sync.{
  FetchStatus, Info, Answer, ok, fails, SyncStatus, Settled, World, Stage, top, headers, dispatch,
  Sync, stop_sync, do_reject, status, await, note_dispatched, note_headers,
}

-- The state of `startSync` for the worker's first answer.
abbrev pub start_sync : {E : Type 0} → Info → Sync E
start_sync info = record {
  should_stop = false;
  has_stop_sync = true;
  should_stop_update_info = false;
  sync_status = record {
    parent_header_synched_to = pos info.headernum;
    para_header_synched_to = pos info.para_headernum;
    para_block_dispatched_to = pos info.blocknum;
  };
  synched_to_target_finished = false;
  settled = [];
  header_sync_number = info.headernum;
  para_header_sync_number = info.para_headernum;
  para_block_sync_number = info.blocknum;
  awaits = 0;
  stage = top;
}

module _ {E : Type 0} (w : World E) where
  abbrev pub Result : Type 0
  Result = Outcome E × Sync E

  -- `doIncrementalHeaderSync`
  abbrev pub after_headers : Answer E (ℕ × ℕ) → Sync E → Result
  after_headers (fails e) s = (threw e, s)
  after_headers (ok to) s = (done, note_headers w to s)

  abbrev pub after_header_blob : Answer E (Option (List ℕ)) → Sync E → Result
  after_header_blob (fails e) s = (threw e, s)
  after_header_blob (ok none) s = (done, await w s)
  after_header_blob (ok (some blob)) s =
      after_headers (w.sync_combined_headers s.awaits blob) (await w s)

  unfoldable pub do_incremental_header_sync : Sync E → Result
  unfolding await note_headers
  do_incremental_header_sync s =
      if s.should_stop
      then (done, s)
      else after_header_blob
          (w.get_header_blob s.awaits s.header_sync_number (status w s).parent_committed_height
            (pos s.para_header_sync_number))
          (await w s)

  -- `doBatchHeaderSync`, given how often it may still go on
  abbrev pub then_do : (Sync E → Result) → Result → Result
  then_do rest (done, s) = rest s
  then_do rest (threw e, s) = (threw e, s)

  unfoldable pub batch_header_sync : ℕ → Sync E → Result
  unfolding do_incremental_header_sync
  batch_header_sync zero s = (done, s)
  batch_header_sync (suc left) s =
      if s.should_stop
      then (done, s)
      else then_do (batch_header_sync left) (do_incremental_header_sync s)

  unfoldable pub do_batch_header_sync : Sync E → Result
  unfolding batch_header_sync
  do_batch_header_sync = batch_header_sync 5

  -- `doParaBlockDifferenceSync`, on fuel; `none` means that the fuel ran out.
  abbrev pub after_dispatch : (Sync E → Option Result) → Answer E ℕ → Sync E → Option Result
  after_dispatch again (fails e) s = some (threw e, s)
  after_dispatch again (ok to) s =
      let noted = note_dispatched w to s in
      if ltb noted.para_block_sync_number noted.para_header_sync_number
      then again noted
      else some (done, noted)

  abbrev pub after_block_blob :
      (Sync E → Option Result) → Answer E (Option (List ℕ)) → Sync E → Option Result
  after_block_blob again (fails e) s = some (threw e, s)
  after_block_blob again (ok none) s = some (done, await w s)
  after_block_blob again (ok (some [])) s = some (done, await w s)
  after_block_blob again (ok (some (b ∷ bs))) s =
      after_dispatch again (w.dispatch_block s.awaits (b ∷ bs)) (await w s)

  unfoldable pub difference_sync : ℕ → Sync E → Option Result
  unfolding await note_dispatched
  difference_sync zero s = none
  difference_sync (suc fuel) s =
      if s.should_stop
      then some (done, s)
      else if leb s.para_header_sync_number s.para_block_sync_number
      then some (done, s)
      else after_block_blob (difference_sync fuel)
          (w.get_para_block_blob s.awaits s.para_block_sync_number
            s.sync_status.para_header_synched_to (status w s).para_committed_height)
          (await w s)

  -- `syncIterator`
  abbrev pub is_behind : Sync E → Bool
  is_behind s = ltb s.para_block_sync_number s.para_header_sync_number

  abbrev pub is_far_behind : Sync E → Bool
  is_far_behind s =
      ltb_ℤ (pos 15000) ((status w s).para_processed_height -ℤ pos s.para_header_sync_number)

  abbrev pub is_ahead : Sync E → Bool
  is_ahead s =
      ltb_ℤ (status w s).parent_processed_height (pos s.header_sync_number)
      || ltb_ℤ (status w s).para_fetched_height (pos s.para_block_sync_number)

  abbrev pub at_stage : Stage → Sync E → Sync E
  at_stage stage s = record s { stage = stage }

  -- The state of the loop; `none` is an item that still calls itself after all its fuel.
  abbrev pub Loop : Type 0
  Loop = Option (Sync E)

  abbrev pub flat : Option Result → Outcome E × Loop
  flat none = (done, none)
  flat (some (o, s)) = (o, some s)

  abbrev pub call : (Sync E → Option Result) → Loop → Outcome E × Loop
  call fn none = (done, none)
  call fn (some s) = flat (fn s)

  abbrev pub hand_out : (Sync E → Option Result) → Stage → Sync E → Yield Loop E × Loop
  hand_out fn stage s = (item (some (call fn)), some (at_stage stage s))

  abbrev pub yield_headers : Sync E → Yield Loop E × Loop
  yield_headers s =
      if is_far_behind s
      then hand_out (λ t. some (do_batch_header_sync t)) dispatch s
      else hand_out (λ t. some (do_incremental_header_sync t)) dispatch s

  -- The first argument is how often `doParaBlockDifferenceSync` is called at most, by itself too,
  -- for an item.
  abbrev pub yield_top : ℕ → Sync E → Yield Loop E × Loop
  yield_top calls s =
      if s.should_stop
      then (finished, some s)
      else if is_ahead s
      then (item none, some (at_stage top (await w s)))
      else if is_behind s
      then hand_out (difference_sync calls) headers s
      else yield_headers s

  abbrev pub yield_at : ℕ → Stage → Sync E → Yield Loop E × Loop
  yield_at calls top s = yield_top calls s
  yield_at calls headers s = yield_headers s
  yield_at calls dispatch s =
      if is_behind s then hand_out (difference_sync calls) top s else yield_top calls s

  unfoldable pub sync_iterator : ℕ → Loop → Yield Loop E × Loop
  unfolding await do_batch_header_sync do_incremental_header_sync difference_sync
  sync_iterator calls none = (finished, none)
  sync_iterator calls (some s) = yield_at calls s.stage s

  -- What `startSync` gives to `iterate` for errors.
  abbrev pub after_info : Answer E Info → Sync E → Bool × Outcome E × Sync E
  after_info (fails e) s = (false, threw e, s)
  after_info (ok info) s = (
    false,
    done,
    record s { header_sync_number = info.headernum; para_block_sync_number = info.blocknum },
  )

  abbrev pub handle : Bool × Outcome E × Sync E → Bool × Outcome E × Loop
  handle (ignore, o, s) = (ignore, o, some s)

  abbrev pub on_error : Loop → Bool × Outcome E × Loop
  on_error none = (false, done, none)
  on_error (some s) =
      let waited = await w s in handle (after_info (w.update_info waited.awaits) (await w waited))

  abbrev pub on_fatal : E → Loop → Outcome E × Loop
  on_fatal e none = (threw e, none)
  on_fatal e (some s) = (threw e, some (do_reject e s))

  unfoldable pub callbacks : Callbacks Loop E
  unfolding await do_reject
  callbacks = record { process_error = λ e attempt s. on_error s; throw_fatal = on_fatal }

  abbrev pub ended : Option (Outcome E × Loop) → Option Result
  ended none = none
  ended (some (o, none)) = none
  ended (some (o, some s)) = some (o, s)

  -- The loop, on fuel for the calls of an item by itself and for the items; `none` is a loop that
  -- goes on longer.
  unfoldable pub run : ℕ → ℕ → Info → Option Result
  unfolding iterate callbacks sync_iterator
  run calls fuel info =
      ended (iterate callbacks (sync_iterator calls) fuel (some (start_sync info)))
