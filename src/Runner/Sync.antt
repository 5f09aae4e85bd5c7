-- ===== src/Runner/Sync.antt =====
-- src/lifecycle/runner/single_sync.js and separated_sync.js: what the two ways of synching a worker
-- share. A `World` answers what they await, and says what changes meanwhile: its functions take the
-- number of awaits so far, so it may answer the same question differently each time. A blob is a
-- list of bytes; the clock of the waits is left out.
pub mod Kept
pub mod Single
pub mod Separated
use runtime_bridge.Prelude.{
  ℕ, zero, suc, ◌≡◌, ◌+◌, Bool, true, false, not, ◌&&◌, ◌||◌, Option, none, some, List, [], ◌∷◌,
  ◌++◌, if◌then◌else◌, leb,
}
use runtime_bridge.Prelude.Int.{ℤ, pos, negsuc, leb_ℤ}
use runtime_bridge.Iterate.{Outcome, done, threw}

-- `fetchStatus`
pub record FetchStatus : Type 0 where
  pub parent_processed_height : ℤ
  pub parent_committed_height : ℤ
  pub para_fetched_height : ℤ
  pub para_processed_height : ℤ
  pub para_committed_height : ℤ

-- `runtime.updateInfo()`, the fields that synching reads
pub record Info : Type 0 where
  pub headernum : ℕ
  pub para_headernum : ℕ
  pub blocknum : ℕ

pub data Answer (E A : Type 0) : Type 0 where
  ok : A → Answer E A
  fails : E → Answer E A

pub record SyncStatus : Type 0 where
  pub parent_header_synched_to : ℤ
  pub para_header_synched_to : ℤ
  pub para_block_dispatched_to : ℤ

-- A call of `synchedToTargetPromiseResolve` or of `synchedToTargetPromiseReject`.
pub data Settled (E : Type 0) : Type 0 where
  resolved : ℕ → Settled E
  rejected : E → Settled E

pub record World (E : Type 0) : Type 0 where
  pub fetch_status : ℕ → FetchStatus
  pub stops : ℕ → Bool  -- whether `runtime.stopSync` is called from outside during an await
  pub get_header_blob : ℕ → ℕ → ℤ → ℤ → Answer E (Option (List ℕ))
  pub get_para_block_blob : ℕ → ℕ → ℤ → ℤ → Answer E (Option (List ℕ))
  pub sync_combined_headers : ℕ → List ℕ → Answer E (ℕ × ℕ)
  pub dispatch_block : ℕ → List ℕ → Answer E ℕ
  pub update_info : ℕ → Answer E Info

-- The variables of `startSync`, with the fields of `runtime` that it sets, the calls that settle
-- its promise in their order, and the place where the generator goes on.
pub data Stage : Type 0 where
  top headers dispatch : Stage

pub record Sync (E : Type 0) : Type 0 where
  pub should_stop : Bool
  pub has_stop_sync : Bool
  pub should_stop_update_info : Bool
  pub sync_status : SyncStatus
  pub synched_to_target_finished : Bool
  pub settled : List (Settled E)
  pub header_sync_number : ℕ
  pub para_header_sync_number : ℕ
  pub para_block_sync_number : ℕ
  pub awaits : ℕ
  pub stage : Stage

module _ {E : Type 0} where
  -- `runtime.stopSync()`
  unfoldable pub stop_sync : Sync E → Sync E
  stop_sync s = record s { should_stop = true; has_stop_sync = false }

  -- `doReject`
  unfoldable pub do_reject : E → Sync E → Sync E
  unfolding stop_sync
  do_reject e s =
      if s.synched_to_target_finished
      then s
      else record (if s.has_stop_sync then stop_sync s else s) {
        should_stop_update_info = true;
        synched_to_target_finished = true;
        settled = s.settled ++ (rejected e ∷ []);
      }

  module _ (w : World E) where
    abbrev pub status : Sync E → FetchStatus
    status s = w.fetch_status s.awaits

    -- An await: another call of `stopSync` may come in meanwhile, as long as it is there.
    unfoldable pub await : Sync E → Sync E
    unfolding stop_sync
    await s =
        let t = record s { awaits = s.awaits + 1 } in
        if w.stops s.awaits && s.has_stop_sync then stop_sync t else t

    -- What follows a dispatch: the worker's answer is noted, and the promise is resolved when the
    -- worker has caught up with what is processed.
    unfoldable pub note_dispatched : ℕ → Sync E → Sync E
    note_dispatched to s =
        let noted = record s {
          sync_status = record s.sync_status { para_block_dispatched_to = pos to };
          para_block_sync_number = to + 1;
        } in
        if not s.synched_to_target_finished && leb_ℤ (status s).para_processed_height (pos to)
        then record noted {
          synched_to_target_finished = true;
          settled = s.settled ++ (resolved to ∷ []);
        }
        else noted

    -- What follows a request with headers.
    unfoldable pub note_headers : ℕ × ℕ → Sync E → Sync E
    note_headers (parent, para) s = record s {
      sync_status = record s.sync_status {
        parent_header_synched_to = pos parent;
        para_header_synched_to = pos para;
      };
      para_header_sync_number = para + 1;
      header_sync_number = parent + 1;
    }
