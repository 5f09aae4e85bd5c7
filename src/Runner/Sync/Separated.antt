-- ===== src/Runner/Sync/Separated.antt =====
-- separated_sync.js: two loops, for headers and for blocks, that run concurrently over the variables
-- of `startSync`. A turn of a loop is what it does between two awaits; a schedule says whose turn it
-- is. What is awaited is asked for when the await begins. Both loops are run by utils/iterate.js:
-- the number of an attempt is part of where a loop is. The variables that single_sync.js alone has
-- are not used.
pub mod Growing
pub mod Settling
pub mod Tests
use runtime_bridge.Prelude.{
  ℕ, zero, suc, ◌+◌, Bool, true, false, not, Option, none, some, List, [], ◌∷◌, ◌++◌, if◌then◌else◌,
  leb,
}
use runtime_bridge.Prelude.Int.{ℤ, pos, negsuc, minus_one, ltb_ℤ}
use runtime_bridge.Iterate.{Outcome, done, threw}
use runtime_bridge.Runner.Sync.{
  FetchStatus, Info, Answer, ok, fails, SyncStatus, World, Stage, Sync, top, do_reject, status,
  await, note_dispatched,
}

-- Where a loop is: before its generator's next step, at an answer with a blob or to a request, in
-- the wait or at the answer of its handler of errors, or at its end.
pub data At (E A : Type 0) : Type 0 where
  next : At E A
  blob : ℕ → Answer E (Option (List ℕ)) → At E A
  reply : ℕ → Answer E A → At E A
  cooling : ℕ → At E A
  informed : ℕ → Answer E Info → At E A
  ended : Outcome E → At E A

-- What the loops differ in: when they have to wait, what they ask for, whether a blob is there, what
-- they send, and what they note of a reply and of fresh information.
pub record Side (E A : Type 0) : Type 0 where
  pub must_wait : Sync E → Bool
  pub ask : Sync E → Answer E (Option (List ℕ))
  pub is_missing : List ℕ → Bool
  pub send : List ℕ → Sync E → Answer E A
  pub note : A → Sync E → Sync E
  pub refresh : Info → Sync E → Sync E

abbrev pub start_sync : {E : Type 0} → Info → Sync E
start_sync info = record {
  should_stop = false;
  has_stop_sync = true;
  should_stop_update_info = false;
  sync_status = record {
    parent_header_synched_to = minus_one;
    para_header_synched_to = minus_one;
    para_block_dispatched_to = minus_one;
  };
  synched_to_target_finished = false;
  settled = [];
  header_sync_number = info.headernum;
  para_header_sync_number = 0;
  para_block_sync_number = info.blocknum;
  awaits = 0;
  stage = top;
}

-- Both loops, and whose turn it is.
pub record Both (E : Type 0) : Type 0 where
  pub headers_at : At E (ℕ × ℕ)
  pub blocks_at : At E ℕ
  pub sync : Sync E

pub data Turn : Type 0 where
  of_headers of_blocks : Turn

abbrev pub started : {E : Type 0} → Info → Both E
started info = record { headers_at = next; blocks_at = next; sync = start_sync info }

module _ {E : Type 0} (w : World E) where
  -- `doHeaderSync` and its generator's test
  unfoldable pub header_side : Side E (ℕ × ℕ)
  header_side = record {
    must_wait = λ s. ltb_ℤ (status w s).parent_processed_height (pos s.header_sync_number);
    ask = λ s.
        w.get_header_blob s.awaits s.header_sync_number (status w s).parent_committed_height
          minus_one;
    is_missing = λ bytes. false;
    send = λ bytes s. w.sync_combined_headers s.awaits bytes;
    note = λ to s. record s {
      sync_status = record s.sync_status {
        parent_header_synched_to = pos to.0;
        para_header_synched_to = pos to.1;
      };
      header_sync_number = to.0 + 1;
    };
    refresh = λ info s. record s { header_sync_number = info.headernum };
  }

  -- `doParaBlockSync` and its generator's test
  unfoldable pub block_side : Side E ℕ
  unfolding note_dispatched
  block_side = record {
    must_wait = λ s. ltb_ℤ s.sync_status.para_header_synched_to (pos s.para_block_sync_number);
    ask = λ s.
        w.get_para_block_blob s.awaits s.para_block_sync_number s.sync_status.para_header_synched_to
          (status w s).para_committed_height;
    is_missing = λ bytes. elim bytes [ [] ↦ true | b ∷ bs ↦ false ];
    send = λ bytes s. w.dispatch_block s.awaits bytes;
    note = note_dispatched w;
    refresh = λ info s. record s { para_block_sync_number = info.blocknum };
  }

  module _ {A : Type 0} (side : Side E A) where
    abbrev pub ask_again : ℕ → Sync E → At E A × Sync E
    ask_again attempt s = (blob attempt (side.ask s), await w s)

    -- The catch of `iterate`: its handler, up to attempt 5, or the final one.
    abbrev pub fail : ℕ → E → Sync E → At E A × Sync E
    fail attempt e s =
        if leb attempt 5 then (cooling attempt, await w s) else (ended (threw e), do_reject e s)

    abbrev pub at_top : Sync E → At E A × Sync E
    at_top s =
        if s.should_stop
        then (ended done, s)
        else if side.must_wait s
        then (next, await w s)
        else ask_again 0 s

    unfoldable pub turn : At E A → Sync E → At E A × Sync E
    unfolding await do_reject
    turn next s = at_top s
    turn (blob attempt (fails e)) s = fail attempt e s
    turn (blob attempt (ok none)) s = (next, await w s)
    turn (blob attempt (ok (some bytes))) s =
        if side.is_missing bytes
        then (next, await w s)
        else (reply attempt (side.send bytes s), await w s)
    turn (reply attempt (fails e)) s = fail attempt e s
    turn (reply attempt (ok to)) s = (next, side.note to s)
    turn (cooling attempt) s = (informed attempt (w.update_info s.awaits), await w s)
    turn (informed attempt (fails e)) s = ask_again (attempt + 1) s
    turn (informed attempt (ok info)) s = ask_again (attempt + 1) (side.refresh info s)
    turn (ended o) s = (ended o, s)

  unfoldable pub take_turn : Turn → Both E → Both E
  unfolding turn header_side block_side
  take_turn of_headers b =
      let r = turn header_side b.headers_at b.sync in record b { headers_at = r.0; sync = r.1 }
  take_turn of_blocks b =
      let r = turn block_side b.blocks_at b.sync in record b { blocks_at = r.0; sync = r.1 }

  unfoldable pub run : List Turn → Both E → Both E
  unfolding take_turn
  run [] b = b
  run (t ∷ ts) b = run ts (take_turn t b)
