-- ===== src/Runner/Messages.antt =====
-- src/lifecycle/runner/message.js: the loop that puts the messages of a worker on the chain. As for
-- synching, a world answers what is awaited, by the number of awaits so far, and `stopSyncMessage`
-- may be called from outside during an await.
pub mod Quiet
pub mod Tests
use runtime_bridge.Prelude.{
  ℕ, zero, suc, ◌+◌, Bool, true, false, not, ◌&&◌, Option, none, some, List, [], ◌∷◌, ◌++◌,
  if◌then◌else◌, ltb,
}
use runtime_bridge.Iterate.{Outcome, done, threw, Callbacks, Yield, finished, item, iterate}
use runtime_bridge.Runner.Sync.{Answer, ok, fails}

pub record Message (M : Type 0) : Type 0 where
  pub sequence : ℕ
  pub payload : M

-- The messages of one origin, `m[0]` and `m[1]`.
pub record FromOrigin (M : Type 0) : Type 0 where
  pub origin : ℕ
  pub messages : List (Message M)

-- `getEgressMessages`, `offchainIngress` and `dispatchTx`.
pub record MessageWorld (E M : Type 0) : Type 0 where
  pub egress : ℕ → Answer E (List (FromOrigin M))
  pub on_chain_sequence : ℕ → ℕ → Answer E ℕ
  pub dispatch_tx : ℕ → List (Message M) → Answer E Unit
  pub stops : ℕ → Bool

-- A call of the promise's `resolve` or `reject`.
pub data Call : Type 0 where
  resolves rejects : Call

pub record Loop (M : Type 0) : Type 0 where
  pub should_stop : Bool
  pub has_stop : Bool
  pub should_stop_update_info : Bool
  pub synched_to_target_finished : Bool
  pub calls : List Call
  pub sent : List (List (Message M))
  pub awaits : ℕ

abbrev pub start_sync_message : {M : Type 0} → Loop M
start_sync_message = record {
  should_stop = false;
  has_stop = true;
  should_stop_update_info = false;
  synched_to_target_finished = false;
  calls = [];
  sent = [];
  awaits = 0;
}

-- The messages that the chain does not have yet.
unfoldable pub not_submitted : {M : Type 0} → ℕ → List (Message M) → List (Message M)
not_submitted sequence [] = []
not_submitted sequence (m ∷ ms) =
    let rest = not_submitted sequence ms in if ltb m.sequence sequence then rest else m ∷ rest

-- `runtime.stopSyncMessage()`
unfoldable pub stop_sync_message : {M : Type 0} → Loop M → Loop M
stop_sync_message s = record s {
  should_stop = true;
  has_stop = false;
  should_stop_update_info = true;
  synched_to_target_finished = true;
  calls = s.calls ++ (rejects ∷ []);
}

module _ {E M : Type 0} (w : MessageWorld E M) where
  abbrev pub Result : Type 0
  Result = Outcome E × Loop M

  unfoldable pub await : Loop M → Loop M
  unfolding stop_sync_message
  await s =
      let t = record s { awaits = s.awaits + 1 } in
      if w.stops s.awaits && s.has_stop then stop_sync_message t else t

  -- What `doMqEgressSync` does with what it has gathered.
  abbrev pub after_dispatch : Answer E Unit → Loop M → Result
  after_dispatch (fails e) s = (threw e, s)
  after_dispatch (ok u) s = (done, s)

  abbrev pub submit : List (Message M) → Loop M → Result
  submit [] s = if s.synched_to_target_finished then (done, s) else (
    done,
    record s { synched_to_target_finished = true; calls = s.calls ++ (resolves ∷ []) },
  )
  submit (m ∷ ms) s =
      after_dispatch (w.dispatch_tx s.awaits (m ∷ ms))
        (await (record s { sent = s.sent ++ ((m ∷ ms) ∷ []) }))

  -- The loop over the origins, with `ret` so far.
  abbrev pub after_sequence :
      (List (Message M) → Loop M → Result)
      → List (Message M)
      → List (Message M)
      → Answer E ℕ
      → Loop M
      → Result
  after_sequence rest ret messages (fails e) s = (threw e, s)
  after_sequence rest ret messages (ok sequence) s = rest (ret ++ not_submitted sequence messages) s

  unfoldable pub gather : List (FromOrigin M) → List (Message M) → Loop M → Result
  unfolding await not_submitted
  gather [] ret s = submit ret s
  gather (o ∷ os) ret s =
      after_sequence (gather os) ret o.messages (w.on_chain_sequence s.awaits o.origin) (await s)

  abbrev pub after_egress : Answer E (List (FromOrigin M)) → Loop M → Result
  after_egress (fails e) s = (threw e, s)
  after_egress (ok origins) s = gather origins [] s

  -- `doMqEgressSync`
  unfoldable pub do_mq_egress_sync : Loop M → Result
  unfolding gather
  do_mq_egress_sync s = after_egress (w.egress s.awaits) (await s)

  -- `MqEgressIterator`
  unfoldable pub mq_egress_iterator : Loop M → Yield (Loop M) E × Loop M
  unfolding do_mq_egress_sync
  mq_egress_iterator s =
      if s.should_stop
      then (
        finished,
        record s { synched_to_target_finished = true; calls = s.calls ++ (rejects ∷ []) },
      )
      else (item (some do_mq_egress_sync), await s)

  abbrev pub stop_if_there : Loop M → Loop M
  stop_if_there s = if s.has_stop then stop_sync_message s else s

  -- What `startSyncMessage` gives to `iterate` for errors: each is ignored after a wait.
  unfoldable pub callbacks : Callbacks (Loop M) E
  unfolding await stop_sync_message
  callbacks = record {
    process_error = λ e attempt s. (true, done, await s);
    throw_fatal = λ e s. (threw e, stop_if_there s);
  }

  unfoldable pub run : ℕ → Option Result
  unfolding iterate callbacks mq_egress_iterator
  run fuel = iterate callbacks mq_egress_iterator fuel start_sync_message
