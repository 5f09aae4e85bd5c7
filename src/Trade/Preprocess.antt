-- ===== src/Trade/Preprocess.antt =====
-- src/trade/preprocess.js, `preprocess` and `wrapTx`, and the actions of
-- src/trade/preprocess_actions.js: from a request to the calls that it stands for. `none` is a
-- throw. What `createType` makes, as the hexadecimal text that `toHex` prints, is a parameter.
pub mod Shape
use Prim.Native.String.{String}
use text.Mathlib.Text.{◌==◌}
use runtime_bridge.Prelude.{
  ℕ, ◌≡◌, refl, Bool, true, false, Option, none, some, List, [], ◌∷◌, ◌>>=◌, map_option,
  if◌then◌else◌,
}
use runtime_bridge.Trade.Call.{Call, Arg, string, with_hex, undefined, record_call}
use runtime_bridge.Trade.PoolQueue.{Job}

-- The payload of a request; a property that is missing is undefined.
pub record Payload : Type 0 where
  pub pid : Option String
  pub messages : Option (List String)
  pub runtime_info : Option String
  pub attestation : Option String
  pub public_key : Option String
  pub stake : Option String

pub record Request : Type 0 where
  pub id : String
  pub action : Option String
  pub payload : Option Payload

-- `wrapTx(calls, shouldRetry)`
pub record Tx : Type 0 where
  pub should_retry : Bool
  pub calls : List Call

abbrev pub wrap_tx : List Call → Bool → Tx
wrap_tx calls should_retry = record { should_retry = should_retry; calls = calls }

abbrev pub to_arg : Option String → Arg
to_arg none = undefined
to_arg (some s) = string s

abbrev pub tx_call : String → String → List Arg → Option Call
tx_call section method vs = record_call "tx" (section ∷ method ∷ []) vs

-- A transaction of one call, which is retried.
abbrev pub one_call : String → String → List Arg → Option Tx
one_call section method vs = do call ← tx_call section method vs; some (wrap_tx (call ∷ []) true)

-- `${pid}`
abbrev pub pid_text : Option String → String
pid_text none = "undefined"
pid_text (some p) = p

-- `table[name]`
unfoldable pub find_action : {A : Type 0} → String → List (String × A) → Option A
find_action name [] = none
find_action name ((key, f) ∷ table) = if name == key then some f else find_action name table

module _ (create_type : String → Option String → String) where
  unfoldable pub batch_sync_mq_message : Payload → Option Tx
  batch_sync_mq_message p = do
    messages ← p.messages
    calls ←
        map_option
          (λ msg.
            tx_call "phalaMq" "syncOffchainMessage"
              (with_hex (create_type "SignedMessage" (some msg)) ∷ []))
          messages
    some (wrap_tx calls false)

  unfoldable pub register_worker : Payload → Option Tx
  register_worker p =
      one_call "phalaRegistry" "registerWorker" (to_arg p.runtime_info ∷ to_arg p.attestation ∷ [])

  unfoldable pub add_worker : Payload → Option Tx
  add_worker p = one_call "phalaStakePoolv2" "addWorker" (to_arg p.pid ∷ to_arg p.public_key ∷ [])

  unfoldable pub start_computing : Payload → Option Tx
  start_computing p =
      one_call "phalaStakePoolv2" "startComputing"
        (to_arg p.pid ∷ to_arg p.public_key ∷ with_hex (create_type "BalanceOf" p.stake) ∷ [])

  unfoldable pub stop_computing : Payload → Option Tx
  stop_computing p =
      one_call "phalaStakePoolv2" "stopComputing" (to_arg p.pid ∷ to_arg p.public_key ∷ [])

  unfoldable pub restart_computing : Payload → Option Tx
  restart_computing p =
      one_call "phalaStakePoolv2" "restartComputing"
        (to_arg p.pid ∷ to_arg p.public_key ∷ with_hex (create_type "BalanceOf" p.stake) ∷ [])

  -- The exports of preprocess_actions.js.
  abbrev pub actions : List (String × (Payload → Option Tx))
  actions =
      ("BATCH_SYNC_MQ_MESSAGE", batch_sync_mq_message)
      ∷ ("REGISTER_WORKER", register_worker)
      ∷ ("ADD_WORKER", add_worker)
      ∷ ("START_COMPUTING", start_computing)
      ∷ ("STOP_COMPUTING", stop_computing)
      ∷ ("RESTART_COMPUTING", restart_computing)
      ∷ []

  -- `actions[action](payload)`: any other name is no function.
  unfoldable pub run_action : String → Payload → Option Tx
  unfolding batch_sync_mq_message register_worker add_worker start_computing stop_computing
      restart_computing find_action
  run_action action p = find_action action actions >>= λ f. f p

  -- `preprocess(job)`: the error for a missing action or pid is made and not thrown. Every action
  -- takes its payload apart, which fails if there is none.
  unfoldable pub preprocess : Request → Option Job
  unfolding run_action
  preprocess r = do
    action ← r.action
    payload ← r.payload
    tx ← run_action action payload
    some (record {
      id = r.id;
      pid = pid_text payload.pid;
      calls = tx.calls;
      should_retry = tx.should_retry;
    })
