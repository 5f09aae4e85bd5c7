-- ===== src/Trade/Trader.antt =====
-- src/trade/trader.js, the process that sends the batches: `formTx`, `processBatch` and `sendTx`,
-- and what they read from the chain. The chain's registry of errors and its JSON printing are
-- parameters; events, statuses and results are the cases that the code tells apart.
pub mod Process
pub mod Outcomes
use Prim.Native.String.{String}
use Prim.Native.String.{◌++◌}
use runtime_bridge.Prelude.{
  ℕ, suc, ◌+◌, Bool, true, false, not, ◌||◌, Option, none, some, List, [], ◌∷◌, map, if◌then◌else◌,
}

-- `phalaApi.registry.findMetaError(e)`: `docs` may be missing.
pub record Meta : Type 0 where
  pub docs : Option (List String)
  pub name : String
  pub section : String

-- A dispatch error is a module's, or prints itself.
pub data DispatchError (M : Type 0) : Type 0 where
  module_error : M → DispatchError M
  other_error : String → DispatchError M

-- The status of a transaction, as far as `sendTx` tells it apart.
pub data Status : Type 0 where
  usurped dropped invalid in_block other_status : Status

pub data ChainEvent (M : Type 0) : Type 0 where
  proxy_executed : Option String → ChainEvent M  -- the printed error, if it is one
  batch_completed batch_completed_with_errors item_completed : ChainEvent M
  item_failed : DispatchError M → ChainEvent M
  other_event : ChainEvent M

pub record TxResult (M : Type 0) : Type 0 where
  pub status : Status
  pub dispatch_error : Option (DispatchError M)
  pub events : List (ChainEvent M)

-- An entry of `failedCalls`.
pub record FailedCall : Type 0 where
  pub index : ℕ
  pub reason : String

pub data Rejection : Type 0 where
  unexpected_status : Status → Rejection
  dispatch_failed proxy_failed send_failed : String → Rejection
  no_proxy_event batch_failed timed_out : Rejection

-- How the promise of `sendTx` settles.
pub data Settled : Type 0 where
  resolved : List FailedCall → Settled
  rejected : Rejection → Settled

-- What happens to a transaction that was sent: the chain reports, the timer fires, or
-- `signAndSend` itself rejects.
pub data Signal (M : Type 0) : Type 0 where
  report : TxResult M → Signal M
  timeout : Signal M
  send_error : String → Signal M

-- `docs?.join(' ')`, inside a template string.
unfoldable pub join : List String → String
join [] = ""
join (d ∷ []) = d
join (d ∷ ds) = d ++ (" " ++ join ds)

abbrev pub docs_text : Option (List String) → String
docs_text none = "undefined"
docs_text (some ds) = join ds

module _ {M : Type 0} (find_meta_error : M → Meta) where
  -- `resolveDispatchError`
  unfoldable pub resolve_dispatch_error : DispatchError M → String
  resolve_dispatch_error (module_error m) =
      let meta = find_meta_error m in
      meta.section ++ ("." ++ (meta.name ++ (": " ++ docs_text meta.docs)))
  resolve_dispatch_error (other_error text) = text

  abbrev pub is_item : ChainEvent M → Bool
  is_item item_completed = true
  is_item (item_failed e) = true
  is_item _ = false

  -- The first `filter`.
  unfoldable pub item_events : List (ChainEvent M) → List (ChainEvent M)
  item_events [] = []
  item_events (e ∷ es) = let rest = item_events es in if is_item e then e ∷ rest else rest

  -- The `map` that numbers the events from `i` on, and the `filter` and `map` that keep the failed
  -- ones with their number.
  unfoldable pub failures_from : ℕ → List (ChainEvent M) → List FailedCall
  failures_from i [] = []
  failures_from i (item_failed e ∷ es) =
      record { index = i; reason = resolve_dispatch_error e } ∷ failures_from (i + 1) es
  failures_from i (_ ∷ es) = failures_from (i + 1) es

  -- `events.filter(is kind)[0]` for the proxy's event, and the two tests `length > 0`.
  unfoldable pub proxy_result : List (ChainEvent M) → Option (Option String)
  proxy_result [] = none
  proxy_result (proxy_executed r ∷ es) = some r
  proxy_result (_ ∷ es) = proxy_result es

  unfoldable pub has_completed : List (ChainEvent M) → Bool
  has_completed [] = false
  has_completed (batch_completed ∷ es) = true
  has_completed (_ ∷ es) = has_completed es

  unfoldable pub has_errors : List (ChainEvent M) → Bool
  has_errors [] = false
  has_errors (batch_completed_with_errors ∷ es) = true
  has_errors (_ ∷ es) = has_errors es

  -- The rest of the callback, once the batch is in a block and was executed.
  unfoldable pub read_batch : List (ChainEvent M) → Settled
  unfolding item_events failures_from has_completed has_errors resolve_dispatch_error
  read_batch events =
      let with_errors = has_errors events in
      let completed = if with_errors then true else has_completed events in
      if not completed
      then rejected batch_failed
      else resolved (if with_errors then failures_from 0 (item_events events) else [])

  -- A proxied batch first shows the result of the proxy call; without that event the access fails.
  unfoldable pub check_proxy : Option (Option String) → Settled → Settled
  check_proxy none next = rejected no_proxy_event
  check_proxy (some (some e)) next = rejected (proxy_failed e)
  check_proxy (some none) next = next

  unfoldable pub on_in_block : Bool → Option (DispatchError M) → List (ChainEvent M) → Settled
  unfolding read_batch proxy_result check_proxy
  on_in_block is_proxy (some e) events = rejected (dispatch_failed (resolve_dispatch_error e))
  on_in_block is_proxy none events =
      if is_proxy then check_proxy (proxy_result events) (read_batch events) else read_batch events

  -- The callback of `signAndSend`; `none` means that it neither resolves nor rejects.
  unfoldable pub on_result : Bool → TxResult M → Option Settled
  unfolding on_in_block
  on_result is_proxy r = elim r.status [
    | usurped ↦ some (rejected (unexpected_status usurped))
    | dropped ↦ some (rejected (unexpected_status dropped))
    | invalid ↦ some (rejected (unexpected_status invalid))
    | in_block ↦ some (on_in_block is_proxy r.dispatch_error r.events)
    | other_status ↦ none
  ]

  unfoldable pub on_signal : Bool → Signal M → Option Settled
  unfolding on_result
  on_signal is_proxy (report r) = on_result is_proxy r
  on_signal is_proxy timeout = some (rejected timed_out)
  on_signal is_proxy (send_error e) = some (rejected (send_failed e))

  -- `sendTx`: a promise settles once, so the first signal that settles it decides.
  unfoldable pub send_tx : Bool → List (Signal M) → Option Settled
  unfolding on_signal
  send_tx is_proxy [] = none
  send_tx is_proxy (x ∷ xs) =
      let rest = send_tx is_proxy xs in
      elim (on_signal is_proxy x) [ none ↦ rest | some s ↦ some s ]
