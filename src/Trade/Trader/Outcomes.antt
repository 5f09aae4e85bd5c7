-- ===== src/Trade/Trader/Outcomes.antt =====
-- trader.js, `sendTx`: the failed calls that it reads from the events of a batch that was executed.
use runtime_bridge.Prelude.{
  ℕ, ◌+◌, ◌≡◌, refl, ap, Bool, true, false, ◌||◌, Option, none, some, List, [], ◌∷◌, map, arith,
}
use runtime_bridge.Trade.Trader.{
  Meta, DispatchError, ChainEvent, item_completed, item_failed, in_block, TxResult, FailedCall,
  resolved, resolve_dispatch_error, item_events, failures_from, proxy_result, has_completed,
  has_errors, read_batch, on_result,
}

-- What became of a call: nothing, or an error.
abbrev pub Outcome : Type 0 → Type 0
Outcome M = Option (DispatchError M)

abbrev pub item_event : {M : Type 0} → Outcome M → ChainEvent M
item_event none = item_completed
item_event (some e) = item_failed e

abbrev pub any_failed : {M : Type 0} → List (Outcome M) → Bool
any_failed [] = false
any_failed (none ∷ os) = any_failed os
any_failed (some e ∷ os) = true

module _ {M : Type 0} (find_meta_error : M → Meta) where
  -- The calls that failed, numbered from `i` on.
  abbrev pub failed_from : ℕ → List (Outcome M) → List FailedCall
  failed_from i [] = []
  failed_from i (none ∷ os) = failed_from (i + 1) os
  failed_from i (some e ∷ os) =
      record { index = i; reason = resolve_dispatch_error find_meta_error e }
      ∷ failed_from (i + 1) os

  -- What the chain documents for `utility.forceBatch`: among the events of the transaction there is
  -- one for each call, in order; the batch completes, with errors if and only if a call failed; and
  -- the transaction and its proxy call themselves succeed.
  pub record IsForceBatch (is_proxy : Bool) (os : List (Outcome M)) (r : TxResult M) : Type 0 where
    pub included : r.status ≡ in_block
    pub dispatched : r.dispatch_error ≡ none
    pub proxied : is_proxy ≡ true → proxy_result find_meta_error r.events ≡ some none
    pub items : item_events find_meta_error r.events ≡ map item_event os
    pub with_errors : has_errors find_meta_error r.events ≡ any_failed os
    pub completed :
        (has_completed find_meta_error r.events || has_errors find_meta_error r.events) ≡ true

  failures_from-items :
      (i : ℕ) (os : List (Outcome M))
      → failures_from find_meta_error i (map item_event os) ≡ failed_from i os
  unfolding failures_from
  failures_from-items i [] = refl
  failures_from-items i (none ∷ os) = failures_from-items (i + 1) os
  failures_from-items i (some e ∷ os) =
      ap (λ l. record { index = i; reason = resolve_dispatch_error find_meta_error e } ∷ l)
        (failures_from-items (i + 1) os)

  failed_from-none : (i : ℕ) (os : List (Outcome M)) → any_failed os ≡ false → failed_from i os ≡ []
  failed_from-none i [] h = refl
  failed_from-none i (none ∷ os) h = failed_from-none (i + 1) os h
  failed_from-none i (some e ∷ os) h = cc

  read_batch-outcomes :
      (is_proxy : Bool) (os : List (Outcome M)) (r : TxResult M)
      → IsForceBatch is_proxy os r
      → read_batch find_meta_error r.events ≡ resolved (failed_from 0 os)
  unfolding read_batch
  read_batch-outcomes is_proxy os r h =
      ground (arith, failures_from-items 0 os, failed_from-none 0 os)

  -- When a batch was executed, `sendTx` resolves with exactly the calls that failed: the index of
  -- each in the batch, in order, with its error as text.
  pub on_result-outcomes :
      (is_proxy : Bool) (os : List (Outcome M)) (r : TxResult M)
      → IsForceBatch is_proxy os r
      → on_result find_meta_error is_proxy r ≡ some (resolved (failed_from 0 os))
  unfolding on_result
  on_result-outcomes is_proxy os r h = ground (arith, read_batch-outcomes is_proxy os r h)
