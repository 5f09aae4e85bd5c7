-- ===== src/Trade/Trader/Process.antt =====
-- trader.js, `processBatch`: the nonce of a transaction and the messages to the trader manager.
-- The pool's record, the chain's `accountNextIndex` and the settling of `sendTx` are inputs.
pub mod Laws
use Prim.Native.String.{String}
use runtime_bridge.Prelude.{
  ℕ, ◌+◌, Bool, true, false, Option, none, some, List, [], ◌∷◌, ◌++◌, ◌==◌, if◌then◌else◌,
}
use runtime_bridge.Trade.Trader.{FailedCall, Settled, resolved, rejected}

-- A JavaScript value as it occurs for a nonce: undefined, NaN or a number. Both of the latter have
-- `typeof` number.
pub data Nonce : Type 0 where
  undefined nan : Nonce
  number : ℕ → Nonce

abbrev pub is_number : Nonce → Bool
is_number undefined = false
is_number nan = true
is_number (number n) = true

-- `nonce + 1`
abbrev pub plus_one : Nonce → Nonce
plus_one undefined = nan
plus_one nan = nan
plus_one (number n) = number (n + 1)

-- What is sent to the trader manager about a batch.
pub data Message : Type 0 where
  batch_added batch_working : String → Message
  batch_finished : String → List FailedCall → Message
  batch_failed : String → Message

pub record Trader : Type 0 where
  pub pool_nonces : ℕ → Nonce
  pub sent : List Message
  pub nonces_used : List Nonce  -- the nonce of each `sendTx` call

-- What the world answers to one `processBatch`: the id of the pool that was found and unlocked, if
-- any; whether `formTx` gives a transaction and does not throw; the account's next index, or a
-- failed request; and how the transaction settles.
pub record Answers : Type 0 where
  pub pool_id : Option ℕ
  pub formed : Bool
  pub next_index : Option ℕ
  pub settled : Settled

abbrev pub set_nonce : (ℕ → Nonce) → ℕ → Nonce → ℕ → Nonce
set_nonce f k v i = if i == k then v else f i

-- `typeof poolNonces[pool.id] === 'number'`: then the chain is asked, else the entry is taken;
-- `none` is a rejected request.
unfoldable pub choose_nonce : Nonce → Option ℕ → Option Nonce
choose_nonce undefined next_index = some undefined
choose_nonce nan none = none
choose_nonce nan (some n) = some (number n)
choose_nonce (number k) none = none
choose_nonce (number k) (some n) = some (number n)

abbrev pub settle_message : String → Settled → Message
settle_message id (resolved failed) = batch_finished id failed
settle_message id (rejected why) = batch_failed id

-- The body of the `try`, from the nonce on, and its `catch`.
unfoldable pub send_batch : String → ℕ → Option Nonce → Settled → Trader → Trader
send_batch id pool none settled t = record t { sent = t.sent ++ batch_failed id ∷ [] }
send_batch id pool (some nonce) settled t = record {
  pool_nonces = set_nonce t.pool_nonces pool (plus_one nonce);
  sent = t.sent ++ batch_working id ∷ settle_message id settled ∷ [];
  nonces_used = t.nonces_used ++ nonce ∷ [];
}

-- `processBatch`, given the pool: the lookup, the `unlock` and `formTx` stand before the `try`, so
-- a failure there sends nothing.
unfoldable pub process_with : String → Option ℕ → Answers → Trader → Trader
unfolding choose_nonce send_batch
process_with id none a t = t
process_with id (some pool) a t =
    if a.formed
    then send_batch id pool (choose_nonce (t.pool_nonces pool) a.next_index) a.settled t
    else t

unfoldable pub process_batch : String → Answers → Trader → Trader
unfolding process_with
process_batch id a t = process_with id a.pool_id a t

-- What the process does, in the order in which it happens: a batch is accepted, or the turn of an
-- accepted batch comes. The batches of one pool are processed one by one. Those
-- of other pools may be processed meanwhile; each of them reads and writes its own pool's nonce
-- only, and its messages may come between these.
pub data Event : Type 0 where
  accept : String → Event
  process : String → Answers → Event

-- `doAddJob` sends the first message at once; the processing comes with its queue's turn.
unfoldable pub step : Event → Trader → Trader
unfolding process_batch
step (accept id) t = record t { sent = t.sent ++ batch_added id ∷ [] }
step (process id a) t = process_batch id a t

unfoldable pub run_events : List Event → Trader → Trader
unfolding step
run_events [] t = t
run_events (e ∷ es) t = run_events es (step e t)

unfoldable pub new_trader : Trader
new_trader = record { pool_nonces = λ pool. undefined; sent = []; nonces_used = [] }
