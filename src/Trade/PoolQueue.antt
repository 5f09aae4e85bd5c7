-- ===== src/Trade/PoolQueue.antt =====
-- src/trade/bus.js, `class PoolQueue`: the batches of one pool. A batch is a shared object (the
-- queue, the callers and the timer closures refer to it), so batches live on a heap and are named
-- by references; a reference is the number of batches created before. A timer set for a batch is
-- a bit beside it. What `uuid()` returns is an input of the operation that calls it.
pub mod Invariant
mod Heap
pub mod Owners
pub mod Fifo
pub mod Bounds
use Prim.Native.String.{String}
use runtime_bridge.Prelude.{
  ℕ, zero, suc, ◌+◌, Bool, true, false, Option, none, some, List, [], ◌∷◌, ◌++◌, length, ltb, ◌==◌,
  if◌then◌else◌,
}
use runtime_bridge.Trade.Call.{Call}

-- The fields of `jobMeta` that the queue and its users read.
pub record Job : Type 0 where
  pub id : String
  pub pid : String
  pub calls : List Call
  pub should_retry : Bool

-- `batchRef`, less its promises.
pub record Batch : Type 0 where
  pub batch_id : String
  pub jobs : List Job
  pub calls : List Call
  pub call_to_job_id : ℕ → Option String

pub record Pool : Type 0 where
  pub pid : String
  pub heap : ℕ → Batch
  pub next_ref : ℕ
  pub queue : List ℕ
  pub current_batch : Option ℕ
  pub timers : ℕ → Bool  -- is a commitTimeout pending for the batch

abbrev pub tx_batch_size : ℕ
tx_batch_size = 100

abbrev pub update {ℓ} : {A : Type ℓ} → (ℕ → A) → ℕ → A → ℕ → A
update f k v i = if i == k then v else f i

abbrev pub empty_batch : String → Batch
empty_batch uuid = record { batch_id = uuid; jobs = []; calls = []; call_to_job_id = λ i. none }

-- `new PoolQueue(pid)`
unfoldable pub new_pool : String → Pool
new_pool pid = record {
  pid = pid;
  heap = λ r. empty_batch "";
  next_ref = 0;
  queue = [];
  current_batch = none;
  timers = λ r. false;
}

-- `#createBatch`
unfoldable pub create_batch : String → Pool → ℕ × Pool
create_batch uuid p = (
  p.next_ref,
  record p {
    heap = update p.heap p.next_ref (empty_batch uuid);
    next_ref = suc p.next_ref;
    current_batch = some p.next_ref;
  },
)

-- The `commit` of a batch, which clears its timer.
unfoldable pub commit : ℕ → Pool → Pool
commit r p = record p {
  timers = update p.timers r false;
  current_batch = none;
  queue = p.queue ++ r ∷ [];
}

-- `#findBatch`, given `#currentBatch`.
unfoldable pub find_from : String → Pool → Option ℕ → ℕ × Pool
unfolding create_batch commit
find_from uuid p none = create_batch uuid p
find_from uuid p (some r) =
    if ltb tx_batch_size (length (p.heap r).calls) then create_batch uuid (commit r p) else (r, p)

unfoldable pub find_batch : String → Pool → ℕ × Pool
unfolding find_from
find_batch uuid p = find_from uuid p p.current_batch

-- The `forEach` of `addCalls`, from index `i` on.
unfoldable pub push_calls : String → ℕ → List Call → Batch → Batch
push_calls id i [] b = b
push_calls id i (c ∷ cs) b =
    push_calls id (i + 1) cs
      (record b { call_to_job_id = update b.call_to_job_id i (some id); calls = b.calls ++ c ∷ [] })

-- What `addCalls` does to its batch.
unfoldable pub extend_batch : Job → Batch → Batch
unfolding push_calls
extend_batch job b =
    let b' = push_calls job.id (length b.calls) job.calls b in
    record b' { jobs = b'.jobs ++ job ∷ [] }

-- The `addCalls` of a batch, which sets its timer anew.
unfoldable pub add_calls : ℕ → Job → Pool → Pool
unfolding extend_batch
add_calls r job p = record p {
  timers = update p.timers r true;
  heap = update p.heap r (extend_batch job (p.heap r));
}

-- `addJob`, which returns the batch that took the job.
unfoldable pub add_job : String → Job → Pool → ℕ × Pool
unfolding find_batch add_calls
add_job uuid job p = let (r, p') = find_batch uuid p in (r, add_calls r job p')

-- The callback of a timer: it runs once, if it is still pending.
unfoldable pub fire_timer : ℕ → Pool → Pool
unfolding commit
fire_timer r p = if p.timers r then commit r p else p

-- `#dequeue`, given the queue: the batch that is handed to the trader manager, if any.
unfoldable pub take_from : Pool → List ℕ → Option ℕ × Pool
take_from p [] = (none, p)
take_from p (r ∷ rs) = (some r, record p { queue = rs })

unfoldable pub dequeue : Pool → Option ℕ × Pool
unfolding take_from
dequeue p = take_from p p.queue

-- What may happen to a queue: a request arrives, a timer fires, the dequeue loop takes its turn.
pub data Event : Type 0 where
  arrive : String → Job → Event
  fire : ℕ → Event
  take : Event

-- A run, with the references that were handed on so far.
pub record Run : Type 0 where
  pub pool : Pool
  pub sent : List ℕ

abbrev pub note_sent : Option ℕ → List ℕ → List ℕ
note_sent none sent = sent
note_sent (some r) sent = sent ++ r ∷ []

unfoldable pub step : Event → Run → Run
unfolding add_job fire_timer dequeue
step (arrive uuid job) s = record s { pool = (add_job uuid job s.pool).1 }
step (fire r) s = record s { pool = fire_timer r s.pool }
step take s = let (o, p) = dequeue s.pool in record { pool = p; sent = note_sent o s.sent }

unfoldable pub run_events : List Event → Run → Run
unfolding step
run_events [] s = s
run_events (e ∷ es) s = run_events es (step e s)

-- A queue from its creation on.
unfoldable pub run : String → List Event → Run
unfolding new_pool run_events
run pid es = run_events es (record { pool = new_pool pid; sent = [] })
