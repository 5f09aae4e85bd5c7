-- ===== src/Runner/Buffers.antt =====
-- src/lifecycle/runner/blob.ts, getBuffer and getCachedBuffer for callers at the same time: calls for
-- a key that is being fetched share the open promise. Keys and callers are numbers. A promise that
-- settles runs what waits for it before anything else, so this is one event. The queue of the
-- fetches and its priorities are left out, so a data provider may answer them in any order.
pub mod Given
pub mod Shared
pub mod Tests
use runtime_bridge.Prelude.{
  ℕ, ◌==◌, ◌||◌, ◌&&◌, not, Bool, true, false, Option, none, some, List, [], ◌∷◌, ◌++◌, map,
  if◌then◌else◌,
}
use runtime_bridge.Runner.Sync.{Answer, ok, fails}

-- A call that waits, of `getCachedBuffer` or else of `getBuffer` alone.
pub record Waiter : Type 0 where
  pub caller : ℕ
  pub caches : Bool

-- An entry of `promiseStore`, with the calls that wait for it; the first one made the promise.
pub record Entry : Type 0 where
  pub key : ℕ
  pub waiters : List Waiter

module _ (E V : Type 0) where
  pub record Result : Type 0 where
    pub caller : ℕ
    pub key : ℕ
    pub answer : Answer E (Option V)

  -- The store and the cache, the keys that were fetched and answered, and what calls returned.
  pub record Buffers : Type 0 where
    pub promise_store : List Entry
    pub cache : ℕ → Option V
    pub asked : List ℕ
    pub answered : List ℕ
    pub results : List Result

  -- A call for a key comes in, a fetch is answered, or the cache drops a key.
  pub data Event : Type 0 where
    asks : Waiter → ℕ → Event
    answers : ℕ → Answer E (Option V) → Event
    drops : ℕ → Event

abbrev pub is_open : ℕ → List Entry → Bool
is_open k [] = false
is_open k (e ∷ es) = e.key == k || is_open k es

-- `await promiseStore[key]`
abbrev pub add_waiter : Waiter → ℕ → List Entry → List Entry
add_waiter c k [] = []
add_waiter c k (e ∷ es) =
    if e.key == k then record e { waiters = e.waiters ++ (c ∷ []) } ∷ es else e ∷ add_waiter c k es

abbrev pub waiters_of : ℕ → List Entry → List Waiter
waiters_of k [] = []
waiters_of k (e ∷ es) = if e.key == k then e.waiters else waiters_of k es

abbrev pub some_caches : List Waiter → Bool
some_caches [] = false
some_caches (w ∷ ws) = w.caches || some_caches ws

-- `delete promiseStore[key]`
abbrev pub delete_entry : ℕ → List Entry → List Entry
delete_entry k [] = []
delete_entry k (e ∷ es) = if e.key == k then es else e ∷ delete_entry k es

module _ {E V : Type 0} where
  abbrev pub no_buffers : Buffers E V
  no_buffers = record {
    promise_store = [];
    cache = λ k. none;
    asked = [];
    answered = [];
    results = [];
  }

  -- `getBuffer` up to its `await`
  unfoldable pub get_buffer : Waiter → ℕ → Buffers E V → Buffers E V
  get_buffer c k s =
      if is_open k s.promise_store
      then record s { promise_store = add_waiter c k s.promise_store }
      else record s {
        promise_store = record { key = k; waiters = c ∷ [] } ∷ s.promise_store;
        asked = k ∷ s.asked;
      }

  abbrev pub from_cache : Waiter → ℕ → Option V → Buffers E V → Buffers E V
  from_cache c k none s = get_buffer c k s
  from_cache c k (some v) s = record s {
    results = record { caller = c.caller; key = k; answer = ok (some v) } ∷ s.results;
  }

  -- `(cached ? getCachedBuffer : getBuffer)(…)`; the first argument is the setting `disableLru`.
  unfoldable pub get_cached_buffer : Bool → Waiter → ℕ → Buffers E V → Buffers E V
  unfolding get_buffer
  get_cached_buffer disable_lru c k s =
      if c.caches && not disable_lru then from_cache c k (s.cache k) s else get_buffer c k s

  abbrev pub deliver : ℕ → Answer E (Option V) → List Waiter → List (Result E V)
  deliver k a [] = []
  deliver k a (c ∷ cs) = record { caller = c.caller; key = k; answer = a } ∷ deliver k a cs

  -- `cache.set` of `_getCachedBuffer`, which one of the calls that wait may be
  abbrev pub cached : Bool → ℕ → Answer E (Option V) → (ℕ → Option V) → ℕ → Option V
  cached false k a cache = cache
  cached true k (ok (some v)) cache = λ j. if j == k then some v else cache j
  cached true k (ok none) cache = cache
  cached true k (fails e) cache = cache

  -- The rest of `getBuffer` and of `_getCachedBuffer` for all that wait for the promise.
  unfoldable pub settle : Bool → ℕ → Answer E (Option V) → Buffers E V → Buffers E V
  settle disable_lru k a s =
      if is_open k s.promise_store
      then record {
        promise_store = delete_entry k s.promise_store;
        cache = cached (not disable_lru && some_caches (waiters_of k s.promise_store)) k a s.cache;
        asked = s.asked;
        answered = k ∷ s.answered;
        results = deliver k a (waiters_of k s.promise_store) ++ s.results;
      }
      else s

  unfoldable pub step : Bool → Event E V → Buffers E V → Buffers E V
  unfolding get_cached_buffer settle
  step disable_lru (asks c k) s = get_cached_buffer disable_lru c k s
  step disable_lru (answers k a) s = settle disable_lru k a s
  step disable_lru (drops k) s = record s { cache = λ j. if j == k then none else s.cache j }

  unfoldable pub run : Bool → List (Event E V) → Buffers E V → Buffers E V
  unfolding step
  run disable_lru [] s = s
  run disable_lru (e ∷ es) s = run disable_lru es (step disable_lru e s)
