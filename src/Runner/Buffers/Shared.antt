-- ===== src/Runner/Buffers/Shared.antt =====
-- blob.ts: what callers at the same time get, and how often a key is fetched.
use runtime_bridge.Prelude.{
  ℕ, ◌+◌, ◌≤◌, ◌==◌, ◌≡◌, refl, ◌&&◌, not, Bool, true, false, Option, none, some, List, [], ◌∷◌,
  ◌++◌, if◌then◌else◌, if_cases, arith,
}
use runtime_bridge.Runner.Sync.{Answer}
use runtime_bridge.Runner.Buffers.{
  Waiter, Entry, Result, Buffers, Event, asks, answers, drops, is_open, add_waiter, waiters_of,
  delete_entry, no_buffers, get_buffer, from_cache, get_cached_buffer, deliver, settle, step, run,
}

abbrev pub one_if : Bool → ℕ
one_if b = if b then 1 else 0

abbrev pub occurs : ℕ → List ℕ → ℕ
occurs k [] = 0
occurs k (j ∷ js) = one_if (j == k) + occurs k js

abbrev pub calls_in : ℕ → List Waiter → ℕ
calls_in c [] = 0
calls_in c (w ∷ ws) = one_if (w.caller == c) + calls_in c ws

abbrev pub entries_of : ℕ → List Entry → ℕ
entries_of k [] = 0
entries_of k (e ∷ es) = one_if (e.key == k) + entries_of k es

abbrev pub waiting : ℕ → List Entry → ℕ
waiting c [] = 0
waiting c (e ∷ es) = calls_in c e.waiters + waiting c es

calls_in-snoc :
    (c : ℕ) (ws : List Waiter) (w : Waiter)
    → calls_in c (ws ++ (w ∷ [])) ≡ one_if (w.caller == c) + calls_in c ws
calls_in-snoc c [] w = refl
calls_in-snoc c (v ∷ ws) w = omega (arith, calls_in-snoc c ws w)

is_open-entries : (k : ℕ) (es : List Entry) → is_open k es ≡ false → entries_of k es ≡ 0
is_open-entries k [] h = refl
is_open-entries k (e ∷ es) h = ground (arith, is_open-entries k es)

entries_of-add_waiter :
    (w : Waiter) (k j : ℕ) (es : List Entry) → entries_of j (add_waiter w k es) ≡ entries_of j es
entries_of-add_waiter w k j [] = refl
entries_of-add_waiter w k j (e ∷ es) = ground (arith, entries_of-add_waiter w k j es)

waiting-add_waiter :
    (w : Waiter) (k c : ℕ) (es : List Entry)
    → is_open k es ≡ true
    → waiting c (add_waiter w k es) ≡ one_if (w.caller == c) + waiting c es
waiting-add_waiter w k c [] h = cc
waiting-add_waiter w k c (e ∷ es) h =
    ground (arith, waiting-add_waiter w k c es, calls_in-snoc c e.waiters w)

entries_of-delete_entry :
    (k j : ℕ) (es : List Entry)
    → is_open k es ≡ true
    → entries_of j es ≡ one_if (k == j) + entries_of j (delete_entry k es)
entries_of-delete_entry k j [] h = cc
entries_of-delete_entry k j (e ∷ es) h = ground (arith, entries_of-delete_entry k j es)

waiting-delete_entry :
    (k c : ℕ) (es : List Entry)
    → waiting c es ≡ calls_in c (waiters_of k es) + waiting c (delete_entry k es)
waiting-delete_entry k c [] = refl
waiting-delete_entry k c (e ∷ es) = ground (arith, waiting-delete_entry k c es)

module _ {E V : Type 0} where
  abbrev pub returned : ℕ → List (Result E V) → ℕ
  returned c [] = 0
  returned c (r ∷ rs) = one_if (r.caller == c) + returned c rs

  returned-deliver :
      (c k : ℕ) (a : Answer E (Option V)) (ws : List Waiter) (rs : List (Result E V))
      → returned c (deliver k a ws ++ rs) ≡ calls_in c ws + returned c rs
  returned-deliver c k a [] rs = omega arith
  returned-deliver c k a (w ∷ ws) rs = omega (arith, returned-deliver c k a ws rs)

  -- A key is fetched again only after it was answered, and at most one fetch of it is open. The
  -- calls of each caller, `came` of them, have either returned or wait for an open fetch.
  pub record IsShared (came : ℕ → ℕ) (s : Buffers E V) : Type 0 where
    pub fetched : (k : ℕ) → occurs k s.asked ≡ occurs k s.answered + entries_of k s.promise_store
    pub one : (k : ℕ) → entries_of k s.promise_store ≤ 1
    pub served : (c : ℕ) → came c ≡ returned c s.results + waiting c s.promise_store

  abbrev pub comes : Event E V → ℕ → ℕ
  comes (asks w k) c = one_if (w.caller == c)
  comes (answers k a) c = 0
  comes (drops k) c = 0

  -- How often a caller asked.
  abbrev pub calls_by : List (Event E V) → ℕ → ℕ
  calls_by [] c = 0
  calls_by (e ∷ es) c = comes e c + calls_by es c

  get_buffer-IsShared :
      (w : Waiter) (k : ℕ) (came : ℕ → ℕ) (s : Buffers E V)
      → IsShared came s
      → IsShared (λ c. one_if (w.caller == c) + came c) (get_buffer w k s)
  unfolding get_buffer
  get_buffer-IsShared w k came s h =
      if_cases (IsShared (λ c. one_if (w.caller == c) + came c)) (is_open k s.promise_store)
        (λ t. record {
          fetched = λ j. ground (arith, h.fetched j, entries_of-add_waiter w k j s.promise_store);
          one = λ j. ground (arith, h.one j, entries_of-add_waiter w k j s.promise_store);
          served = λ c. ground (arith, h.served c, waiting-add_waiter w k c s.promise_store t);
        })
        (λ t. record {
          fetched = λ j. omega (arith, h.fetched j);
          one = λ j. ground (arith, h.one j, is_open-entries k s.promise_store t);
          served = λ c. omega (arith, h.served c);
        })

  get_cached_buffer-IsShared :
      (disable_lru : Bool) (w : Waiter) (k : ℕ) (came : ℕ → ℕ) (s : Buffers E V)
      → IsShared came s
      → IsShared (λ c. one_if (w.caller == c) + came c) (get_cached_buffer disable_lru w k s)
  unfolding get_cached_buffer
  get_cached_buffer-IsShared disable_lru w k came s h =
      if_cases (IsShared (λ c. one_if (w.caller == c) + came c)) (w.caches && not disable_lru)
        (λ t.
          elim (s.cache k)
            as (λ o. IsShared (λ c. one_if (w.caller == c) + came c) (from_cache w k o s)) [
              | none ↦ get_buffer-IsShared w k came s h
              | some v ↦ record {
                fetched = h.fetched;
                one = h.one;
                served = λ c. omega (arith, h.served c);
              }
            ])
        (λ t. get_buffer-IsShared w k came s h)

  settle-IsShared :
      (disable_lru : Bool) (k : ℕ) (a : Answer E (Option V)) (came : ℕ → ℕ) (s : Buffers E V)
      → IsShared came s
      → IsShared came (settle disable_lru k a s)
  unfolding settle
  settle-IsShared disable_lru k a came s h =
      if_cases (IsShared came) (is_open k s.promise_store)
        (λ t. record {
          fetched = λ j. omega (arith, h.fetched j, entries_of-delete_entry k j s.promise_store t);
          one = λ j. omega (arith, h.one j, entries_of-delete_entry k j s.promise_store t);
          served = λ c. omega (
            arith,
            h.served c,
            waiting-delete_entry k c s.promise_store,
            returned-deliver c k a (waiters_of k s.promise_store) s.results,
          );
        })
        (λ t. h)

  step-IsShared :
      (disable_lru : Bool) (e : Event E V) (came : ℕ → ℕ) (s : Buffers E V)
      → IsShared came s
      → IsShared (λ c. comes e c + came c) (step disable_lru e s)
  unfolding step
  step-IsShared d (asks w k) came s h = get_cached_buffer-IsShared d w k came s h
  step-IsShared d (answers k a) came s h =
      let g = settle-IsShared d k a came s h in
      record { fetched = g.fetched; one = g.one; served = λ c. omega (arith, g.served c) }
  step-IsShared d (drops k) came s h = record {
    fetched = h.fetched;
    one = h.one;
    served = λ c. omega (arith, h.served c);
  }

  run_from-IsShared :
      (disable_lru : Bool) (events : List (Event E V)) (came : ℕ → ℕ) (s : Buffers E V)
      → IsShared came s
      → IsShared (λ c. calls_by events c + came c) (run disable_lru events s)
  unfolding run
  run_from-IsShared d [] came s h = record {
    fetched = h.fetched;
    one = h.one;
    served = λ c. omega (arith, h.served c);
  }
  run_from-IsShared d (e ∷ es) came s h =
      let k = run_from-IsShared d es _ (step d e s) (step-IsShared d e came s h) in
      record { fetched = k.fetched; one = k.one; served = λ c. omega (arith, k.served c) }

  -- Whatever calls, answers and drops of the cache come in, in any order: for each key, one fetch at
  -- most is open, and a further one starts only when all before it were answered; and each call of
  -- each caller has returned once or waits for an open fetch, so none is lost.
  pub run-IsShared :
      (disable_lru : Bool) (events : List (Event E V))
      → IsShared (calls_by events) (run disable_lru events no_buffers)
  run-IsShared d events =
      let k =
        run_from-IsShared d events (λ c. 0) no_buffers
          record { fetched = λ j. refl; one = λ j. omega arith; served = λ c. refl } in
      record { fetched = k.fetched; one = k.one; served = λ c. omega (arith, k.served c) }
