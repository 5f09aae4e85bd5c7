-- ===== src/Runner/Buffers/Given.antt =====
-- blob.ts: a call returns what a data provider answered for its key, through the cache or not.
use runtime_bridge.Prelude.{
  ℕ, ◌==◌, ◌≡◌, refl, subst, ◌&&◌, not, Bool, true, false, Option, none, some, some_inj, none-some,
  List, [], ◌∷◌, All, All-append, inl, inr, ◌⊎◌, if_cases, arith,
}
use runtime_bridge.Runner.Sync.{Answer, ok, fails}
use runtime_bridge.Runner.Buffers.{
  Waiter, Entry, add_waiter, delete_entry, Result, Buffers, Event, asks, answers, drops, is_open,
  waiters_of, no_buffers, get_buffer, from_cache, get_cached_buffer, deliver, cached, settle, step,
  run,
}

module _ {E V : Type 0} where
  -- One of the events answered the key so.
  abbrev pub IsGiven : List (Event E V) → ℕ → Answer E (Option V) → Type 0
  IsGiven [] k a = ⊥
  IsGiven (answers j b ∷ es) k a = ((j ≡ k) × (b ≡ a)) ⊎ IsGiven es k a
  IsGiven (asks w j ∷ es) k a = IsGiven es k a
  IsGiven (drops j ∷ es) k a = IsGiven es k a

  -- One of the events is a call for the key, by the caller.
  abbrev pub IsAsked : List (Event E V) → ℕ → ℕ → Type 0
  IsAsked [] c k = ⊥
  IsAsked (answers j b ∷ es) c k = IsAsked es c k
  IsAsked (asks w j ∷ es) c k = ((w.caller ≡ c) × (j ≡ k)) ⊎ IsAsked es c k
  IsAsked (drops j ∷ es) c k = IsAsked es c k

  module _ (C : ℕ → ℕ → Type 0) (P : ℕ → Answer E (Option V) → Type 0) where
    abbrev Returned : Result E V → Type 0
    Returned r = C r.caller r.key × P r.key r.answer

    abbrev Waits : ℕ → Waiter → Type 0
    Waits k w = C w.caller k

    abbrev IsAwaited : Entry → Type 0
    IsAwaited e = All (Waits e.key) e.waiters

    -- Who waits and what calls returned satisfies `C` of its key, and what calls returned and what
    -- the cache has satisfies `P` of it.
    record IsTruthful (s : Buffers E V) : Type 0 where
      waiting : All IsAwaited s.promise_store
      results : All Returned s.results
      cache : (k : ℕ) (v : V) → s.cache k ≡ some v → P k (ok (some v))

    abbrev Answered : Event E V → Type 0
    Answered (asks w k) = C w.caller k
    Answered (answers k a) = P k a
    Answered (drops k) = Unit

    deliver-All :
        (k : ℕ) (a : Answer E (Option V)) (ws : List Waiter)
        → P k a
        → All (Waits k) ws
        → All Returned (deliver k a ws)
    deliver-All k a [] p h = tt
    deliver-All k a (w ∷ ws) p h = ((h.0, p), deliver-All k a ws p h.1)

    add_waiter-All :
        (w : Waiter) (k : ℕ) (es : List Entry)
        → C w.caller k
        → All IsAwaited es
        → All IsAwaited (add_waiter w k es)
    add_waiter-All w k [] c h = tt
    add_waiter-All w k (e ∷ es) c h =
        if_cases (All IsAwaited) (e.key == k)
          (λ t.
            let same : k ≡ e.key = ground arith in
            (All-append (Waits e.key) e.waiters (w ∷ []) h.0 (subst (C w.caller) same c, tt), h.1))
          (λ t. (h.0, add_waiter-All w k es c h.1))

    delete_entry-All :
        (k : ℕ) (es : List Entry) → All IsAwaited es → All IsAwaited (delete_entry k es)
    delete_entry-All k [] h = tt
    delete_entry-All k (e ∷ es) h =
        if_cases (All IsAwaited) (e.key == k) (λ t. h.1) (λ t. (h.0, delete_entry-All k es h.1))

    waiters_of-All : (k : ℕ) (es : List Entry) → All IsAwaited es → All (Waits k) (waiters_of k es)
    waiters_of-All k [] h = tt
    waiters_of-All k (e ∷ es) h =
        if_cases (All (Waits k)) (e.key == k)
          (λ t.
            let same : e.key ≡ k = ground arith in subst (λ j. All (Waits j) e.waiters) same h.0)
          (λ t. waiters_of-All k es h.1)

    cached-lem :
        (b : Bool) (k : ℕ) (a : Answer E (Option V)) (cache : ℕ → Option V)
        → P k a
        → ((j : ℕ) (v : V) → cache j ≡ some v → P j (ok (some v)))
        → (j : ℕ) (v : V) → cached b k a cache j ≡ some v
        → P j (ok (some v))
    cached-lem false k a cache p h j v = h j v
    cached-lem true k (ok none) cache p h j v = h j v
    cached-lem true k (fails e) cache p h j v = h j v
    cached-lem true k (ok (some x)) cache p h j v =
        if_cases (λ o. o ≡ some v → P j (ok (some v))) (j == k)
          (λ t e.
            let same : k ≡ j = ground arith in
            subst (λ i. P i (ok (some v))) same (subst (λ y. P k (ok (some y))) (some_inj e) p))
          (λ t. h j v)

    get_buffer-IsTruthful :
        (w : Waiter) (k : ℕ) (s : Buffers E V)
        → C w.caller k
        → IsTruthful s
        → IsTruthful (get_buffer w k s)
    unfolding get_buffer
    get_buffer-IsTruthful w k s c h =
        if_cases IsTruthful (is_open k s.promise_store)
          (λ t. record {
            waiting = add_waiter-All w k s.promise_store c h.waiting;
            results = h.results;
            cache = h.cache;
          })
          (λ t. record { waiting = ((c, tt), h.waiting); results = h.results; cache = h.cache })

    from_cache-IsTruthful :
        (w : Waiter) (k : ℕ) (s : Buffers E V) (o : Option V)
        → s.cache k ≡ o
        → C w.caller k
        → IsTruthful s
        → IsTruthful (from_cache w k o s)
    from_cache-IsTruthful w k s none e c h = get_buffer-IsTruthful w k s c h
    from_cache-IsTruthful w k s (some v) e c h = record {
      waiting = h.waiting;
      results = ((c, h.cache k v e), h.results);
      cache = h.cache;
    }

    step-IsTruthful :
        (disable_lru : Bool) (e : Event E V) (s : Buffers E V)
        → Answered e
        → IsTruthful s
        → IsTruthful (step disable_lru e s)
    unfolding step get_cached_buffer settle
    step-IsTruthful d (asks w k) s p h =
        if_cases IsTruthful (w.caches && not d)
          (λ t. from_cache-IsTruthful w k s (s.cache k) refl p h)
          (λ t. get_buffer-IsTruthful w k s p h)
    step-IsTruthful d (answers k a) s p h =
        if_cases IsTruthful (is_open k s.promise_store)
          (λ t. record {
            waiting = delete_entry-All k s.promise_store h.waiting;
            results =
                All-append Returned _ s.results
                  (deliver-All k a (waiters_of k s.promise_store) p
                    (waiters_of-All k s.promise_store h.waiting))
                  h.results;
            cache = cached-lem _ k a s.cache p h.cache;
          })
          (λ t. h)
    step-IsTruthful d (drops k) s p h = record {
      waiting = h.waiting;
      results = h.results;
      cache = λ j v.
          if_cases (λ o. o ≡ some v → P j (ok (some v))) (j == k) (λ t e. absurd (none-some e))
            (λ t. h.cache j v);
    }

    run-IsTruthful :
        (disable_lru : Bool) (events : List (Event E V)) (s : Buffers E V)
        → All Answered events
        → IsTruthful s
        → IsTruthful (run disable_lru events s)
    unfolding run
    run-IsTruthful d [] s p h = h
    run-IsTruthful d (e ∷ es) s p h =
        run-IsTruthful d es (step d e s) p.1 (step-IsTruthful d e s p.0 h)

    given_all :
        (events : List (Event E V))
        → ((c k : ℕ) → IsAsked events c k → C c k)
        → ((k : ℕ) (a : Answer E (Option V)) → IsGiven events k a → P k a)
        → All Answered events
    given_all [] q f = tt
    given_all (asks w k ∷ es) q f =
        (q w.caller k (inl (refl, refl)), given_all es (λ c j g. q c j (inr g)) f)
    given_all (answers k a ∷ es) q f =
        (f k a (inl (refl, refl)), given_all es q (λ j b g. f j b (inr g)))
    given_all (drops k ∷ es) q f = (tt, given_all es q f)

  -- Whatever calls, answers and drops of the cache come in, in any order: what is returned to a
  -- caller for a key is for a key that this caller has called for, and is an answer of a data
  -- provider to this key, both in that history.
  pub run-IsGiven :
      (disable_lru : Bool) (events : List (Event E V))
      → All
          (λ (r : Result E V). IsAsked events r.caller r.key × IsGiven events r.key r.answer)
          (run disable_lru events no_buffers).results
  run-IsGiven d events =
      (run-IsTruthful (IsAsked events) (IsGiven events) d events no_buffers
        (given_all (IsAsked events) (IsGiven events) events (λ c k g. g) (λ k a g. g))
        record { waiting = tt; results = tt; cache = λ k v e. absurd (none-some e) }).results
