-- ===== src/Iterate/Invariant.antt =====
-- utils/iterate.js: what every item and both handlers keep, the loop keeps.
use runtime_bridge.Prelude.{
  ℕ, zero, suc, Bool, true, false, Option, none, some, leb, inl, inr, Bool-cases,
}
use runtime_bridge.Iterate.{
  Outcome, done, threw, Callbacks, Yield, finished, item, call_item, after_handler, after_call,
  process, after_item, on_yield, iterate,
}

module _ {S E : Type 0} (P : S → Type 0) (Q : Outcome E × S → Type 0) where
  -- What is to show of the generator's next item, of how `throwFatal` ends, and of the whole run.
  abbrev pub IsKeptItem : Yield S E × S → Type 0
  IsKeptItem (finished, s) = Q (done, s)
  IsKeptItem (item none, s) = P s
  IsKeptItem (item (some fn), s) = P s × ((t : S) → P t → P (fn t).1)

  abbrev pub IsKeptEnd : Outcome E × S → Type 0
  IsKeptEnd (done, s) = P s
  IsKeptEnd (threw e, s) = Q (threw e, s)

  abbrev pub Ends : Option (Outcome E × S) → Type 0
  Ends none = Unit
  Ends (some r) = Q r

  abbrev ItemEnds : Option (Outcome E × S) → Type 0
  ItemEnds none = Unit
  ItemEnds (some r) = IsKeptEnd r

  pub record IsKept (cb : Callbacks S E) (next : S → Yield S E × S) : Type 0 where
    pub by_next : (s : S) → P s → IsKeptItem (next s)
    pub by_handler : (e : E) (attempt : ℕ) (s : S) → P s → P (cb.process_error e attempt s).2
    pub by_fatal : (e : E) (s : S) → P s → IsKeptEnd (cb.throw_fatal e s)

  module _ (cb : Callbacks S E) (next : S → Yield S E × S) (kept : IsKept cb next) where
    handler-Ends :
        (again : ℕ → Bool → S → Option (Outcome E × S)) (attempt : ℕ) (ignore : Bool)
        (r : Bool × Outcome E × S)
        → P r.2
        → ((a : ℕ) (b : Bool) → ItemEnds (again a b r.2))
        → ItemEnds (after_handler cb again attempt ignore r)
    unfolding after_handler
    handler-Ends again attempt true (set, done, s) h rest = h
    handler-Ends again attempt false (true, done, s) h rest = h
    handler-Ends again attempt false (false, done, s) h rest = rest _ _
    handler-Ends again attempt ignore (set, threw e, s) h rest = rest _ _

    call-Ends :
        (again : ℕ → Bool → S → Option (Outcome E × S)) (attempt : ℕ) (ignore : Bool)
        (r : Outcome E × S)
        → P r.1
        → ((a : ℕ) (b : Bool) (t : S) → P t → ItemEnds (again a b t))
        → ItemEnds (after_call cb again attempt ignore r)
    unfolding after_call
    call-Ends again attempt ignore (done, s) h rest = h
    call-Ends again attempt ignore (threw e, s) h rest = elim (Bool-cases (leb attempt 5)) [
      | inl t ↦
          let g = kept.by_handler e attempt s h in
          rw t (
            handler-Ends again attempt ignore (cb.process_error e attempt s) g
              (λ a b. rest a b _ g))
      | inr t ↦ rw t (kept.by_fatal e s h)
    ]

    process-Ends :
        (fn : S → Outcome E × S)
        → ((t : S) → P t → P (fn t).1)
        → (fuel attempt : ℕ) (ignore : Bool) (s : S) → P s
        → ItemEnds (process cb (some fn) fuel attempt ignore s)
    unfolding process
    process-Ends fn k zero attempt ignore s h = tt
    process-Ends fn k (suc fuel) attempt ignore s h =
        call-Ends (process cb (some fn) fuel) attempt ignore (fn s) (k s h)
          (λ a b t g. process-Ends fn k fuel a b t g)

    item-Ends :
        (continue : S → Option (Outcome E × S)) (r : Option (Outcome E × S))
        → ItemEnds r
        → ((t : S) → P t → Ends (continue t))
        → Ends (after_item cb continue r)
    unfolding after_item
    item-Ends continue none h rest = tt
    item-Ends continue (some (done, s)) h rest = rest s h
    item-Ends continue (some (threw e, s)) h rest = h

    yield-Ends :
        (continue : S → Option (Outcome E × S)) (y : Yield S E × S)
        → IsKeptItem y
        → ((t : S) → P t → Ends (continue t))
        → Ends (on_yield cb continue y)
    unfolding on_yield process call_item after_call after_item
    yield-Ends continue (finished, s) h rest = h
    yield-Ends continue (item none, s) h rest = rest s h
    yield-Ends continue (item (some fn), s) h rest =
        item-Ends continue (process cb (some fn) 7 0 false s) (process-Ends fn h.1 7 0 false s h.0)
          rest

    pub iterate-Ends : (fuel : ℕ) (s : S) → P s → Ends (iterate cb next fuel s)
    unfolding iterate
    iterate-Ends zero s h = tt
    iterate-Ends (suc fuel) s h =
        yield-Ends (iterate cb next fuel) (next s) (kept.by_next s h) (λ t g. iterate-Ends fuel t g)
