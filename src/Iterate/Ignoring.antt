-- ===== src/Iterate/Ignoring.antt =====
-- utils/iterate.js with a handler that ignores every error: `throwFatal` is never called.
use runtime_bridge.Prelude.{
  ℕ, zero, suc, ◌≡◌, refl, sym, ap, subst, Bool, true, false, Option, none, some,
}
use runtime_bridge.Iterate.{
  Outcome, done, threw, Callbacks, Yield, finished, item, call_item, after_handler, after_call,
  process, after_item, on_yield, iterate,
}
use runtime_bridge.Iterate.Invariant.{IsKeptItem, Ends}

module _ {S E : Type 0} (P : S → Type 0) (Q : Outcome E × S → Type 0) (cb : Callbacks S E) where
  -- The handler calls the setter, ends without an error, and keeps what is to be kept.
  abbrev pub IsIgnoring : Type 0
  IsIgnoring =
      (e : E) (attempt : ℕ) (s : S)
      → P s
      → (t : S) × (cb.process_error e attempt s ≡ (true, done, t)) × P t

  abbrev IsIgnored : Option (Outcome E × S) → Type 0
  IsIgnored r = (t : S) × (r ≡ some (done, t)) × P t

  call-IsIgnored :
      (again : ℕ → Bool → S → Option (Outcome E × S)) (r : Outcome E × S)
      → IsIgnoring
      → P r.1
      → IsIgnored (after_call cb again 0 false r)
  unfolding after_call after_handler
  call-IsIgnored again (done, s) ignoring h = (s, refl, h)
  call-IsIgnored again (threw e, s) ignoring h =
      let k = ignoring e 0 s h in (k.0, ap (after_handler cb again 0 false) k.1, k.2)

  after_item-Ends :
      (continue : S → Option (Outcome E × S)) (r : Option (Outcome E × S))
      → IsIgnored r
      → ((t : S) → P t → Ends P Q (continue t))
      → Ends P Q (after_item cb continue r)
  unfolding after_item
  after_item-Ends continue r h rest =
      subst (λ x. Ends P Q (after_item cb continue x)) (sym h.1) (rest h.0 h.2)

  yield-Ends :
      (continue : S → Option (Outcome E × S)) (y : Yield S E × S)
      → IsIgnoring
      → IsKeptItem P Q y
      → ((t : S) → P t → Ends P Q (continue t))
      → Ends P Q (on_yield cb continue y)
  unfolding on_yield process call_item after_item after_call
  yield-Ends continue (finished, s) ignoring h rest = h
  yield-Ends continue (item none, s) ignoring h rest = rest s h
  yield-Ends continue (item (some fn), s) ignoring h rest =
      after_item-Ends continue (process cb (some fn) 7 0 false s)
        (call-IsIgnored (process cb (some fn) 6) (fn s) ignoring (h.1 s h.0)) rest

  pub iterate-Ends :
      (next : S → Yield S E × S) (fuel : ℕ) (s : S)
      → IsIgnoring
      → ((t : S) → P t → IsKeptItem P Q (next t))
      → P s
      → Ends P Q (iterate cb next fuel s)
  unfolding iterate
  iterate-Ends next zero s ignoring kept h = tt
  iterate-Ends next (suc fuel) s ignoring kept h =
      yield-Ends (iterate cb next fuel) (next s) ignoring (kept s h)
        (λ t g. iterate-Ends next fuel t ignoring kept g)
