-- ===== src/Iterate/Bounds.antt =====
-- How often utils/iterate.js runs an item, and how the run of an item ends.
use runtime_bridge.Prelude.{
  ℕ, zero, suc, ◌+◌, ◌≤◌, ◌<◌, ◌≡◌, ◌⊎◌, refl, Bool, true, false, ◌||◌, Option, some, arith, leb,
  inl, inr, Bool-cases, Settles,
}
use runtime_bridge.Iterate.{Outcome, done, threw, Callbacks, after_handler, after_call, process}

-- Only the item counts as a call of the item.
pub record IsCounter {S E : Type 0} (cb : Callbacks S E) (fn : S → Outcome E × S) (calls : S → ℕ)
    : Type 0 where
  pub by_item : (s : S) → calls (fn s).1 ≡ calls s + 1
  pub by_handler : (e : E) (attempt : ℕ) (s : S) → calls (cb.process_error e attempt s).2 ≡ calls s

module _ {S E : Type 0} (cb : Callbacks S E) (fn : S → Outcome E × S) (calls : S → ℕ) where
  -- Resolved with at most `limit` calls on the counter, or what `throwFatal` made of an error, at
  -- a state with exactly `limit` calls on the counter.
  abbrev pub Ended : ℕ → Outcome E × S → Type 0
  Ended limit r =
      ((r.0 ≡ done) × (calls r.1 ≤ limit))
      ⊎ ((e : E) × (t : S) × (r ≡ cb.throw_fatal e t) × (calls t ≡ limit))

  handler_ends :
      (again : ℕ → Bool → S → Option (Outcome E × S)) (limit attempt : ℕ) (ignore : Bool)
      (r : Bool × Outcome E × S)
      → calls r.2 ≤ limit
      → ((b : Bool) → Settles (Ended limit) (again (attempt + 1) b r.2))
      → Settles (Ended limit) (after_handler cb again attempt ignore r)
  unfolding after_handler
  handler_ends again limit attempt true (set, done, s) h rest = inl (refl, h)
  handler_ends again limit attempt false (true, done, s) h rest = inl (refl, h)
  handler_ends again limit attempt false (false, done, s) h rest = rest false
  handler_ends again limit attempt ignore (set, threw e, s) h rest = rest (ignore || set)

  call_ends :
      (again : ℕ → Bool → S → Option (Outcome E × S)) (limit attempt : ℕ) (ignore : Bool)
      (r : Outcome E × S)
      → calls r.1 ≤ limit
      → (5 < attempt → calls r.1 ≡ limit)
      → ((b : Bool) (e : E)
          → attempt ≤ 5
          → Settles (Ended limit) (again (attempt + 1) b (cb.process_error e attempt r.1).2))
      → ((e : E) → calls (cb.process_error e attempt r.1).2 ≤ limit)
      → Settles (Ended limit) (after_call cb again attempt ignore r)
  unfolding after_call
  call_ends again limit attempt ignore (done, s) h last rest k = inl (refl, h)
  call_ends again limit attempt ignore (threw e, s) h last rest k =
      elim (Bool-cases (leb attempt 5)) [
        | inl more ↦ rw more (
            handler_ends again limit attempt ignore (cb.process_error e attempt s) (k e)
              (λ b. rest b e (ground arith)))
        | inr over ↦ rw over (inr (e, s, refl, last (ground arith)))
      ]

  process_ends :
      (fuel attempt : ℕ) (ignore : Bool) (s : S) (limit : ℕ)
      → IsCounter cb fn calls
      → attempt + fuel ≡ 7
      → 0 < fuel
      → calls s + fuel ≡ limit
      → Settles (Ended limit) (process cb (some fn) fuel attempt ignore s)
  unfolding process
  process_ends zero attempt ignore s limit c f p h = absurd (omega arith)
  process_ends (suc fuel) attempt ignore s limit c f p h =
      call_ends (process cb (some fn) fuel) limit attempt ignore (fn s) (omega (arith, c.by_item s))
        (λ l. omega (arith, c.by_item s))
        (λ b e l.
          process_ends fuel (attempt + 1) b (cb.process_error e attempt (fn s).1).2 limit c
            (omega arith) (omega arith)
            (omega (arith, c.by_item s, c.by_handler e attempt (fn s).1)))
        (λ e. omega (arith, c.by_item s, c.by_handler e attempt (fn s).1))

  -- An item of the loop always settles, after at most 7 calls of its function: it resolves, or it
  -- ends as `throwFatal` does, and `throwFatal` runs only after exactly 7 calls.
  pub item_ends :
      (s : S)
      → IsCounter cb fn calls
      → Settles (Ended (calls s + 7)) (process cb (some fn) 7 0 false s)
  item_ends s c = process_ends 7 0 false s (calls s + 7) c refl (omega arith) refl
