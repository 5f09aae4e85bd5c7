-- ===== src/Iterate.antt =====
-- src/utils/iterate.js: a loop over an async generator that runs each item with retries.
-- What the item, the error handler, the fatal handler and the generator do is a parameter: each
-- is a function on the program's state `S`, and a promise settles as an `Outcome`.
pub mod Bounds
pub mod Invariant
pub mod Ignoring
mod Tests
use runtime_bridge.Prelude.{
  ℕ, zero, suc, ◌+◌, Bool, true, false, ◌||◌, Option, none, some, leb, if◌then◌else◌,
}

-- How a promise settles.
pub data Outcome (E : Type 0) : Type 0 where
  done : Outcome E
  threw : E → Outcome E

-- `processError(e, attempt, setShouldIgnoreError)`, whose Boolean says whether it called the
-- setter, and `throwFatal(e)`.
pub record Callbacks (S E : Type 0) : Type 0 where
  pub process_error : E → ℕ → S → Bool × Outcome E × S
  pub throw_fatal : E → S → Outcome E × S

-- What the generator hands out next: its end, or an item, which may be undefined (a bare `yield`).
pub data Yield (S E : Type 0) : Type 0 where
  finished : Yield S E
  item : Option (S → Outcome E × S) → Yield S E

module _ {S E : Type 0} (cb : Callbacks S E) where
  -- `if (fn) await fn()`
  unfoldable pub call_item : Option (S → Outcome E × S) → S → Outcome E × S
  call_item none s = (done, s)
  call_item (some fn) s = fn s

  -- The inner `try`: a throwing handler is logged, and the flag it set before throwing stays set.
  unfoldable pub after_handler :
      (ℕ → Bool → S → Option (Outcome E × S))
      → ℕ
      → Bool
      → Bool × Outcome E × S
      → Option (Outcome E × S)
  after_handler again attempt ignore (set, done, s) =
      if ignore || set then some (done, s) else again (attempt + 1) (ignore || set) s
  after_handler again attempt ignore (set, threw e, s) = again (attempt + 1) (ignore || set) s

  -- The outer `catch`.
  unfoldable pub after_call :
      (ℕ → Bool → S → Option (Outcome E × S)) → ℕ → Bool → Outcome E × S → Option (Outcome E × S)
  unfolding after_handler
  after_call again attempt ignore (done, s) = some (done, s)
  after_call again attempt ignore (threw e, s) =
      if leb attempt 5
      then after_handler again attempt ignore (cb.process_error e attempt s)
      else some (cb.throw_fatal e s)

  -- The local `process`, on fuel; `none` means that the fuel ran out.
  unfoldable pub process : Option (S → Outcome E × S) → ℕ → ℕ → Bool → S → Option (Outcome E × S)
  unfolding call_item after_call
  process fn zero attempt ignore s = none
  process fn (suc fuel) attempt ignore s =
      after_call (process fn fuel) attempt ignore (call_item fn s)

  -- What follows an item: the next round, or the rejection of the whole loop.
  unfoldable pub after_item :
      (S → Option (Outcome E × S)) → Option (Outcome E × S) → Option (Outcome E × S)
  after_item continue none = none
  after_item continue (some (done, s)) = continue s
  after_item continue (some (threw e, s)) = some (threw e, s)

  unfoldable pub on_yield : (S → Option (Outcome E × S)) → Yield S E × S → Option (Outcome E × S)
  unfolding process after_item
  on_yield continue (finished, s) = some (done, s)
  on_yield continue (item fn, s) = after_item continue (process fn 7 0 false s)

  -- The `for await` loop, on fuel for the number of items; each item starts with attempt 0 and the
  -- flag cleared, and 7 units of fuel are enough for it.
  unfoldable pub iterate : (S → Yield S E × S) → ℕ → S → Option (Outcome E × S)
  unfolding on_yield
  iterate next zero s = none
  iterate next (suc fuel) s = on_yield (iterate next fuel) (next s)
