-- ===== src/Runner/Buffers/Tests.antt =====
-- Three calls for one key, of which two share a fetch and one is answered from the cache.
use runtime_bridge.Prelude.{ℕ, ◌≡◌, refl, true, false, Option, some, List, [], ◌∷◌, All}
use runtime_bridge.Runner.Sync.{Answer, ok, fails}
use runtime_bridge.Runner.Buffers.{
  Waiter, Result, Event, asks, answers, no_buffers, get_buffer, get_cached_buffer, settle, step,
  run,
}
use runtime_bridge.Runner.Buffers.Shared.{IsShared, calls_by, run-IsShared}
use runtime_bridge.Runner.Buffers.Given.{IsAsked, IsGiven, run-IsGiven}

abbrev cached_call : ℕ → Waiter
cached_call c = record { caller = c; caches = true }

abbrev plain_call : ℕ → Waiter
plain_call c = record { caller = c; caches = false }

abbrev events : List (Event ℕ ℕ)
events =
    asks (plain_call 1) 50
    ∷ asks (cached_call 2) 50
    ∷ asks (plain_call 4) 60
    ∷ answers 50 (ok (some 9))
    ∷ asks (cached_call 3) 50
    ∷ answers 60 (fails 0)
    ∷ asks (plain_call 5) 60
    ∷ []

run-IsShared_example : IsShared (calls_by events) (run false events no_buffers)
run-IsShared_example = run-IsShared false events

run-IsGiven_example :
    All
      (λ (r : Result ℕ ℕ). IsAsked events r.caller r.key × IsGiven events r.key r.answer)
      (run false events no_buffers).results
run-IsGiven_example = run-IsGiven false events

fetched_once : (run false events no_buffers).asked ≡ 60 ∷ 60 ∷ 50 ∷ []
unfolding run step get_cached_buffer get_buffer settle
fetched_once = refl

abbrev result : ℕ → ℕ → Answer ℕ (Option ℕ) → Result ℕ ℕ
result c k a = record { caller = c; key = k; answer = a }

all_answered :
    (run false events no_buffers).results
    ≡ result 4 60 (fails 0)
      ∷ result 3 50 (ok (some 9))
      ∷ result 1 50 (ok (some 9))
      ∷ result 2 50 (ok (some 9))
      ∷ []
unfolding run step get_cached_buffer get_buffer settle
all_answered = refl
