-- ===== src/Trade/Retry/Attempts.antt =====
-- bus.js: how many attempts a request gets, and how it ends.
use Prim.Native.String.{String}
use runtime_bridge.Prelude.{ℕ, suc, ◌≡◌, Option, none, some, List, [], ◌∷◌}
use runtime_bridge.Trade.Retry.{
  Progress, should_retry, failed, finished, Attempt, not_started, not_finished, went_through,
  Handled,
}

-- The error of an attempt.
abbrev pub error_of : Attempt → Option String
error_of (not_started e) = some e
error_of (not_finished e) = some e
error_of went_through = none

-- The retries that were reported.
abbrev pub count_retries : List Progress → ℕ
count_retries [] = 0
count_retries (should_retry ∷ ps) = suc (count_retries ps)
count_retries (_ ∷ ps) = count_retries ps

-- The last report.
abbrev pub last_report : Progress → List Progress → Progress
last_report p [] = p
last_report p (q ∷ ps) = last_report q ps

abbrev final_report : Attempt → Progress
final_report (not_started e) = failed
final_report (not_finished e) = failed
final_report went_through = finished

-- The handling ended with the attempt `a`, after `n` retries: its error is thrown, if it has one,
-- and the last report says so.
pub record EndedWith (a : Attempt) (n : ℕ) (h : Handled) : Type 0 where
  pub error : h.error ≡ error_of a
  pub retries : count_retries h.reports ≡ n
  pub last : (p : Progress) → last_report p h.reports ≡ final_report a
