-- ===== src/Iterate/Tests.antt =====
-- utils/iterate.js at a concrete item: a counter that fails on its first two calls.
use runtime_bridge.Prelude.{ℕ, ◌+◌, ◌≡◌, refl, false, some, ltb, if◌then◌else◌}
use runtime_bridge.Iterate.{
  Outcome, done, threw, Callbacks, Yield, finished, item, process, iterate,
}
use runtime_bridge.Iterate.Bounds.{IsCounter}

-- The state counts the calls.
abbrev flaky : ℕ → Outcome ℕ × ℕ
flaky n = (if ltb n 2 then threw n else done, n + 1)

abbrev broken : ℕ → Outcome ℕ × ℕ
broken n = (threw n, n + 1)

abbrev callbacks : Callbacks ℕ ℕ
callbacks = record {
  process_error = λ e attempt n. (false, done, n);
  throw_fatal = λ e n. (threw e, n);
}

flaky_runs : process callbacks (some flaky) 7 0 false 0 ≡ some (done, 3)
unfolding process
flaky_runs = refl

broken_runs : process callbacks (some broken) 7 0 false 0 ≡ some (threw 6, 7)
unfolding process
broken_runs = refl

abbrev two_items : ℕ → Yield ℕ ℕ × ℕ
two_items n = (if ltb n 4 then item (some flaky) else finished, n)

loop_runs : iterate callbacks two_items 5 0 ≡ some (done, 4)
unfolding iterate
loop_runs = refl

flaky-IsCounter : IsCounter callbacks flaky (λ n. n)
flaky-IsCounter = record { by_item = λ s. refl; by_handler = λ e attempt s. refl }
