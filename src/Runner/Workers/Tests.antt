-- ===== src/Runner/Workers/Tests.antt =====
-- A runner of two workers, a restart, and two restarts of one worker that overlap.
use runtime_bridge.Prelude.{
  AreDistinct, none-some, ℕ, ◌≡◌, refl, true, false, none, some, List, [], ◌∷◌, arith,
}
use runtime_bridge.Runner.Workers.{
  Runner, new_runner, should_restart, should_kick_workers, create, start_workers, Event, restarts,
  kicks, unsubscribed, handle, run,
}
use runtime_bridge.Runner.Workers.Status.{
  Info, Round, no_peer, has_error, answered, update_info_rounds, best_answer,
  update_info_rounds-best_answer,
}
use runtime_bridge.Runner.Workers.Lone.{IsLone}
use runtime_bridge.Runner.Workers.Lone.Restarts.{AreApart, run-IsLone}

-- Two tokens each.
abbrev stake : ℕ → ℕ
stake row = 2000000000000

abbrev rows : List ℕ
rows = 7 ∷ 8 ∷ []

abbrev started : Runner
started = start_workers stake rows new_runner

abbrev events : List Event
events = restarts true (7 ∷ 9 ∷ []) ∷ kicks (8 ∷ []) ∷ unsubscribed 0 ∷ []

rows-AreDistinct : AreDistinct rows
rows-AreDistinct = ((λ e. omega arith, tt), (tt, tt))

events-AreApart : AreApart stake events started
unfolding start_workers create handle should_restart should_kick_workers
events-AreApart = ((λ c e. refl, (λ c e. absurd (none-some e), tt)), (tt, (tt, tt)))

run-IsLone_example : IsLone (run stake events started)
run-IsLone_example = run-IsLone stake rows events rows-AreDistinct events-AreApart

restarted : (run stake events started).workers 7 ≡ some 2
unfolding run start_workers create handle should_restart should_kick_workers
restarted = refl

-- Worker 7 has the context 3, and the context 2 goes on with nobody to stop it.
abbrev overlapping : List Event
overlapping =
    restarts false (7 ∷ []) ∷ restarts false (7 ∷ []) ∷ unsubscribed 0 ∷ unsubscribed 0 ∷ []

overlap_current : (run stake overlapping started).workers 7 ≡ some 3
unfolding run start_workers create handle should_restart should_kick_workers
overlap_current = refl

overlap_goes_on : ((run stake overlapping started).heap 2).told_to_stop ≡ false
unfolding run start_workers create handle should_restart should_kick_workers
overlap_goes_on = refl

abbrev info : ℕ → ℕ → Info
info port height = record {
  blob_server_port = port;
  parent_processed_height = 0;
  parent_committed_height = 0;
  para_processed_height = height;
  para_committed_height = 0;
}

abbrev rounds : List Round
rounds = answered (info 1 5) ∷ has_error ∷ answered (info 2 9) ∷ answered (info 1 6) ∷ no_peer ∷ []

update_info_rounds-best_answer_example : update_info_rounds rounds none ≡ best_answer rounds
update_info_rounds-best_answer_example = update_info_rounds-best_answer rounds

lagging_ignored : update_info_rounds rounds none ≡ some (info 2 9)
unfolding update_info_rounds
lagging_ignored = refl
