-- ===== src/Runner/Scenarios.antt =====
-- state_machine.js at concrete events and answers.
use runtime_bridge.Prelude.{◌≡◌, refl, true, false, none, List, [], ◌∷◌}
use runtime_bridge.Runner.StateMachine.{
  Event, should_start, should_mark_synching, should_mark_synched, should_mark_active, s_starting,
  s_synching, s_synched, s_pre_active, s_active, new_machine,
}
use runtime_bridge.Runner.StateMachine.Actions.{
  Answers, fulfilled, ready, register, sync_messages, start_computing, drive,
}
use runtime_bridge.Runner.StateMachine.Actions.Course.{drive-s_active}

-- A late event and one that comes too early are both left out.
abbrev events : List Event
events =
    should_start ∷ should_mark_active ∷ should_mark_synching ∷ should_start ∷ should_mark_synched
    ∷ []

abbrev answers : Answers
answers = record {
  initialised = fulfilled;
  pid = "7";
  assigned_pool = none;
  subscribed = fulfilled;
  synched = fulfilled;
  force_ra = true;
  registered = fulfilled;
  sync_only = false;
  mq_synched = fulfilled;
  session = ready;
  on_chain_stake = 1;
  stake = 2;
  restarted = fulfilled;
  skip_ra = false;
  gets_ready = fulfilled;
  started = fulfilled;
}

drive-s_active_example : drive 6 answers new_machine should_start ≡ (
  record {
    state = s_active;
    entered = s_starting ∷ s_synching ∷ s_synched ∷ s_pre_active ∷ s_active ∷ [];
  },
  register ∷ sync_messages ∷ register ∷ start_computing ∷ [],
)
drive-s_active_example =
    drive-s_active answers refl refl refl refl refl refl refl refl refl refl refl 1
