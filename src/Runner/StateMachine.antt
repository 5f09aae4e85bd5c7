-- ===== src/Runner/StateMachine.antt =====
-- src/lifecycle/runner/state_machine.js: the states of a worker, the configured transitions and the
-- actions that they run. What an action awaits is a parameter, `Answers`; messages to the operator
-- and fixed waits are left out. The engine, Finity, looks an event up among the transitions of the
-- current state and leaves the state as it is when there is none.
pub mod Stages
pub mod Actions
use runtime_bridge.Prelude.{
  ℕ, Bool, true, false, Option, none, some, List, [], ◌∷◌, ◌++◌, if◌then◌else◌, not, ◌||◌, ◌&&◌,
  ltb, ◌==◌,
}

-- `prb.WorkerState.Status`, the states that are configured
pub data State : Type 0 where
  s_idle s_starting s_synching s_synched s_pre_active s_active s_error s_kicked : State

-- EVENTS
pub data Event : Type 0 where
  should_start should_mark_synching should_mark_synched should_mark_pre_active should_mark_active
        should_kick error_event :
      Event

-- The functions that transitions run.
pub data Action : Type 0 where
  on_starting on_synching on_synched on_pre_active on_active on_error on_kicked : Action

-- `.on(on).transitionTo(target).withAction(action)` of a state
pub record Transition : Type 0 where
  pub from : State
  pub on : Event
  pub target : State
  pub action : Action

-- `wrapStateMachineStateError`
unfoldable pub error_transitions : State → List Transition
error_transitions s =
    record { from = s; on = error_event; target = s_error; action = on_error }
    ∷ record { from = s; on = should_kick; target = s_kicked; action = on_kicked }
    ∷ []

-- `wrapStateMachineState`, which adds to the configuration.
unfoldable pub wrap_state : List Transition → State → Event → State → Action → List Transition
unfolding error_transitions
wrap_state config s on target action =
    config ++ (record { from = s; on = on; target = target; action = action } ∷ error_transitions s)

unfoldable pub state_machine : List Transition
unfolding wrap_state
state_machine =
    let c1 = wrap_state [] s_idle should_start s_starting on_starting in
    let c2 = wrap_state c1 s_starting should_mark_synching s_synching on_synching in
    let c3 = wrap_state c2 s_synching should_mark_synched s_synched on_synched in
    let c4 = wrap_state c3 s_synched should_mark_pre_active s_pre_active on_pre_active in
    let c5 = wrap_state c4 s_pre_active should_mark_active s_active on_active in
    c5 ++ error_transitions s_active ++ error_transitions s_kicked ++ error_transitions s_error

abbrev pub state_code : State → ℕ
state_code s_idle = 0
state_code s_starting = 1
state_code s_synching = 2
state_code s_synched = 3
state_code s_pre_active = 4
state_code s_active = 5
state_code s_error = 6
state_code s_kicked = 7

abbrev pub event_code : Event → ℕ
event_code should_start = 0
event_code should_mark_synching = 1
event_code should_mark_synched = 2
event_code should_mark_pre_active = 3
event_code should_mark_active = 4
event_code should_kick = 5
event_code error_event = 6

abbrev pub applies : State → Event → Transition → Bool
applies s e t = (state_code t.from == state_code s) && (event_code t.on == event_code e)

-- The first transition of a state for an event.
unfoldable pub find_transition : State → Event → List Transition → Option Transition
find_transition s e [] = none
find_transition s e (t ∷ ts) =
    let rest = find_transition s e ts in if applies s e t then some t else rest

-- A worker's state machine, with the states that `onStateTransition` noted.
pub record Machine : Type 0 where
  pub state : State
  pub entered : List State

abbrev pub new_machine : Machine
new_machine = record { state = s_idle; entered = [] }

abbrev pub move : Machine → Option Transition → Machine
move m none = m
move m (some t) = record { state = t.target; entered = m.entered ++ (t.target ∷ []) }

-- `stateMachine.handle(event)`
unfoldable pub handle : Machine → Event → Machine
unfolding find_transition state_machine
handle m e = move m (find_transition m.state e state_machine)

unfoldable pub handle_all : Machine → List Event → Machine
unfolding handle
handle_all m [] = m
handle_all m (e ∷ es) = handle_all (handle m e) es
