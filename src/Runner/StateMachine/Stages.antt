-- ===== src/Runner/StateMachine/Stages.antt =====
-- state_machine.js: which states a worker passes through.
use runtime_bridge.Prelude.{◌≡◌, refl, ap, List, [], ◌∷◌, ◌++◌}
use runtime_bridge.Runner.StateMachine.{
  State, s_idle, s_starting, s_synching, s_synched, s_pre_active, s_active, s_error, s_kicked,
  Event, should_start, should_mark_synching, should_mark_synched, should_mark_pre_active,
  should_mark_active, should_kick, error_event, Machine, new_machine, handle, handle_all,
}

-- The states that lead to a state, when the worker has met no error and no kick.
unfoldable pub stages : State → List State
stages s_idle = []
stages s_starting = s_starting ∷ []
stages s_synching = s_starting ∷ s_synching ∷ []
stages s_synched = s_starting ∷ s_synching ∷ s_synched ∷ []
stages s_pre_active = s_starting ∷ s_synching ∷ s_synched ∷ s_pre_active ∷ []
stages s_active = s_starting ∷ s_synching ∷ s_synched ∷ s_pre_active ∷ s_active ∷ []
stages s_error = []
stages s_kicked = []

-- What a worker in a state has entered: nothing is said of one that has stopped.
unfoldable pub StagedAt : State → List State → Type 0
unfolding stages
StagedAt s_error es = Unit
StagedAt s_kicked es = Unit
StagedAt s es = es ≡ stages s

abbrev pub IsStaged : Machine → Type 0
IsStaged m = StagedAt m.state m.entered

abbrev at : State → List State → Machine
at s es = record { state = s; entered = es }

from_idle : (es : List State) (e : Event) → StagedAt s_idle es → IsStaged (handle (at s_idle es) e)
unfolding handle StagedAt
from_idle es should_start h = ap (λ xs. xs ++ (s_starting ∷ [])) h
from_idle es should_kick h = tt
from_idle es error_event h = tt
from_idle es e h = h

from_starting :
    (es : List State) (e : Event) → StagedAt s_starting es → IsStaged (handle (at s_starting es) e)
unfolding handle StagedAt
from_starting es should_mark_synching h = ap (λ xs. xs ++ (s_synching ∷ [])) h
from_starting es should_kick h = tt
from_starting es error_event h = tt
from_starting es e h = h

from_synching :
    (es : List State) (e : Event) → StagedAt s_synching es → IsStaged (handle (at s_synching es) e)
unfolding handle StagedAt
from_synching es should_mark_synched h = ap (λ xs. xs ++ (s_synched ∷ [])) h
from_synching es should_kick h = tt
from_synching es error_event h = tt
from_synching es e h = h

from_synched :
    (es : List State) (e : Event) → StagedAt s_synched es → IsStaged (handle (at s_synched es) e)
unfolding handle StagedAt
from_synched es should_mark_pre_active h = ap (λ xs. xs ++ (s_pre_active ∷ [])) h
from_synched es should_kick h = tt
from_synched es error_event h = tt
from_synched es e h = h

from_pre_active :
    (es : List State) (e : Event)
    → StagedAt s_pre_active es
    → IsStaged (handle (at s_pre_active es) e)
unfolding handle StagedAt
from_pre_active es should_mark_active h = ap (λ xs. xs ++ (s_active ∷ [])) h
from_pre_active es should_kick h = tt
from_pre_active es error_event h = tt
from_pre_active es e h = h

from_active :
    (es : List State) (e : Event) → StagedAt s_active es → IsStaged (handle (at s_active es) e)
unfolding handle StagedAt
from_active es should_kick h = tt
from_active es error_event h = tt
from_active es e h = h

from_error : (es : List State) (e : Event) → IsStaged (handle (at s_error es) e)
unfolding handle StagedAt
from_error es should_kick = tt
from_error es e = tt

from_kicked : (es : List State) (e : Event) → IsStaged (handle (at s_kicked es) e)
unfolding handle StagedAt
from_kicked es should_kick = tt
from_kicked es e = tt

from_state :
    (s : State) (es : List State) (e : Event) → StagedAt s es → IsStaged (handle (at s es) e)
from_state s_idle es e h = from_idle es e h
from_state s_starting es e h = from_starting es e h
from_state s_synching es e h = from_synching es e h
from_state s_synched es e h = from_synched es e h
from_state s_pre_active es e h = from_pre_active es e h
from_state s_active es e h = from_active es e h
from_state s_error es e h = from_error es e
from_state s_kicked es e h = from_kicked es e

handle-IsStaged : (m : Machine) (e : Event) → IsStaged m → IsStaged (handle m e)
handle-IsStaged m e h = from_state m.state m.entered e h

run-IsStaged : (m : Machine) (es : List Event) → IsStaged m → IsStaged (handle_all m es)
unfolding handle_all
run-IsStaged m [] h = h
run-IsStaged m (e ∷ es) h = run-IsStaged (handle m e) es (handle-IsStaged m e h)

-- Whatever events a new state machine handles, in whatever order: unless it has stopped, it has
-- entered the states that lead to its state, each once and in order. So an active worker has
-- started, synched its blocks and synched its messages first.
pub handle_all-IsStaged : (es : List Event) → IsStaged (handle_all new_machine es)
unfolding StagedAt
handle_all-IsStaged es = run-IsStaged new_machine es refl

-- Stopped by an error or a kick.
unfoldable pub IsStopped : State → Type 0
IsStopped s_error = Unit
IsStopped s_kicked = Unit
IsStopped _ = ⊥

error-IsStopped : (s : State) (es : List State) → IsStopped (handle (at s es) error_event).state
unfolding handle IsStopped
error-IsStopped s_idle es = tt
error-IsStopped s es = tt

kick-IsStopped : (s : State) (es : List State) → IsStopped (handle (at s es) should_kick).state
unfolding handle IsStopped
kick-IsStopped s_idle es = tt
kick-IsStopped s es = tt

handle-IsStopped :
    (s : State) (es : List State) (e : Event) → IsStopped s → IsStopped (handle (at s es) e).state
unfolding handle IsStopped
handle-IsStopped s_error es should_kick h = tt
handle-IsStopped s_error es e h = tt
handle-IsStopped s_kicked es should_kick h = tt
handle-IsStopped s_kicked es e h = tt
handle-IsStopped s es e h = elim h [ ]

run-IsStopped :
    (m : Machine) (es : List Event) → IsStopped m.state → IsStopped (handle_all m es).state
unfolding handle_all
run-IsStopped m [] h = h
run-IsStopped m (e ∷ es) h = run-IsStopped (handle m e) es (handle-IsStopped m.state m.entered e h)

-- An error or a kick stops a worker in any state, and no later event makes it run again.
pub handle_all-IsStopped :
    (m : Machine) (es : List Event)
    → IsStopped (handle_all m (error_event ∷ es)).state
      × IsStopped (handle_all m (should_kick ∷ es)).state
unfolding handle_all
handle_all-IsStopped m es = (
  run-IsStopped (handle m error_event) es (error-IsStopped m.state m.entered),
  run-IsStopped (handle m should_kick) es (kick-IsStopped m.state m.entered),
)
