-- ===== src/Runner/Workers/Reports.antt =====
-- worker.js, getWorkerStates: what a runner reports of its workers. Texts and keys are numbers, and
-- an optional chain that meets undefined gives `none`.
use runtime_bridge.Prelude.{ℕ, Bool, Option, none, some, List, [], ◌∷◌}
use runtime_bridge.Prelude.Int.{ℤ}

-- What is read of `runtime`, of `onChainState` and of a context.
pub record RuntimeView : Type 0 where
  pub public_key : Option ℕ
  pub initialized : Option Bool
  pub parent_header_synched_to : ℤ
  pub para_header_synched_to : ℤ
  pub para_block_dispatched_to : ℤ

pub record ChainView : Type 0 where
  pub account_id : ℕ
  pub human_readable : Option ℕ

pub record ContextView : Type 0 where
  pub state_machine_state : ℕ
  pub snapshot_brief : ℕ
  pub message : ℕ
  pub runtime : Option RuntimeView
  pub on_chain_state : Option ChainView

-- An entry of the report; the session is the chain's, or else stands for the runtime's info.
pub record WorkerState : Type 0 where
  pub status : Option ℕ
  pub initialized : Option Bool
  pub parent_header_synched_to : Option ℤ
  pub para_header_synched_to : Option ℤ
  pub para_block_dispatched_to : Option ℤ
  pub worker : Option ℕ
  pub public_key : Option ℕ
  pub last_message : Option ℕ
  pub worker_account_id : Option ℕ
  pub session_info : Option ℕ

abbrev pub chain : {A B : Type 0} → Option A → (A → Option B) → Option B
chain none f = none
chain (some a) f = f a

abbrev pub state_of : Option ContextView → WorkerState
state_of w =
    let runtime = chain w (λ c. c.runtime) in
    let on_chain = chain w (λ c. c.on_chain_state) in
    record {
      status = chain w (λ c. some c.state_machine_state);
      initialized = chain runtime (λ r. r.initialized);
      parent_header_synched_to = chain runtime (λ r. some r.parent_header_synched_to);
      para_header_synched_to = chain runtime (λ r. some r.para_header_synched_to);
      para_block_dispatched_to = chain runtime (λ r. some r.para_block_dispatched_to);
      worker = chain w (λ c. some c.snapshot_brief);
      public_key = chain runtime (λ r. r.public_key);
      last_message = chain w (λ c. some c.message);
      worker_account_id = chain on_chain (λ s. some s.account_id);
      session_info = chain on_chain (λ s. s.human_readable);
    }

-- `getWorkerStates`
unfoldable pub get_worker_states : List ℕ → (ℕ → Option ContextView) → List (ℕ × WorkerState)
get_worker_states [] workers = []
get_worker_states (id ∷ ids) workers = (id, state_of (workers id)) ∷ get_worker_states ids workers
