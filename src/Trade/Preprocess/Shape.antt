-- ===== src/Trade/Preprocess/Shape.antt =====
-- preprocess.js and preprocess_actions.js: what every accepted request becomes.
use Prim.Native.String.{String}
use text.Mathlib.Text.{◌==◌}
use runtime_bridge.Prelude.{
  ◌≡◌, refl, Bool, true, false, Option, none, some, List, [], ◌∷◌, ◌>>=◌, map_option, Returns,
  Returns-some, Option-cases, All, inl, inr, Bool-cases, not,
}
use runtime_bridge.Trade.Call.{Call, Arg, prop, args, with_hex, to_text, record_call}
use runtime_bridge.Trade.PoolQueue.{Job}
use runtime_bridge.Trade.Preprocess.{
  Payload, Request, Tx, wrap_tx, tx_call, one_call, batch_sync_mq_message, register_worker,
  add_worker, start_computing, stop_computing, restart_computing, pid_text, find_action, actions,
  run_action, preprocess,
}

-- A call `api.tx.<section>.<method>(…)`.
abbrev pub IsTxCall : Call → Type 0
IsTxCall c =
    (section : String) × (method : String) × (vs : List String) × (c
      ≡ prop "tx" ∷ prop section ∷ prop method ∷ args vs ∷ [])

-- The name of an action that is not retried.
abbrev pub is_message_sync : String → Bool
is_message_sync action = action == "BATCH_SYNC_MQ_MESSAGE"

abbrev pub IsWellFormed : Bool → Tx → Type 0
IsWellFormed retried tx = All IsTxCall tx.calls × (tx.should_retry ≡ retried)

tx_call-IsTxCall :
    (section method : String) (vs : List Arg) → Returns IsTxCall (tx_call section method vs)
unfolding record_call
tx_call-IsTxCall section method vs = elim (Option-cases (map_option to_text vs)) [
  | inl failed ↦ rw failed tt
  | inr (texts, made) ↦ rw made (section, method, texts, refl)
]

one_call-lem :
    (section method : String) (vs : List Arg)
    → Returns (IsWellFormed true) (one_call section method vs)
one_call-lem section method vs =
    with_call (tx_call section method vs) (tx_call-IsTxCall section method vs)
  where
    with_call :
        (o : Option Call)
        → Returns IsTxCall o
        → Returns (IsWellFormed true) (o >>= λ c. some (wrap_tx (c ∷ []) true))
    with_call none h = tt
    with_call (some c) h = ((h, tt), refl)

Returns-map_option :
    {A B : Type 0} (P : B → Type 0) (f : A → Option B) (xs : List A)
    → ((x : A) → Returns P (f x))
    → Returns (All P) (map_option f xs)
Returns-map_option P f [] h = tt
Returns-map_option P f (x ∷ xs) h = join (f x) (h x) (map_option f xs) (Returns-map_option P f xs h)
  where
    join :
        (o : Option _)
        → Returns P o
        → (os : Option (List _)) → Returns (All P) os
        → Returns (All P) (o >>= λ y. os >>= λ ys. some (y ∷ ys))
    join none h os hs = tt
    join (some y) h none hs = tt
    join (some y) h (some ys) hs = (h, hs)

-- What every entry of a table gives, a lookup gives.
Returns-find_action :
    (P : Tx → Type 0) (name : String) (p : Payload) (table : List (String × (Payload → Option Tx)))
    → All (λ (e : String × (Payload → Option Tx)). Returns P (e.1 p)) table
    → Returns P (find_action name table >>= λ f. f p)
unfolding find_action
Returns-find_action P name p [] h = tt
Returns-find_action P name p ((key, f) ∷ table) h = elim (Bool-cases (name == key)) [
  | inl same ↦ rw same h.0
  | inr other ↦ rw other (Returns-find_action P name p table h.1)
]

abbrev later : {A : Type 0} → List A → List A
later [] = []
later (x ∷ xs) = xs

module _ (create_type : String → Option String → String) where
  batch_sync-IsWellFormed :
      (ms : Option (List String)) (p : Payload)
      → p.messages ≡ ms
      → Returns (IsWellFormed false) (batch_sync_mq_message create_type p)
  unfolding batch_sync_mq_message
  batch_sync-IsWellFormed none p e = rw e tt
  batch_sync-IsWellFormed (some messages) p e = rw e (
      wrapped (map_option sync messages) (
        Returns-map_option IsTxCall sync messages
          (λ m. tx_call-IsTxCall "phalaMq" "syncOffchainMessage" _)))
    where
      sync : String → Option Call
      sync msg =
          tx_call "phalaMq" "syncOffchainMessage"
            (with_hex (create_type "SignedMessage" (some msg)) ∷ [])

      wrapped :
          (o : Option (List Call))
          → Returns (All IsTxCall) o
          → Returns (IsWellFormed false) (o >>= λ calls. some (wrap_tx calls false))
      wrapped none h = tt
      wrapped (some calls) h = (h, refl)

  later-actions :
      (p : Payload)
      → All
          (λ (e : String × (Payload → Option Tx)). Returns (IsWellFormed true) (e.1 p))
          (later (actions create_type))
  unfolding register_worker add_worker start_computing stop_computing restart_computing
  later-actions p = (
    one_call-lem _ _ _,
    (one_call-lem _ _ _, (one_call-lem _ _ _, (one_call-lem _ _ _, (one_call-lem _ _ _, tt)))),
  )

  run_action-IsWellFormed :
      (action : String) (p : Payload)
      → Returns (IsWellFormed (not (is_message_sync action))) (run_action create_type action p)
  unfolding run_action
  run_action-IsWellFormed action p = elim (Bool-cases (is_message_sync action)) [
    | inl sync ↦ rw sync (batch_sync-IsWellFormed p.messages p refl)
    | inr other ↦ rw other (
        Returns-find_action (IsWellFormed true) action p (later (actions create_type))
          (later-actions p))
  ]

  abbrev IsAccepted : Option String → Job → Type 0
  IsAccepted named job =
      (action : String) × (named ≡ some action)
      × All IsTxCall job.calls
      × (job.should_retry ≡ not (is_message_sync action))

  preprocess-IsAccepted : (r : Request) → Returns (IsAccepted r.action) (preprocess create_type r)
  unfolding preprocess
  preprocess-IsAccepted r = from_action r.action r.payload
    where
      from_tx :
          (action : String) (payload : Payload) (o : Option Tx)
          → Returns (IsWellFormed (not (is_message_sync action))) o
          → Returns (IsAccepted (some action)) (
              o >>= λ tx. some (record {
                id = r.id;
                pid = pid_text payload.pid;
                calls = tx.calls;
                should_retry = tx.should_retry;
              }))
      from_tx action payload none h = tt
      from_tx action payload (some tx) h = (action, refl, h.0, h.1)

      from_action :
          (oa : Option String) (op : Option Payload)
          → Returns (IsAccepted oa) (
              oa >>= λ action. op >>= λ payload. run_action create_type action payload >>= λ tx.
              some (record {
                id = r.id;
                pid = pid_text payload.pid;
                calls = tx.calls;
                should_retry = tx.should_retry;
              }))
      from_action none op = tt
      from_action (some action) none = tt
      from_action (some action) (some payload) =
          from_tx action payload (run_action create_type action payload)
            (run_action-IsWellFormed action payload)

  -- Every request that is accepted names an action; all its calls are calls of a method of a section
  -- of `api.tx`; and it is retried unless its action is to synchronise messages.
  pub preprocess-IsTxCall :
      (r : Request) (job : Job)
      → preprocess create_type r ≡ some job
      → (action : String) × (r.action ≡ some action)
        × All IsTxCall job.calls
        × (job.should_retry ≡ not (is_message_sync action))
  preprocess-IsTxCall r job e =
      Returns-some (IsAccepted r.action) (preprocess create_type r) (preprocess-IsAccepted r) e
