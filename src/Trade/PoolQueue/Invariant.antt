-- ===== src/Trade/PoolQueue/Invariant.antt =====
-- bus.js, PoolQueue: where each batch stands, and which timers are pending.
use Prim.Native.String.{String}
use runtime_bridge.Prelude.{
  subst, ℕ, zero, suc, ◌≡◌, refl, sym, true, false, Option, none, some, List, [], ◌∷◌, ◌++◌,
  append-nil, append_assoc, arith, length, ltb, inl, inr, Bool-cases,
}
use runtime_bridge.Trade.PoolQueue.{
  Job, Pool, Event, arrive, fire, take, Run, tx_batch_size, update, new_pool, create_batch, commit,
  find_from, take_from, note_sent, add_calls, fire_timer, step, run_events, run,
}

-- The references handed out so far, in the order of creation.
abbrev pub refs_below : ℕ → List ℕ
refs_below zero = []
refs_below (suc n) = refs_below n ++ n ∷ []

abbrev pub held : Option ℕ → List ℕ
held none = []
held (some r) = r ∷ []

-- Between two events: the batches handed on, the queued ones and the current one are all the
-- batches ever created, each once and in order; the current batch, if there is one, is the newest;
-- and a timer is pending for the current batch and for no other.
pub record IsValid (s : Run) : Type 0 where
  pub in_order : s.sent ++ (s.pool.queue ++ held s.pool.current_batch) ≡ refs_below s.pool.next_ref
  pub current_newest : (r : ℕ) → s.pool.current_batch ≡ some r → s.pool.next_ref ≡ suc r
  pub timer_current : (r : ℕ) → s.pool.timers r ≡ true → s.pool.current_batch ≡ some r
  pub current_timer : (r : ℕ) → s.pool.current_batch ≡ some r → s.pool.timers r ≡ true

new_pool-IsValid : (pid : String) → IsValid (record { pool = new_pool pid; sent = [] })
unfolding new_pool
new_pool-IsValid pid = record {
  in_order = refl;
  current_newest = λ r e. cc;
  timer_current = λ r e. cc;
  current_timer = λ r e. cc;
}

-- Inside `addJob`, between `#findBatch` and `addCalls`: as `IsValid`, but the batch found may have
-- no timer yet.
pub record IsOpen (sent : List ℕ) (r : ℕ) (p : Pool) : Type 0 where
  pub in_order : sent ++ (p.queue ++ r ∷ []) ≡ refs_below p.next_ref
  pub current : p.current_batch ≡ some r
  pub newest : p.next_ref ≡ suc r
  pub timer_current : (q : ℕ) → p.timers q ≡ true → q ≡ r

create_batch-IsOpen :
    (uuid : String) (sent : List ℕ) (p : Pool)
    → sent ++ p.queue ≡ refs_below p.next_ref
    → ((q : ℕ) → p.timers q ≡ false)
    → IsOpen sent (create_batch uuid p).0 (create_batch uuid p).1
unfolding create_batch
create_batch-IsOpen uuid sent p e off = record {
  in_order = rw (← append_assoc) (rw e);
  current = refl;
  newest = refl;
  timer_current = λ q h. cc (off q);
}

in_order_at :
    (s : Run) (o : Option ℕ)
    → s.pool.current_batch ≡ o
    → IsValid s
    → s.sent ++ (s.pool.queue ++ held o) ≡ refs_below s.pool.next_ref
in_order_at s o e v =
    subst (λ c. s.sent ++ (s.pool.queue ++ held c) ≡ refs_below s.pool.next_ref) e v.in_order

no_timer : (s : Run) → s.pool.current_batch ≡ none → IsValid s → (q : ℕ) → s.pool.timers q ≡ false
no_timer s e v q = elim (Bool-cases (s.pool.timers q)) [
  | inl on ↦ cc (v.timer_current q on)
  | inr off ↦ off
]

timer_cleared :
    (s : Run) (r : ℕ)
    → s.pool.current_batch ≡ some r
    → IsValid s
    → (q : ℕ) → update s.pool.timers r false q ≡ false
timer_cleared s r e v q = elim (Bool-cases (s.pool.timers q)) [
  | inl on ↦ ground (arith, v.timer_current q on)
  | inr off ↦ ground arith
]

pub find_from-IsOpen :
    (uuid : String) (s : Run) (o : Option ℕ)
    → s.pool.current_batch ≡ o
    → IsValid s
    → IsOpen s.sent (find_from uuid s.pool o).0 (find_from uuid s.pool o).1
unfolding find_from
find_from-IsOpen uuid s none e v =
    create_batch-IsOpen uuid s.sent s.pool (rw append-nil at (in_order_at s none e v))
      (no_timer s e v)
find_from-IsOpen uuid s (some r) e v =
    elim (Bool-cases (ltb tx_batch_size (length (s.pool.heap r).calls))) [
      | inl full ↦ rw full (
          create_batch-IsOpen uuid s.sent (commit r s.pool) (in_order_at s (some r) e v)
            (timer_cleared s r e v))
      | inr room ↦ rw room (record {
        in_order = in_order_at s (some r) e v;
        current = e;
        newest = v.current_newest r e;
        timer_current = λ q h. ground (arith, v.timer_current q h);
      })
    ]

add_calls-IsValid :
    (sent : List ℕ) (r : ℕ) (job : Job) (p : Pool)
    → IsOpen sent r p
    → IsValid (record { pool = add_calls r job p; sent = sent })
unfolding add_calls
add_calls-IsValid sent r job p v = record {
  in_order =
      subst (λ c. sent ++ (p.queue ++ held c) ≡ refs_below p.next_ref) (sym v.current) v.in_order;
  current_newest = λ q e. ground (arith, v.current, v.newest);
  timer_current = λ q e. ground (arith, v.current, v.timer_current q);
  current_timer = λ q e. ground (arith, v.current);
}

fire_timer-IsValid :
    (r : ℕ) (s : Run) → IsValid s → IsValid (record s { pool = fire_timer r s.pool })
unfolding fire_timer
fire_timer-IsValid r s v = elim (Bool-cases (s.pool.timers r)) [
  | inl on ↦ rw on (record {
    in_order = rw append-nil (in_order_at s (some r) (v.timer_current r on) v);
    current_newest = λ q e. cc;
    timer_current = λ q e. cc (timer_cleared s r (v.timer_current r on) v q);
    current_timer = λ q e. cc;
  })
  | inr off ↦ rw off v
]

take_from-IsValid :
    (s : Run) (rs : List ℕ)
    → s.pool.queue ≡ rs
    → IsValid s
    → IsValid
        (record { pool = (take_from s.pool rs).1; sent = note_sent (take_from s.pool rs).0 s.sent })
unfolding take_from
take_from-IsValid s [] e v = v
take_from-IsValid s (r ∷ rs) e v = record {
  in_order = rw append_assoc (
      subst
        (λ (q : List ℕ). s.sent ++ (q ++ held s.pool.current_batch) ≡ refs_below s.pool.next_ref) e
        v.in_order);
  current_newest = v.current_newest;
  timer_current = v.timer_current;
  current_timer = v.current_timer;
}

-- Every event keeps the invariant.
pub step-IsValid : (e : Event) (s : Run) → IsValid s → IsValid (step e s)
unfolding step
step-IsValid (arrive uuid job) s v =
    add_calls-IsValid s.sent _ job _ (find_from-IsOpen uuid s s.pool.current_batch refl v)
step-IsValid (fire r) s v = fire_timer-IsValid r s v
step-IsValid take s v = take_from-IsValid s s.pool.queue refl v

pub run_events-IsValid : (es : List Event) (s : Run) → IsValid s → IsValid (run_events es s)
unfolding run_events
run_events-IsValid [] s v = v
run_events-IsValid (e ∷ es) s v = run_events-IsValid es (step e s) (step-IsValid e s v)

-- After any sequence of requests, timer callbacks and dequeues: every batch created is in exactly
-- one place, handed on, queued or current, in the order of creation; the current batch is the
-- newest; and a commit timer is pending for the current batch and for no other.
pub run-IsValid : (pid : String) (es : List Event) → IsValid (run pid es)
unfolding run
run-IsValid pid es = run_events-IsValid es _ (new_pool-IsValid pid)
