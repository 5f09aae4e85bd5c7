-- ===== src/Trade/PoolQueue/Fifo.antt =====
-- bus.js, PoolQueue, against its abstract view: one queue of requests, in the order of arrival.
use Prim.Native.String.{String}
use runtime_bridge.Prelude.{
  ℕ, zero, suc, ◌≡◌, ◌≤◌, refl, sym, ap, subst, ◌∙◌, Option, none, some, List, [], ◌∷◌, ◌++◌,
  append-nil, append_assoc, arith, length, concat_map, concat_map-snoc, ltb, inl, inr, Bool-cases,
}
use runtime_bridge.Trade.PoolQueue.{
  Job, Batch, Pool, Event, arrive, fire, take, Run, tx_batch_size, update, new_pool, create_batch,
  commit, find_from, extend_batch, add_calls, take_from, fire_timer, step, run_events, run,
}
use runtime_bridge.Trade.PoolQueue.Owners.{extend_batch-jobs}
use runtime_bridge.Trade.PoolQueue.Invariant.{
  IsValid, refs_below, held, find_from-IsOpen, step-IsValid, run-IsValid,
}

-- The requests of a history, in order.
abbrev pub requests : List Event → List Job
requests [] = []
requests (arrive uuid job ∷ es) = job ∷ requests es
requests (fire r ∷ es) = requests es
requests (take ∷ es) = requests es

-- The jobs of some batches, in order.
abbrev pub jobs_at : (ℕ → Batch) → List ℕ → List Job
jobs_at heap = concat_map (λ r. (heap r).jobs)

jobs_at-update :
    (heap : ℕ → Batch) (k : ℕ) (b : Batch) (n : ℕ)
    → n ≤ k
    → jobs_at (update heap k b) (refs_below n) ≡ jobs_at heap (refs_below n)
jobs_at-update heap k b zero h = refl
jobs_at-update heap k b (suc n) h =
    concat_map-snoc (λ r. (update heap k b r).jobs) (refs_below n) n
    ∙ (ground (arith, jobs_at-update heap k b n (omega arith))
        ∙ sym (concat_map-snoc (λ r. (heap r).jobs) (refs_below n) n))

-- Writing the newest batch changes the end of the list.
jobs_at-update_newest :
    (heap : ℕ → Batch) (n : ℕ) (b : Batch)
    → jobs_at (update heap n b) (refs_below (suc n)) ≡ jobs_at heap (refs_below n) ++ b.jobs
jobs_at-update_newest heap n b =
    concat_map-snoc (λ r. (update heap n b r).jobs) (refs_below n) n
    ∙ ground (arith, jobs_at-update heap n b n (omega arith))

jobs_at-create :
    (uuid : String) (p : Pool)
    → let p' = (create_batch uuid p).1 in
      jobs_at p'.heap (refs_below p'.next_ref) ≡ jobs_at p.heap (refs_below p.next_ref)
unfolding create_batch
jobs_at-create uuid p = jobs_at-update_newest p.heap p.next_ref _ ∙ append-nil _

jobs_at-find :
    (uuid : String) (p : Pool) (o : Option ℕ)
    → let p' = (find_from uuid p o).1 in
      jobs_at p'.heap (refs_below p'.next_ref) ≡ jobs_at p.heap (refs_below p.next_ref)
unfolding find_from
jobs_at-find uuid p none = jobs_at-create uuid p
jobs_at-find uuid p (some r) = elim (Bool-cases (ltb tx_batch_size (length (p.heap r).calls))) [
  | inl full ↦ rw full (jobs_at-create uuid (commit r p))
  | inr room ↦ rw room
]

jobs_at-extend :
    (heap : ℕ → Batch) (r n : ℕ) (job : Job)
    → n ≡ suc r
    → jobs_at (update heap r (extend_batch job (heap r))) (refs_below n)
      ≡ jobs_at heap (refs_below n) ++ job ∷ []
jobs_at-extend heap r n job e =
    subst
      (λ k.
        jobs_at (update heap r (extend_batch job (heap r))) (refs_below k)
        ≡ jobs_at heap (refs_below k) ++ job ∷ [])
      (sym e)
      (jobs_at-update_newest heap r (extend_batch job (heap r))
        ∙ (ap (λ l. jobs_at heap (refs_below r) ++ l) (extend_batch-jobs job (heap r))
            ∙ (sym (append_assoc (jobs_at heap (refs_below r)) (heap r).jobs (job ∷ []))
                ∙ ap (λ (l : List Job). l ++ job ∷ [])
                    (sym (concat_map-snoc (λ q. (heap q).jobs) (refs_below r) r)))))

-- All the jobs that a queue has taken, in the order of their batches.
abbrev pub all_jobs : Pool → List Job
all_jobs p = jobs_at p.heap (refs_below p.next_ref)

all_jobs-add :
    (r : ℕ) (job : Job) (p : Pool)
    → p.next_ref ≡ suc r
    → all_jobs (add_calls r job p) ≡ all_jobs p ++ job ∷ []
unfolding add_calls
all_jobs-add r job p e = jobs_at-extend p.heap r p.next_ref job e

all_jobs-fire : (r : ℕ) (p : Pool) → all_jobs (fire_timer r p) ≡ all_jobs p
unfolding fire_timer
all_jobs-fire r p = elim (Bool-cases (p.timers r)) [ inl on ↦ rw on | inr off ↦ rw off ]

all_jobs-take : (p : Pool) (rs : List ℕ) → all_jobs (take_from p rs).1 ≡ all_jobs p
unfolding take_from
all_jobs-take p [] = refl
all_jobs-take p (r ∷ rs) = refl

step-all_jobs :
    (e : Event) (s : Run)
    → IsValid s
    → all_jobs (step e s).pool ≡ all_jobs s.pool ++ requests (e ∷ [])
unfolding step
step-all_jobs (arrive uuid job) s v =
    let (r, p) = find_from uuid s.pool s.pool.current_batch in
    all_jobs-add r job p (find_from-IsOpen uuid s s.pool.current_batch refl v).newest
    ∙ ap (λ l. l ++ job ∷ []) (jobs_at-find uuid s.pool s.pool.current_batch)
step-all_jobs (fire r) s v = all_jobs-fire r s.pool ∙ sym (append-nil _)
step-all_jobs take s v = all_jobs-take s.pool s.pool.queue ∙ sym (append-nil _)

requests-cons : (e : Event) (es : List Event) → requests (e ∷ es) ≡ requests (e ∷ []) ++ requests es
requests-cons (arrive uuid job) es = refl
requests-cons (fire r) es = refl
requests-cons take es = refl

run_events-all_jobs :
    (es : List Event) (s : Run)
    → IsValid s
    → all_jobs (run_events es s).pool ≡ all_jobs s.pool ++ requests es
unfolding run_events
run_events-all_jobs [] s v = sym (append-nil _)
run_events-all_jobs (e ∷ es) s v =
    run_events-all_jobs es (step e s) (step-IsValid e s v)
    ∙ (ap (λ l. l ++ requests es) (step-all_jobs e s v)
        ∙ (append_assoc (all_jobs s.pool) (requests (e ∷ [])) (requests es)
            ∙ ap (λ l. all_jobs s.pool ++ l) (sym (requests-cons e es))))

run-all_jobs : (pid : String) (es : List Event) → all_jobs (run pid es).pool ≡ requests es
unfolding run new_pool
run-all_jobs pid es = run_events-all_jobs es _ (run-IsValid pid [])

-- A pool's queue is a first-in first-out queue of requests: after any events, the jobs of the
-- batches handed to the trader manager, then those of the queued batches, then those of the current
-- batch are together exactly the requests so far, each once, in the order of their arrival.
pub run-fifo :
    (pid : String) (es : List Event)
    → let s = run pid es in
      jobs_at s.pool.heap (s.sent ++ (s.pool.queue ++ held s.pool.current_batch)) ≡ requests es
run-fifo pid es = rw (run-IsValid pid es).in_order (run-all_jobs pid es)
