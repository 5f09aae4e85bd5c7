-- ===== src/Trade/PoolQueue/Owners.antt =====
-- bus.js, `addCalls`: the calls of a batch and the job that each of them belongs to.
use Prim.Native.String.{String}
use runtime_bridge.Prelude.{
  ℕ, suc, ◌+◌, ◌≡◌, refl, ◌∙◌, ap, List, [], ◌∷◌, ◌++◌, map, append-nil, append_assoc, arith,
  length, length-append, concat_map, concat_map-snoc, get_elem?, get_elem?-snoc, sym,
}
use runtime_bridge.Trade.Call.{Call}
use runtime_bridge.Trade.PoolQueue.Heap.{Arrivals-all, run-heap}
use runtime_bridge.Trade.PoolQueue.{Job, Batch, Event, push_calls, extend_batch, run}

-- For each call of the jobs, in order, the id of the job that it belongs to.
abbrev pub ids_of : Job → List String
ids_of job = map (λ c. job.id) job.calls

abbrev pub owners : List Job → List String
owners = concat_map ids_of

-- The calls are those of the jobs, in order, and `callToJobId` names the job of each.
pub record IsIndexed (b : Batch) : Type 0 where
  pub calls_of_jobs : b.calls ≡ concat_map (λ (j : Job). j.calls) b.jobs
  pub ids_of_calls : (i : ℕ) → b.call_to_job_id i ≡ get_elem? (owners b.jobs) i

push_calls-jobs :
    (id : String) (i : ℕ) (cs : List Call) (b : Batch) → (push_calls id i cs b).jobs ≡ b.jobs
unfolding push_calls
push_calls-jobs id i [] b = refl
push_calls-jobs id i (c ∷ cs) b = push_calls-jobs id (i + 1) cs _

push_calls-calls :
    (id : String) (i : ℕ) (cs : List Call) (b : Batch)
    → (push_calls id i cs b).calls ≡ b.calls ++ cs
unfolding push_calls
push_calls-calls id i [] b = rw append-nil
push_calls-calls id i (c ∷ cs) b =
    push_calls-calls id (i + 1) cs _ ∙ append_assoc b.calls (c ∷ []) cs

push_calls-ids :
    (id : String) (cs : List Call) (b : Batch) (ids : List String) (n : ℕ)
    → n ≡ length ids
    → ((k : ℕ) → b.call_to_job_id k ≡ get_elem? ids k)
    → (k : ℕ) → (push_calls id n cs b).call_to_job_id k ≡ get_elem? (ids ++ map (λ c. id) cs) k
unfolding push_calls
push_calls-ids id [] b ids n e h k = rw append-nil (h k)
push_calls-ids id (c ∷ cs) b ids n e h k =
    push_calls-ids id cs _ (ids ++ id ∷ []) (n + 1) (omega (arith, length-append ids (id ∷ [])))
      (λ j. ground (arith, h j, get_elem?-snoc ids id j)) k
    ∙ ap (λ l. get_elem? l k) (append_assoc ids (id ∷ []) (map (λ c. id) cs))

length-map_const : (id : String) (cs : List Call) → length (map (λ c. id) cs) ≡ length cs
length-map_const id [] = refl
length-map_const id (c ∷ cs) = ap suc (length-map_const id cs)

length-owners : (js : List Job) → length (owners js) ≡ length (concat_map (λ (j : Job). j.calls) js)
length-owners [] = refl
length-owners (j ∷ js) = omega (
  arith,
  length-append (ids_of j) (owners js),
  length-append j.calls (concat_map (λ (j : Job). j.calls) js),
  length-map_const j.id j.calls,
  length-owners js,
)

pub extend_batch-jobs : (job : Job) (b : Batch) → (extend_batch job b).jobs ≡ b.jobs ++ job ∷ []
unfolding extend_batch
extend_batch-jobs job b =
    ap (λ (l : List Job). l ++ job ∷ []) (push_calls-jobs job.id (length b.calls) job.calls b)

pub extend_batch-calls : (job : Job) (b : Batch) → (extend_batch job b).calls ≡ b.calls ++ job.calls
unfolding extend_batch
extend_batch-calls job b = push_calls-calls job.id (length b.calls) job.calls b

-- Adding the calls of a job keeps the index right.
pub extend_batch-IsIndexed : (job : Job) (b : Batch) → IsIndexed b → IsIndexed (extend_batch job b)
unfolding extend_batch
extend_batch-IsIndexed job b v = record {
  calls_of_jobs = rw (push_calls-jobs job.id (length b.calls) job.calls b) (
      push_calls-calls job.id (length b.calls) job.calls b
      ∙ ap (λ l. l ++ job.calls) v.calls_of_jobs
      ∙ sym (concat_map-snoc (λ (j : Job). j.calls) b.jobs job));
  ids_of_calls = λ i. rw (push_calls-jobs job.id (length b.calls) job.calls b) (
      push_calls-ids job.id job.calls b (owners b.jobs) (length b.calls)
        (ap length v.calls_of_jobs ∙ sym (length-owners b.jobs)) v.ids_of_calls i
      ∙ ap (λ l. get_elem? l i) (sym (concat_map-snoc ids_of b.jobs job)));
}

-- After any events, every batch of a pool lists the calls of its jobs in the order of the requests,
-- and `callToJobId` gives for each call index, and for no other, the id of the job that the call
-- belongs to.
pub run-IsIndexed : (pid : String) (es : List Event) (r : ℕ) → IsIndexed ((run pid es).pool.heap r)
run-IsIndexed pid es =
    run-heap (λ b. IsIndexed b) (λ job. Unit {0})
      (λ uuid. record { calls_of_jobs = refl; ids_of_calls = λ i. refl })
      (λ job b q l v. extend_batch-IsIndexed job b v) pid es (Arrivals-all es)
