-- ===== src/Trade/Verdict/EndToEnd.antt =====
-- From the chain's events to the result of a job: src/trade/trader.js, trader_manager.js and bus.js
-- together.
use Prim.Native.String.{String}
use text.Mathlib.Text.{◌==◌}
use text.Mathlib.TextEquality.{eq_iff}
use mathlib.Core.Option
use runtime_bridge.Prelude.{
  ℕ, suc, ◌+◌, ◌≡◌, ◌≢◌, refl, ap, ◌∙◌, Bool, Option, none, some, List, [], ◌∷◌, ◌++◌, map, arith,
  length, get_elem?, All, All-append, concat_map-append, if◌then◌else◌, inl, inr, Bool-cases,
}
use runtime_bridge.Trade.Call.{Call}
use runtime_bridge.Trade.PoolQueue.{Job, Batch, Event, run}
use runtime_bridge.Trade.PoolQueue.Owners.{ids_of, owners, IsIndexed, run-IsIndexed}
use runtime_bridge.Trade.Trader.{
  Meta, TxResult, FailedCall, resolved, resolve_dispatch_error, on_result,
}
use runtime_bridge.Trade.Trader.Outcomes.{Outcome, failed_from, IsForceBatch, on_result-outcomes}
use runtime_bridge.Trade.Verdict.{
  report_of, is_id, index_of, JobResult, succeeded, tx_failed, result_at, job_result,
}

-- The search of `job_result`, without the position.
first_of_job : (ℕ → Option String) → String → List FailedCall → JobResult
first_of_job ids id [] = succeeded
first_of_job ids id (f ∷ fs) =
    let rest = first_of_job ids id fs in if is_id id (ids f.index) then tx_failed f.reason else rest

result_at-suc :
    (o : Option ℕ) (f : FailedCall) (fs : List FailedCall)
    → result_at (Option.map suc o) (f ∷ fs) ≡ result_at o fs
unfolding result_at
result_at-suc none f fs = refl
result_at-suc (some k) f fs = refl

index_of-first :
    (ids : ℕ → Option String) (id : String) (fs : List FailedCall)
    → result_at (index_of id (map (λ (f : FailedCall). ids f.index) fs)) fs ≡ first_of_job ids id fs
unfolding index_of first_of_job
index_of-first ids id [] = unfold result_at in refl
index_of-first ids id (f ∷ fs) = elim (Bool-cases (is_id id (ids f.index))) [
  | inl own ↦ rw own (unfold result_at in refl)
  | inr other ↦ rw other (result_at-suc _ f fs ∙ index_of-first ids id fs)
]

job_result-first :
    (id : String) (b : Batch) (fs : List FailedCall)
    → job_result id (report_of b fs) ≡ first_of_job b.call_to_job_id id fs
unfolding job_result report_of
job_result-first id b fs = index_of-first b.call_to_job_id id fs

shift :
    (ids f : ℕ → Option String) (i : ℕ)
    → ((k : ℕ) → ids (i + k) ≡ f k)
    → (k : ℕ) → ids (i + 1 + k) ≡ f (suc k)
shift ids f i h k = ap ids (omega arith) ∙ h (suc k)

unshifted : (ids f : ℕ → Option String) (i : ℕ) → ((k : ℕ) → ids (i + k) ≡ f k) → ids i ≡ f 0
unshifted ids f i h = ap ids (omega arith) ∙ h 0

All-ids_of :
    (id : String) (w : String) (cs : List Call) → w ≢ id → All (λ v. v ≢ id) (map (λ c. w) cs)
All-ids_of id w [] h = tt
All-ids_of id w (c ∷ cs) h = (h, All-ids_of id w cs h)

All-owners :
    (id : String) (js : List Job) → All (λ (j : Job). j.id ≢ id) js → All (λ w. w ≢ id) (owners js)
All-owners id [] h = tt
All-owners id (j ∷ js) h =
    All-append (λ w. w ≢ id) (ids_of j) (owners js) (All-ids_of id j.id j.calls h.0)
      (All-owners id js h.1)

module _ {M : Type 0} (find_meta_error : M → Meta) where
  -- The result of a job by its own calls: the error of the first one that failed.
  abbrev pub first_failure : List (Outcome M) → JobResult
  first_failure [] = succeeded
  first_failure (none ∷ os) = first_failure os
  first_failure (some e ∷ os) = tx_failed (resolve_dispatch_error find_meta_error e)

  -- The same search over all the calls of a batch, given the owner of each.
  first_owned : String → List (Outcome M) → List String → JobResult
  first_owned id [] ws = succeeded
  first_owned id (o ∷ os) [] = first_owned id os []
  first_owned id (none ∷ os) (w ∷ ws) = first_owned id os ws
  first_owned id (some e ∷ os) (w ∷ ws) =
      let rest = first_owned id os ws in
      if w == id then tx_failed (resolve_dispatch_error find_meta_error e) else rest

  first_of_job-owned :
      (ids : ℕ → Option String) (id : String) (i : ℕ) (os : List (Outcome M)) (ws : List String)
      → ((k : ℕ) → ids (i + k) ≡ get_elem? ws k)
      → first_of_job ids id (failed_from find_meta_error i os) ≡ first_owned id os ws
  unfolding first_of_job first_owned
  first_of_job-owned ids id i [] ws h = refl
  first_of_job-owned ids id i (none ∷ os) [] h =
      first_of_job-owned ids id (i + 1) os [] (shift ids (get_elem? []) i h)
  first_of_job-owned ids id i (some e ∷ os) [] h =
      rw (unshifted ids (get_elem? []) i h)
        (first_of_job-owned ids id (i + 1) os [] (shift ids (get_elem? []) i h))
  first_of_job-owned ids id i (none ∷ os) (w ∷ ws) h =
      first_of_job-owned ids id (i + 1) os ws (shift ids (get_elem? (w ∷ ws)) i h)
  first_of_job-owned ids id i (some e ∷ os) (w ∷ ws) h =
      rw (unshifted ids (get_elem? (w ∷ ws)) i h)
        (rw (first_of_job-owned ids id (i + 1) os ws (shift ids (get_elem? (w ∷ ws)) i h)))

  -- Calls of other jobs change nothing, before and after those of the job.
  first_owned-none : (id : String) (os : List (Outcome M)) → first_owned id os [] ≡ succeeded
  unfolding first_owned
  first_owned-none id [] = refl
  first_owned-none id (o ∷ os) = first_owned-none id os

  first_owned-skip :
      (id : String) (os rest : List (Outcome M)) (ws vs : List String)
      → length os ≡ length ws
      → All (λ w. w ≢ id) ws
      → first_owned id (os ++ rest) (ws ++ vs) ≡ first_owned id rest vs
  unfolding first_owned
  first_owned-skip id [] rest [] vs e h = refl
  first_owned-skip id [] rest (w ∷ ws) vs e h = absurd (omega arith)
  first_owned-skip id (o ∷ os) rest [] vs e h = absurd (omega arith)
  first_owned-skip id (none ∷ os) rest (w ∷ ws) vs e h =
      first_owned-skip id os rest ws vs (omega arith) h.1
  first_owned-skip id (some x ∷ os) rest (w ∷ ws) vs e h =
      ground (arith, eq_iff w id, first_owned-skip id os rest ws vs (omega arith) h.1, h.0)

  first_owned-after :
      (id : String) (os : List (Outcome M)) (ws : List String)
      → All (λ w. w ≢ id) ws
      → first_owned id os ws ≡ succeeded
  unfolding first_owned
  first_owned-after id [] ws h = refl
  first_owned-after id (o ∷ os) [] h = first_owned-none id os
  first_owned-after id (none ∷ os) (w ∷ ws) h = first_owned-after id os ws h.1
  first_owned-after id (some x ∷ os) (w ∷ ws) h =
      ground (arith, eq_iff w id, first_owned-after id os ws h.1, h.0)

  first_owned-own :
      (id : String) (os rest : List (Outcome M)) (cs : List Call) (vs : List String)
      → length os ≡ length cs
      → All (λ w. w ≢ id) vs
      → first_owned id (os ++ rest) (map (λ c. id) cs ++ vs) ≡ first_failure os
  unfolding first_owned
  first_owned-own id [] rest [] vs e h = first_owned-after id rest vs h
  first_owned-own id [] rest (c ∷ cs) vs e h = absurd (omega arith)
  first_owned-own id (o ∷ os) rest [] vs e h = absurd (omega arith)
  first_owned-own id (none ∷ os) rest (c ∷ cs) vs e h =
      first_owned-own id os rest cs vs (omega arith) h
  first_owned-own id (some x ∷ os) rest (c ∷ cs) vs e h = ground (arith, eq_iff id id)

  -- The result of a job from the failed calls of its batch.
  job_result-outcomes :
      (b : Batch) (before after : List Job) (job : Job) (os1 os2 os3 : List (Outcome M))
      → IsIndexed b
      → b.jobs ≡ before ++ job ∷ after
      → All (λ (j : Job). j.id ≢ job.id) before
      → All (λ (j : Job). j.id ≢ job.id) after
      → length os1 ≡ length (owners before)
      → length os2 ≡ length job.calls
      → job_result job.id (report_of b (failed_from find_meta_error 0 (os1 ++ (os2 ++ os3))))
        ≡ first_failure os2
  job_result-outcomes b before after job os1 os2 os3 v e hb ha l1 l2 =
      job_result-first job.id b _
      ∙ (first_of_job-owned b.call_to_job_id job.id 0 (os1 ++ (os2 ++ os3)) (owners b.jobs)
            (λ k. ap b.call_to_job_id (omega arith) ∙ v.ids_of_calls k)
          ∙ (ap (λ js. first_owned job.id (os1 ++ (os2 ++ os3)) js)
                (ap owners e ∙ concat_map-append ids_of before (job ∷ after))
              ∙ (first_owned-skip job.id os1 (os2 ++ os3) (owners before) (owners (job ∷ after)) l1
                    (All-owners job.id before hb)
                  ∙ first_owned-own job.id os2 os3 job.calls (owners after) l2
                      (All-owners job.id after ha))))

  -- Take any batch that a pool's queue has formed, in which the job's id is that of no other job. If
  -- the chain executed the batch as it documents, then `sendTx` resolves, and from what it resolves
  -- with the job gets the result of its own calls: it succeeds if they all did, and otherwise fails
  -- with the error of the first of them that failed, whatever the calls of other jobs did.
  pub job_verdict :
      (pid : String) (es : List Event) (r : ℕ) (before after : List Job) (job : Job)
      (is_proxy : Bool) (res : TxResult M) (os1 os2 os3 : List (Outcome M))
      → ((run pid es).pool.heap r).jobs ≡ before ++ job ∷ after
      → All (λ (j : Job). j.id ≢ job.id) before
      → All (λ (j : Job). j.id ≢ job.id) after
      → length os1 ≡ length (owners before)
      → length os2 ≡ length job.calls
      → IsForceBatch find_meta_error is_proxy (os1 ++ (os2 ++ os3)) res
      → (failed : List FailedCall) × (on_result find_meta_error is_proxy res
          ≡ some (resolved failed))
        × (job_result job.id (report_of ((run pid es).pool.heap r) failed) ≡ first_failure os2)
  job_verdict pid es r before after job is_proxy res os1 os2 os3 e hb ha l1 l2 h = (
    failed_from find_meta_error 0 (os1 ++ (os2 ++ os3)),
    on_result-outcomes find_meta_error is_proxy (os1 ++ (os2 ++ os3)) res h,
    job_result-outcomes ((run pid es).pool.heap r) before after job os1 os2 os3
        (run-IsIndexed pid es r) e hb ha l1 l2,
  )
