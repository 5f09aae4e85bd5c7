-- ===== src/Trade/PoolQueue/Heap.antt =====
-- bus.js, PoolQueue: what holds of a new batch and is kept by `addCalls` holds of every batch.
use Prim.Native.String.{String}
use runtime_bridge.Prelude.{
  ℕ, ◌≡◌, ◌≤◌, refl, Option, none, some, List, [], ◌∷◌, arith, length, ltb, ◌==◌, inl, inr,
  Bool-cases, subst, sym,
}
use runtime_bridge.Trade.PoolQueue.{
  Job, Batch, Pool, Event, arrive, fire, take, Run, tx_batch_size, update, empty_batch, find_from,
  extend_batch, take_from, fire_timer, step, run_events, run,
}

-- Every job that arrives satisfies `Q`.
abbrev pub Arrivals : (Job → Type 0) → List Event → Type 0
Arrivals Q [] = Unit
Arrivals Q (arrive uuid job ∷ es) = Q job × Arrivals Q es
Arrivals Q (fire r ∷ es) = Arrivals Q es
Arrivals Q (take ∷ es) = Arrivals Q es

pub Arrivals-all : (es : List Event) → Arrivals (λ job. Unit {0}) es
Arrivals-all [] = tt
Arrivals-all (arrive uuid job ∷ es) = (tt, Arrivals-all es)
Arrivals-all (fire r ∷ es) = Arrivals-all es
Arrivals-all (take ∷ es) = Arrivals-all es

pub update_rule :
    (P : Batch → Type 0) (heap : ℕ → Batch) (r : ℕ) (b : Batch)
    → ((q : ℕ) → P (heap q))
    → P b
    → (q : ℕ) → P (update heap r b q)
update_rule P heap r b h hb q = elim (Bool-cases (q == r)) [
  | inl same ↦ rw same hb
  | inr other ↦ rw other (h q)
]

pub heap-fire_timer : (r : ℕ) (p : Pool) → (fire_timer r p).heap ≡ p.heap
unfolding fire_timer
heap-fire_timer r p = elim (Bool-cases (p.timers r)) [ inl on ↦ rw on | inr off ↦ rw off ]

pub heap-take_from : (p : Pool) (rs : List ℕ) → (take_from p rs).1.heap ≡ p.heap
unfolding take_from
heap-take_from p [] = refl
heap-take_from p (r ∷ rs) = refl

Arrivals-tail :
    (Q : Job → Type 0) (e : Event) (es : List Event) → Arrivals Q (e ∷ es) → Arrivals Q es
Arrivals-tail Q (arrive uuid job) es a = a.1
Arrivals-tail Q (fire r) es a = a
Arrivals-tail Q take es a = a

module _ (P : Batch → Type 0) (Q : Job → Type 0) (empty : (uuid : String) → P (empty_batch uuid))
    (extend : (job : Job) (b : Batch)
      → Q job
      → length b.calls ≤ tx_batch_size
      → P b
      → P (extend_batch job b)) where
  -- The batch that `#findBatch` returns has room.
  find_from-heap :
      (uuid : String) (p : Pool) (o : Option ℕ)
      → ((r : ℕ) → P (p.heap r))
      → let (r, p') = find_from uuid p o in
        ((q : ℕ) → P (p'.heap q)) × (length (p'.heap r).calls ≤ tx_batch_size)
  unfolding find_from
  find_from-heap uuid p none h = (update_rule P p.heap p.next_ref _ h (empty uuid), ground arith)
  find_from-heap uuid p (some r) h =
      elim (Bool-cases (ltb tx_batch_size (length (p.heap r).calls))) [
        | inl full ↦ rw full (update_rule P p.heap p.next_ref _ h (empty uuid), ground arith)
        | inr room ↦ rw room (h, ground arith)
      ]

  step-heap :
      (e : Event) (es : List Event) (s : Run)
      → Arrivals Q (e ∷ es)
      → ((r : ℕ) → P (s.pool.heap r))
      → ((r : ℕ) → P ((step e s).pool.heap r))
  unfolding step
  step-heap (arrive uuid job) es s a h =
      let (r, p) = find_from uuid s.pool s.pool.current_batch in
      let (all, room) = find_from-heap uuid s.pool s.pool.current_batch h in
      update_rule P p.heap r _ all (extend job (p.heap r) a.0 room (all r))
  step-heap (fire r) es s a h =
      subst (λ (heap : ℕ → Batch). (q : ℕ) → P (heap q)) (sym (heap-fire_timer r s.pool)) h
  step-heap take es s a h =
      subst (λ (heap : ℕ → Batch). (q : ℕ) → P (heap q)) (sym (heap-take_from s.pool s.pool.queue))
        h

  run_events-heap :
      (es : List Event) (s : Run)
      → Arrivals Q es
      → ((r : ℕ) → P (s.pool.heap r))
      → ((r : ℕ) → P ((run_events es s).pool.heap r))
  unfolding run_events
  run_events-heap [] s a h = h
  run_events-heap (e ∷ es) s a h =
      run_events-heap es (step e s) (Arrivals-tail Q e es a) (step-heap e es s a h)

  pub run-heap :
      (pid : String) (es : List Event) → Arrivals Q es → (r : ℕ) → P ((run pid es).pool.heap r)
  unfolding run
  run-heap pid es a = run_events-heap es _ a (λ r. empty "")
