-- ===== src/Runner/Workers/Lone/Restarts.antt =====
-- index.ts: a new context takes the place of one that was told to stop.
use runtime_bridge.Prelude.{
  AreDistinct, pick_at, IsPicked, pick_at-IsPicked, put_at, put_at_self, put_at-other, put_at-cases,
  All-both, ℕ, ◌+◌, ◌<◌, ◌≤◌, ◌==◌, ◌≡◌, ◌≢◌, refl, sym, ap, ◌∙◌, subst, Bool, true, false, Option,
  none, some, some_inj, none-some, List, [], ◌∷◌, All, All-mono, inl, inr, ◌⊎◌, if◌then◌else◌,
  if_cases, ltb, arith,
}
use runtime_bridge.Runner.Workers.{
  Context, should_start, Restart, Runner, bn_1pha, new_runner, stopped, stop, create, or_same,
  finish, or_exit, start_workers, Event, restarts, kicks, unsubscribed, unsubscribe_fails, handle,
  run,
}
use runtime_bridge.Runner.Workers.Lone.{
  pending_of, IsLone, IsApart, put_at-Keeps, Keeps-IsLone, fail-IsLone, should_restart-IsLone,
  should_kick_workers-IsLone,
}

All-counted :
    (rs all : List Restart)
    → ((c : ℕ) → pending_of c rs ≤ pending_of c all)
    → All (λ (r : Restart). 0 < pending_of r.context all) rs
All-counted [] all h = tt
All-counted (r ∷ rs) all h =
    (ground (arith, h r.context), All-counted rs all (λ c. ground (arith, h c)))

abbrev fresh : ℕ → Bool → Context
fresh row force = record {
  row = row;
  force_ra = force;
  told_to_stop = false;
  events = should_start ∷ [];
}

abbrev created : ℕ → Bool → Runner → Runner
created row force s = record s {
  workers = put_at row (some s.next) s.workers;
  heap = put_at s.next (fresh row force) s.heap;
  next = s.next + 1;
}

module _ (row : ℕ) (force : Bool) (s : Runner) (h : IsLone s)
    (gone : (c : ℕ) → s.workers row ≡ some c → (s.heap c).told_to_stop ≡ true)
    (free : (c : ℕ) → s.workers row ≡ some c → pending_of c s.pending ≡ 0) where
  abbrev new : Runner
  new = created row force s

  -- An old reference is not the new one.
  heap-old : (c : ℕ) → c < s.next → new.heap c ≡ s.heap c
  heap-old c lt = put_at-other s.next (fresh row force) s.heap c (λ e. omega arith)

  created-one :
      (c : ℕ)
      → c < s.next + 1
      → (new.heap c).told_to_stop ≡ false
      → new.workers (new.heap c).row ≡ some c
  created-one c lt = elim (put_at-cases s.next (fresh row force) s.heap c) [
    | inl (e, q) ↦ λ o. rw (q, e) (put_at_self row (some s.next) s.workers)
    | inr (n, q) ↦ rw q (λ o.
        let current = h.one c (omega arith) o in
        put_at-other row (some s.next) s.workers (s.heap c).row
          (λ e. let ends = gone c (subst (λ i. s.workers i ≡ some c) e current) in cc)
        ∙ current)
  ]

  worker_cases :
      (id c : ℕ)
      → new.workers id ≡ some c
      → ((id ≡ row) × (c ≡ s.next)) ⊎ ((id ≢ row) × (s.workers id ≡ some c))
  worker_cases id c e = elim (put_at-cases row (some s.next) s.workers id) [
    | inl (same, q) ↦ inl (same, some_inj (sym e ∙ q))
    | inr (n, q) ↦ inr (n, sym q ∙ e)
  ]

  created-row : (id c : ℕ) → new.workers id ≡ some c → (new.heap c).row ≡ id
  created-row id c e = elim (worker_cases id c e) [
    | inl (same, q) ↦ rw (q, put_at_self s.next (fresh row force) s.heap) (sym same)
    | inr (n, q) ↦ rw (heap-old c (h.exists id c q)) (h.row id c q)
  ]

  created-waiting :
      (r : Restart)
      → (s.workers (s.heap r.context).row ≡ some r.context) × (0 < pending_of r.context s.pending)
      → new.workers (new.heap r.context).row ≡ some r.context
  created-waiting r (current, some_wait) =
      rw (heap-old r.context (h.exists (s.heap r.context).row r.context current)) (
        put_at-other row (some s.next) s.workers (s.heap r.context).row (λ e.
          let none_wait = free r.context (subst (λ i. s.workers i ≡ some r.context) e current) in
          absurd (omega arith))
        ∙ current)

  created-IsLone : IsLone new
  created-IsLone = record {
    one = created-one;
    exists = λ id c e. elim (worker_cases id c e) [
      | inl (same, q) ↦ omega arith
      | inr (n, q) ↦ let lt = h.exists id c q in omega arith
    ];
    row = created-row;
    waiting =
        All-mono _ _ s.pending created-waiting
          (All-both _ _ s.pending h.waiting (All-counted s.pending s.pending (λ c. omega arith)));
    single = h.single;
  }

module _ (stake : ℕ → ℕ) where
  create-cases :
      (P : Runner → Type 0) (f : Option Runner → Runner) (row : ℕ) (force : Bool) (s : Runner)
      → P (f none)
      → P (f (some (created row force s)))
      → P (f (create stake row force s))
  unfolding create
  create-cases P f row force s a b =
      if_cases (λ o. P (f o)) (ltb (stake row) bn_1pha) (λ t. a) (λ t. b)

  finish-IsLone :
      (s : Runner) (o : Option (Restart × List Restart))
      → IsPicked s.pending o
      → IsLone s
      → IsLone (finish stake o s)
  finish-IsLone s none p h = h
  finish-IsLone s (some (r, rest)) p h =
      let c = r.context in
      let current : s.workers (s.heap c).row ≡ some c =
        (p.1 (λ (q : Restart). s.workers (s.heap q.context).row ≡ some q.context) h.waiting).0 in
      let t = stop c (record s { pending = rest }) in
      let lone : IsLone t =
        Keeps-IsLone (record s { pending = rest }) _
          (put_at-Keeps c (stopped (s.heap c)) s.heap (record { row = refl; still = λ g. cc }))
          (fail-IsLone s (some (r, rest)) p h) in
      create-cases IsLone (or_same t) (s.heap c).row r.force_ra t lone (
        created-IsLone (s.heap c).row r.force_ra t lone
          (λ d e.
            subst (λ x. (t.heap x).told_to_stop ≡ true) (some_inj (sym current ∙ e))
              (ap (λ (x : Context). x.told_to_stop) (put_at_self c (stopped (s.heap c)) s.heap)))
          (λ d e.
            subst (λ x. pending_of x rest ≡ 0) (some_inj (sym current ∙ e))
              (ground (arith, p.0 (λ (q : Restart). if q.context == c then 1 else 0), h.single c))))

  abbrev pub AreApart : List Event → Runner → Type 0
  AreApart [] s = Unit
  AreApart (e ∷ es) s = IsApart e s × AreApart es (if s.exited then s else handle stake e s)

  create-IsLone :
      (row : ℕ) (force : Bool) (s : Runner)
      → s.workers row ≡ none
      → IsLone s
      → IsLone (or_exit s (create stake row force s))
  create-IsLone row force s e h =
      create-cases IsLone (or_exit s) row force s
        (record {
          one = h.one;
          exists = h.exists;
          row = h.row;
          waiting = h.waiting;
          single = h.single;
        })
        (created-IsLone row force s h (λ c q. absurd (none-some (sym e ∙ q)))
          (λ c q. absurd (none-some (sym e ∙ q))))

  create-others :
      (row : ℕ) (force : Bool) (s : Runner) (id : ℕ)
      → (id ≢ row) × (s.workers id ≡ none)
      → (or_exit s (create stake row force s)).workers id ≡ none
  create-others row force s id (n, e) =
      create-cases (λ t. t.workers id ≡ none) (or_exit s) row force s e
        (put_at-other row (some s.next) s.workers id n ∙ e)

  start_workers-IsLone :
      (rows : List ℕ) (s : Runner)
      → AreDistinct rows
      → All (λ id. s.workers id ≡ none) rows
      → IsLone s
      → IsLone (start_workers stake rows s)
  unfolding start_workers
  start_workers-IsLone [] s d e h = h
  start_workers-IsLone (row ∷ rows) s d e h =
      start_workers-IsLone rows _ d.1
        (All-mono _ _ rows (create-others row false s) (All-both _ _ rows d.0 e.1))
        (create-IsLone row false s e.0 h)

  handle-IsLone : (e : Event) (s : Runner) → IsApart e s → IsLone s → IsLone (handle stake e s)
  unfolding handle
  handle-IsLone (restarts force ids) s a h = should_restart-IsLone force ids s a h
  handle-IsLone (kicks ids) s a h = should_kick_workers-IsLone ids s h
  handle-IsLone (unsubscribed k) s a h =
      finish-IsLone s (pick_at k s.pending) (pick_at-IsPicked k s.pending) h
  handle-IsLone (unsubscribe_fails k) s a h =
      fail-IsLone s (pick_at k s.pending) (pick_at-IsPicked k s.pending) h

  run_from-IsLone :
      (events : List Event) (s : Runner)
      → AreApart events s
      → IsLone s
      → IsLone (run stake events s)
  unfolding run
  run_from-IsLone [] s a h = h
  run_from-IsLone (e ∷ es) s a h =
      run_from-IsLone es _ a.1 (if_cases IsLone s.exited (λ t. h) (λ t. handle-IsLone e s a.0 h))

  all_none : (rows : List ℕ) → All (λ id. new_runner.workers id ≡ none) rows
  all_none [] = tt
  all_none (row ∷ rows) = (refl, all_none rows)

  -- From the start with workers that are distinct, through any messages of the manager and ends of
  -- subscriptions in which a restart comes only for a worker none of whose restarts waits: each
  -- context that was not told to stop is the one of its worker, so a worker has one at most, and the
  -- context of a worker is made from its own row.
  pub run-IsLone :
      (rows : List ℕ) (events : List Event)
      → AreDistinct rows
      → AreApart events (start_workers stake rows new_runner)
      → IsLone (run stake events (start_workers stake rows new_runner))
  run-IsLone rows events d a = run_from-IsLone events _ a (
      start_workers-IsLone rows new_runner d (all_none rows) record {
        one = λ c lt. absurd (omega arith);
        exists = λ id c e. absurd (none-some e);
        row = λ id c e. absurd (none-some e);
        waiting = tt;
        single = λ c. omega arith;
      })
