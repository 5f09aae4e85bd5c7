-- ===== src/Runner/Workers/Lone.antt =====
-- index.ts: restarts that do not overlap leave each worker with one context that goes on.
pub mod Restarts
use runtime_bridge.Prelude.{
  sum_by, IsPicked, put_at, put_at-cases, ℕ, zero, suc, ◌+◌, ◌<◌, ◌≤◌, ◌==◌, ◌≡◌, ◌≢◌, refl, sym,
  ap, ◌∙◌, subst, Bool, true, false, Option, none, some, some_inj, none-some, List, [], ◌∷◌, All,
  All-mono, inl, inr, ◌⊎◌, if◌then◌else◌, if_cases, ltb, arith,
}
use runtime_bridge.Runner.Workers.{
  Context, Restart, Runner, bn_1pha, new_runner, begin_restart, should_restart, kicked, kick,
  should_kick_workers, stopped, stop, create, or_same, finish, fail, or_exit, start_workers, Event,
  restarts, kicks, unsubscribed, unsubscribe_fails, handle, run,
}

abbrev pub pending_of : ℕ → List Restart → ℕ
pending_of c = sum_by (λ (r : Restart). if r.context == c then 1 else 0)

-- A context that was not told to stop is the one of its worker, and the restarts that wait are for
-- contexts that are the ones of their workers, one for each at most.
pub record IsLone (s : Runner) : Type 0 where
  pub one :
      (c : ℕ) → c < s.next → (s.heap c).told_to_stop ≡ false → s.workers (s.heap c).row ≡ some c
  pub exists : (id c : ℕ) → s.workers id ≡ some c → c < s.next
  pub row : (id c : ℕ) → s.workers id ≡ some c → (s.heap c).row ≡ id
  pub waiting : All (λ (r : Restart). s.workers (s.heap r.context).row ≡ some r.context) s.pending
  pub single : (c : ℕ) → pending_of c s.pending ≤ 1

-- No restart of the worker waits.
abbrev pub IsFree : ℕ → Runner → Type 0
IsFree id s = (c : ℕ) → s.workers id ≡ some c → pending_of c s.pending ≡ 0

abbrev pub AreFree : Bool → List ℕ → Runner → Type 0
AreFree force [] s = Unit
AreFree force (id ∷ ids) s = IsFree id s × AreFree force ids (begin_restart force (s.workers id) s)

-- A restart comes only for workers none of whose restarts waits.
abbrev pub IsApart : Event → Runner → Type 0
IsApart (restarts force ids) s = AreFree force ids s
IsApart (kicks ids) s = Unit
IsApart (unsubscribed k) s = Unit
IsApart (unsubscribe_fails k) s = Unit

begin_restart-IsLone :
    (force : Bool) (id : ℕ) (s : Runner) (o : Option ℕ)
    → s.workers id ≡ o
    → IsFree id s
    → IsLone s
    → IsLone (begin_restart force o s)
begin_restart-IsLone force id s none e f h = h
begin_restart-IsLone force id s (some c) e f h = record {
  one = h.one;
  exists = h.exists;
  row = h.row;
  waiting = (rw (h.row id c e) e, h.waiting);
  single = λ d. ground (arith, h.single d, f c e);
}

pub should_restart-IsLone :
    (force : Bool) (ids : List ℕ) (s : Runner)
    → AreFree force ids s
    → IsLone s
    → IsLone (should_restart force ids s)
unfolding should_restart
should_restart-IsLone force [] s f h = h
should_restart-IsLone force (id ∷ ids) s f h =
    should_restart-IsLone force ids _ f.1
      (begin_restart-IsLone force id s (s.workers id) refl f.0 h)

-- A change of a context that keeps its row, and does not set it going again.
pub record Keeps (c d : Context) : Type 0 where
  pub row : d.row ≡ c.row
  pub still : d.told_to_stop ≡ false → c.told_to_stop ≡ false

pub put_at-Keeps :
    (c : ℕ) (x : Context) (heap : ℕ → Context)
    → Keeps (heap c) x
    → (d : ℕ) → Keeps (heap d) (put_at c x heap d)
put_at-Keeps c x heap k d = elim (put_at-cases c x heap d) [
  | inl (e, q) ↦ rw (q, e) k
  | inr (n, q) ↦ rw q (record { row = refl; still = λ h. h })
]

pub Keeps-IsLone :
    (s : Runner) (heap : ℕ → Context)
    → ((c : ℕ) → Keeps (s.heap c) (heap c))
    → IsLone s
    → IsLone (record s { heap = heap })
Keeps-IsLone s heap k h = record {
  one = λ c lt g. rw ((k c).row) (h.one c lt ((k c).still g));
  exists = h.exists;
  row = λ id c e. (k c).row ∙ h.row id c e;
  waiting = All-mono _ _ s.pending (λ r e. ap s.workers ((k r.context).row) ∙ e) h.waiting;
  single = h.single;
}

kick-IsLone : (o : Option ℕ) (s : Runner) → IsLone s → IsLone (kick o s)
kick-IsLone none s h = h
kick-IsLone (some c) s h =
    Keeps-IsLone s _ (put_at-Keeps c _ s.heap record { row = refl; still = λ g. g }) h

pub should_kick_workers-IsLone :
    (ids : List ℕ) (s : Runner) → IsLone s → IsLone (should_kick_workers ids s)
unfolding should_kick_workers
should_kick_workers-IsLone [] s h = h
should_kick_workers-IsLone (id ∷ ids) s h =
    should_kick_workers-IsLone ids _ (kick-IsLone (s.workers id) s h)

pub fail-IsLone :
    (s : Runner) (o : Option (Restart × List Restart))
    → IsPicked s.pending o
    → IsLone s
    → IsLone (fail o s)
fail-IsLone s none p h = h
fail-IsLone s (some (r, rest)) p h = record {
  one = h.one;
  exists = h.exists;
  row = h.row;
  waiting = (p.1 (λ (r : Restart). s.workers (s.heap r.context).row ≡ some r.context) h.waiting).1;
  single = λ c. ground (arith, h.single c, p.0 (λ (q : Restart). if q.context == c then 1 else 0));
}
