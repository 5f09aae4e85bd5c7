-- ===== src/Runner/Providers.antt =====
-- src/lifecycle/runner/ptp.ts, getConnection of LifecycleRunnerDataProviderManager: one connection
-- for each data provider, behind a lock. Data providers are named by numbers, and connections are
-- references to a heap, since the table, the callers and the sockets share them. A call that finds
-- the lock taken waits and calls again, which is a further `enter`.
pub mod Candidates
pub mod Singleton
pub mod Tests
use runtime_bridge.Prelude.{
  pick_at, ℕ, zero, suc, ◌+◌, ◌==◌, Bool, true, false, Option, none, some, List, [], ◌∷◌, ◌||◌,
  if◌then◌else◌, put_at,
}

-- The promise of a connection.
pub data Phase : Type 0 where
  connecting up failed : Phase

-- LifecycleRunnerDataProviderConnection, as the manager sees it
pub record Link : Type 0 where
  pub provider : ℕ
  pub closed : Bool
  pub phase : Phase

-- A call that holds the lock; `is_fresh` when it waits for the connection that it made.
pub record Call : Type 0 where
  pub id_str : ℕ
  pub link : ℕ
  pub is_fresh : Bool

-- The fields of the manager, the heap, and the calls with their results.
pub record Manager : Type 0 where
  pub locks : ℕ → Bool
  pub connections : ℕ → Option ℕ
  pub heap : ℕ → Link
  pub next : ℕ
  pub entered : List Call
  pub returned : List (ℕ × ℕ)
  pub thrown : List ℕ

abbrev pub no_link : Link
no_link = record { provider = 0; closed = true; phase = failed }

abbrev pub new_manager : Manager
new_manager = record {
  locks = λ id. false;
  connections = λ id. none;
  heap = λ c. no_link;
  next = 0;
  entered = [];
  returned = [];
  thrown = [];
}

-- `conn && !conn?.closed`
abbrev pub usable : (ℕ → Link) → Option ℕ → Option ℕ
usable heap none = none
usable heap (some c) = if (heap c).closed then none else some c

-- `_getConnection` up to its `await`
abbrev pub begin : ℕ → Option ℕ → Manager → Manager
begin id (some c) s = record s {
  entered = record { id_str = id; link = c; is_fresh = false } ∷ s.entered;
}
begin id none s = record s {
  connections = put_at id (some s.next) s.connections;
  heap = put_at s.next (record { provider = id; closed = false; phase = connecting }) s.heap;
  next = s.next + 1;
  entered = record { id_str = id; link = s.next; is_fresh = true } ∷ s.entered;
}

-- `getConnection` up to its `await`; nothing happens while the lock is taken.
unfoldable pub enter : ℕ → Manager → Manager
enter id s =
    if s.locks id
    then s
    else begin id (usable s.heap (s.connections id)) (record s { locks = put_at id true s.locks })

-- The end of `getConnection`, which frees the lock whether it returns or throws.
abbrev pub release : ℕ → List Call → Manager → Manager
release id rest s = record s { locks = put_at id false s.locks; entered = rest }

abbrev pub give : Call → List Call → Manager → Manager
give c rest s = record (release c.id_str rest s) { returned = (c.id_str, c.link) ∷ s.returned }

abbrev pub awaited : Call → List Call → Phase → Manager → Manager
awaited c rest connecting s = s
awaited c rest up s = give c rest s
awaited c rest failed s = record (release c.id_str rest s) { thrown = c.id_str ∷ s.thrown }

abbrev pub resume_call : Option (Call × List Call) → Manager → Manager
resume_call none s = s
resume_call (some (c, rest)) s =
    if c.is_fresh then awaited c rest (s.heap c.link).phase s else give c rest s

unfoldable pub resume : ℕ → Manager → Manager
resume k s = resume_call (pick_at k s.entered) s

-- The events of a socket: it connects, or it fails or closes (`cleanup`).
abbrev pub connected_phase : Phase → Phase
connected_phase connecting = up
connected_phase up = up
connected_phase failed = failed

abbrev pub connected : Link → Link
connected l = record l { phase = connected_phase l.phase }

abbrev pub settled_phase : Phase → Phase
settled_phase connecting = failed
settled_phase up = up
settled_phase failed = failed

abbrev pub cleaned : Link → Link
cleaned l = record l { closed = true; phase = settled_phase l.phase }

pub data Event : Type 0 where
  calls resumes connects closes : ℕ → Event

unfoldable pub step : Event → Manager → Manager
unfolding enter resume
step (calls id) s = enter id s
step (resumes k) s = resume k s
step (connects c) s = record s { heap = put_at c (connected (s.heap c)) s.heap }
step (closes c) s = record s { heap = put_at c (cleaned (s.heap c)) s.heap }

unfoldable pub run : List Event → Manager → Manager
unfolding step
run [] s = s
run (e ∷ es) s = run es (step e s)
