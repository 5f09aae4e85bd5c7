-- ===== src/Runner/Providers/Singleton.antt =====
-- getConnection of ptp.ts: what holds of the connections, their locks and the calls between any two
-- events.
pub mod Entering
pub mod Resuming
use runtime_bridge.Prelude.{
  sum_by, put_at, ℕ, zero, suc, ◌+◌, ◌<◌, ◌≤◌, ◌==◌, ◌≡◌, ◌≢◌, refl, sym, ap, subst, ◌∙◌, Bool,
  true, false, Option, none, some, some_inj, none-some, List, [], ◌∷◌, All, All-mono, Bool-cases,
  inl, inr, ◌⊎◌, if◌then◌else◌, if_cases, arith,
}
use runtime_bridge.Runner.Providers.{
  Phase, connecting, up, failed, Link, Call, Manager, new_manager, no_link, usable, begin, enter,
  release, give, awaited, resume_call, resume, connected_phase, connected, settled_phase, cleaned,
  Event, calls, resumes, connects, closes, step, run,
}

abbrev pub calls_of : ℕ → List Call → ℕ
calls_of id = sum_by (λ (c : Call). if c.id_str == id then 1 else 0)

-- A call holds the lock of its data provider, and its connection is the one that is stored. A call
-- that found the connection there found it connected.
pub record Holds (locks : ℕ → Bool) (connections : ℕ → Option ℕ) (heap : ℕ → Link) (c : Call)
    : Type 0 where
  pub locked : locks c.id_str ≡ true
  pub stored : connections c.id_str ≡ some c.link
  pub found_up : c.is_fresh ≡ false → (heap c.link).phase ≡ up

-- What `getConnection` returned is a connection to that data provider, and was connected.
pub record IsAnswer (heap : ℕ → Link) (next : ℕ) (r : ℕ × ℕ) : Type 0 where
  pub provider : (heap r.1).provider ≡ r.0
  pub was_up : (heap r.1).phase ≡ up
  pub exists : r.1 < next

pub record IsSound (s : Manager) : Type 0 where
  pub one :
      (c : ℕ) → c < s.next → (s.heap c).closed ≡ false → s.connections (s.heap c).provider ≡ some c
  pub exists : (id c : ℕ) → s.connections id ≡ some c → c < s.next
  pub provider : (id c : ℕ) → s.connections id ≡ some c → (s.heap c).provider ≡ id
  pub not_failed : (c : ℕ) → (s.heap c).closed ≡ false → (s.heap c).phase ≢ failed
  pub ready :
      (id c : ℕ)
      → s.connections id ≡ some c
      → s.locks id ≡ false
      → (s.heap c).closed ≡ false
      → (s.heap c).phase ≡ up
  pub held : All (Holds s.locks s.connections s.heap) s.entered
  pub single : (id : ℕ) → calls_of id s.entered ≡ (if s.locks id then 1 else 0)
  pub answers : All (IsAnswer s.heap s.next) s.returned

-- What an event of a socket does to a connection.
pub record Advances (l m : Link) : Type 0 where
  pub provider : m.provider ≡ l.provider
  pub closed : m.closed ≡ false → l.closed ≡ false
  pub stays_up : l.phase ≡ up → m.phase ≡ up
  pub not_failed : m.closed ≡ false → m.phase ≡ failed → l.phase ≡ failed

connected_phase-up : (p : Phase) → p ≡ up → connected_phase p ≡ up
connected_phase-up p e = rw e refl

connected_phase-failed : (p : Phase) → connected_phase p ≡ failed → p ≡ failed
connected_phase-failed connecting e = cc
connected_phase-failed up e = cc
connected_phase-failed failed e = refl

pub connected-Advances : (l : Link) → Advances l (connected l)
connected-Advances l = record {
  provider = refl;
  closed = λ h. h;
  stays_up = connected_phase-up l.phase;
  not_failed = λ h. connected_phase-failed l.phase;
}

pub cleaned-Advances : (l : Link) → Advances l (cleaned l)
cleaned-Advances l = record {
  provider = refl;
  closed = λ h. cc;
  stays_up = λ e. rw e refl;
  not_failed = λ h. cc;
}

-- The connection `c` advances, and the others stay.
pub put_at-Advances :
    (c : ℕ) (m : Link) (heap : ℕ → Link)
    → Advances (heap c) m
    → (d : ℕ) → Advances (heap d) (put_at c m heap d)
put_at-Advances c m heap a d =
    if_cases (λ x. Advances (heap d) x) (d == c)
      (λ t. let same : d ≡ c = ground arith in subst (λ x. Advances (heap x) m) (sym same) a)
      (λ t. record { provider = refl; closed = λ h. h; stays_up = λ h. h; not_failed = λ h k. k })

module _ (s : Manager) (heap : ℕ → Link) (a : (c : ℕ) → Advances (s.heap c) (heap c)) where
  abbrev pub after : Manager
  after = record s { heap = heap }

  Holds-advances :
      (c : Call) → Holds s.locks s.connections s.heap c → Holds s.locks s.connections heap c
  Holds-advances c h = record {
    locked = h.locked;
    stored = h.stored;
    found_up = λ f. (a c.link).stays_up (h.found_up f);
  }

  IsAnswer-advances : (r : ℕ × ℕ) → IsAnswer s.heap s.next r → IsAnswer heap s.next r
  IsAnswer-advances r h = record {
    provider = (a r.1).provider ∙ h.provider;
    was_up = (a r.1).stays_up h.was_up;
    exists = h.exists;
  }

  pub advances-IsSound : IsSound s → IsSound after
  advances-IsSound h = record {
    one = λ c lt o. rw ((a c).provider) (h.one c lt ((a c).closed o));
    exists = h.exists;
    provider = λ id c e. (a c).provider ∙ h.provider id c e;
    not_failed = λ c o e. h.not_failed c ((a c).closed o) ((a c).not_failed o e);
    ready = λ id c e l o. (a c).stays_up (h.ready id c e l ((a c).closed o));
    held = All-mono _ _ s.entered Holds-advances h.held;
    single = h.single;
    answers = All-mono _ _ s.returned IsAnswer-advances h.answers;
  }
