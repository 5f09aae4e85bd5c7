-- ===== src/Runner/Providers/Singleton/Entering.antt =====
-- getConnection of ptp.ts: a call that takes the lock.
use runtime_bridge.Prelude.{
  put_at, put_at_self, put_at-other, put_at-cases, ℕ, ◌+◌, ◌<◌, ◌==◌, ◌≡◌, ◌≢◌, refl, sym, ap, ◌∙◌,
  subst, true, false, Option, none, some, some_inj, none-some, All-mono, inl, inr, ◌⊎◌,
  if◌then◌else◌, if_cases, arith,
}
use runtime_bridge.Runner.Providers.{
  connecting, up, failed, Link, Call, Manager, usable, begin, enter,
}
use runtime_bridge.Runner.Providers.Singleton.{calls_of, Holds, IsAnswer, IsSound}

module _ (id : ℕ) (s : Manager) (h : IsSound s) (free : s.locks id ≡ false) where
  abbrev locked : Manager
  locked = record s { locks = put_at id true s.locks }

  was_free : (i : ℕ) → put_at id true s.locks i ≡ false → s.locks i ≡ false
  was_free i e = ground arith

  still_locked : (i : ℕ) → s.locks i ≡ true → put_at id true s.locks i ≡ true
  still_locked i e = ground arith

  one_more :
      (i : ℕ)
      → (if id == i then 1 else 0) + calls_of i s.entered
        ≡ (if put_at id true s.locks i then 1 else 0)
  one_more i = ground (arith, h.single i, free)

  Holds-locked :
      (c : Call)
      → Holds s.locks s.connections s.heap c
      → Holds (put_at id true s.locks) s.connections s.heap c
  Holds-locked c g = record {
    locked = still_locked c.id_str g.locked;
    stored = g.stored;
    found_up = g.found_up;
  }

  -- The stored connection is used again.
  begin-some :
      (c : ℕ)
      → s.connections id ≡ some c
      → (s.heap c).closed ≡ false
      → IsSound (begin id (some c) locked)
  begin-some c e o = record {
    one = h.one;
    exists = h.exists;
    provider = h.provider;
    not_failed = h.not_failed;
    ready = λ i d q l. h.ready i d q (was_free i l);
    held = (
      record {
        locked = put_at_self id true s.locks;
        stored = e;
        found_up = λ f. h.ready id c e free o;
      },
      All-mono _ _ s.entered Holds-locked h.held,
    );
    single = one_more;
    answers = h.answers;
  }

  module _ (gone : (c : ℕ) → s.connections id ≡ some c → (s.heap c).closed ≡ true) where
    abbrev fresh : Link
    fresh = record { provider = id; closed = false; phase = connecting }

    abbrev began : Manager
    began = begin id none locked

    -- An old reference is not the new one.
    heap-old : (c : ℕ) → c < s.next → began.heap c ≡ s.heap c
    heap-old c lt = put_at-other s.next fresh s.heap c (λ e. omega arith)

    heap-new : began.heap s.next ≡ fresh
    heap-new = put_at_self s.next fresh s.heap

    began-one :
        (c : ℕ)
        → c < s.next + 1
        → (began.heap c).closed ≡ false
        → began.connections (began.heap c).provider ≡ some c
    began-one c lt = elim (put_at-cases s.next fresh s.heap c) [
      | inl (e, q) ↦ λ o. rw (q, e) (put_at_self id (some s.next) s.connections)
      | inr (n, q) ↦ rw q (λ o.
          let stored = h.one c (omega arith) o in
          put_at-other id (some s.next) s.connections (s.heap c).provider
            (λ e. let shut = gone c (subst (λ i. s.connections i ≡ some c) e stored) in cc)
          ∙ stored)
    ]

    -- What is stored is the new connection, or an old one of another data provider.
    stored-cases :
        (i c : ℕ)
        → began.connections i ≡ some c
        → ((i ≡ id) × (c ≡ s.next)) ⊎ ((i ≢ id) × (s.connections i ≡ some c))
    stored-cases i c e = elim (put_at-cases id (some s.next) s.connections i) [
      | inl (same, q) ↦ inl (same, some_inj (sym e ∙ q))
      | inr (n, q) ↦ inr (n, sym q ∙ e)
    ]

    began-provider : (i c : ℕ) → began.connections i ≡ some c → (began.heap c).provider ≡ i
    began-provider i c e = elim (stored-cases i c e) [
      | inl (same, new) ↦ rw (new, heap-new) (sym same)
      | inr (n, q) ↦ rw (heap-old c (h.exists i c q)) (h.provider i c q)
    ]

    began-ready :
        (i c : ℕ)
        → began.connections i ≡ some c
        → began.locks i ≡ false
        → (began.heap c).closed ≡ false
        → (began.heap c).phase ≡ up
    began-ready i c e l = elim (stored-cases i c e) [
      | inl (same, new) ↦ λ o. ground arith
      | inr (n, q) ↦ rw (heap-old c (h.exists i c q)) (h.ready i c q (was_free i l))
    ]

    began-not_failed : (c : ℕ) → (began.heap c).closed ≡ false → (began.heap c).phase ≢ failed
    began-not_failed c = elim (put_at-cases s.next fresh s.heap c) [
      | inl (e, q) ↦ rw q (λ o p. cc)
      | inr (n, q) ↦ rw q (h.not_failed c)
    ]

    Holds-began :
        (c : Call)
        → Holds s.locks s.connections s.heap c
        → Holds began.locks began.connections began.heap c
    Holds-began c g = record {
      locked = still_locked c.id_str g.locked;
      stored =
          put_at-other id (some s.next) s.connections c.id_str (λ e. ground (arith, g.locked, free))
          ∙ g.stored;
      found_up = rw (heap-old c.link (h.exists c.id_str c.link g.stored)) g.found_up;
    }

    IsAnswer-began : (r : ℕ × ℕ) → IsAnswer s.heap s.next r → IsAnswer began.heap began.next r
    IsAnswer-began r g = record {
      provider = rw (heap-old r.1 g.exists) g.provider;
      was_up = rw (heap-old r.1 g.exists) g.was_up;
      exists = let lt = g.exists in omega arith;
    }

    begin-none : IsSound began
    begin-none = record {
      one = began-one;
      exists = λ i c e. elim (stored-cases i c e) [
        | inl (same, new) ↦ omega arith
        | inr (n, q) ↦ let lt = h.exists i c q in omega arith
      ];
      provider = began-provider;
      not_failed = began-not_failed;
      ready = began-ready;
      held = (
        record {
          locked = put_at_self id true s.locks;
          stored = put_at_self id (some s.next) s.connections;
          found_up = λ f. cc;
        },
        All-mono _ _ s.entered Holds-began h.held,
      );
      single = one_more;
      answers = All-mono _ _ s.returned IsAnswer-began h.answers;
    }

  usable_cases : (o : Option ℕ) → s.connections id ≡ o → IsSound (begin id (usable s.heap o) locked)
  usable_cases none e = begin-none (λ c q. absurd (none-some (sym e ∙ q)))
  usable_cases (some c) e =
      if_cases (λ (u : Option ℕ). IsSound (begin id u locked)) (s.heap c).closed
        (λ shut. begin-none (λ d q. ap (λ x. (s.heap x).closed) (some_inj (sym q ∙ e)) ∙ shut))
        (λ o. begin-some c e o)

pub enter-IsSound : (id : ℕ) (s : Manager) → IsSound s → IsSound (enter id s)
unfolding enter
enter-IsSound id s h =
    if_cases IsSound (s.locks id) (λ l. h)
      (λ free. usable_cases id s h free (s.connections id) refl)
