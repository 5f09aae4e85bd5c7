-- ===== src/Runner/Providers/Singleton/Resuming.antt =====
-- getConnection of ptp.ts: a call that goes on after its `await`, and the lock that it frees.
use runtime_bridge.Prelude.{
  pick_at, IsPicked, pick_at-IsPicked, put_at, put_at-other, put_at-cases, All-both, ℕ, ◌==◌, ◌≡◌,
  ◌≢◌, refl, sym, ap, ◌∙◌, subst, false, Option, none, some, some_inj, none-some, List, [], ◌∷◌,
  All, All-mono, inl, inr, ◌⊎◌, if◌then◌else◌, if_cases, arith,
}
use runtime_bridge.Runner.Providers.{
  Phase, connecting, up, failed, Call, Manager, new_manager, release, give, awaited, resume_call,
  resume, Event, calls, resumes, connects, closes, step, run,
}
use runtime_bridge.Runner.Providers.Singleton.{
  calls_of, Holds, IsSound, advances-IsSound, put_at-Advances, connected-Advances, cleaned-Advances,
}
use runtime_bridge.Runner.Providers.Singleton.Entering.{enter-IsSound}

calls_of-zero :
    (id : ℕ) (cs : List Call) → calls_of id cs ≡ 0 → All (λ (c : Call). c.id_str ≢ id) cs
calls_of-zero id [] e = tt
calls_of-zero id (c ∷ cs) e = (λ q. ground arith, calls_of-zero id cs (ground arith))

module _ (s : Manager) (h : IsSound s) (c : Call) (rest : List Call)
    (p : IsPicked s.entered (some (c, rest))) where
  mine : Holds s.locks s.connections s.heap c
  mine = (p.1 (Holds s.locks s.connections s.heap) h.held).0

  others : All (Holds s.locks s.connections s.heap) rest
  others = (p.1 (Holds s.locks s.connections s.heap) h.held).1

  alone : calls_of c.id_str rest ≡ 0
  alone =
      let n = h.single c.id_str in
      let m = p.0 (λ (d : Call). if d.id_str == c.id_str then 1 else 0) in
      let l = mine.locked in ground arith

  abbrev freed : Manager
  freed = release c.id_str rest s

  freed-locks : (i : ℕ) → freed.locks i ≡ false → (i ≡ c.id_str) ⊎ (s.locks i ≡ false)
  freed-locks i e = elim (put_at-cases c.id_str false s.locks i) [
    | inl (same, q) ↦ inl same
    | inr (n, q) ↦ inr (sym q ∙ e)
  ]

  freed-held :
      (d : Call)
      → Holds s.locks s.connections s.heap d × (d.id_str ≢ c.id_str)
      → Holds freed.locks s.connections s.heap d
  freed-held d (g, n) = record {
    locked = put_at-other c.id_str false s.locks d.id_str n ∙ g.locked;
    stored = g.stored;
    found_up = g.found_up;
  }

  freed-single : (i : ℕ) → calls_of i rest ≡ (if put_at c.id_str false s.locks i then 1 else 0)
  freed-single i =
      let l = mine.locked in
      ground (arith, h.single i, p.0 (λ (d : Call). if d.id_str == i then 1 else 0), alone)

  release-IsSound : ((s.heap c.link).closed ≡ false → (s.heap c.link).phase ≡ up) → IsSound freed
  release-IsSound settled = record {
    one = h.one;
    exists = h.exists;
    provider = h.provider;
    not_failed = h.not_failed;
    ready = λ i d e l. elim (freed-locks i l) [
      | inl same ↦
          let is_mine : c.link ≡ d = some_inj (sym mine.stored ∙ ap s.connections (sym same) ∙ e) in
          subst (λ x. (s.heap x).closed ≡ false → (s.heap x).phase ≡ up) is_mine settled
      | inr q ↦ h.ready i d e q
    ];
    held =
        All-mono _ _ rest freed-held (All-both _ _ rest others (calls_of-zero c.id_str rest alone));
    single = freed-single;
    answers = h.answers;
  }

  give-IsSound : (s.heap c.link).phase ≡ up → IsSound (give c rest s)
  give-IsSound u =
      let k = release-IsSound (λ o. u) in
      record {
        one = k.one;
        exists = k.exists;
        provider = k.provider;
        not_failed = k.not_failed;
        ready = k.ready;
        held = k.held;
        single = k.single;
        answers = (
          record {
            provider = h.provider c.id_str c.link mine.stored;
            was_up = u;
            exists = h.exists c.id_str c.link mine.stored;
          },
          h.answers,
        );
      }

  throw-IsSound : (s.heap c.link).phase ≡ failed → IsSound (awaited c rest failed s)
  throw-IsSound f =
      let k = release-IsSound (λ o. absurd (h.not_failed c.link o f)) in
      record {
        one = k.one;
        exists = k.exists;
        provider = k.provider;
        not_failed = k.not_failed;
        ready = k.ready;
        held = k.held;
        single = k.single;
        answers = k.answers;
      }

  awaited-IsSound : (q : Phase) → (s.heap c.link).phase ≡ q → IsSound (awaited c rest q s)
  awaited-IsSound connecting e = h
  awaited-IsSound up e = give-IsSound e
  awaited-IsSound failed e = throw-IsSound e

  resume_call-some : IsSound (resume_call (some (c, rest)) s)
  resume_call-some =
      if_cases IsSound c.is_fresh (λ t. awaited-IsSound (s.heap c.link).phase refl)
        (λ f. give-IsSound (mine.found_up f))

resume_call-IsSound :
    (s : Manager) (o : Option (Call × List Call))
    → IsPicked s.entered o
    → IsSound s
    → IsSound (resume_call o s)
resume_call-IsSound s none p h = h
resume_call-IsSound s (some (c, rest)) p h = resume_call-some s h c rest p

step-IsSound : (e : Event) (s : Manager) → IsSound s → IsSound (step e s)
unfolding step resume
step-IsSound (calls id) s h = enter-IsSound id s h
step-IsSound (resumes k) s h =
    resume_call-IsSound s (pick_at k s.entered) (pick_at-IsPicked k s.entered) h
step-IsSound (connects c) s h =
    advances-IsSound s _ (put_at-Advances c _ s.heap (connected-Advances (s.heap c))) h
step-IsSound (closes c) s h =
    advances-IsSound s _ (put_at-Advances c _ s.heap (cleaned-Advances (s.heap c))) h

run_from-IsSound : (events : List Event) (s : Manager) → IsSound s → IsSound (run events s)
unfolding run
run_from-IsSound [] s h = h
run_from-IsSound (e ∷ es) s h = run_from-IsSound es (step e s) (step-IsSound e s h)

new_manager-IsSound : IsSound new_manager
new_manager-IsSound = record {
  one = λ c lt. absurd (omega arith);
  exists = λ id c e. absurd (none-some e);
  provider = λ id c e. absurd (none-some e);
  not_failed = λ c o. cc;
  ready = λ id c e. absurd (none-some e);
  held = tt;
  single = λ id. refl;
  answers = tt;
}

-- After any events of calls and sockets, in any order: a connection that is not closed is the
-- one that is stored for its data provider, so there is one at most; at most one call at a time is
-- past the lock of a data provider, and none when it is free; and each connection that a call
-- returned is one to the data provider that it asked for, and had been connected.
pub run-IsSound : (events : List Event) → IsSound (run events new_manager)
run-IsSound events = run_from-IsSound events new_manager new_manager-IsSound
