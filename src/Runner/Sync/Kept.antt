-- ===== src/Runner/Sync/Kept.antt =====
-- single_sync.js and separated_sync.js: the promise that `startSync` hands out, and the operations
-- that settle it.
use runtime_bridge.Prelude.{
  ℕ, ◌≡◌, ◌⊎◌, inl, inr, refl, sym, ap, ◌∙◌, Bool, true, false, not, ◌&&◌, [], ◌∷◌, ◌++◌,
  if◌then◌else◌, if_cases,
}
use runtime_bridge.Runner.Sync.{
  resolved, rejected, World, Sync, stop_sync, do_reject, await, note_dispatched, note_headers,
}

not-true : (b : Bool) → not b ≡ false → b ≡ true
not-true true h = refl
not-true false h = absurd (cc)

finished_done : (b c : Bool) → not b && c ≡ true → b ≡ true → ⊥
finished_done true c h k = cc
finished_done false c h k = cc

module _ {E : Type 0} where
  -- Resolved once, or rejected once, and then the synching is stopped and so is the update loop.
  abbrev pub IsResolvedOnce : Sync E → Type 0
  IsResolvedOnce s = (to : ℕ) × (s.settled ≡ resolved to ∷ [])

  abbrev pub IsRejectedOnce : Sync E → Type 0
  IsRejectedOnce s =
      (e : E) × (s.settled ≡ rejected e ∷ [])
      × (s.should_stop ≡ true)
      × (s.should_stop_update_info ≡ true)

  abbrev pub IsPending : Sync E → Type 0
  IsPending s = (s.synched_to_target_finished ≡ false) × (s.settled ≡ [])

  abbrev pub IsFinished : Sync E → Type 0
  IsFinished s = (s.synched_to_target_finished ≡ true) × (IsResolvedOnce s ⊎ IsRejectedOnce s)

  pub record Kept (s : Sync E) : Type 0 where
    pub stop : s.has_stop_sync ≡ not s.should_stop
    pub once : IsPending s ⊎ IsFinished s

  stopped :
      (s : Sync E)
      → Kept s
      → ((if s.has_stop_sync then stop_sync s else s).should_stop ≡ true)
        × ((if s.has_stop_sync then stop_sync s else s).has_stop_sync ≡ false)
  unfolding stop_sync
  stopped s h =
      if_cases (λ (u : Sync E). (u.should_stop ≡ true) × (u.has_stop_sync ≡ false)) s.has_stop_sync
        (λ t. (refl, refl)) (λ t. (not-true s.should_stop (sym h.stop ∙ t), t))

  pub do_reject-Kept :
      (e : E) (s : Sync E) → Kept s → Kept (do_reject e s) × IsFinished (do_reject e s)
  unfolding do_reject stop_sync
  do_reject-Kept e s h =
      if_cases (λ t. Kept t × IsFinished t) s.synched_to_target_finished
        (λ t. (h, elim h.once [ inl p ↦ absurd (cc) | inr p ↦ p ]))
        (λ t.
          let r = stopped s h in
          let one : s.settled ++ (rejected e ∷ []) ≡ rejected e ∷ [] = elim h.once [
            | inl p ↦ ap (λ x. x ++ (rejected e ∷ [])) p.1
            | inr p ↦ absurd (cc)
          ] in
          (
            record { stop = r.1 ∙ ap not (sym r.0); once = inr (refl, inr (e, one, r.0, refl)) },
            (refl, inr (e, one, r.0, refl)),
          ))

  module _ (w : World E) where
    pub await-Kept : (s : Sync E) → Kept s → Kept (await w s)
    unfolding await stop_sync
    await-Kept s h =
        if_cases Kept (w.stops s.awaits && s.has_stop_sync)
          (λ t. record {
            stop = refl;
            once = elim h.once [
              | inl p ↦ inl p
              | inr (p, inl q) ↦ inr (p, inl q)
              | inr (p, inr (e, q, a, b)) ↦ inr (p, inr (e, q, refl, b))
            ];
          })
          (λ t. record { stop = h.stop; once = h.once })

    pub note_headers-Kept : (to : ℕ × ℕ) (s : Sync E) → Kept s → Kept (note_headers w to s)
    unfolding note_headers
    note_headers-Kept to s h = record { stop = h.stop; once = h.once }

    pub note_dispatched-Kept : (to : ℕ) (s : Sync E) → Kept s → Kept (note_dispatched w to s)
    unfolding note_dispatched
    note_dispatched-Kept to s h =
        if_cases Kept _
          (λ t. record {
            stop = h.stop;
            once = elim h.once [
              | inl p ↦ inr (refl, inl (to, ap (λ x. x ++ (resolved to ∷ [])) p.1))
              | inr p ↦ absurd (finished_done _ _ t p.0)
            ];
          })
          (λ t. record { stop = h.stop; once = h.once })
