-- ===== src/Runner/Sync/Single/Serving.antt =====
-- single_sync.js: blocks catch up with headers when everything is served.
use runtime_bridge.Prelude.{
  ℕ, zero, suc, ◌≡◌, ◌≤◌, ◌<◌, refl, ◌∙◌, Bool, true, false, not, ◌&&◌, Option, some, List, ◌∷◌,
  ◌-◌, arith, leb, leb→le, if_cases, Settles, Settles-some,
}
use runtime_bridge.Prelude.Int.{ℤ, pos, leb_ℤ}
use runtime_bridge.Iterate.{done}
use runtime_bridge.Runner.Sync.{Answer, ok, fails, World, Sync, status, await, note_dispatched}
use runtime_bridge.Runner.Sync.Single.{
  Result, after_dispatch, after_block_blob, difference_sync, is_behind,
}
use runtime_bridge.Runner.Sync.Single.CatchUp.{
  IsProgressing, noted_block, noted_header, awaited_twice-IsReached,
}

not_both : (b c : Bool) → b && c ≡ true → b ≡ false → ⊥
not_both true c h k = cc
not_both false c h k = cc

ok_inj : {E A : Type 0} {a b : A} → ◌≡◌ {A = Answer E A} (ok a) (ok b) → a ≡ b
ok_inj e = cc

module _ {E : Type 0} (w : World E) where
  -- Nobody stops the synching, each blob is there, and each dispatch is answered.
  pub record IsServing : Type 0 where
    pub stays : (i : ℕ) → w.stops i ≡ false
    pub blob :
        (i n : ℕ) (to committed : ℤ)
        → (b : ℕ) × (bs : List ℕ) × (w.get_para_block_blob i n to committed ≡ ok (some (b ∷ bs)))
    pub dispatched : (j : ℕ) (bytes : List ℕ) → (d : ℕ) × (w.dispatch_block j bytes ≡ ok d)

  abbrev IsCaughtUp : Result w → Type 0
  IsCaughtUp r = (r.0 ≡ done) × (r.1.para_header_sync_number ≤ r.1.para_block_sync_number)

  await_stays : (s : Sync E) → IsServing → s.should_stop ≡ false → (await w s).should_stop ≡ false
  unfolding await
  await_stays s v e =
      if_cases (λ (t : Sync E). t.should_stop ≡ false) (w.stops s.awaits && s.has_stop_sync)
        (λ t. absurd (not_both _ _ t (v.stays s.awaits))) (λ t. e)

  noted_stays :
      (to : ℕ) (s : Sync E) → s.should_stop ≡ false → (note_dispatched w to s).should_stop ≡ false
  unfolding note_dispatched
  noted_stays to s e =
      if_cases (λ (t : Sync E). t.should_stop ≡ false)
        (not s.synched_to_target_finished && leb_ℤ (status w s).para_processed_height (pos to))
        (λ t. e) (λ t. e)

  dispatch-CaughtUp :
      (again : Sync E → Option (Result w)) (a : Answer E ℕ) (d : ℕ) (s t : Sync E)
      → a ≡ ok d
      → s.para_block_sync_number ≤ d
      → t.should_stop ≡ false
      → t.para_header_sync_number ≡ s.para_header_sync_number
      → ((u : Sync E)
          → u.should_stop ≡ false
          → s.para_block_sync_number < u.para_block_sync_number
          → u.para_header_sync_number ≡ s.para_header_sync_number
          → Settles IsCaughtUp (again u))
      → Settles IsCaughtUp (after_dispatch w again a t)
  dispatch-CaughtUp again (fails e) d s t q le f h k = absurd (cc)
  dispatch-CaughtUp again (ok to) d s t q le f h k =
      let u = note_dispatched w to t in
      let same : to ≡ d = ok_inj q in
      if_cases (Settles IsCaughtUp) (is_behind w u)
        (λ x.
          k u (noted_stays to t f) (omega (arith, noted_block w to t)) (noted_header w to t ∙ h))
        (λ x. (refl, ground arith))

  blob-CaughtUp :
      (again : Sync E → Option (Result w)) (i : ℕ) (committed : ℤ) (s : Sync E)
      → IsProgressing w
      → IsServing
      → s.should_stop ≡ false
      → ((u : Sync E)
          → u.should_stop ≡ false
          → s.para_block_sync_number < u.para_block_sync_number
          → u.para_header_sync_number ≡ s.para_header_sync_number
          → Settles IsCaughtUp (again u))
      → Settles IsCaughtUp (
          after_block_blob w again
            (w.get_para_block_blob i s.para_block_sync_number s.sync_status.para_header_synched_to
              committed)
            (await w s))
  unfolding IsProgressing
  blob-CaughtUp again i c s p v e k =
      let b = v.blob i s.para_block_sync_number s.sync_status.para_header_synched_to c in
      let d = v.dispatched (await w s).awaits (b.0 ∷ b.1) in
      rw (b.2) (
        dispatch-CaughtUp again _ d.0 s (await w (await w s)) d.1 (p i _ _ _ _ _ d.0 b.2 d.1)
          (await_stays (await w s) v (await_stays s v e)) (awaited_twice-IsReached w s).1 k)

  difference-CaughtUp :
      (fuel : ℕ) (s : Sync E)
      → IsProgressing w
      → IsServing
      → s.should_stop ≡ false
      → s.para_header_sync_number - s.para_block_sync_number < fuel
      → Settles IsCaughtUp (difference_sync w fuel s)
  unfolding difference_sync
  difference-CaughtUp zero s p v e lt = absurd (omega arith)
  difference-CaughtUp (suc fuel) s p v e lt =
      if_cases (Settles IsCaughtUp) s.should_stop (λ t. absurd (cc))
        (λ t.
          if_cases (Settles IsCaughtUp) (leb s.para_header_sync_number s.para_block_sync_number)
            (λ q. (refl, leb→le _ _ q))
            (λ q.
              blob-CaughtUp (difference_sync w fuel) _ _ s p v e
                (λ u f more same. difference-CaughtUp fuel u p v f (ground arith))))

  -- When nobody stops the synching, each blob is there and each dispatch is answered and gets to the
  -- block that was asked for, the catching up ends without an error and with no block left whose
  -- header is synched, after at most one call for each such block and one more.
  pub difference_sync-CatchesUp :
      (calls : ℕ) (s : Sync E)
      → IsProgressing w
      → IsServing
      → s.should_stop ≡ false
      → s.para_header_sync_number - s.para_block_sync_number < calls
      → (r : Result w) × (difference_sync w calls s ≡ some r)
        × (r.0 ≡ done)
        × (r.1.para_header_sync_number ≤ r.1.para_block_sync_number)
  difference_sync-CatchesUp calls s p v e lt =
      let r =
        Settles-some IsCaughtUp (difference_sync w calls s)
          (difference-CaughtUp calls s p v e lt) in
      (r.0, r.1, r.2.0, r.2.1)
