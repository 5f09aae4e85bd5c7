-- ===== src/Runner/Sync/Single/CatchUp.antt =====
-- single_sync.js: how blocks catch up with headers.
use runtime_bridge.Prelude.{
  ℕ, zero, suc, ◌≡◌, ◌≤◌, ◌<◌, refl, ◌∙◌, not, ◌&&◌, Option, none, some, List, [], ◌∷◌, ◌+◌, ◌-◌,
  arith, leb, if_cases, Settles, Settles-mono, Settles-some,
}
use runtime_bridge.Prelude.Int.{ℤ, pos, leb_ℤ}
use runtime_bridge.Iterate.{Outcome, done}
use runtime_bridge.Runner.Sync.{
  Answer, ok, fails, World, Sync, stop_sync, status, await, note_dispatched,
}
use runtime_bridge.Runner.Sync.Single.{
  Result, after_dispatch, after_block_blob, difference_sync, is_behind,
}

module _ {E : Type 0} (w : World E) where
  -- Whoever dispatches a blob that was asked for with a number gets to that block at least.
  unfoldable pub IsProgressing : Type 0
  IsProgressing =
      (i j n : ℕ) (to committed : ℤ) (blob : List ℕ) (d : ℕ)
      → w.get_para_block_blob i n to committed ≡ ok (some blob)
      → w.dispatch_block j blob ≡ ok d
      → n ≤ d

  pub await_block : (s : Sync E) → (await w s).para_block_sync_number ≡ s.para_block_sync_number
  unfolding await stop_sync
  await_block s =
      if_cases (λ (t : Sync E). t.para_block_sync_number ≡ s.para_block_sync_number)
        (w.stops s.awaits && s.has_stop_sync) (λ t. refl) (λ t. refl)

  pub await_header : (s : Sync E) → (await w s).para_header_sync_number ≡ s.para_header_sync_number
  unfolding await stop_sync
  await_header s =
      if_cases (λ (t : Sync E). t.para_header_sync_number ≡ s.para_header_sync_number)
        (w.stops s.awaits && s.has_stop_sync) (λ t. refl) (λ t. refl)

  pub noted_block : (to : ℕ) (s : Sync E) → (note_dispatched w to s).para_block_sync_number ≡ to + 1
  unfolding note_dispatched
  noted_block to s =
      if_cases (λ (t : Sync E). t.para_block_sync_number ≡ to + 1)
        (not s.synched_to_target_finished && leb_ℤ (status w s).para_processed_height (pos to))
        (λ t. refl) (λ t. refl)

  pub noted_header :
      (to : ℕ) (s : Sync E)
      → (note_dispatched w to s).para_header_sync_number ≡ s.para_header_sync_number
  unfolding note_dispatched
  noted_header to s =
      if_cases (λ (t : Sync E). t.para_header_sync_number ≡ s.para_header_sync_number)
        (not s.synched_to_target_finished && leb_ℤ (status w s).para_processed_height (pos to))
        (λ t. refl) (λ t. refl)

  -- The blocks have not gone back, and the headers are where they were.
  abbrev pub IsReached : Sync E → Result w → Type 0
  IsReached s r =
      (s.para_block_sync_number ≤ r.1.para_block_sync_number)
      × (r.1.para_header_sync_number ≡ s.para_header_sync_number)

  pub awaited-IsReached : (s : Sync E) (o : Outcome E) → IsReached s (o, await w s)
  awaited-IsReached s o = (omega (arith, await_block s), await_header s)

  pub awaited_twice-IsReached : (s : Sync E) → IsReached s (done, await w (await w s))
  awaited_twice-IsReached s =
      let one = awaited-IsReached s done in
      let two = awaited-IsReached (await w s) done in (omega arith, two.1 ∙ one.1)

  dispatch-Settles :
      (again : Sync E → Option (Result w)) (a : Answer E ℕ) (s t : Sync E)
      → IsReached s (done, t)
      → ((d : ℕ) → a ≡ ok d → s.para_block_sync_number ≤ d)
      → ((u : Sync E)
          → s.para_block_sync_number < u.para_block_sync_number
          → u.para_header_sync_number ≡ s.para_header_sync_number
          → Settles (IsReached u) (again u))
      → Settles (IsReached s) (after_dispatch w again a t)
  dispatch-Settles again (fails e) s t h p k = h
  dispatch-Settles again (ok to) s t h p k =
      let u = note_dispatched w to t in
      let le = p to refl in
      if_cases (Settles (IsReached s)) (is_behind w u)
        (λ q.
          Settles-mono (IsReached u) (IsReached s) (again u)
            (λ r g. (omega (arith, noted_block to t), g.1 ∙ noted_header to t ∙ h.1))
            (k u (omega (arith, noted_block to t)) (noted_header to t ∙ h.1)))
        (λ q. (omega (arith, noted_block to t), noted_header to t ∙ h.1))

  blob-Settles :
      (again : Sync E → Option (Result w)) (i : ℕ) (committed : ℤ) (s : Sync E)
      → IsProgressing
      → ((u : Sync E)
          → s.para_block_sync_number < u.para_block_sync_number
          → u.para_header_sync_number ≡ s.para_header_sync_number
          → Settles (IsReached u) (again u))
      → (a : Answer E (Option (List ℕ)))
      → w.get_para_block_blob i s.para_block_sync_number s.sync_status.para_header_synched_to
          committed
        ≡ a
      → Settles (IsReached s) (after_block_blob w again a (await w s))
  unfolding IsProgressing
  blob-Settles again i c s p k (fails e) q = awaited-IsReached s done
  blob-Settles again i c s p k (ok none) q = awaited_twice-IsReached s
  blob-Settles again i c s p k (ok (some [])) q = awaited_twice-IsReached s
  blob-Settles again i c s p k (ok (some (b ∷ bs))) q =
      dispatch-Settles again _ s _ (awaited_twice-IsReached s) (λ d e. p i _ _ _ _ _ d q e) k

  difference-Settles :
      (fuel : ℕ) (s : Sync E)
      → IsProgressing
      → s.para_header_sync_number - s.para_block_sync_number < fuel
      → Settles (IsReached s) (difference_sync w fuel s)
  unfolding difference_sync
  difference-Settles zero s p lt = absurd (omega arith)
  difference-Settles (suc fuel) s p lt =
      if_cases (Settles (IsReached s)) s.should_stop (λ t. (omega arith, refl))
        (λ t.
          if_cases (Settles (IsReached s)) (leb s.para_header_sync_number s.para_block_sync_number)
            (λ q. (omega arith, refl))
            (λ q.
              blob-Settles (difference_sync w fuel) _ _ s p
                (λ u more same. difference-Settles fuel u p (ground arith)) _ refl))

  -- The catching up of the blocks ends, when each dispatch gets to the block that was asked for: as
  -- many rounds as there are blocks whose header is synched, and one more, are enough. It ends with
  -- the headers where they were and no block given up.
  pub difference_sync-Settles :
      (s : Sync E)
      → IsProgressing
      → (r : Result w) × (difference_sync w
            (s.para_header_sync_number - s.para_block_sync_number + 1)
            s
          ≡ some r)
        × (s.para_block_sync_number ≤ r.1.para_block_sync_number)
        × (r.1.para_header_sync_number ≡ s.para_header_sync_number)
  difference_sync-Settles s p =
      let fuel = s.para_header_sync_number - s.para_block_sync_number + 1 in
      let r =
        Settles-some (IsReached s) (difference_sync w fuel s)
          (difference-Settles fuel s p (omega arith)) in
      (r.0, r.1, r.2.0, r.2.1)
