-- ===== src/Runner/Sync/Single/Batches.antt =====
-- single_sync.js: the batches of headers.
use runtime_bridge.Prelude.{ℕ, zero, suc, ◌≡◌, refl, sym, true, if_cases}
use runtime_bridge.Iterate.{done, threw}
use runtime_bridge.Runner.Sync.{World, Sync}
use runtime_bridge.Runner.Sync.Single.{
  Result, do_incremental_header_sync, then_do, batch_header_sync, do_batch_header_sync,
}

module _ {E : Type 0} (w : World E) where
  -- A round of headers does nothing when the synching is stopped.
  incremental_stopped :
      (s : Sync E) → s.should_stop ≡ true → do_incremental_header_sync w s ≡ (done, s)
  unfolding do_incremental_header_sync
  incremental_stopped s e =
      if_cases (λ (r : Result w). r ≡ (done, s)) s.should_stop (λ t. refl) (λ t. absurd (cc))

  -- `count` rounds of headers, one after another, up to the first error.
  abbrev pub rounds : ℕ → Sync E → Result w
  rounds zero s = (done, s)
  rounds (suc count) s = then_do w (rounds count) (do_incremental_header_sync w s)

  rounds_stopped : (count : ℕ) (s : Sync E) → s.should_stop ≡ true → rounds count s ≡ (done, s)
  rounds_stopped zero s e = refl
  rounds_stopped (suc count) s e = rw (incremental_stopped s e) (rounds_stopped count s e)

  then_do-ext :
      (f g : Sync E → Result w) (r : Result w)
      → ((s : Sync E) → f s ≡ g s)
      → then_do w f r ≡ then_do w g r
  then_do-ext f g (done, s) h = h s
  then_do-ext f g (threw e, s) h = refl

  batch-rounds : (count : ℕ) (s : Sync E) → batch_header_sync w count s ≡ rounds count s
  unfolding batch_header_sync
  batch-rounds zero s = refl
  batch-rounds (suc count) s =
      if_cases (λ (r : Result w). r ≡ rounds (suc count) s) s.should_stop
        (λ t. sym (rounds_stopped (suc count) s t))
        (λ t. then_do-ext _ _ (do_incremental_header_sync w s) (batch-rounds count))

  -- A batch of headers is five single rounds one after another, up to the first error, whenever the
  -- synching is stopped: the tests between the rounds change nothing.
  pub do_batch-rounds : (s : Sync E) → do_batch_header_sync w s ≡ rounds 5 s
  unfolding do_batch_header_sync
  do_batch-rounds s = batch-rounds 5 s
