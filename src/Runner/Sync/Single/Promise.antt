-- ===== src/Runner/Sync/Single/Promise.antt =====
-- single_sync.js: how the promise that `startSync` hands out settles, over a whole run.
use runtime_bridge.Prelude.{
  some_inj, none-some, ℕ, zero, suc, ◌≡◌, ◌⊎◌, inl, refl, subst, true, Option, none, some, List, [],
  ◌∷◌, leb, if_cases,
}
use runtime_bridge.Iterate.{Outcome, done, threw}
use runtime_bridge.Iterate.Invariant.{IsKeptItem, IsKept, IsKeptEnd, Ends, iterate-Ends}
use runtime_bridge.Runner.Sync.{
  Info, Answer, ok, fails, World, Stage, top, headers, dispatch, Sync, await, note_dispatched,
}
use runtime_bridge.Runner.Sync.Single.{
  start_sync, Result, after_headers, after_header_blob, do_incremental_header_sync, then_do,
  batch_header_sync, do_batch_header_sync, after_dispatch, after_block_blob, difference_sync, Loop,
  flat, call, hand_out, handle, on_error, on_fatal, ended, is_behind, is_far_behind, is_ahead,
  yield_headers, yield_top, yield_at, sync_iterator, after_info, callbacks, run,
}
use runtime_bridge.Runner.Sync.Kept.{
  IsPending, IsFinished, Kept, do_reject-Kept, await-Kept, note_headers-Kept, note_dispatched-Kept,
}

module _ {E : Type 0} (w : World E) where
  incremental-Kept : (s : Sync E) → Kept s → Kept (do_incremental_header_sync w s).1
  unfolding do_incremental_header_sync
  incremental-Kept s h =
      if_cases (λ (r : Result w). Kept r.1) s.should_stop (λ t. h)
        (λ t. blob-Kept _ (await w s) (await-Kept w s h))
    where
      headers-Kept : (a : Answer E (ℕ × ℕ)) (t : Sync E) → Kept t → Kept (after_headers w a t).1
      headers-Kept (fails e) t g = g
      headers-Kept (ok to) t g = note_headers-Kept w to t g

      blob-Kept :
          (a : Answer E (Option (List ℕ))) (t : Sync E) → Kept t → Kept (after_header_blob w a t).1
      blob-Kept (fails e) t g = g
      blob-Kept (ok none) t g = await-Kept w t g
      blob-Kept (ok (some blob)) t g = headers-Kept _ _ (await-Kept w t g)

  then_do-Kept :
      (rest : Sync E → Result w) (r : Result w)
      → Kept r.1
      → ((t : Sync E) → Kept t → Kept (rest t).1)
      → Kept (then_do w rest r).1
  then_do-Kept rest (done, t) g k = k t g
  then_do-Kept rest (threw e, t) g k = g

  batch-Kept : (left : ℕ) (s : Sync E) → Kept s → Kept (batch_header_sync w left s).1
  unfolding batch_header_sync
  batch-Kept zero s h = h
  batch-Kept (suc left) s h =
      if_cases (λ (r : Result w). Kept r.1) s.should_stop (λ t. h)
        (λ t.
          then_do-Kept (batch_header_sync w left) (do_incremental_header_sync w s)
            (incremental-Kept s h) (batch-Kept left))

  abbrev SomeKept : Option (Result w) → Type 0
  SomeKept none = Unit
  SomeKept (some r) = Kept r.1

  dispatch-Kept :
      (again : Sync E → Option (Result w)) (a : Answer E ℕ) (t : Sync E)
      → Kept t
      → ((u : Sync E) → Kept u → SomeKept (again u))
      → SomeKept (after_dispatch w again a t)
  dispatch-Kept again (fails e) t g k = g
  dispatch-Kept again (ok to) t g k =
      if_cases SomeKept (is_behind w (note_dispatched w to t))
        (λ q. k _ (note_dispatched-Kept w to t g)) (λ q. note_dispatched-Kept w to t g)

  blob-Kept :
      (again : Sync E → Option (Result w)) (a : Answer E (Option (List ℕ))) (t : Sync E)
      → Kept t
      → ((u : Sync E) → Kept u → SomeKept (again u))
      → SomeKept (after_block_blob w again a t)
  blob-Kept again (fails e) t g k = g
  blob-Kept again (ok none) t g k = await-Kept w t g
  blob-Kept again (ok (some [])) t g k = await-Kept w t g
  blob-Kept again (ok (some (b ∷ bs))) t g k = dispatch-Kept again _ _ (await-Kept w t g) k

  difference-Kept : (fuel : ℕ) (s : Sync E) → Kept s → SomeKept (difference_sync w fuel s)
  unfolding difference_sync
  difference-Kept zero s h = tt
  difference-Kept (suc fuel) s h =
      if_cases SomeKept s.should_stop (λ t. h)
        (λ t.
          if_cases SomeKept (leb s.para_header_sync_number s.para_block_sync_number) (λ q. h)
            (λ q.
              blob-Kept (difference_sync w fuel) _ (await w s) (await-Kept w s h)
                (difference-Kept fuel)))

  abbrev P : Loop w → Type 0
  P none = Unit
  P (some s) = Kept s

  abbrev Q : Outcome E × Loop w → Type 0
  Q (o, none) = Unit
  Q (done, some s) = Kept s × (s.should_stop ≡ true)
  Q (threw e, some s) = Kept s × IsFinished s

  flat-Kept : (r : Option (Result w)) → SomeKept r → P (flat w r).1
  flat-Kept none h = tt
  flat-Kept (some r) h = h

  call-Kept :
      (fn : Sync E → Option (Result w))
      → ((t : Sync E) → Kept t → SomeKept (fn t))
      → (l : Loop w) → P l
      → P (call w fn l).1
  call-Kept fn k none h = tt
  call-Kept fn k (some s) h = flat-Kept (fn s) (k s h)

  hand_out-Kept :
      (stage : Stage) (s : Sync E) (fn : Sync E → Option (Result w))
      → Kept s
      → ((t : Sync E) → Kept t → SomeKept (fn t))
      → IsKeptItem P Q (hand_out w fn stage s)
  hand_out-Kept stage s fn h k = (record { stop = h.stop; once = h.once }, call-Kept fn k)

  headers-Kept : (s : Sync E) → Kept s → IsKeptItem P Q (yield_headers w s)
  unfolding do_batch_header_sync
  headers-Kept s h =
      if_cases (IsKeptItem P Q) (is_far_behind w s)
        (λ t. hand_out-Kept dispatch s (λ u. some (do_batch_header_sync w u)) h (batch-Kept 5))
        (λ t.
          hand_out-Kept dispatch s (λ u. some (do_incremental_header_sync w u)) h incremental-Kept)

  top-Kept : (calls : ℕ) (s : Sync E) → Kept s → IsKeptItem P Q (yield_top w calls s)
  top-Kept calls s h =
      if_cases (IsKeptItem P Q) s.should_stop (λ t. (h, t))
        (λ t.
          if_cases (IsKeptItem P Q) (is_ahead w s)
            (λ q. (let k = await-Kept w s h in record { stop = k.stop; once = k.once }))
            (λ q.
              if_cases (IsKeptItem P Q) (is_behind w s)
                (λ r. hand_out-Kept headers s (difference_sync w calls) h (difference-Kept calls))
                (λ r. headers-Kept s h)))

  iterator-Kept :
      (calls : ℕ) (stage : Stage) (s : Sync E) → Kept s → IsKeptItem P Q (yield_at w calls stage s)
  iterator-Kept calls top s h = top-Kept calls s h
  iterator-Kept calls headers s h = headers-Kept s h
  iterator-Kept calls dispatch s h =
      if_cases (IsKeptItem P Q) (is_behind w s)
        (λ r. hand_out-Kept top s (difference_sync w calls) h (difference-Kept calls))
        (λ r. top-Kept calls s h)

  loop-Kept : (calls : ℕ) (l : Loop w) → P l → IsKeptItem P Q (sync_iterator w calls l)
  unfolding sync_iterator
  loop-Kept calls none h = tt
  loop-Kept calls (some s) h = iterator-Kept calls s.stage s h

  info-Kept : (a : Answer E Info) (s : Sync E) → Kept s → P (handle w (after_info w a s)).2
  info-Kept (fails e) s h = h
  info-Kept (ok info) s h = record { stop = h.stop; once = h.once }

  error-Kept : (l : Loop w) → P l → P (on_error w l).2
  error-Kept none h = tt
  error-Kept (some s) h = info-Kept _ _ (await-Kept w _ (await-Kept w s h))

  fatal-Kept : (e : E) (l : Loop w) → P l → IsKeptEnd P Q (on_fatal w e l)
  fatal-Kept e none h = tt
  fatal-Kept e (some s) h = do_reject-Kept e s h

  run-Kept : (calls : ℕ) → IsKept P Q (callbacks w) (sync_iterator w calls)
  unfolding callbacks
  run-Kept calls = record {
    by_next = loop-Kept calls;
    by_handler = λ e attempt l h. error-Kept l h;
    by_fatal = fatal-Kept;
  }

  abbrev pub IsEnd : Result w → Type 0
  IsEnd (done, s) = (IsPending s ⊎ IsFinished s) × (s.should_stop ≡ true)
  IsEnd (threw e, s) = IsFinished s

  ended-IsEnd :
      (o : Option (Outcome E × Loop w)) (r : Result w) → Ends P Q o → ended w o ≡ some r → IsEnd r
  ended-IsEnd none r h e = absurd (none-some e)
  ended-IsEnd (some (o, none)) r h e = absurd (none-some e)
  ended-IsEnd (some (done, some s)) r h e = subst IsEnd (some_inj e) (h.0.once, h.1)
  ended-IsEnd (some (threw x, some s)) r h e = subst IsEnd (some_inj e) h.1

  -- The promise that `startSync` hands out settles once at most: when the loop ends, after however
  -- many items and dispatches, whatever the worker and the blobs answer and whenever it is stopped,
  -- there was no call that settles it, or it was resolved once, or it was rejected once, with the
  -- synching and the update loop stopped. A loop that ends without an error was stopped, and one
  -- that ends with an error leaves the promise settled.
  pub run-IsSettled :
      (calls fuel : ℕ) (info : Info) (r : Result w) → run w calls fuel info ≡ some r → IsEnd r
  unfolding run
  run-IsSettled calls fuel info r e =
      let start : Kept (start_sync {E = E} info) = record {
        stop = refl;
        once = inl (refl, refl);
      } in
      ended-IsEnd _ r
        (iterate-Ends P Q (callbacks w) (sync_iterator w calls) (run-Kept calls) fuel
          (some (start_sync info)) start)
        e
