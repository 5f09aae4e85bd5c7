-- ===== src/Runner/Messages/Quiet.antt =====
-- message.js: what the loop sends, and how it ends.
use runtime_bridge.Prelude.{
  ℕ, ◌+◌, ◌≡◌, ◌≢◌, ◌≤◌, ◌⊎◌, inl, inr, refl, ap, subst, Bool, true, false, ◌&&◌, some, List, [],
  ◌∷◌, ◌++◌, arith, if_cases, ltb, All, All-append,
}
use runtime_bridge.Iterate.{Outcome, done, threw}
use runtime_bridge.Iterate.Invariant.{IsKeptItem, Ends}
use runtime_bridge.Iterate.Ignoring.{IsIgnoring, iterate-Ends}
use runtime_bridge.Runner.Sync.{Answer, ok, fails}
use runtime_bridge.Runner.Messages.{
  Message, FromOrigin, MessageWorld, Call, resolves, rejects, Loop, start_sync_message,
  not_submitted, stop_sync_message, Result, await, after_dispatch, submit, after_sequence, gather,
  after_egress, do_mq_egress_sync, mq_egress_iterator, callbacks, run,
}

module _ {E M : Type 0} (w : MessageWorld E M) (T : Message M → Type 0) where
  -- `T` holds of each message that the worker gives out and whose number the chain has not reached.
  unfoldable pub IsNew : List (FromOrigin M) → Type 0
  IsNew origins =
      All
        (λ (o : FromOrigin M).
          (j n : ℕ)
          → w.on_chain_sequence j o.origin ≡ ok n
          → All (λ (m : Message M). n ≤ m.sequence → T m) o.messages)
        origins

  -- The first call settles the promise, and what comes after it rejects once more.
  abbrev pub IsCalled : List Call → Type 0
  IsCalled calls =
      (c : Call) × (rest : List Call) × (calls ≡ c ∷ rest) × All (λ (x : Call). x ≡ rejects) rest

  abbrev pub IsSent : List (Message M) → Type 0
  IsSent ms = (ms ≢ []) × All T ms

  record Kept (s : Loop M) : Type 0 where
    calls :
        ((s.synched_to_target_finished ≡ false) × (s.calls ≡ []))
        ⊎ ((s.synched_to_target_finished ≡ true) × IsCalled s.calls)
    update : s.should_stop ≡ true → s.should_stop_update_info ≡ true
    sent : All IsSent s.sent

  reject-IsCalled :
      (b : Bool) (calls : List Call)
      → ((b ≡ false) × (calls ≡ [])) ⊎ ((b ≡ true) × IsCalled calls)
      → IsCalled (calls ++ (rejects ∷ []))
  reject-IsCalled b calls (inl h) = (rejects, [], ap (λ x. x ++ (rejects ∷ [])) h.1, tt)
  reject-IsCalled b calls (inr h) = (
    h.1.0,
    h.1.1 ++ (rejects ∷ []),
    ap (λ x. x ++ (rejects ∷ [])) h.1.2,
    All-append (λ (x : Call). x ≡ rejects) h.1.1 (rejects ∷ []) h.1.3 (refl, tt),
  )

  stop-Kept : (s : Loop M) → Kept s → Kept (stop_sync_message s)
  unfolding stop_sync_message
  stop-Kept s h = record {
    calls = inr (refl, reject-IsCalled s.synched_to_target_finished s.calls h.calls);
    update = λ e. refl;
    sent = h.sent;
  }

  await-Kept : (s : Loop M) → Kept s → Kept (await w s)
  unfolding await
  await-Kept s h =
      let t : Kept (record s { awaits = s.awaits + 1 }) = record {
        calls = h.calls;
        update = h.update;
        sent = h.sent;
      } in
      if_cases Kept (w.stops s.awaits && s.has_stop) (λ e. stop-Kept _ t) (λ e. t)

  not_submitted-All :
      (n : ℕ) (ms : List (Message M))
      → All (λ (m : Message M). n ≤ m.sequence → T m) ms
      → All T (not_submitted n ms)
  unfolding not_submitted
  not_submitted-All n [] h = tt
  not_submitted-All n (m ∷ ms) h =
      if_cases (All T) (ltb m.sequence n) (λ t. not_submitted-All n ms h.1)
        (λ t. (h.0 (ground arith), not_submitted-All n ms h.1))

  dispatch-Kept : (a : Answer E Unit) (s : Loop M) → Kept s → Kept (after_dispatch w a s).1
  dispatch-Kept (fails e) s h = h
  dispatch-Kept (ok u) s h = h

  resolve-Kept : (s : Loop M) → Kept s → Kept (submit w [] s).1
  resolve-Kept s h =
      if_cases (λ (r : Result w). Kept r.1) s.synched_to_target_finished (λ t. h)
        (λ t. record {
          calls = elim h.calls [
            | inl p ↦ inr (refl, (resolves, [], ap (λ x. x ++ (resolves ∷ [])) p.1, tt))
            | inr p ↦ absurd (cc)
          ];
          update = h.update;
          sent = h.sent;
        })

  submit-Kept : (ret : List (Message M)) (s : Loop M) → All T ret → Kept s → Kept (submit w ret s).1
  submit-Kept [] s a h = resolve-Kept s h
  submit-Kept (m ∷ ms) s a h = dispatch-Kept _ _ (
      await-Kept _ (record {
        calls = h.calls;
        update = h.update;
        sent = All-append IsSent s.sent ((m ∷ ms) ∷ []) h.sent (((λ e. cc), a), tt);
      }))

  sequence-Kept :
      (rest : List (Message M) → Loop M → Result w) (ret messages : List (Message M))
      (a : Answer E ℕ) (s : Loop M)
      → Kept s
      → ((n : ℕ) → a ≡ ok n → Kept (rest (ret ++ not_submitted n messages) s).1)
      → Kept (after_sequence w rest ret messages a s).1
  sequence-Kept rest ret messages (fails e) s h k = h
  sequence-Kept rest ret messages (ok n) s h k = k n refl

  gather-Kept :
      (os : List (FromOrigin M)) (ret : List (Message M)) (s : Loop M)
      → IsNew os
      → All T ret
      → Kept s
      → Kept (gather w os ret s).1
  unfolding gather IsNew
  gather-Kept [] ret s new a h = submit-Kept ret s a h
  gather-Kept (o ∷ os) ret s new a h =
      sequence-Kept (gather w os) ret o.messages (w.on_chain_sequence s.awaits o.origin) (await w s)
        (await-Kept s h)
        (λ n e.
          gather-Kept os (ret ++ not_submitted n o.messages) (await w s) new.1
            (All-append T ret (not_submitted n o.messages) a
              (not_submitted-All n o.messages (new.0 s.awaits n e)))
            (await-Kept s h))

  egress-Kept :
      (i : ℕ) (a : Answer E (List (FromOrigin M))) (s : Loop M)
      → w.egress i ≡ a
      → ((j : ℕ) (os : List (FromOrigin M)) → w.egress j ≡ ok os → IsNew os)
      → Kept s
      → Kept (after_egress w a s).1
  egress-Kept i (fails e) s q new h = h
  egress-Kept i (ok os) s q new h = gather-Kept os [] s (new i os q) tt h

  abbrev Q : Result w → Type 0
  Q (done, s) = Kept s × (s.should_stop ≡ true) × (s.synched_to_target_finished ≡ true)
  Q (threw e, s) = ⊥

  iterator-Kept :
      ((j : ℕ) (os : List (FromOrigin M)) → w.egress j ≡ ok os → IsNew os)
      → (s : Loop M) → Kept s
      → IsKeptItem Kept Q (mq_egress_iterator w s)
  unfolding mq_egress_iterator do_mq_egress_sync
  iterator-Kept new s h =
      if_cases (IsKeptItem Kept Q) s.should_stop
        (λ t. (
          record {
            calls = inr (refl, reject-IsCalled s.synched_to_target_finished s.calls h.calls);
            update = h.update;
            sent = h.sent;
          },
          t,
          refl,
        ))
        (λ t. (
          await-Kept s h,
          λ u k. egress-Kept u.awaits (w.egress u.awaits) (await w u) refl new (await-Kept u k),
        ))

  ignoring : IsIgnoring Kept Q (callbacks w)
  unfolding callbacks
  ignoring e attempt s h = (await w s, refl, await-Kept s h)

  -- The loop that puts a worker's messages on the chain ends only when it is stopped, and never with
  -- an error, whatever fails. At its end the update loop is stopped, too, and its promise is settled,
  -- by one call to which only rejections were added. Each batch that was sent has a message, and
  -- only ones whose number the chain had not reached: `T` holds of them when it holds of all such
  -- messages that the worker gives out.
  pub run-IsQuiet :
      (fuel : ℕ) (o : Outcome E) (s : Loop M)
      → ((j : ℕ) (os : List (FromOrigin M)) → w.egress j ≡ ok os → IsNew os)
      → run w fuel ≡ some (o, s)
      → (o ≡ done)
        × (s.should_stop ≡ true)
        × (s.should_stop_update_info ≡ true)
        × IsCalled s.calls
        × All IsSent s.sent
  unfolding run
  run-IsQuiet fuel o s new e = read o s (
      subst (Ends Kept Q) e (
        iterate-Ends Kept Q (callbacks w) (mq_egress_iterator w) fuel start_sync_message ignoring
          (iterator-Kept new) start))
    where
      start : Kept start_sync_message
      start = record { calls = inl (refl, refl); update = λ q. absurd (cc); sent = tt }

      called :
          (b : Bool) (calls : List Call)
          → b ≡ true
          → ((b ≡ false) × (calls ≡ [])) ⊎ ((b ≡ true) × IsCalled calls)
          → IsCalled calls
      called b calls t (inl h) = absurd (cc)
      called b calls t (inr h) = h.1

      read :
          (o : Outcome E) (s : Loop M)
          → Q (o, s)
          → (o ≡ done)
            × (s.should_stop ≡ true)
            × (s.should_stop_update_info ≡ true)
            × IsCalled s.calls
            × All IsSent s.sent
      read done s h = (refl, h.1, h.0.update h.1, called _ _ h.2 h.0.calls, h.0.sent)
      read (threw x) s h = absurd h
