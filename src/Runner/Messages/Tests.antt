-- ===== src/Runner/Messages/Tests.antt =====
-- message.js with a worker that has two messages, one of which the chain has.
use runtime_bridge.Prelude.{
  ℕ, ◌+◌, ◌≡◌, refl, subst, Bool, true, false, some, List, [], ◌∷◌, ◌==◌, leb, All, arith,
  if◌then◌else◌,
}
use runtime_bridge.Iterate.{
  Outcome, done, iterate, process, call_item, after_call, after_handler, after_item, on_yield,
}
use runtime_bridge.Runner.Sync.{Answer, ok, fails}
use runtime_bridge.Runner.Messages.{
  Message, FromOrigin, MessageWorld, resolves, rejects, Loop, not_submitted, stop_sync_message,
  await, gather, do_mq_egress_sync, mq_egress_iterator, callbacks, run,
}
use runtime_bridge.Runner.Messages.Quiet.{IsNew, IsCalled, IsSent, run-IsQuiet}

abbrev message : ℕ → Message ℕ
message n = record { sequence = n; payload = n + 10 }

abbrev of_seven : FromOrigin ℕ
of_seven = record { origin = 7; messages = message 3 ∷ message 4 ∷ [] }

-- The chain has message 3; the first call fails, the first batch goes out, then there is nothing
-- new, and the loop is stopped.
abbrev world : MessageWorld ℕ ℕ
world = record {
  egress = λ i. if i == 1 then fails 0 else ok (if leb 7 i then [] else of_seven ∷ []);
  on_chain_sequence = λ i o. ok 4;
  dispatch_tx = λ i ms. ok tt;
  stops = λ i. i == 9;
}

-- The messages that are given out and not on the chain.
abbrev IsFour : Message ℕ → Type 0
IsFour m = m ≡ message 4

ok_inj : {E A : Type 0} {a b : A} → ◌≡◌ {A = Answer E A} (ok a) (ok b) → a ≡ b
ok_inj e = cc

ok_fails : {E A : Type 0} {a : A} {e : E} → ¬ (◌≡◌ {A = Answer E A} (fails e) (ok a))
ok_fails q = cc

of_seven-IsNew : IsNew world IsFour (of_seven ∷ [])
unfolding IsNew
of_seven-IsNew =
    (λ j n e. (λ le. absurd (let same : 4 ≡ n = ok_inj e in omega arith), (λ le. refl, tt)), tt)

given :
    (c d : Bool) (os : List (FromOrigin ℕ))
    → ◌≡◌ {A = Answer ℕ (List (FromOrigin ℕ))}
        (if c then fails 0 else ok (if d then [] else of_seven ∷ []))
        (ok os)
    → IsNew world IsFour os
unfolding IsNew
given true d os e = absurd (ok_fails e)
given false true os e = subst (IsNew world IsFour) (ok_inj e) tt
given false false os e = subst (IsNew world IsFour) (ok_inj e) of_seven-IsNew

abbrev last : Loop ℕ
last = record {
  should_stop = true;
  has_stop = false;
  should_stop_update_info = true;
  synched_to_target_finished = true;
  calls = resolves ∷ rejects ∷ rejects ∷ [];
  sent = (message 4 ∷ []) ∷ [];
  awaits = 11;
}

runs : run world 9 ≡ some (done, last)
unfolding run iterate callbacks mq_egress_iterator on_yield process call_item after_call
    after_handler after_item do_mq_egress_sync gather await stop_sync_message not_submitted
runs = refl

run-IsQuiet_example :
    (◌≡◌ {A = Outcome ℕ} done done)
    × (last.should_stop ≡ true)
    × (last.should_stop_update_info ≡ true)
    × IsCalled world IsFour last.calls
    × All (IsSent world IsFour) last.sent
run-IsQuiet_example =
    run-IsQuiet world IsFour 9 done last (λ j os e. given (j == 1) (leb 7 j) os e) runs
