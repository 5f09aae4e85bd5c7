-- ===== src/Trade/Trader/Process/Laws.antt =====
-- trader.js, `processBatch`: which nonces are used, and which messages each batch gets.
use Prim.Native.String.{String}
use text.Mathlib.Text.{◌==◌}
use runtime_bridge.Prelude.{
  suc, Bool, if◌then◌else◌, if_cases, Bool-cases, inl, inr, ℕ, ◌≡◌, refl, sym, ap, ◌∙◌, Option,
  none, some, List, [], ◌∷◌, ◌++◌, All, All-append, append_assoc, append-nil,
}
use runtime_bridge.Trade.Trader.{Settled, resolved, rejected}
use runtime_bridge.Trade.Trader.Process.{
  Nonce, undefined, nan, number, Message, batch_added, batch_working, batch_finished, batch_failed,
  Trader, Answers, choose_nonce, send_batch, process_with, Event, accept, process, run_events,
  new_trader,
}

-- What the chain answered, if it did, satisfies `P`.
abbrev pub Holds : (ℕ → Type 0) → Option ℕ → Type 0
Holds P none = Unit
Holds P (some n) = P n

abbrev pub AllAnswers : (ℕ → Type 0) → List Event → Type 0
AllAnswers P [] = Unit
AllAnswers P (accept id ∷ es) = AllAnswers P es
AllAnswers P (process id a ∷ es) = Holds P a.next_index × AllAnswers P es

-- Left to the API's default, or a number that satisfies `P`.
abbrev pub IsFresh : (ℕ → Type 0) → Nonce → Type 0
IsFresh P undefined = Unit
IsFresh P nan = ⊥
IsFresh P (number n) = P n

abbrev pub IsFreshChoice : (ℕ → Type 0) → Option Nonce → Type 0
IsFreshChoice P none = Unit
IsFreshChoice P (some n) = IsFresh P n

choose_nonce-IsFreshChoice :
    (P : ℕ → Type 0) (cached : Nonce) (o : Option ℕ)
    → Holds P o
    → IsFreshChoice P (choose_nonce cached o)
unfolding choose_nonce
choose_nonce-IsFreshChoice P undefined o h = tt
choose_nonce-IsFreshChoice P nan none h = tt
choose_nonce-IsFreshChoice P nan (some k) h = h
choose_nonce-IsFreshChoice P (number c) none h = tt
choose_nonce-IsFreshChoice P (number c) (some k) h = h

send_batch-IsFresh :
    (P : ℕ → Type 0) (id : String) (pool : ℕ) (o : Option Nonce) (s : Settled) (t : Trader)
    → IsFreshChoice P o
    → All (IsFresh P) t.nonces_used
    → All (IsFresh P) (send_batch id pool o s t).nonces_used
unfolding send_batch
send_batch-IsFresh P id pool none s t h all = all
send_batch-IsFresh P id pool (some n) s t h all =
    All-append (IsFresh P) t.nonces_used (n ∷ []) all (h, tt)

process_with-IsFresh :
    (P : ℕ → Type 0) (id : String) (o : Option ℕ) (a : Answers) (t : Trader)
    → Holds P a.next_index
    → All (IsFresh P) t.nonces_used
    → All (IsFresh P) (process_with id o a t).nonces_used
unfolding process_with
process_with-IsFresh P id none a t h all = all
process_with-IsFresh P id (some pool) a t h all =
    if_cases (λ (t' : Trader). All (IsFresh P) t'.nonces_used) a.formed
      (λ q.
        send_batch-IsFresh P id pool (choose_nonce (t.pool_nonces pool) a.next_index) a.settled t
          (choose_nonce-IsFreshChoice P (t.pool_nonces pool) a.next_index h) all)
      (λ q. all)

run_events-IsFresh :
    (P : ℕ → Type 0) (es : List Event) (t : Trader)
    → AllAnswers P es
    → All (IsFresh P) t.nonces_used
    → All (IsFresh P) (run_events es t).nonces_used
unfolding run_events
run_events-IsFresh P [] t h all = all
run_events-IsFresh P (accept id ∷ es) t h all = run_events-IsFresh P es _ h all
run_events-IsFresh P (process id a ∷ es) t h all =
    run_events-IsFresh P es _ h.1 (process_with-IsFresh P id a.pool_id a t h.0 all)

-- The nonce kept in `poolNonces` is never used: in any run, each transaction is sent with no nonce
-- of its own or with one that the chain's `accountNextIndex` has answered, so whatever holds of
-- those answers holds of the nonces.
pub nonces-IsFresh :
    (P : ℕ → Type 0) (es : List Event)
    → AllAnswers P es
    → All (IsFresh P) (run_events es new_trader).nonces_used
unfolding new_trader
nonces-IsFresh P es h = run_events-IsFresh P es _ h tt

-- The batches that a final message was sent for, in order.
abbrev pub final_ids : List Message → List String
final_ids [] = []
final_ids (batch_added id ∷ ms) = final_ids ms
final_ids (batch_working id ∷ ms) = final_ids ms
final_ids (batch_finished id failed ∷ ms) = id ∷ final_ids ms
final_ids (batch_failed id ∷ ms) = id ∷ final_ids ms

-- The batches that were processed, whose pool was found and unlocked and whose transaction was
-- formed.
abbrev pub found_id : String → Bool → Option ℕ → List String
found_id id formed none = []
found_id id formed (some pool) = if formed then id ∷ [] else []

abbrev pub found_ids : List Event → List String
found_ids [] = []
found_ids (accept id ∷ es) = found_ids es
found_ids (process id a ∷ es) = found_id id a.formed a.pool_id ++ found_ids es

final_ids-append : (ms ns : List Message) → final_ids (ms ++ ns) ≡ final_ids ms ++ final_ids ns
final_ids-append [] ns = refl
final_ids-append (batch_added id ∷ ms) ns = final_ids-append ms ns
final_ids-append (batch_working id ∷ ms) ns = final_ids-append ms ns
final_ids-append (batch_finished id failed ∷ ms) ns = ap (λ l. id ∷ l) (final_ids-append ms ns)
final_ids-append (batch_failed id ∷ ms) ns = ap (λ l. id ∷ l) (final_ids-append ms ns)

send_batch-final :
    (id : String) (pool : ℕ) (o : Option Nonce) (s : Settled) (t : Trader)
    → final_ids (send_batch id pool o s t).sent ≡ final_ids t.sent ++ id ∷ []
unfolding send_batch
send_batch-final id pool none s t = final_ids-append t.sent _
send_batch-final id pool (some n) (resolved failed) t = final_ids-append t.sent _
send_batch-final id pool (some n) (rejected why) t = final_ids-append t.sent _

process_with-final :
    (id : String) (o : Option ℕ) (a : Answers) (t : Trader)
    → final_ids (process_with id o a t).sent ≡ final_ids t.sent ++ found_id id a.formed o
unfolding process_with
process_with-final id none a t = sym (append-nil (final_ids t.sent))
process_with-final id (some pool) a t = elim (Bool-cases a.formed) [
  | inl q ↦ rw q (send_batch-final id pool _ a.settled t)
  | inr q ↦ rw q (sym (append-nil (final_ids t.sent)))
]

run_events-final :
    (es : List Event) (t : Trader)
    → final_ids (run_events es t).sent ≡ final_ids t.sent ++ found_ids es
unfolding run_events
run_events-final [] t = sym (append-nil (final_ids t.sent))
run_events-final (accept id ∷ es) t =
    run_events-final es _
    ∙ ap (λ l. l ++ found_ids es)
        (final_ids-append t.sent (batch_added id ∷ []) ∙ append-nil (final_ids t.sent))
run_events-final (process id a ∷ es) t =
    run_events-final es _
    ∙ (ap (λ l. l ++ found_ids es) (process_with-final id a.pool_id a t)
        ∙ append_assoc (final_ids t.sent) (found_id id a.formed a.pool_id) (found_ids es))

abbrev pub count : String → List String → ℕ
count id [] = 0
count id (x ∷ xs) = let rest = count id xs in if x == id then suc rest else rest

-- For each id there are as many final messages, finished or failed, as there are turns of a batch
-- with this id in which the pool's record is found and unlocked and the transaction is formed: a
-- batch gets exactly one for such a turn, and none for another one.
pub run_events-final_ids :
    (es : List Event) (id : String)
    → count id (final_ids (run_events es new_trader).sent) ≡ count id (found_ids es)
unfolding new_trader
run_events-final_ids es id = ap (count id) (run_events-final es _)
