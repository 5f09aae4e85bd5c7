-- ===== src/DataProvider/Fetch/Chain.antt =====
-- block.js: the para blocks that are fetched form a chain of hashes.
use runtime_bridge.Prelude.{
  some_inj, none-some, ℕ, zero, suc, ◌+◌, ◌-◌, ◌≡◌, ◌≤◌, ◌<◌, refl, sym, ap, subst, ◌∙◌, Option,
  none, some, inl, inr, leb, Bool-cases, Option-cases, arith,
}
use runtime_bridge.DataProvider.Fetch.{
  Headers, StoredPara, Blocks, get_para_block, Attempt, Ended, done, exits, rejects,
  process_para_block, last_hash, store_checked, after_process, walk_para_block_once, or_again,
  try_para_block, walk_para_block, then_fetch, iterate_para,
}
use runtime_bridge.DataProvider.Fetch.Links.{
  IsLinked, IsGapless, IsLast, Fetched, cached-Fetched, set-Fetched,
}

module _ (headers : Headers) where
  open headers use {Bytes, Hash, eqb_hash, eqb_hash_eq, blake2, parent_hash}

  After : ℕ → ℕ → Ended (Option Hash × Blocks headers) → Type 0
  After start n (done r) = Fetched headers start n r.0 r.1
  After start n (exits c) = Unit
  After start n rejects = Unit

  -- The hash that is compared is that of the stored block before.
  last_hash-IsLast :
      (n : ℕ) (last : Option Hash) (db : Blocks headers) (h : Hash)
      → IsLast headers n last db
      → last_hash headers n last db ≡ some h
      → (a : StoredPara headers) → db.paras (n - 1) ≡ some a
      → blake2 a.header ≡ h
  unfolding IsLast
  last_hash-IsLast n (some x) db h g e a f =
      let r = g x refl in
      ap (λ (y : StoredPara headers). blake2 y.header) (some_inj (sym f ∙ r.1))
      ∙ sym r.2
      ∙ some_inj e
  last_hash-IsLast n none db h g e a f = some_inj (cc)

  module _ (start n : ℕ) (last : Option Hash) (db : Blocks headers)
      (h : Fetched headers start n last db) (new : db.paras n ≡ none) where
    store_checked-After :
        (b : StoredPara headers) (l : Option Hash)
        → b.hash ≡ blake2 b.header
        → last_hash headers n last db ≡ l
        → After start (n + 1) (store_checked headers n b l db)
    unfolding After
    store_checked-After b none hash e = tt
    store_checked-After b (some x) hash e =
        elim (Bool-cases (headers.eqb_hash (parent_hash b.header) x)) [
          | inl t ↦ rw (t) (
              set-Fetched headers start n last db h new b hash
                (λ a le f. eqb_hash_eq _ _ t ∙ sym (last_hash-IsLast n last db x h.handed e a f)))
          | inr t ↦ rw (t) tt
        ]

    after_process-After :
        (b : StoredPara headers)
        → b.hash ≡ blake2 b.header
        → After start (n + 1) (after_process headers n last db (done b))
    unfolding After
    after_process-After b hash = elim (Bool-cases (leb 2 n)) [
      | inl t ↦ rw (t) (store_checked-After b (last_hash headers n last db) hash refl)
      | inr t ↦
          rw (t)
            (set-Fetched headers start n last db h new b hash (λ a le f. absurd (ground arith)))
    ]

    attempt-After :
        (attempt : Attempt headers)
        → After start
            (n + 1)
            (after_process headers n last db (process_para_block headers n attempt))
    unfolding process_para_block After
    attempt-After none = tt
    attempt-After (some a) = elim (Bool-cases (headers.eqb_hash a.hash (blake2 a.header))) [
      | inl t ↦ rw (t) (after_process-After _ (eqb_hash_eq _ _ t))
      | inr t ↦ rw (t) tt
    ]

  once-After :
      (start n : ℕ) (last : Option Hash) (db : Blocks headers) (attempt : Attempt headers)
      → Fetched headers start n last db
      → After start (n + 1) (walk_para_block_once headers n last db attempt)
  unfolding walk_para_block_once get_para_block After
  once-After start n last db attempt h = elim (Option-cases (db.paras n)) [
    | inl e ↦ rw (e) (attempt-After start n last db h e attempt)
    | inr e ↦ rw (e.1) (cached-Fetched headers start n last db h (λ q. none-some (sym q ∙ e.1)))
  ]

  or_again-After :
      (start n : ℕ) (r rest : Ended (Option Hash × Blocks headers))
      → After start n r
      → After start n rest
      → After start n (or_again headers r rest)
  unfolding After
  or_again-After start n (done r) rest p q = p
  or_again-After start n (exits c) rest p q = tt
  or_again-After start n rejects rest p q = q

  try-After :
      (start retries n : ℕ) (last : Option Hash) (db : Blocks headers)
      (attempts : ℕ → Attempt headers)
      → Fetched headers start n last db
      → After start (n + 1) (try_para_block headers retries n last db attempts)
  unfolding try_para_block After
  try-After start zero n last db attempts h = once-After start n last db (attempts 0) h
  try-After start (suc retries) n last db attempts h =
      or_again-After start (n + 1) _ _ (once-After start n last db (attempts 0) h)
        (try-After start retries n last db (λ i. attempts (suc i)) h)

  then_fetch-After :
      (start n m : ℕ) (rest : Option Hash → Blocks headers → Ended (Option Hash × Blocks headers))
      (r : Ended (Option Hash × Blocks headers))
      → After start n r
      → ((l : Option Hash) (d : Blocks headers)
          → Fetched headers start n l d
          → After start m (rest l d))
      → After start m (then_fetch headers rest r)
  unfolding After
  then_fetch-After start n m rest (done r) p q = q r.0 r.1 p
  then_fetch-After start n m rest (exits c) p q = tt
  then_fetch-After start n m rest rejects p q = tt

  iterate-After :
      (start count n : ℕ) (last : Option Hash) (db : Blocks headers)
      (attempts : ℕ → ℕ → Attempt headers)
      → Fetched headers start n last db
      → After start (n + count) (iterate_para headers count n last db attempts)
  unfolding iterate_para walk_para_block After
  iterate-After start zero n last db attempts h =
      subst (λ m. After start m (done (last, db))) (omega arith) h
  iterate-After start (suc count) n last db attempts h =
      then_fetch-After start (n + 1) (n + suc count) _ _
        (try-After start 3 n last db (attempts n) h)
        (λ l d g.
          subst (λ m. After start m (iterate_para headers count (n + 1) l d attempts)) (omega arith)
            (iterate-After start count (n + 1) l d attempts g))

  -- Blocks fetched one after another, from a number on, form one chain: when what is stored at the
  -- start is linked and has nothing above a missing block, and the run ends without an exit or a
  -- rejection, then every stored block from number 2 on names the hash of the stored block before
  -- it, whatever the node answers and whichever attempts fail, and each number of the run has its
  -- block.
  pub iterate_para-IsLinked :
      (count n : ℕ) (db db' : Blocks headers) (l : Option Hash) (attempts : ℕ → ℕ → Attempt headers)
      → IsLinked headers db
      → IsGapless headers n db
      → iterate_para headers count n none db attempts ≡ done (l, db')
      → IsLinked headers db' × ((m : ℕ) → n ≤ m → m < n + count → ¬ (db'.paras m ≡ none))
  unfolding After IsLast
  iterate_para-IsLinked count n db db' l attempts linked gapless e =
      let from : Fetched headers n n none db = record {
        linked = linked;
        gapless = gapless;
        handed = λ x q. absurd (cc);
        stored = λ m le lt. absurd (omega arith);
      } in
      let h = subst (After n (n + count)) e (iterate-After n count n none db attempts from) in
      (h.linked, h.stored)
