-- ===== src/DataProvider/Fetch/Served.antt =====
-- block.js and fetch_block.ts: a node that serves one chain has all of its blocks fetched.
use native.Mathlib.Decide.{ℕ_discrete}
use runtime_bridge.Prelude.{
  some_inj, none-some, ℕ, zero, suc, ◌+◌, ◌-◌, ◌≡◌, ◌≤◌, ◌<◌, ◌⊎◌, refl, sym, ap, subst, ◌∙◌, true,
  Option, none, some, inl, inr, leb, Bool-cases, Option-cases, arith,
}
use runtime_bridge.DataProvider.Fetch.Links.{IsLinked, IsGapless}
use runtime_bridge.DataProvider.Fetch.Chain.{iterate_para-IsLinked}
use runtime_bridge.DataProvider.Fetch.Slots.{set_para_block_self, set_para_block_ne}
use runtime_bridge.DataProvider.Fetch.{
  Headers, StoredPara, Blocks, set_para_block, get_para_block, Attempt, Answer, Ended, done,
  process_para_block, last_hash, after_process, walk_para_block_once, or_again, try_para_block,
  walk_para_block, iterate_para,
}

module _ (headers : Headers) where
  open headers use {Bytes, Hash, eqb_hash, eqb_hash_eq, blake2, parent_hash}

  -- The last of these attempts that is made answers, and the ones before it fail.
  unfoldable pub IsServed : ℕ → (ℕ → Attempt headers) → Answer headers → Type 0
  IsServed zero attempts a = attempts 0 ≡ some a
  IsServed (suc retries) attempts a =
      (attempts 0 ≡ some a) ⊎ ((attempts 0 ≡ none) × IsServed retries (λ i. attempts (suc i)) a)

  -- A chain of blocks: each is named by its hash, and names the one before it.
  unfoldable pub IsChain : (ℕ → Answer headers) → Type 0
  IsChain chain =
      ((m : ℕ) → eqb_hash (chain m).hash (blake2 (chain m).header) ≡ true)
      × ((m : ℕ) → eqb_hash (parent_hash (chain (m + 1)).header) (blake2 (chain m).header) ≡ true)

  module _ (chain : ℕ → Answer headers) (is_chain : IsChain chain) where
    -- The stored blocks are of the chain, and there is one before the next to fetch.
    record Honest (n : ℕ) (last : Option Hash) (db : Blocks headers) : Type 0 where
      of_chain :
          (m : ℕ) (b : StoredPara headers) → db.paras m ≡ some b → b.header ≡ (chain m).header
      given : (h : Hash) → last ≡ some h → h ≡ blake2 (chain (n - 1)).header
      before : 2 ≤ n → ¬ (db.paras (n - 1) ≡ none)

    Goes : ℕ → Ended (Option Hash × Blocks headers) → Type 0
    Goes n r = (l : Option Hash) × (d : Blocks headers) × (r ≡ done (l, d)) × Honest n l d

    cached-Honest :
        (n : ℕ) (last : Option Hash) (db : Blocks headers)
        → Honest n last db
        → ¬ (db.paras n ≡ none)
        → Honest (n + 1) none db
    cached-Honest n last db h old = record {
      of_chain = h.of_chain;
      given = λ x e. absurd (cc);
      before = λ le e. old (sym (ap db.paras add_sub) ∙ e);
    }
      where
        add_sub : n + 1 - 1 ≡ n
        add_sub = omega arith

    -- The block that the answer makes.
    abbrev made : ℕ → StoredPara headers
    made n = record {
      number = n;
      hash = (chain n).hash;
      header = (chain n).header;
      dispatch_block_data = (chain n).dispatch_block_data;
    }

    set-Honest :
        (n : ℕ) (last : Option Hash) (db : Blocks headers)
        → Honest n last db
        → Honest (n + 1) (some (chain n).hash) (set_para_block headers n (made n) db)
    unfolding IsChain
    set-Honest n last db h = record {
      of_chain = λ m b e. elim (ℕ_discrete m n) [
        | yes t ↦
            let same : made n ≡ b = some_inj (
              sym (set_para_block_self headers n (made n) db)
              ∙ sym (ap (set_para_block headers n (made n) db).paras t)
              ∙ e) in
            ap (λ (x : StoredPara headers). x.header) (sym same)
            ∙ ap (λ k. (chain k).header) (sym t)
        | no t ↦ h.of_chain m b (sym (set_para_block_ne headers n (made n) db m t) ∙ e)
      ];
      given = λ x e.
          sym (some_inj e)
          ∙ eqb_hash_eq _ _ (is_chain.0 n)
          ∙ ap (λ k. blake2 (chain k).header) (sym add_sub);
      before = λ le e. none-some (
          sym e
          ∙ ap (set_para_block headers n (made n) db).paras add_sub
          ∙ set_para_block_self headers n (made n) db);
    }
      where
        add_sub : n + 1 - 1 ≡ n
        add_sub = omega arith

    -- The hash that is compared is that of the chain's block before.
    last_hash-given :
        (n : ℕ) (last : Option Hash) (db : Blocks headers)
        → Honest n last db
        → 2 ≤ n
        → last_hash headers n last db ≡ some (blake2 (chain (n - 1)).header)
    last_hash-given n (some x) db h le = ap some (h.given x refl)
    last_hash-given n none db h le = elim (Option-cases (db.paras (n - 1))) [
      | inl e ↦ absurd (h.before le e)
      | inr e ↦ let same = ap blake2 (h.of_chain (n - 1) e.0 e.1) in cc
    ]

    -- The answer of the chain passes both tests.
    parent_tested :
        (n : ℕ)
        → 2 ≤ n
        → eqb_hash (parent_hash (chain n).header) (blake2 (chain (n - 1)).header) ≡ true
    unfolding IsChain
    parent_tested n le =
        subst (λ k. eqb_hash (parent_hash (chain k).header) (blake2 (chain (n - 1)).header) ≡ true)
          (omega arith) (is_chain.1 (n - 1))

    after_process-Goes :
        (n : ℕ) (last : Option Hash) (db : Blocks headers)
        → Honest n last db
        → Goes (n + 1) (after_process headers n last db (done (made n)))
    unfolding Goes
    after_process-Goes n last db h = elim (Bool-cases (leb 2 n)) [
      | inl t ↦
          let le : 2 ≤ n = ground arith in
          rw (t, last_hash-given n last db h le, parent_tested n le)
            (_, _, refl, set-Honest n last db h)
      | inr t ↦ rw (t) (_, _, refl, set-Honest n last db h)
    ]

    once-Goes :
        (n : ℕ) (last : Option Hash) (db : Blocks headers) (attempt : Attempt headers)
        → Honest n last db
        → attempt ≡ some (chain n)
        → Goes (n + 1) (walk_para_block_once headers n last db attempt)
    unfolding walk_para_block_once get_para_block process_para_block Goes IsChain
    once-Goes n last db attempt h e = elim (Option-cases (db.paras n)) [
      | inl f ↦ rw (f, e, is_chain.0 n) (after_process-Goes n last db h)
      | inr f ↦ rw (f.1) (_, _, refl, cached-Honest n last db h (λ q. none-some (sym q ∙ f.1)))
    ]

    -- A failing attempt is passed over, unless the block is stored already.
    once-fails :
        (n : ℕ) (last : Option Hash) (db : Blocks headers)
        (rest : Ended (Option Hash × Blocks headers))
        → Honest n last db
        → Goes (n + 1) rest
        → Goes (n + 1) (or_again headers (walk_para_block_once headers n last db none) rest)
    unfolding walk_para_block_once get_para_block process_para_block Goes
    once-fails n last db rest h g = elim (Option-cases (db.paras n)) [
      | inl f ↦ rw (f) g
      | inr f ↦ rw (f.1) (_, _, refl, cached-Honest n last db h (λ q. none-some (sym q ∙ f.1)))
    ]

    or_again-Goes :
        (n : ℕ) (r rest : Ended (Option Hash × Blocks headers))
        → Goes n r
        → Goes n (or_again headers r rest)
    unfolding Goes
    or_again-Goes n r rest g = (g.0, g.1, ap (λ x. or_again headers x rest) g.2, g.3)

    try-Goes :
        (retries n : ℕ) (last : Option Hash) (db : Blocks headers) (attempts : ℕ → Attempt headers)
        → Honest n last db
        → IsServed retries attempts (chain n)
        → Goes (n + 1) (try_para_block headers retries n last db attempts)
    unfolding try_para_block IsServed
    try-Goes zero n last db attempts h s = once-Goes n last db (attempts 0) h s
    try-Goes (suc retries) n last db attempts h (inl e) =
        or_again-Goes (n + 1) _ _ (once-Goes n last db (attempts 0) h e)
    try-Goes (suc retries) n last db attempts h (inr s) =
        rw (s.0)
          (once-fails n last db _ h (try-Goes retries n last db (λ i. attempts (suc i)) h s.1))

    iterate-Goes :
        (count n : ℕ) (last : Option Hash) (db : Blocks headers)
        (attempts : ℕ → ℕ → Attempt headers)
        → Honest n last db
        → ((m : ℕ) → n ≤ m → m < n + count → IsServed 3 (attempts m) (chain m))
        → Goes (n + count) (iterate_para headers count n last db attempts)
    unfolding iterate_para walk_para_block Goes
    iterate-Goes zero n last db attempts h s =
        (last, db, refl, subst (λ k. Honest k last db) (omega arith) h)
    iterate-Goes (suc count) n last db attempts h s =
        let g = try-Goes 3 n last db (attempts n) h (s n (omega arith) (omega arith)) in
        let k =
          iterate-Goes count (n + 1) g.0 g.1 attempts g.3
            (λ m le lt. s m (omega arith) (omega arith)) in
        rw (g.2) (
          subst (λ j. Goes j (iterate_para headers count (n + 1) g.0 g.1 attempts)) (omega arith) k)

    stored :
        {n m : ℕ} {l : Option Hash} (d : Blocks headers)
        → Honest n l d
        → ¬ (d.paras m ≡ none)
        → (b : StoredPara headers) × (d.paras m ≡ some b) × (b.header ≡ (chain m).header)
    stored {m = m} d h some_there = elim (Option-cases (d.paras m)) [
      | inl e ↦ absurd (some_there e)
      | inr e ↦ (e.0, e.1, h.of_chain m e.0 e.1)
    ]

    -- When the node serves one chain, answering each number within the four attempts that are made,
    -- the blocks from 0 on are fetched into an empty store: the run ends, without an exit or a
    -- rejection, and each block of the run is stored with the chain's header.
    pub iterate_para-IsDone :
        (count : ℕ) (db : Blocks headers) (attempts : ℕ → ℕ → Attempt headers)
        → ((m : ℕ) → db.paras m ≡ none)
        → ((m : ℕ) → m < count → IsServed 3 (attempts m) (chain m))
        → (l : Option Hash) × (d : Blocks headers) × (iterate_para headers count 0 none db attempts
            ≡ done (l, d))
          × ((m : ℕ)
              → m < count
              → (b : StoredPara headers) × (d.paras m ≡ some b) × (b.header ≡ (chain m).header))
    unfolding IsLinked IsGapless Goes
    iterate_para-IsDone count db attempts empty served =
        let from : Honest 0 none db = record {
          of_chain = λ m b e. absurd (none-some (sym (empty m) ∙ e));
          given = λ x e. absurd (cc);
          before = λ le. absurd (omega arith);
        } in
        let g = iterate-Goes count 0 none db attempts from (λ m le lt. served m (omega arith)) in
        let k =
          iterate_para-IsLinked headers count 0 db g.1 g.0 attempts
            (λ m b a le e. absurd (none-some (sym (empty m) ∙ e))) (λ m le e. empty (suc m)) g.2 in
        (g.0, g.1, g.2, λ m lt. stored g.1 g.3 (k.1 m (omega arith) (omega arith)))
