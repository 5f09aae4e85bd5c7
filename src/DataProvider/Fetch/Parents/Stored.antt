-- ===== src/DataProvider/Fetch/Parents/Stored.antt =====
-- fetch_block.ts: the parent blocks up to the finalized one come into the store.
use runtime_bridge.Prelude.{
  ℕ, zero, suc, ◌+◌, ◌≤◌, ◌<◌, ◌==◌, ◌≡◌, refl, sym, subst, ◌∙◌, true, false, Bool-cases, Option,
  Option-cases, none, some, List, inl, inr, ◌⊎◌, arith,
}
use runtime_bridge.DataProvider.Fetch.{
  Headers, Ended, done, exits, rejects, StoredParent, Blocks, set_parent_block,
  get_parent_block_existence, walk_parent_block_once,
}
use runtime_bridge.DataProvider.Fetch.Parents.{
  Encodings, ParentAnswer, process_parent_block, try_parent_block, walk_parent_block,
  iterate_parents,
}
use runtime_bridge.DataProvider.Fetch.Parents.Rounds.{IsStep, IsIterated, iterate-IsIterated}

module _ (headers : Headers) (encodings : Encodings headers) where
  -- Block `n` was stored, or one of the attempts stores what is made of its answers.
  abbrev IsWalked :
      ℕ → (ℕ → Option (ParentAnswer headers)) → Blocks headers → Ended (Blocks headers) → Type 0
  IsWalked n attempts db (done after) =
      ((get_parent_block_existence headers n db ≡ true) × (after ≡ db))
      ⊎ ((b : StoredParent headers) × (i : ℕ) × (process_parent_block headers encodings n
              (attempts i)
            ≡ some b)
          × (after ≡ set_parent_block headers n b db))
  IsWalked n attempts db (exits c) = ⊥
  IsWalked n attempts db rejects = ⊥

  -- An attempt among the first `retries + 1` gets the block.
  abbrev pub IsFetched : ℕ → ℕ → (ℕ → Option (ParentAnswer headers)) → Type 0
  IsFetched retries n attempts =
      (i : ℕ) × (i ≤ retries)
      × (b : StoredParent headers) × (process_parent_block headers encodings n (attempts i)
          ≡ some b)

  once-there :
      (n : ℕ) (db : Blocks headers) (o : Option (StoredParent headers))
      → get_parent_block_existence headers n db ≡ true
      → walk_parent_block_once headers n db o ≡ done db
  unfolding walk_parent_block_once
  once-there n db none e = rw e refl
  once-there n db (some b) e = rw e refl

  once-none :
      (n : ℕ) (db : Blocks headers)
      → get_parent_block_existence headers n db ≡ false
      → walk_parent_block_once headers n db none ≡ rejects
  unfolding walk_parent_block_once
  once-none n db e = rw e refl

  once-some :
      (n : ℕ) (db : Blocks headers) (b : StoredParent headers)
      → get_parent_block_existence headers n db ≡ false
      → walk_parent_block_once headers n db (some b) ≡ done (set_parent_block headers n b db)
  unfolding walk_parent_block_once
  once-some n db b e = rw e refl

  -- The attempts after the first one.
  later-IsWalked :
      (n : ℕ) (attempts : ℕ → Option (ParentAnswer headers)) (db : Blocks headers)
      (r : Ended (Blocks headers))
      → IsWalked n (λ i. attempts (suc i)) db r
      → IsWalked n attempts db r
  later-IsWalked n attempts db (done after) (inl h) = inl h
  later-IsWalked n attempts db (done after) (inr (b, i, e, q)) = inr (b, suc i, e, q)
  later-IsWalked n attempts db (exits c) h = h
  later-IsWalked n attempts db rejects h = h

  there-IsWalked :
      (retries n : ℕ) (db : Blocks headers) (attempts : ℕ → Option (ParentAnswer headers))
      → get_parent_block_existence headers n db ≡ true
      → try_parent_block headers encodings retries n db attempts ≡ done db
  unfolding try_parent_block
  there-IsWalked zero n db attempts e = once-there n db _ e
  there-IsWalked (suc retries) n db attempts e =
      rw (once-there n db (process_parent_block headers encodings n (attempts 0)) e) refl

  try-IsWalked :
      (retries n : ℕ) (db : Blocks headers) (attempts : ℕ → Option (ParentAnswer headers))
      → get_parent_block_existence headers n db ≡ false
      → IsFetched retries n attempts
      → IsWalked n attempts db (try_parent_block headers encodings retries n db attempts)
  unfolding try_parent_block
  try-IsWalked zero n db attempts e (zero, le, b, q) =
      rw (q, once-some n db b e) (inr (b, 0, q, refl))
  try-IsWalked zero n db attempts e (suc i, le, b, q) = absurd (omega arith)
  try-IsWalked (suc retries) n db attempts e (zero, le, b, q) =
      rw (q, once-some n db b e) (inr (b, 0, q, refl))
  try-IsWalked (suc retries) n db attempts e (suc i, le, b, q) =
      let rest =
        later-IsWalked n attempts db
          (try_parent_block headers encodings retries n db (λ j. attempts (suc j)))
          (try-IsWalked retries n db (λ j. attempts (suc j)) e (i, omega arith, b, q)) in
      elim (Option-cases (process_parent_block headers encodings n (attempts 0))) [
        | inl none_first ↦ rw (none_first, once-none n db e) rest
        | inr (c, first) ↦ rw (first, once-some n db c e) (inr (c, 0, first, refl))
      ]

  walk_parent_block-IsWalked :
      (n : ℕ) (db : Blocks headers) (attempts : ℕ → Option (ParentAnswer headers))
      → IsFetched 3 n attempts
      → IsWalked n attempts db (walk_parent_block headers encodings n db attempts)
  unfolding walk_parent_block
  walk_parent_block-IsWalked n db attempts f =
      elim (Bool-cases (get_parent_block_existence headers n db)) [
        | inl e ↦ rw (there-IsWalked 3 n db attempts e) (inl (e, refl))
        | inr e ↦ try-IsWalked 3 n db attempts e f
      ]

  module _ (attempts : ℕ → ℕ → Option (ParentAnswer headers)) (start : ℕ)
      (before : Blocks headers) where
    -- Block `k` is in the store: it was before, or an answer to one of the attempts gave it.
    pub IsStored : ℕ → Blocks headers → Type 0
    IsStored k db =
        (get_parent_block_existence headers k db ≡ true)
        × (((get_parent_block_existence headers k before ≡ true)
              × (db.parents k ≡ before.parents k))
            ⊎ ((b : StoredParent headers) × (i : ℕ) × (process_parent_block headers encodings k
                    (attempts k i)
                  ≡ some b)
                × (db.parents k ≡ some b)))

    -- The blocks from `start` on and below `n` are stored, and nothing happened to the rest.
    pub record AreStored (n : ℕ) (db : Blocks headers) : Type 0 where
      pub stored : (k : ℕ) → start ≤ k → k < n → IsStored k db
      pub written_same : (k : ℕ) → n ≤ k → db.parent_written k ≡ before.parent_written k
      pub parents_same : (k : ℕ) → n ≤ k → db.parents k ≡ before.parents k

    kept-AreStored :
        (n : ℕ) (db : Blocks headers)
        → get_parent_block_existence headers n db ≡ true
        → AreStored n db
        → AreStored (n + 1) db
    unfolding IsStored get_parent_block_existence
    kept-AreStored n db e h = record {
      stored = λ k le lt. elim (Bool-cases (k == n)) [
        | inl t ↦
            let same : k ≡ n = ground arith in
            rw same
              (e, inl (sym (h.written_same n (omega arith)) ∙ e, h.parents_same n (omega arith)))
        | inr t ↦ h.stored k le (ground arith)
      ];
      written_same = λ k le. h.written_same k (omega arith);
      parents_same = λ k le. h.parents_same k (omega arith);
    }

    set-AreStored :
        (n : ℕ) (db : Blocks headers) (b : StoredParent headers) (i : ℕ)
        → process_parent_block headers encodings n (attempts n i) ≡ some b
        → AreStored n db
        → AreStored (n + 1) (set_parent_block headers n b db)
    unfolding IsStored get_parent_block_existence set_parent_block
    set-AreStored n db b i q h = record {
      stored = λ k le lt. elim (Bool-cases (k == n)) [
        | inl t ↦
            let same : k ≡ n = ground arith in rw same (ground arith, inr (b, i, q, ground arith))
        | inr t ↦ rw t (h.stored k le (ground arith))
      ];
      written_same = λ k le. let old = h.written_same k (omega arith) in ground arith;
      parents_same = λ k le. let old = h.parents_same k (omega arith) in ground arith;
    }

    walked-IsStep :
        (n : ℕ) (db : Blocks headers) (r : Ended (Blocks headers))
        → IsWalked n (attempts n) db r
        → AreStored n db
        → IsStep AreStored n r
    walked-IsStep n db (done after) (inl (e, same)) h =
        subst (AreStored (n + 1)) (sym same) (kept-AreStored n db e h)
    walked-IsStep n db (done after) (inr (b, i, q, same)) h =
        subst (AreStored (n + 1)) (sym same) (set-AreStored n db b i q h)
    walked-IsStep n db (exits c) w h = w
    walked-IsStep n db rejects w h = w

    -- The node gets each parent block in one of its first four attempts. Then the loop, with any
    -- targets that its rounds see, ends neither the process nor itself; it never fetches above the
    -- targets, and reaches a target that all of them have reached when there are rounds enough; and
    -- each block from the start up to there is in the store, unchanged if it was there before, and
    -- else made of an answer to one of the attempts.
    pub iterate_parents-AreStored :
        (targets : List ℕ)
        → ((n : ℕ) → IsFetched 3 n (attempts n))
        → IsIterated AreStored targets start
            (iterate_parents headers encodings attempts targets start before)
    unfolding iterate_parents
    iterate_parents-AreStored targets served =
        iterate-IsIterated AreStored (λ m d. walk_parent_block headers encodings m d (attempts m))
          (λ n db h.
            walked-IsStep n db _ (walk_parent_block-IsWalked n db (attempts n) (served n)) h)
          targets start before
          record {
            stored = λ k le lt. absurd (omega arith);
            written_same = λ k le. refl;
            parents_same = λ k le. refl;
          }
