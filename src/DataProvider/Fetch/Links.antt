-- ===== src/DataProvider/Fetch/Links.antt =====
-- block.js: the chain of the para blocks that are stored, and one block more.
use native.Mathlib.Decide.{ℕ_discrete}
use runtime_bridge.Prelude.{
  some_inj, none-some, ℕ, suc, ◌+◌, ◌-◌, ◌≡◌, ◌≤◌, ◌<◌, sym, ap, subst, ◌∙◌, Option, none, some,
  arith,
}
use runtime_bridge.DataProvider.Fetch.Slots.{set_para_block_self, set_para_block_ne}
use runtime_bridge.DataProvider.Fetch.{Headers, StoredPara, Blocks, set_para_block}

add_sub : (n : ℕ) → n + 1 - 1 ≡ n
add_sub n = omega arith

module _ (headers : Headers) where
  open headers use {Bytes, Hash, eqb_hash, eqb_hash_eq, blake2, parent_hash}

  -- Each stored block from number 2 on names the hash of the stored block before it.
  unfoldable pub IsLinked : Blocks headers → Type 0
  IsLinked db =
      (m : ℕ) (b a : StoredPara headers)
      → 2 ≤ m
      → db.paras m ≡ some b
      → db.paras (m - 1) ≡ some a
      → parent_hash b.header ≡ blake2 a.header

  -- From a number on, nothing is stored above a block that is missing.
  unfoldable pub IsGapless : ℕ → Blocks headers → Type 0
  IsGapless n db = (m : ℕ) → n ≤ m → db.paras m ≡ none → db.paras (suc m) ≡ none

  -- A hash that is handed on is that of the stored block before.
  unfoldable pub IsLast : ℕ → Option Hash → Blocks headers → Type 0
  IsLast n last db =
      (h : Hash)
      → last ≡ some h
      → (a : StoredPara headers) × (db.paras (n - 1) ≡ some a) × (h ≡ blake2 a.header)

  pub record Fetched (start n : ℕ) (last : Option Hash) (db : Blocks headers) : Type 0 where
    pub linked : IsLinked db
    pub gapless : IsGapless n db
    pub handed : IsLast n last db
    pub stored : (m : ℕ) → start ≤ m → m < n → ¬ (db.paras m ≡ none)

  pub cached-Fetched :
      (start n : ℕ) (last : Option Hash) (db : Blocks headers)
      → Fetched start n last db
      → ¬ (db.paras n ≡ none)
      → Fetched start (n + 1) none db
  unfolding IsGapless IsLast
  cached-Fetched start n last db h old = record {
    linked = h.linked;
    gapless = λ m le e. h.gapless m (omega arith) e;
    handed = λ x e. absurd (cc);
    stored = λ m le lt e. elim (ℕ_discrete m n) [
      | yes t ↦ old (sym (ap db.paras t) ∙ e)
      | no t ↦ h.stored m le (omega arith) e
    ];
  }

  module _ (start n : ℕ) (last : Option Hash) (db : Blocks headers) (h : Fetched start n last db)
      (new : db.paras n ≡ none) (b : StoredPara headers) (hash : b.hash ≡ blake2 b.header)
      (checked : (a : StoredPara headers)
        → 2 ≤ n
        → db.paras (n - 1) ≡ some a
        → parent_hash b.header ≡ blake2 a.header) where
    stored_self : (set_para_block headers n b db).paras n ≡ some b
    stored_self = set_para_block_self headers n b db

    stored_ne : (m : ℕ) → ¬ (m ≡ n) → (set_para_block headers n b db).paras m ≡ db.paras m
    stored_ne = set_para_block_ne headers n b db

    linked_self :
        (c a : StoredPara headers)
        → 2 ≤ n
        → (set_para_block headers n b db).paras n ≡ some c
        → (set_para_block headers n b db).paras (n - 1) ≡ some a
        → parent_hash c.header ≡ blake2 a.header
    linked_self c a le e f =
        let same : b ≡ c = some_inj (sym stored_self ∙ e) in
        subst (λ (x : StoredPara headers). parent_hash x.header ≡ blake2 a.header) same
          (checked a le (sym (stored_ne (n - 1) (omega arith)) ∙ f))

    not_above : (m : ℕ) (c : StoredPara headers) → 2 ≤ m → m - 1 ≡ n → ¬ (db.paras m ≡ some c)
    unfolding IsGapless
    not_above m c le e f =
        let above : suc n ≡ m = omega arith in
        none-some (sym (h.gapless n (omega arith) new) ∙ ap db.paras above ∙ f)

    set-IsLinked : IsLinked (set_para_block headers n b db)
    unfolding IsLinked
    set-IsLinked m c a le e f = elim (ℕ_discrete m n) [
      | yes t ↦
          linked_self c a (omega arith) (sym (ap (set_para_block headers n b db).paras t) ∙ e)
            (sym (ap (λ x. (set_para_block headers n b db).paras (x - 1)) t) ∙ f)
      | no t ↦ elim (ℕ_discrete (m - 1) n) [
        | yes q ↦ absurd (not_above m c le q (sym (stored_ne m t) ∙ e))
        | no q ↦ h.linked m c a le (sym (stored_ne m t) ∙ e) (sym (stored_ne (m - 1) q) ∙ f)
      ]
    ]

    pub set-Fetched : Fetched start (n + 1) (some b.hash) (set_para_block headers n b db)
    unfolding IsGapless IsLast
    set-Fetched = record {
      linked = set-IsLinked;
      gapless = λ m le e.
          stored_ne (suc m) (λ q. absurd (omega arith))
          ∙ h.gapless m (omega arith) (sym (stored_ne m (λ q. absurd (omega arith))) ∙ e);
      handed = λ x e. (
        b,
        ap (set_para_block headers n b db).paras (add_sub n) ∙ stored_self,
        sym (some_inj e) ∙ hash,
      );
      stored = λ m le lt e. elim (ℕ_discrete m n) [
        | yes t ↦ none-some (sym e ∙ ap (set_para_block headers n b db).paras t ∙ stored_self)
        | no t ↦ h.stored m le (omega arith) (sym (stored_ne m t) ∙ e)
      ];
    }
