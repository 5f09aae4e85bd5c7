-- ===== src/DataProvider/Blob/Loop/Windows.antt =====
-- blob.js: what the walk of one window gives, over a chain that has the blocks it needs.
use runtime_bridge.Prelude.{
  ℕ, zero, suc, ◌≡◌, refl, sym, ap, subst, ◌∙◌, true, false, Option, none, some, List, [], ◌∷◌,
  ◌++◌, if◌then◌else◌, ◌⊎◌, ◌+◌, inl, inr, arith, Settles, Settles-mono, Settles-bind, Bool-cases,
  ◌<◌,
}
use runtime_bridge.Prelude.Int.{ℤ, pos, ◌+ℤ◌, ◌-ℤ◌, eqb_ℤ, add_sub_one, int_laws}
use runtime_bridge.DataProvider.Store.{window, WindowData, ParentBlock, ParaBlock, Wire}
use runtime_bridge.DataProvider.Window.{Db}
use runtime_bridge.DataProvider.Blob.{
  Chain, Walk, one, set_id_grown, next_para, para_stop_of_window, walk_with,
}
use runtime_bridge.DataProvider.Blob.Loop.{walk_block_once, continue_walk, walk_block, walk_from}
use runtime_bridge.DataProvider.Blob.Loop.Starts.{plus_suc}
use runtime_bridge.DataProvider.Blob.Loop.Steps.{
  SameStart, SameStart-trans, Next, Last, walk_with-Next, walk_with-Last,
}

module _ (wire : Wire) (chain : Chain wire.Bytes) (w : WindowData)
    (parent : ℕ → ParentBlock wire.Bytes) (para : ℤ → ParaBlock wire.Bytes) where
  open wire use {Bytes}

  -- The para block that is waited for with the i-th parent block of the window, told from the
  -- para numbers of the parent blocks alone.
  unfoldable pub cursor : ℕ → ℤ
  cursor zero = w.para_start_block
  cursor (suc i) = let c = cursor i in if eqb_ℤ c (parent i).para_number then c +ℤ one else c

  -- The parent blocks of the window before the i-th one, and the last of them.
  unfoldable before : ℕ → List (ParentBlock Bytes)
  before zero = []
  before (suc i) = before i ++ (parent i ∷ [])

  unfoldable pub last_before : ℕ → Option (ParentBlock Bytes)
  last_before zero = none
  last_before (suc i) = some (parent i)

  record Reached (i : ℕ) (s : Walk Bytes) : Type 0 where
    at_parent : s.parent_number ≡ w.parent_start_block +ℤ pos i
    at_para : s.para_number ≡ cursor i
    after_parent : s.last_parent_block ≡ last_before i
    taken : s.context.acc_parent_blocks ≡ before i
    same : SameStart wire s.current_window w

  walk_from-Reached :
      (db : Db wire)
      → Reached 0 (walk_from wire chain w w.parent_start_block w.para_start_block none db)
  unfolding cursor before last_before
  walk_from-Reached db = record {
    at_parent = omega int_laws;
    at_para = refl;
    after_parent = refl;
    taken = refl;
    same = (refl, (refl, refl));
  }

  -- A finished window, which is also stored, whose last parent block is the k-th one.
  unfoldable pub Ends : ℕ → WindowData × Db wire → Type 0
  Ends k d =
      (d.0.parent_stop_block ≡ w.parent_start_block +ℤ pos k)
      × ((d.0.para_stop_block ≡ (
            if eqb_ℤ w.para_start_block (cursor k)
            then w.para_start_block
            else cursor (suc k) -ℤ one))
          × ((d.0.is_finished ≡ true)
              × ((d.1 (window d.0.window_id) ≡ some (wire.encode_window d.0))
                  × SameStart wire d.0 w)))

  module _ (k : ℕ)
      (parents_there : (i : ℕ)
        → i < suc k
        → chain.parents (w.parent_start_block +ℤ pos i) ≡ some (parent i))
      (parent_number : (i : ℕ) → (parent i).number ≡ w.parent_start_block +ℤ pos i)
      (paras_there : (n : ℤ) → chain.paras n ≡ some (para n))
      (para_number : (n : ℤ) → (para n).number ≡ n)
      (stays : (i : ℕ) → i < k → set_id_grown (parent i) (last_before i) ≡ false) where
    unfoldable Goes : ℕ → (WindowData × Db wire) ⊎ Walk Bytes → Type 0
    Goes i (inl d) = ⊥
    Goes i (inr s) = Reached i s

    -- The two blocks that are taken at the i-th parent block.
    walk_block_once-with :
        (i : ℕ) (s : Walk Bytes)
        → i < suc k
        → Reached i s
        → walk_block_once wire chain s ≡ walk_with wire (parent i) (para (cursor i)) s
    unfolding walk_block_once
    walk_block_once-with i s lt r = rw (
      ap chain.parents r.at_parent ∙ parents_there i lt,
      ap chain.paras r.at_para ∙ paras_there (cursor i),
    )

    next_para-cursor :
        (i : ℕ)
        → next_para (para (cursor i)) (eqb_ℤ (para (cursor i)).number (parent i).para_number)
          ≡ cursor (suc i)
    unfolding cursor
    next_para-cursor i = rw (para_number (cursor i))

    Next-Reached :
        (i : ℕ) (s : Walk Bytes) (r : (WindowData × Db wire) ⊎ Walk Bytes)
        → Reached i s
        → Next wire (parent i) (para (cursor i)) s r
        → Goes (suc i) r
    unfolding Next Goes last_before before
    Next-Reached i s (inl d) h n = n
    Next-Reached i s (inr t) h (a, (b, (c, (d, e)))) = record {
      at_parent = a ∙ ap (λ x. x +ℤ one) (parent_number i) ∙ plus_suc w.parent_start_block i;
      at_para = b ∙ next_para-cursor i;
      after_parent = c;
      taken = d ∙ ap (λ bs. bs ++ (parent i ∷ [])) h.taken;
      same = SameStart-trans wire t.current_window s.current_window w e h.same;
    }

    walk_block_once-Reached :
        (i : ℕ) (s : Walk Bytes)
        → i < k
        → Reached i s
        → Settles (Goes (suc i)) (walk_block_once wire chain s)
    walk_block_once-Reached i s lt r =
        subst (Settles (Goes (suc i))) (sym (walk_block_once-with i s (omega arith) r)) (
          Settles-mono (Next wire (parent i) (para (cursor i)) s) (Goes (suc i)) _
            (λ x. Next-Reached i s x r)
            (walk_with-Next wire (parent i) (para (cursor i)) s
              (ap (set_id_grown (parent i)) r.after_parent ∙ stays i lt)))

    unfoldable Finishes : (WindowData × Db wire) ⊎ Walk Bytes → Type 0
    unfolding Ends
    Finishes (inl d) = (Ends k) d
    Finishes (inr s) = ⊥

    Finishes-continue :
        (rest : Walk Bytes → Option (WindowData × Db wire))
        (r : (WindowData × Db wire) ⊎ Walk Bytes)
        → Finishes r
        → Settles (Ends k) (continue_walk wire chain rest r)
    unfolding Finishes
    Finishes-continue rest (inl d) h = h
    Finishes-continue rest (inr s) h = elim h [ ]

    Goes-continue :
        (i : ℕ) (rest : Walk Bytes → Option (WindowData × Db wire))
        → ((s : Walk Bytes) → Reached i s → Settles (Ends k) (rest s))
        → (r : (WindowData × Db wire) ⊎ Walk Bytes) → Goes i r
        → Settles (Ends k) (continue_walk wire chain rest r)
    unfolding Goes
    Goes-continue i rest f (inl d) h = elim h [ ]
    Goes-continue i rest f (inr s) h = f s h

    para_stop-cursor :
        (v : WindowData)
        → v.para_start_block ≡ w.para_start_block
        → para_stop_of_window wire v
            (para (cursor k))
            (eqb_ℤ (para (cursor k)).number (parent k).para_number)
          ≡ (if eqb_ℤ w.para_start_block (cursor k)
              then w.para_start_block
              else cursor (suc k) -ℤ one)
    unfolding cursor
    para_stop-cursor v e =
        rw (e, para_number (cursor k))
          (elim (Bool-cases (eqb_ℤ (cursor k) (parent k).para_number)) [
            | inl h ↦ rw (h, add_sub_one (cursor k))
            | inr h ↦ rw h
          ])

    Last-Finishes :
        (s : Walk Bytes) (r : (WindowData × Db wire) ⊎ Walk Bytes)
        → Reached k s
        → Last wire (parent k) (para (cursor k)) s r
        → Finishes r
    unfolding Last Ends Finishes
    Last-Finishes s (inr t) h n = n
    Last-Finishes s (inl d) h (a, (b, (c, (e, f)))) = (
      a ∙ parent_number k,
      (
        b ∙ para_stop-cursor s.current_window h.same.1.1,
        (c, (e, SameStart-trans wire d.0 s.current_window w f h.same)),
      ),
    )

    module _ (grows : set_id_grown (parent k) (last_before k) ≡ true) where
      walk_block_once-Finishes :
          (s : Walk Bytes) → Reached k s → Settles Finishes (walk_block_once wire chain s)
      walk_block_once-Finishes s r =
          subst (Settles Finishes) (sym (walk_block_once-with k s (omega arith) r)) (
            Settles-mono (Last wire (parent k) (para (cursor k)) s) Finishes _
              (λ x. Last-Finishes s x r)
              (walk_with-Last wire (parent k) (para (cursor k)) s
                (ap (set_id_grown (parent k)) r.after_parent ∙ grows)))

      walk_block-Ends :
          (j i : ℕ) (s : Walk Bytes)
          → i + j ≡ k
          → Reached i s
          → Settles (Ends k) (walk_block wire chain (suc j) s)
      unfolding walk_block Finishes Goes
      walk_block-Ends zero i s e r =
          Settles-bind Finishes (Ends k) (walk_block_once wire chain s) _
            (walk_block_once-Finishes s (subst (λ n. Reached n s) (omega arith) r))
            (Finishes-continue (walk_block wire chain zero))
      walk_block-Ends (suc j) i s e r =
          Settles-bind (Goes (suc i)) (Ends k) (walk_block_once wire chain s) _
            (walk_block_once-Reached i s (omega arith) r)
            (Goes-continue (suc i) (walk_block wire chain (suc j))
              (λ t h. walk_block-Ends j (suc i) t (omega arith) h))

      -- Let the store have k + 1 parent blocks from the window's first one on, and all para blocks,
      -- each under its number. Let the set id not grow from one of the first k parent blocks to the
      -- next, and grow with the last of the k + 1. Then `walkBlock` finishes after these parent
      -- blocks. The finished window is stored; the last of them is its last parent block, it keeps
      -- its start, and its last para block is the one before the next that is waited for, or its
      -- first one when that is still waited for with the last parent block.
      pub walk_block-finishes :
          (db : Db wire)
          → Settles (Ends k) (
              walk_block wire chain
                (suc k)
                (walk_from wire chain w w.parent_start_block w.para_start_block none db))
      walk_block-finishes db = walk_block-Ends k 0 _ (omega arith) (walk_from-Reached db)
