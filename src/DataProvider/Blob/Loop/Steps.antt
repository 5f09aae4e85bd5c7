-- ===== src/DataProvider/Blob/Loop/Steps.antt =====
-- blob.js: what one call of `walkBlock` gives, for the two blocks that it waited for.
use runtime_bridge.Prelude.{
  ◌≡◌, refl, ap, ◌∙◌, Bool, true, false, some, List, [], ◌∷◌, ◌++◌, ◌⊎◌, inl, inr, Settles,
  Settles-bind, Bool-cases,
}
use runtime_bridge.Prelude.Int.{ℤ, minus_one, ◌+ℤ◌, eqb_ℤ}
use runtime_bridge.DataProvider.Store.{
  Suffix, window, WindowData, ParentBlock, ParaBlock, Wire, put_self, exists, blob_range_committed,
}
use runtime_bridge.DataProvider.Window.{
  Db, last, set_dry_range, commit_blob_range, update_window, blob_suffix,
}
use runtime_bridge.DataProvider.Blob.{
  Context, Walk, one, set_id_grown, push_blocks, next_para, set_dry_range_of, close_range,
  para_stop_of_window, finish_window, name_set, walk_with,
}

last-snoc : {A : Type 0} (xs : List A) (x : A) → last (xs ++ (x ∷ [])) ≡ some x
last-snoc [] x = refl
last-snoc (y ∷ []) x = refl
last-snoc (y ∷ z ∷ xs) x = last-snoc (z ∷ xs) x

module _ {Bytes : Type 0} where
  push_blocks-parents :
      (parent : ParentBlock Bytes) (para : ParaBlock Bytes) (matched : Bool) (c : Context Bytes)
      → ((push_blocks parent para matched c).parent_blocks ≡ c.parent_blocks ++ (parent ∷ []))
        × ((push_blocks parent para matched c).acc_parent_blocks
            ≡ c.acc_parent_blocks ++ (parent ∷ []))
  unfolding push_blocks
  push_blocks-parents parent para true c = (refl, refl)
  push_blocks-parents parent para false c = (refl, refl)

module _ (wire : Wire) where
  open wire use {Bytes}

  set_dry_range_of-Settles :
      (c : Context Bytes) (stop : ParentBlock Bytes) (id : ℤ) (changed : Bool) (db : Db wire)
      → last c.parent_blocks ≡ some stop
      → Settles (λ r. Unit) (set_dry_range_of wire c id changed db)
  unfolding set_dry_range_of set_dry_range
  set_dry_range_of-Settles c stop id changed db h = rw h tt

  close_range-acc :
      (parent : ParentBlock Bytes) (para : ParaBlock Bytes) (matched grown : Bool)
      (c : Context Bytes) (db : Db wire)
      → last c.parent_blocks ≡ some parent
      → Settles
          (λ (r : Context Bytes × Db wire). r.0.acc_parent_blocks ≡ c.acc_parent_blocks)
          (close_range wire parent para matched grown c db)
  unfolding close_range
  close_range-acc parent para matched grown c db h = elim (Bool-cases parent.has_justification) [
    | inl e ↦ rw e (
        Settles-bind (λ r. Unit) _ (set_dry_range_of wire c parent.set_id grown db) _
          (set_dry_range_of-Settles c parent parent.set_id grown db h) (λ a u. refl))
    | inr e ↦ rw e refl
  ]

  commit_blob_range-Settles :
      (suffix : Suffix) (stop : ParentBlock Bytes) (parents : List (ParentBlock Bytes))
      (paras : List (ParaBlock Bytes)) (db : Db wire)
      → last parents ≡ some stop
      → Settles (λ r. Unit) (commit_blob_range wire suffix parents paras db)
  unfolding commit_blob_range
  commit_blob_range-Settles suffix stop parents paras db h =
      elim (Bool-cases (exists db (blob_range_committed suffix))) [
        | inl e ↦ rw e tt
        | inr e ↦ rw (e, h) tt
      ]

  -- The parts of a window's record that a walk keeps.
  abbrev pub SameStart : WindowData → WindowData → Type 0
  SameStart v w =
      (v.window_id ≡ w.window_id)
      × ((v.parent_start_block ≡ w.parent_start_block) × (v.para_start_block ≡ w.para_start_block))

  pub SameStart-trans : (u v w : WindowData) → SameStart u v → SameStart v w → SameStart u w
  SameStart-trans u v w (a, (b, c)) (d, (e, f)) = (a ∙ d, (b ∙ e, c ∙ f))

  name_set-SameStart :
      (b : ParentBlock Bytes) (w : WindowData) (db : Db wire) → SameStart (name_set wire b w db).0 w
  unfolding name_set update_window
  name_set-SameStart b w db = elim (Bool-cases (eqb_ℤ w.set_id minus_one)) [
    | inl e ↦ rw e (refl, (refl, refl))
    | inr e ↦ rw e (refl, (refl, refl))
  ]

  -- A call of `walkBlock` that goes on to the next parent block, and one that ends the window.
  unfoldable pub Next :
      ParentBlock Bytes
      → ParaBlock Bytes
      → Walk Bytes
      → (WindowData × Db wire) ⊎ Walk Bytes
      → Type 0
  Next b p s (inl d) = ⊥
  Next b p s (inr t) =
      (t.parent_number ≡ b.number +ℤ one)
      × ((t.para_number ≡ next_para p (eqb_ℤ p.number b.para_number))
          × ((t.last_parent_block ≡ some b)
              × ((t.context.acc_parent_blocks ≡ s.context.acc_parent_blocks ++ (b ∷ []))
                  × SameStart t.current_window s.current_window)))

  unfoldable pub Last :
      ParentBlock Bytes
      → ParaBlock Bytes
      → Walk Bytes
      → (WindowData × Db wire) ⊎ Walk Bytes
      → Type 0
  Last b p s (inr t) = ⊥
  Last b p s (inl d) =
      (d.0.parent_stop_block ≡ b.number)
      × ((d.0.para_stop_block
            ≡ para_stop_of_window wire s.current_window p (eqb_ℤ p.number b.para_number))
          × ((d.0.is_finished ≡ true)
              × ((d.1 (window d.0.window_id) ≡ some (wire.encode_window d.0))
                  × SameStart d.0 s.current_window)))

  pub walk_with-Next :
      (b : ParentBlock Bytes) (p : ParaBlock Bytes) (s : Walk Bytes)
      → set_id_grown b s.last_parent_block ≡ false
      → Settles (Next b p s) (walk_with wire b p s)
  unfolding walk_with Next
  walk_with-Next b p s e =
      let matched = eqb_ℤ p.number b.para_number in
      let c = push_blocks b p matched s.context in
      let pushed = push_blocks-parents b p matched s.context in
      rw e (
        Settles-bind _ (Next b p s) (close_range wire b p matched false c s.db) _
          (close_range-acc b p matched false c s.db
            (ap last (pushed.0) ∙ last-snoc s.context.parent_blocks b))
          (λ r h.
            (refl, (refl, (refl, (h ∙ pushed.1, name_set-SameStart b s.current_window r.1))))))

  finish_window-ends :
      (b : ParentBlock Bytes) (p : ParaBlock Bytes) (matched : Bool) (w : WindowData)
      (c : Context Bytes) (db : Db wire)
      → last c.parent_blocks ≡ some b
      → last c.acc_parent_blocks ≡ some b
      → Settles
          (λ (d : WindowData × Db wire).
            (d.0.parent_stop_block ≡ b.number)
            × ((d.0.para_stop_block ≡ para_stop_of_window wire w p matched)
                × ((d.0.is_finished ≡ true)
                    × ((d.1 (window d.0.window_id) ≡ some (wire.encode_window d.0))
                        × SameStart d.0 w))))
          (finish_window wire b p matched w c db)
  unfolding finish_window update_window
  finish_window-ends b p matched w c db e h =
      let suffix =
        blob_suffix wire w.parent_start_block b.number w.para_start_block
          (para_stop_of_window wire w p matched) c.acc_para_blocks in
      rw e (
        Settles-bind (λ r. Unit) _
          (commit_blob_range wire suffix c.acc_parent_blocks c.acc_para_blocks db) _
          (commit_blob_range-Settles suffix b c.acc_parent_blocks c.acc_para_blocks db h)
          (λ db' u. (refl, (refl, (refl, (put_self _ _ db', (refl, (refl, refl))))))))

  pub walk_with-Last :
      (b : ParentBlock Bytes) (p : ParaBlock Bytes) (s : Walk Bytes)
      → set_id_grown b s.last_parent_block ≡ true
      → Settles (Last b p s) (walk_with wire b p s)
  unfolding walk_with Last
  walk_with-Last b p s e =
      let matched = eqb_ℤ p.number b.para_number in
      let c = push_blocks b p matched s.context in
      let pushed = push_blocks-parents b p matched s.context in
      let stop = ap last (pushed.0) ∙ last-snoc s.context.parent_blocks b in
      rw e (
        Settles-bind _ (Last b p s) (close_range wire b p matched true c s.db) _
          (close_range-acc b p matched true c s.db stop)
          (λ r h.
            Settles-bind _ (Last b p s) (finish_window wire b p matched s.current_window c r.1) _
              (finish_window-ends b p matched s.current_window c r.1 stop
                (ap last (pushed.1) ∙ last-snoc s.context.acc_parent_blocks b))
              (λ d k. k)))
