-- ===== src/DataProvider/Blob.antt =====
-- src/data_provider/blob.js: the walk that groups parent and para blocks into dry ranges and
-- windows. The blocks that the store holds by now are a parameter, `Chain`: a walk that waits for
-- a block that is not there gives `none`. Reports over IPC are left out.
pub mod Loop
use mathlib.Core.List
use runtime_bridge.Prelude.{
  ℕ, zero, suc, Bool, true, false, Option, none, some, List, [], ◌∷◌, ◌++◌, if◌then◌else◌, ◌>>=◌,
  ◌⊎◌, inl, inr,
}
use runtime_bridge.Prelude.Int.{ℤ, pos, minus_one, ◌+ℤ◌, ◌-ℤ◌, ltb_ℤ, eqb_ℤ}
use runtime_bridge.DataProvider.Store.{Key, WindowData, RangeMeta, ParentBlock, ParaBlock, Wire}
use runtime_bridge.DataProvider.Window.{
  Db, update_window, set_dry_range, blob_suffix, commit_blob_range, last,
}

-- `paraNumber` and `parentNumber` of `prb.db.Genesis`
pub record Genesis : Type 0 where
  pub para_number : ℤ
  pub parent_number : ℤ

-- What `getParentBlock`, `getParaBlock` and `getGenesis` find.
pub record Chain (Bytes : Type 0) : Type 0 where
  pub parents : ℤ → Option (ParentBlock Bytes)
  pub paras : ℤ → Option (ParaBlock Bytes)
  pub genesis : Option Genesis

pub record Context (Bytes : Type 0) : Type 0 where
  pub parent_start_block : ℤ
  pub para_start_block : ℤ
  pub para_blocks : List (ParaBlock Bytes)
  pub parent_blocks : List (ParentBlock Bytes)
  pub acc_para_blocks : List (ParaBlock Bytes)
  pub acc_parent_blocks : List (ParentBlock Bytes)

-- The arguments of `walkBlock`, and the database.
pub record Walk (Bytes : Type 0) : Type 0 where
  pub current_window : WindowData
  pub parent_number : ℤ
  pub para_number : ℤ
  pub context : Context Bytes
  pub para_ranges : List ℤ
  pub last_parent_block : Option (ParentBlock Bytes)
  pub db : Key → Option Bytes

abbrev pub one : ℤ
one = pos 1

module _ {Bytes : Type 0} where
  -- `currParentBlock.setId > lastParentBlock?.setId`, which is false for a missing last block.
  abbrev pub set_id_grown : ParentBlock Bytes → Option (ParentBlock Bytes) → Bool
  set_id_grown b none = false
  set_id_grown b (some l) = ltb_ℤ l.set_id b.set_id

  -- The pushes of the two blocks onto the context's lists.
  abbrev pub push_para : ParaBlock Bytes → Bool → Context Bytes → Context Bytes
  push_para b false c = c
  push_para b true c = record c {
    para_blocks = c.para_blocks ++ (b ∷ []);
    acc_para_blocks = c.acc_para_blocks ++ (b ∷ []);
  }

  unfoldable pub push_blocks :
      ParentBlock Bytes → ParaBlock Bytes → Bool → Context Bytes → Context Bytes
  push_blocks parent para matched c = push_para para matched (record c {
    parent_blocks = c.parent_blocks ++ (parent ∷ []);
    acc_parent_blocks = c.acc_parent_blocks ++ (parent ∷ []);
  })

  -- `paraNumberMatched ? currParaBlock.number + 1 : currParaBlock.number`
  abbrev pub next_para : ParaBlock Bytes → Bool → ℤ
  next_para b matched = if matched then b.number +ℤ one else b.number

  -- `nextContext` after a block with a justification.
  abbrev pub fresh_context :
      ParentBlock Bytes → ParaBlock Bytes → Bool → Context Bytes → Context Bytes
  fresh_context parent para matched c = record {
    parent_start_block = parent.number +ℤ one;
    para_start_block = next_para para matched;
    para_blocks = [];
    parent_blocks = [];
    acc_para_blocks = c.acc_para_blocks;
    acc_parent_blocks = c.acc_parent_blocks;
  }

module _ (wire : Wire) where
  open wire use {Bytes}

  -- `setDryRange` of blob.js
  unfoldable pub set_dry_range_of :
      Context Bytes → ℤ → Bool → Db wire → Option (RangeMeta × Db wire)
  unfolding set_dry_range
  set_dry_range_of c latest_set_id changed db =
      set_dry_range wire c.parent_start_block
        (elim (last c.para_blocks) [ none ↦ minus_one | some b ↦ c.para_start_block ]) c.para_blocks
        c.parent_blocks latest_set_id changed db

  -- The context for the next block, with the database after the dry range, if there is one.
  unfoldable pub close_range :
      ParentBlock Bytes
      → ParaBlock Bytes
      → Bool
      → Bool
      → Context Bytes
      → Db wire
      → Option (Context Bytes × Db wire)
  unfolding set_dry_range_of
  close_range parent para matched grown c db =
      if parent.has_justification
      then (set_dry_range_of c parent.set_id grown db >>= λ r.
          some (fresh_context parent para matched c, r.1))
      else some (c, db)

  -- `paraStopBlock` of the window
  abbrev pub para_stop_of_window : WindowData → ParaBlock Bytes → Bool → ℤ
  para_stop_of_window w para matched =
      if eqb_ℤ w.para_start_block para.number
      then w.para_start_block
      else if matched
      then para.number
      else para.number -ℤ one

  -- The end of a window: its blob, and the update of its record.
  unfoldable pub finish_window :
      ParentBlock Bytes
      → ParaBlock Bytes
      → Bool
      → WindowData
      → Context Bytes
      → Db wire
      → Option (WindowData × Db wire)
  unfolding update_window commit_blob_range
  finish_window parent para matched w c db = last c.parent_blocks >>= λ stop.
      let para_stop = para_stop_of_window w para matched in
      let suffix =
        blob_suffix wire w.parent_start_block stop.number w.para_start_block para_stop
          c.acc_para_blocks in
      commit_blob_range wire suffix c.acc_parent_blocks c.acc_para_blocks db >>= λ db'. some (
        update_window wire w
          (λ (x : WindowData). record x {
            parent_stop_block = stop.number;
            para_stop_block = para_stop;
            is_finished = true;
          })
          db')

  -- `if (currentWindow.setId === -1)`
  unfoldable pub name_set : ParentBlock Bytes → WindowData → Db wire → WindowData × Db wire
  unfolding update_window
  name_set parent w db =
      if eqb_ℤ w.set_id minus_one
      then update_window wire w (λ (x : WindowData). record x { set_id = parent.set_id }) db
      else (w, db)

  -- `walkBlock` of the two blocks that it waited for, up to its call of itself: the finished window,
  -- or the arguments of that call.
  unfoldable pub walk_with :
      ParentBlock Bytes
      → ParaBlock Bytes
      → Walk Bytes
      → Option ((WindowData × Db wire) ⊎ Walk Bytes)
  unfolding push_blocks close_range finish_window name_set
  walk_with parent para s =
      let matched = eqb_ℤ para.number parent.para_number in
      let grown = set_id_grown parent s.last_parent_block in
      let c = push_blocks parent para matched s.context in
      close_range parent para matched grown c s.db >>= λ closed.
      if grown
      then (finish_window parent para matched s.current_window c closed.1 >>= λ d. some (inl d))
      else (let named = name_set parent s.current_window closed.1 in
          some (
            inr (record {
              current_window = named.0;
              parent_number = parent.number +ℤ one;
              para_number = next_para para matched;
              context = closed.0;
              para_ranges = if matched then s.para_ranges ++ (para.number ∷ []) else s.para_ranges;
              last_parent_block = some parent;
              db = named.1;
            })))
