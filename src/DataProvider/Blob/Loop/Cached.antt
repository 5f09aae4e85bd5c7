-- ===== src/DataProvider/Blob/Loop/Cached.antt =====
-- blob.js, `walkWindow`: a window that was walked is found finished by the next walk.
use runtime_bridge.Prelude.{
  ℕ, suc, ◌≡◌, sym, ap, ◌∙◌, true, false, Option, none, some, ◌>>=◌, arith, Settles, Settles-bind,
  ◌<◌,
}
use runtime_bridge.Prelude.Int.{ℤ, pos, ◌+ℤ◌, ◌-ℤ◌}
use runtime_bridge.DataProvider.Store.{window, WindowData, ParentBlock, ParaBlock, Wire, put}
use runtime_bridge.DataProvider.Window.{Db, get_window}
use runtime_bridge.DataProvider.Window.Progress.{set_last_committed_parent_block, set_number}
use runtime_bridge.DataProvider.Blob.{Chain, one, set_id_grown}
use runtime_bridge.DataProvider.Blob.Loop.{walk_window, walk_block, walk_from, start_window}
use runtime_bridge.DataProvider.Blob.Loop.Windows.{Ends, last_before, walk_block-finishes}

module _ (wire : Wire) (chain : Chain wire.Bytes) where
  open wire use {Bytes}

  -- The progress mark is not a window.
  get_window-progress :
      (id n : ℤ) (db : Db wire)
      → get_window wire id (set_last_committed_parent_block wire n db) ≡ get_window wire id db
  unfolding get_window set_last_committed_parent_block set_number put
  get_window-progress id n db = ground arith

  get_window-stored :
      (id : ℤ) (w : WindowData) (db : Db wire)
      → db (window id) ≡ some (wire.encode_window w)
      → get_window wire id db ≡ some w
  unfolding get_window
  get_window-stored id w db h = rw (h, wire.window_law)

  walk_window-cached :
      (fuel : ℕ) (id : ℤ) (last_window : Option WindowData) (w : WindowData) (db : Db wire)
      → get_window wire id db ≡ some w
      → w.is_finished ≡ true
      → walk_window wire chain fuel id last_window db ≡ some (w, db)
  unfolding walk_window
  walk_window-cached fuel id last_window w db h f = rw (h, f)

  walk_window-resumed :
      (fuel : ℕ) (id : ℤ) (last_window : Option WindowData) (w : WindowData) (db : Db wire)
      → get_window wire id db ≡ some w
      → w.is_finished ≡ false
      → walk_window wire chain fuel id last_window db ≡ (
          walk_block wire chain fuel
            (walk_from wire chain w w.parent_start_block w.para_start_block none db)
          >>= λ done. some (
            done.0,
            set_last_committed_parent_block wire (done.0.parent_start_block -ℤ one) done.1,
          ))
  unfolding walk_window start_window
  walk_window-resumed fuel id last_window w db h f = rw (h, f)

  -- What the end of `walkWindow` stores is found by the next call.
  ended-cached :
      (fuel : ℕ) (id : ℤ) (last_window : Option WindowData) (w : WindowData) (db : Db wire)
      → w.window_id ≡ id
      → w.is_finished ≡ true
      → db (window w.window_id) ≡ some (wire.encode_window w)
      → let after = set_last_committed_parent_block wire (w.parent_start_block -ℤ one) db in
        walk_window wire chain fuel id last_window after ≡ some (w, after)
  ended-cached fuel id last_window w db i f s =
      walk_window-cached fuel id last_window w _
        (get_window-progress id _ db
          ∙ get_window-stored id w db (ap (λ n. db (window n)) (sym i) ∙ s))
        f

  -- A window is stored under its id, unfinished. Let the store have k + 1 parent blocks from the
  -- window's first one on, and all para blocks, each under its number. Let the set id not grow from
  -- one of the first k parent blocks to the next, and grow with the last of the k + 1. Then
  -- `walkWindow` of the id finishes the window at that parent block, and another call for the same
  -- id returns the same window at once and leaves the database as it is.
  pub walk_window-resumes :
      (w : WindowData) (parent : ℕ → ParentBlock Bytes) (para : ℤ → ParaBlock Bytes) (k : ℕ)
      → ((i : ℕ) → i < suc k → chain.parents (w.parent_start_block +ℤ pos i) ≡ some (parent i))
      → ((i : ℕ) → (parent i).number ≡ w.parent_start_block +ℤ pos i)
      → ((n : ℤ) → chain.paras n ≡ some (para n))
      → ((n : ℤ) → (para n).number ≡ n)
      → ((i : ℕ) → i < k → set_id_grown (parent i) (last_before wire chain w parent para i) ≡ false)
      → set_id_grown (parent k) (last_before wire chain w parent para k) ≡ true
      → (last_window : Option WindowData) (db : Db wire) (fuel : ℕ)
      → get_window wire w.window_id db ≡ some w
      → w.is_finished ≡ false
      → Settles
          (λ (d : WindowData × Db wire).
            (d.0.parent_stop_block ≡ w.parent_start_block +ℤ pos k)
            × ((d.0.is_finished ≡ true)
                × (walk_window wire chain fuel w.window_id last_window d.1 ≡ some d)))
          (walk_window wire chain (suc k) w.window_id last_window db)
  unfolding Ends
  walk_window-resumes w parent para k h1 h2 h3 h4 h5 h6 last_window db fuel stored unfinished =
      rw (walk_window-resumed (suc k) w.window_id last_window w db stored unfinished) (
        Settles-bind (Ends wire chain w parent para k) _
          (walk_block wire chain (suc k)
            (walk_from wire chain w w.parent_start_block w.para_start_block none db))
          _ (walk_block-finishes wire chain w parent para k h1 h2 h3 h4 h5 h6 db)
          (λ d e. (
            e.0,
            (
              e.1.1.0,
              ended-cached fuel w.window_id last_window d.0 d.1 (e.1.1.1.1.0) (e.1.1.0) (e.1.1.1.0),
            ),
          )))
