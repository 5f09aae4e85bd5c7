-- ===== src/DataProvider/Window/Ranges.antt =====
-- window.js: what can be read back after a dry range or a blob range was written.
use runtime_bridge.Prelude.{
  ◌≡◌, ◌≢◌, sym, ap, subst, ◌∙◌, Bool, true, false, some, List, arith, inl, inr, Bool-cases,
}
use runtime_bridge.Prelude.Int.{ℤ}
use runtime_bridge.DataProvider.Store.{
  Suffix, Key, range_by_parent_block, range_by_para_block, range_written, dry_sync_header,
  RangeMeta, ParentBlock, ParaBlock, SyncReq, Wire, put, exists,
}
use runtime_bridge.DataProvider.Window.{
  Db, get_range_by_parent_number, get_range_by_para_number, dry_req, dry_suffix, dry_meta,
  write_dry_range, set_dry_range_to,
}

module _ (wire : Wire) where
  open wire use {Bytes}

  module _ (suffix : Suffix) (meta : RangeMeta) (req : SyncReq Bytes) (db : Db wire) where
    write_dry_range-parent :
        write_dry_range wire suffix meta req db (range_by_parent_block meta.parent_start_block)
        ≡ some (wire.encode_range meta)
    unfolding write_dry_range put
    write_dry_range-parent = ground arith

    write_dry_range-req :
        write_dry_range wire suffix meta req db (dry_sync_header suffix)
        ≡ some (wire.encode_req req)
    unfolding write_dry_range put
    write_dry_range-req = ground arith

    write_dry_range-mark :
        exists (write_dry_range wire suffix meta req db) (range_written suffix) ≡ true
    unfolding write_dry_range put
    write_dry_range-mark = ground arith

    write_dry_range-para_start :
        write_dry_range wire suffix meta req db (range_by_para_block meta.parent_start_block)
        ≡ some (wire.encode_range meta)
    unfolding write_dry_range put
    write_dry_range-para_start = ground arith

    write_dry_range-para :
        (n : ℤ)
        → n ≢ meta.parent_start_block
        → write_dry_range wire suffix meta req db (range_by_para_block n)
          ≡ db (range_by_para_block n)
    unfolding write_dry_range put
    write_dry_range-para n h = ground arith

  module _ (stop : ParentBlock Bytes) (parent_start para_start : ℤ)
      (para_blocks : List (ParaBlock Bytes)) (parent_blocks : List (ParentBlock Bytes)) (set_id : ℤ)
      (changed : Bool) where
    -- `setDryRange` at the section's arguments, its key suffix, and what it makes of them.
    abbrev pub set_here : Db wire → RangeMeta × Db wire
    set_here =
        set_dry_range_to wire stop parent_start para_start para_blocks parent_blocks set_id changed

    abbrev pub here : Suffix
    here = dry_suffix wire parent_start para_start para_blocks stop

    abbrev pub meta_here : RangeMeta
    meta_here = dry_meta wire parent_start para_start para_blocks parent_blocks set_id stop

    abbrev pub req_here : SyncReq Bytes
    req_here = dry_req wire stop para_blocks parent_blocks changed

    set_here-new :
        (db : Db wire)
        → exists db (range_written here) ≡ false
        → set_here db ≡ (meta_here, write_dry_range wire here meta_here req_here db)
    unfolding set_dry_range_to
    set_here-new db h = rw (h, set_here)

    set_here-old :
        (db : Db wire) → exists db (range_written here) ≡ true → set_here db ≡ (meta_here, db)
    unfolding set_dry_range_to
    set_here-old db h = rw (h, set_here)

    set_here-mark : (db : Db wire) → exists ((set_here db).1) (range_written here) ≡ true
    set_here-mark db = elim (Bool-cases (exists db (range_written here))) [
      | inl e ↦ subst (λ r. exists (r.1) (range_written here) ≡ true) (sym (set_here-old db e)) e
      | inr e ↦
          subst (λ r. exists (r.1) (range_written here) ≡ true) (sym (set_here-new db e))
            (write_dry_range-mark here meta_here req_here db)
    ]

    set_here-kept :
        (db : Db wire) (k : Key)
        → exists db (range_written here) ≡ false
        → (set_here db).1 k ≡ write_dry_range wire here meta_here req_here db k
    set_here-kept db k h = ap (λ r. r.1 k) (set_here-new db h)

    -- After `setDryRange` of a range that was not written before, the range's metadata is found by
    -- its first parent block, the request is found under the key that the metadata names, and the
    -- same call again returns the same metadata and leaves the database as it is.
    pub set_dry_range_to-get_range_by_parent_number :
        (db : Db wire)
        → exists db (range_written here) ≡ false
        → (get_range_by_parent_number wire parent_start ((set_here db).1) ≡ some meta_here)
          × (((set_here db).1 meta_here.dry_sync_header_req_key ≡ some (wire.encode_req req_here))
              × (set_here ((set_here db).1) ≡ (meta_here, (set_here db).1)))
    unfolding get_range_by_parent_number
    set_dry_range_to-get_range_by_parent_number db h = (
      rw (
        set_here-kept db (range_by_parent_block parent_start) h,
        write_dry_range-parent here meta_here req_here db,
        wire.range_law meta_here,
      ),
      (
        set_here-kept db (dry_sync_header here) h ∙ write_dry_range-req here meta_here req_here db,
        set_here-old ((set_here db).1) (set_here-mark db),
      ),
    )

    -- The key of a dry range's second index entry has the number of its first parent block. So when
    -- `setDryRange` writes a range whose first para block has another number,
    -- `getRangeByParaNumber` finds at that number what it found before, and finds the range at the
    -- number of the first parent block.
    pub set_dry_range_to-get_range_by_para_number :
        (db : Db wire)
        → exists db (range_written here) ≡ false
        → para_start ≢ parent_start
        → (get_range_by_para_number wire para_start (set_here db).1
            ≡ get_range_by_para_number wire para_start db)
          × (get_range_by_para_number wire parent_start (set_here db).1 ≡ some meta_here)
    unfolding get_range_by_para_number
    set_dry_range_to-get_range_by_para_number db h ne = (
      rw (
        set_here-kept db (range_by_para_block para_start) h,
        write_dry_range-para here meta_here req_here db para_start ne,
      ),
      rw (
        set_here-kept db (range_by_para_block parent_start) h,
        write_dry_range-para_start here meta_here req_here db,
        wire.range_law meta_here,
      ),
    )
