-- ===== src/DataProvider/Window/Blobs.antt =====
-- window.js, `commitBlobRange`: the metadata of the ranges that a blob covers.
use runtime_bridge.Prelude.{
  ◌≡◌, ◌≢◌, ◌⊎◌, refl, ap, subst, ◌∙◌, false, Option, none, some, List, [], ◌∷◌, arith, All,
  Settles, inl, inr,
}
use runtime_bridge.Prelude.Int.{ℤ, ℤ-discrete}
use runtime_bridge.DataProvider.Store.{
  Suffix, Key, range_by_parent_block, blob_range_committed, blob_range_req, ParentBlock, ParaBlock,
  Wire, put, put_self, put_ne, exists,
}
use runtime_bridge.DataProvider.Window.{
  Db, get_range_by_parent_number, blob_req, with_blob, put_blob_meta, mark_blob_ranges,
  commit_blob_range, last,
}

module _ (wire : Wire) (suffix : Suffix) where
  open wire use {Bytes}

  -- What a blob leaves of a range's stored metadata.
  abbrev blob_meta : Option Bytes → Option Bytes → Option Bytes
  blob_meta none old = old
  blob_meta (some buffer) old =
      some (wire.encode_range (with_blob wire suffix (wire.decode_range buffer)))

  put_blob_meta_self :
      (n : ℤ) (o : Option Bytes) (batch : Db wire)
      → put_blob_meta wire suffix n o batch (range_by_parent_block n)
        ≡ blob_meta o (batch (range_by_parent_block n))
  put_blob_meta_self n none batch = refl
  put_blob_meta_self n (some b) batch = put_self _ _ batch

  put_blob_meta_ne :
      (n : ℤ) (k : Key) (o : Option Bytes) (batch : Db wire)
      → k ≢ range_by_parent_block n
      → put_blob_meta wire suffix n o batch k ≡ batch k
  put_blob_meta_ne n k none batch h = refl
  put_blob_meta_ne n k (some b) batch h = put_ne _ k _ batch h

  mark_blob_ranges-other :
      (bs : List (ParentBlock Bytes)) (k : Key) (db batch : Db wire)
      → All (λ (b : ParentBlock Bytes). k ≢ range_by_parent_block b.number) bs
      → mark_blob_ranges wire suffix bs db batch k ≡ batch k
  unfolding mark_blob_ranges
  mark_blob_ranges-other [] k db batch h = refl
  mark_blob_ranges-other (b ∷ bs) k db batch (h, hs) =
      mark_blob_ranges-other bs k db _ hs ∙ put_blob_meta_ne b.number k _ batch h

  parent_key_ne : (n m : ℤ) → n ≢ m → range_by_parent_block n ≢ range_by_parent_block m
  parent_key_ne n m h = ground arith

  put_blob_meta-found :
      (n : ℤ) (v : Bytes) (db batch : Db wire)
      → db (range_by_parent_block n) ≡ some v
      → put_blob_meta wire suffix n (db (range_by_parent_block n)) batch (range_by_parent_block n)
        ≡ blob_meta (some v) none
  put_blob_meta-found n v db batch e =
      put_blob_meta_self n (db (range_by_parent_block n)) batch
      ∙ ap (λ o. blob_meta o (batch (range_by_parent_block n))) e

  put_blob_meta-here :
      (m n : ℤ) (v : Bytes) (db batch : Db wire)
      → n ≡ m
      → db (range_by_parent_block n) ≡ some v
      → put_blob_meta wire suffix m (db (range_by_parent_block m)) batch (range_by_parent_block n)
        ≡ blob_meta (some v) none
  put_blob_meta-here m n v db batch q e =
      subst
        (λ x.
          put_blob_meta wire suffix x (db (range_by_parent_block x)) batch (range_by_parent_block n)
          ≡ blob_meta (some v) none)
        q (put_blob_meta-found n v db batch e)

  put_blob_meta-marked :
      (m n : ℤ) (v : Bytes) (db batch : Db wire)
      → db (range_by_parent_block n) ≡ some v
      → batch (range_by_parent_block n) ≡ blob_meta (some v) none
      → put_blob_meta wire suffix m (db (range_by_parent_block m)) batch (range_by_parent_block n)
        ≡ blob_meta (some v) none
  put_blob_meta-marked m n v db batch e h = elim (ℤ-discrete n m) [
    | yes q ↦ put_blob_meta-here m n v db batch q e
    | no q ↦ put_blob_meta_ne m (range_by_parent_block n) _ batch (parent_key_ne n m q) ∙ h
  ]

  -- A block of the list has the number.
  unfoldable pub Among : ℤ → List (ParentBlock Bytes) → Type 0
  Among n [] = ⊥
  Among n (b ∷ bs) = (n ≡ b.number) ⊎ Among n bs

  -- A range that is marked stays marked.
  mark_blob_ranges-marked :
      (bs : List (ParentBlock Bytes)) (n : ℤ) (v : Bytes) (db batch : Db wire)
      → db (range_by_parent_block n) ≡ some v
      → batch (range_by_parent_block n) ≡ blob_meta (some v) none
      → mark_blob_ranges wire suffix bs db batch (range_by_parent_block n) ≡ blob_meta (some v) none
  unfolding mark_blob_ranges
  mark_blob_ranges-marked [] n v db batch e h = h
  mark_blob_ranges-marked (b ∷ bs) n v db batch e h =
      mark_blob_ranges-marked bs n v db _ e (put_blob_meta-marked b.number n v db batch e h)

  mark_blob_ranges-Among :
      (bs : List (ParentBlock Bytes)) (n : ℤ) (v : Bytes) (db batch : Db wire)
      → db (range_by_parent_block n) ≡ some v
      → Among n bs
      → mark_blob_ranges wire suffix bs db batch (range_by_parent_block n) ≡ blob_meta (some v) none
  unfolding mark_blob_ranges Among
  mark_blob_ranges-Among [] n v db batch e m = elim m [ ]
  mark_blob_ranges-Among (b ∷ bs) n v db batch e (inl q) =
      mark_blob_ranges-marked bs n v db _ e (put_blob_meta-here b.number n v db batch q e)
  mark_blob_ranges-Among (b ∷ bs) n v db batch e (inr m) = mark_blob_ranges-Among bs n v db _ e m

  module _ (stop : ParentBlock Bytes) (parents : List (ParentBlock Bytes))
      (paras : List (ParaBlock Bytes)) where
    abbrev committed : Db wire → Db wire
    committed db = put (blob_range_committed suffix) wire.mark (
        put (blob_range_req suffix) (wire.encode_req (blob_req wire stop parents paras))
          (mark_blob_ranges wire suffix parents db db))

    committed-range_by_parent :
        (db : Db wire) (n : ℤ)
        → committed db (range_by_parent_block n)
          ≡ mark_blob_ranges wire suffix parents db db (range_by_parent_block n)
    unfolding put
    committed-range_by_parent db n = ground arith

    committed-again :
        (db : Db wire)
        → commit_blob_range wire suffix parents paras (committed db) ≡ some (committed db)
    unfolding commit_blob_range put
    committed-again db = ground arith

    committed-req :
        (db : Db wire)
        → committed db (blob_range_req suffix)
          ≡ some (wire.encode_req (blob_req wire stop parents paras))
    unfolding put
    committed-req db = ground arith

    commit_blob_range-new :
        (db : Db wire)
        → last parents ≡ some stop
        → exists db (blob_range_committed suffix) ≡ false
        → commit_blob_range wire suffix parents paras db ≡ some (committed db)
    unfolding commit_blob_range
    commit_blob_range-new db e h = rw (h, e)

    not-Among :
        (n : ℤ) (bs : List (ParentBlock Bytes))
        → ¬ Among n bs
        → All
            (λ (b : ParentBlock Bytes). range_by_parent_block n ≢ range_by_parent_block b.number)
            bs
    unfolding Among
    not-Among n [] h = tt
    not-Among n (b ∷ bs) h =
        (parent_key_ne n b.number (λ q. h (inl q)), not-Among n bs (λ m. h (inr m)))

    pub commit_blob_range-get_range_by_parent_number :
        (db : Db wire) (n : ℤ) (v : Bytes)
        → last parents ≡ some stop
        → exists db (blob_range_committed suffix) ≡ false
        → db (range_by_parent_block n) ≡ some v
        → Among n parents
        → Settles
            (λ (after : Db wire).
              (get_range_by_parent_number wire n after
                ≡ some (with_blob wire suffix (wire.decode_range v)))
              × ((after (blob_range_req suffix)
                    ≡ some (wire.encode_req (blob_req wire stop parents paras)))
                  × (commit_blob_range wire suffix parents paras after ≡ some after)))
            (commit_blob_range wire suffix parents paras db)
    unfolding get_range_by_parent_number
    commit_blob_range-get_range_by_parent_number db n v e h found m =
        rw
          (
            commit_blob_range-new db e h,
            committed-range_by_parent db n,
            mark_blob_ranges-Among parents n v db db found m,
            wire.range_law,
          )
          (refl, (committed-req db, committed-again db))

    -- A blob leaves every range's metadata as it is that no parent block of it gives the number of.
    pub commit_blob_range-other :
        (db : Db wire) (n : ℤ)
        → last parents ≡ some stop
        → exists db (blob_range_committed suffix) ≡ false
        → ¬ Among n parents
        → Settles
            (λ (after : Db wire).
              get_range_by_parent_number wire n after ≡ get_range_by_parent_number wire n db)
            (commit_blob_range wire suffix parents paras db)
    unfolding get_range_by_parent_number
    commit_blob_range-other db n e h m = rw (
      commit_blob_range-new db e h,
      committed-range_by_parent db n,
      mark_blob_ranges-other parents (range_by_parent_block n) db db (not-Among n parents m),
    )
