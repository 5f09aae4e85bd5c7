-- ===== src/Runner/Blob/EndToEnd.antt =====
-- From what blob.js stores through io/window.js to what synching gets through blob.ts.
use runtime_bridge.Prelude.{
  ℕ, suc, ◌≡◌, ◌≢◌, refl, ap, subst, ◌∙◌, false, Option, none, some, List, some_inj, none-some,
  Settles, ◌>>=◌,
}
use runtime_bridge.Prelude.Int.{ℤ, pos, eqb_ℤ-ne}
use runtime_bridge.DataProvider.Store.{
  Key, Suffix, range_by_parent_block, blob_range_req, blob_range_committed, RangeMeta, ParentBlock,
  ParaBlock, Wire, exists,
}
use runtime_bridge.DataProvider.Window.{
  Db, last, with_blob, blob_req, commit_blob_range, get_range_by_parent_number,
}
use runtime_bridge.DataProvider.Window.Blobs.{Among, commit_blob_range-get_range_by_parent_number}
use runtime_bridge.Runner.Sync.{ok}
use runtime_bridge.Runner.Blob.{Provider, Fetcher, header_key, get_header_blob}
use runtime_bridge.Runner.Blob.Served.{IsServing, IsFresh, get_header_blob-Finds}

pair_eq : {A B : Type 0} {a b : A} {c d : B} → a ≡ b → c ≡ d → ◌≡◌ {A = A × B} (a, c) (b, d)
pair_eq {b = b} {c = c} e f = ap (λ x. (x, c)) e ∙ ap (λ x. (b, x)) f

module _ (wire : Wire) {E : Type 0} (p : Provider E wire.Bytes) where
  open wire use {Bytes}

  decoded-some :
      {M : RangeMeta} (o : Option Bytes)
      → (o >>= λ buffer. some (wire.decode_range buffer)) ≡ some M
      → (x : Bytes) × (o ≡ some x) × (wire.decode_range x ≡ M)
  decoded-some none e = absurd (none-some e)
  decoded-some (some x) e = (x, refl, some_inj e)

  header_key-blob :
      (para : ℤ) (meta : RangeMeta) (k : Key)
      → para ≢ pos 1
      → meta.blob_sync_header_req_key ≡ some k
      → header_key wire p para meta ≡ k
  unfolding header_key
  header_key-blob para meta k ne e = rw (eqb_ℤ-ne para (pos 1) ne, e) refl

  -- Let a blob be committed that was not committed before, and let a range be stored under the number
  -- of one of its parent blocks, which is so for the first parent block of a range only. Then a
  -- worker's loop that asks for the headers from this block on, with some para header synched
  -- already, gets the blob's whole request at once, when the data provider serves the database that
  -- the commit leaves and the cache has nothing else.
  pub get_header_blob-committed :
      (suffix : Suffix) (stop : ParentBlock Bytes) (parents : List (ParentBlock Bytes))
      (paras : List (ParaBlock Bytes)) (db after : Db wire) (n committed para : ℤ) (v : Bytes)
      (fuel : ℕ) (s : Fetcher Bytes)
      → last parents ≡ some stop
      → exists db (blob_range_committed suffix) ≡ false
      → db (range_by_parent_block n) ≡ some v
      → Among wire suffix n parents
      → commit_blob_range wire suffix parents paras db ≡ some after
      → IsServing wire p after
      → IsFresh wire p after s
      → para ≢ pos 1
      → (t : Fetcher Bytes) × (get_header_blob wire p n committed para (suc fuel) s
          ≡ some (
            ok (
              some (wire.encode_req (blob_req wire stop parents paras)),
              with_blob wire suffix (wire.decode_range v),
            ),
            t,
          ))
  unfolding get_range_by_parent_number header_key
  get_header_blob-committed suffix stop parents paras db after n committed para v fuel s e f found m
        q serving fresh ne =
      let c = subst (Settles _) q (
        commit_blob_range-get_range_by_parent_number wire suffix stop parents paras db n v e f found
          m) in
      let o = decoded-some (after (range_by_parent_block n)) c.0 in
      let r = get_header_blob-Finds wire p after n committed para fuel s o.0 o.1 serving fresh in
      let key : header_key wire p para (wire.decode_range o.0) ≡ blob_range_req suffix =
        header_key-blob para (wire.decode_range o.0) (blob_range_req suffix) ne
          (ap (λ (x : RangeMeta). x.blob_sync_header_req_key) o.2) in
      (r.0, r.1 ∙ ap (λ x. some (ok x, r.0)) (pair_eq (ap after key ∙ c.1.0) o.2))
