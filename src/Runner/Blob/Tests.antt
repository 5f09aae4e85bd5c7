-- ===== src/Runner/Blob/Tests.antt =====
-- blob.ts: the theorems applied to a database with one range and one blob.
use runtime_bridge.Prelude.{ℕ, ◌≡◌, refl, true, false, Option, none, some, List, [], ◌∷◌, inl}
use runtime_bridge.Prelude.Int.{pos, eqb_ℤ→ne, ◌+ℤ◌}
use runtime_bridge.DataProvider.Store.{
  Suffix, Key-discrete, ParentBlock, ParaBlock, range_by_parent_block, range_para_buffer,
  blob_range_committed, put, put_self, exists,
}
use runtime_bridge.DataProvider.Codes.{
  Code, tag, range_code, no_range, codes, para_block, no_db, window_parent,
}
use runtime_bridge.DataProvider.Window.{Db, with_blob, commit_blob_range}
use runtime_bridge.DataProvider.Window.Progress.{
  set_dry_para_block_range, set_range_para_block_buffer,
}
use runtime_bridge.DataProvider.Window.Blobs.{Among}
use runtime_bridge.Runner.Sync.{ok}
use runtime_bridge.Runner.Blob.{Provider, Fetcher, get_header_blob, get_para_block_blob}
use runtime_bridge.Runner.Blob.Served.{IsServing, IsFresh}
use runtime_bridge.Runner.Blob.EndToEnd.{get_header_blob-committed}
use runtime_bridge.Runner.Blob.Ranges.{get_para_block_blob-stored, get_para_block_blob-alone}

abbrev blob : Suffix
blob = record {
  parent_start = pos 101;
  parent_stop = pos 102;
  para_start = pos 7;
  para_stop = pos 7;
}

abbrev two_parents : List (ParentBlock Code)
two_parents = window_parent 0 ∷ window_parent 1 ∷ []

abbrev seven : List (ParaBlock Code)
seven = para_block (pos 7) ∷ []

abbrev one_range : Db codes
one_range = put (range_by_parent_block (pos 101)) (range_code no_range) no_db

abbrev or_empty : Option (Db codes) → Db codes
or_empty none = no_db
or_empty (some db) = db

abbrev committed : Db codes
committed = or_empty (commit_blob_range codes blob two_parents seven one_range)

abbrev provider : Db codes → Provider ℕ Code
provider db = record { answer = λ i k. ok (db k); keeps = λ i k. true; disable_lru = false }

abbrev empty : Fetcher Code
empty = record { cache = no_db; looks = 0 }

provider-IsServing : (db : Db codes) → IsServing codes (provider db) db
unfolding IsServing
provider-IsServing db i k = refl

empty-IsFresh : (db : Db codes) → IsFresh codes (provider db) db empty
unfolding IsFresh
empty-IsFresh db k v e = absurd (cc)

not_committed : exists one_range (blob_range_committed blob) ≡ false
unfolding put Key-discrete
not_committed = refl

commits : commit_blob_range codes blob two_parents seven one_range ≡ some committed
unfolding commit_blob_range put Key-discrete
commits = refl

among : Among codes blob (pos 101) two_parents
unfolding Among ◌+ℤ◌
among = inl refl

get_header_blob-committed_example :
    (t : Fetcher Code) × (get_header_blob codes
        (provider committed)
        (pos 101)
        (pos 102)
        (pos 5)
        3
        empty
      ≡ some (ok (some (tag 1), with_blob codes blob no_range), t))
get_header_blob-committed_example =
    get_header_blob-committed codes (provider committed) blob (window_parent 1) two_parents seven
      one_range committed (pos 101) (pos 102) (pos 5) (range_code no_range) 2 empty refl
      not_committed (put_self (range_by_parent_block (pos 101)) (range_code no_range) no_db) among
      commits (provider-IsServing committed) (empty-IsFresh committed)
      (eqb_ℤ→ne (pos 5) (pos 1) refl)

abbrev blocks : List (ParaBlock Code)
blocks = para_block (pos 7) ∷ para_block (pos 8) ∷ []

abbrev stored : Db codes
stored = or_empty (
    set_range_para_block_buffer codes blocks
      (set_dry_para_block_range codes (para_block (pos 7)) no_db))

stores :
    set_range_para_block_buffer codes blocks
      (set_dry_para_block_range codes (para_block (pos 7)) no_db)
    ≡ some stored
unfolding set_range_para_block_buffer
stores = refl

-- The header of block 8 is synched, so both blocks come.
get_para_block_blob-stored_example :
    (t : Fetcher Code) × (get_para_block_blob codes
        (provider stored)
        404
        (pos 7)
        (pos 8)
        (pos 8)
        1
        empty
      ≡ some (
        ok (
          codes.encode_blocks (tag 21 ∷ tag 21 ∷ []),
          record {
            buffer_key = some (range_para_buffer (pos 7));
            first_block_number = pos 7;
            last_block_number = pos 8;
          },
        ),
        t,
      ))
get_para_block_blob-stored_example =
    get_para_block_blob-stored codes (provider stored) (para_block (pos 7)) (para_block (pos 8))
      blocks no_db stored 404 (pos 8) (pos 8) 0 empty refl refl refl stores
      (provider-IsServing stored) (empty-IsFresh stored)

-- The same two in the other order: block 8 does not come.
abbrev ranged : Db codes
ranged = or_empty (set_range_para_block_buffer codes blocks no_db)

ranges : set_range_para_block_buffer codes blocks no_db ≡ some ranged
unfolding set_range_para_block_buffer
ranges = refl

abbrev alone : Db codes
alone = set_dry_para_block_range codes (para_block (pos 7)) ranged

get_para_block_blob-alone_example :
    (t : Fetcher Code) × (get_para_block_blob codes
        (provider alone)
        404
        (pos 7)
        (pos 8)
        (pos 8)
        1
        empty
      ≡ some (
        ok (
          codes.encode_blocks (tag 21 ∷ []),
          record { buffer_key = none; first_block_number = pos 7; last_block_number = pos 7 },
        ),
        t,
      ))
get_para_block_blob-alone_example =
    get_para_block_blob-alone codes (provider alone) (para_block (pos 7)) (para_block (pos 8))
      blocks no_db ranged 404 (pos 8) (pos 8) 0 empty refl refl refl ranges
      (provider-IsServing alone) (empty-IsFresh alone)
