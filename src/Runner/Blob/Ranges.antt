-- ===== src/Runner/Blob/Ranges.antt =====
-- From the para blocks that blob.js stores through io/window.js to what synching gets through blob.ts.
use runtime_bridge.Prelude.{
  ℕ, suc, ◌≡◌, refl, sym, ap, subst, ◌∙◌, false, none, some, List, [], ◌∷◌, map, arith,
  if◌then◌else◌, some_inj, inl, inr, Bool-cases,
}
use runtime_bridge.Prelude.Int.{ℤ, leb_ℤ}
use runtime_bridge.DataProvider.Store.{
  Key-discrete, range_para_key, dry_para_block, range_para_buffer, BlockRange, ParaBlock, Wire, put,
  put_self, exists,
}
use runtime_bridge.DataProvider.Window.{Db, last}
use runtime_bridge.DataProvider.Window.Progress.{
  set_dry_para_block_range, set_range_para_block_buffer,
}
use runtime_bridge.DataProvider.Window.{first}
use runtime_bridge.Runner.Sync.{ok}
use runtime_bridge.Runner.Blob.{Provider, Fetcher, para_key, get_para_block_blob}
use runtime_bridge.Runner.Blob.Served.{IsServing, IsFresh, get_para_block_blob-Finds}

module _ (wire : Wire) {E : Type 0} (p : Provider E wire.Bytes) where
  open wire use {Bytes}

  abbrev range_of : ParaBlock Bytes → ParaBlock Bytes → BlockRange
  range_of head stop = record {
    buffer_key = some (range_para_buffer head.number);
    first_block_number = head.number;
    last_block_number = stop.number;
  }

  abbrev data_of : List (ParaBlock Bytes) → Bytes
  data_of blocks = wire.encode_blocks (map (λ (b : ParaBlock Bytes). b.dispatch_block_data) blocks)

  abbrev stored : ParaBlock Bytes → ParaBlock Bytes → List (ParaBlock Bytes) → Db wire → Db wire
  stored head stop blocks db =
      put (range_para_key head.number) (wire.encode_json_range (range_of head stop)) (
        put (range_para_buffer head.number) (data_of blocks)
          (set_dry_para_block_range wire head db))

  stored-lem :
      (head stop : ParaBlock Bytes) (blocks : List (ParaBlock Bytes)) (db : Db wire)
      → first blocks ≡ some head
      → last blocks ≡ some stop
      → set_range_para_block_buffer wire blocks (set_dry_para_block_range wire head db)
        ≡ some (stored head stop blocks db)
  unfolding set_range_para_block_buffer
  stored-lem head stop blocks db e f = rw (e, f)

  stored-buffer :
      (head stop : ParaBlock Bytes) (blocks : List (ParaBlock Bytes)) (db : Db wire)
      → stored head stop blocks db (range_para_buffer head.number) ≡ some (data_of blocks)
  unfolding put
  stored-buffer head stop blocks db = ground arith

  stored-dry :
      (head stop : ParaBlock Bytes) (blocks : List (ParaBlock Bytes)) (db : Db wire)
      → exists db (dry_para_block head.number) ≡ false
      → stored head stop blocks db (dry_para_block head.number) ≡ some (data_of (head ∷ []))
  unfolding put set_dry_para_block_range
  stored-dry head stop blocks db new = ground arith

  stored-chosen :
      (head stop : ParaBlock Bytes) (blocks : List (ParaBlock Bytes)) (db : Db wire) (synched : ℤ)
      → exists db (dry_para_block head.number) ≡ false
      → stored head stop blocks db (
          para_key wire p head.number synched
            (wire.decode_json_range (wire.encode_json_range (range_of head stop))))
        ≡ some (if leb_ℤ stop.number synched then data_of blocks else data_of (head ∷ []))
  unfolding para_key
  stored-chosen head stop blocks db synched new =
      ap (λ r. stored head stop blocks db (para_key wire p head.number synched r))
        (wire.json_range_law _)
      ∙ elim (Bool-cases (leb_ℤ stop.number synched)) [
        | inl t ↦ rw t (stored-buffer head stop blocks db)
        | inr t ↦ rw t (stored-dry head stop blocks db new)
      ]

  -- When the first block of a range of para blocks is stored, for the first time, and then the
  -- range, a worker's loop that asks for that first block gets the whole range at once when the
  -- header of its last block is synched, and this block alone otherwise, when the data provider
  -- serves the database with both and the cache has nothing else.
  pub get_para_block_blob-stored :
      (head stop : ParaBlock Bytes) (blocks : List (ParaBlock Bytes)) (db after : Db wire)
      (type_error : E) (synched committed : ℤ) (fuel : ℕ) (s : Fetcher Bytes)
      → exists db (dry_para_block head.number) ≡ false
      → first blocks ≡ some head
      → last blocks ≡ some stop
      → set_range_para_block_buffer wire blocks (set_dry_para_block_range wire head db) ≡ some after
      → IsServing wire p after
      → IsFresh wire p after s
      → (t : Fetcher Bytes) × (get_para_block_blob wire p type_error head.number synched committed
            (suc fuel)
            s
          ≡ some (
            ok (
              if leb_ℤ stop.number synched
                  then wire.encode_blocks
                      (map (λ (b : ParaBlock Bytes). b.dispatch_block_data) blocks)
                  else wire.encode_blocks (head.dispatch_block_data ∷ []),
              record {
                buffer_key = some (range_para_buffer head.number);
                first_block_number = head.number;
                last_block_number = stop.number;
              },
            ),
            t,
          ))
  unfolding para_key
  get_para_block_blob-stored head stop blocks db after type_error synched committed fuel s new e f q
        serving fresh =
      let same : stored head stop blocks db ≡ after =
        some_inj (sym (stored-lem head stop blocks db e f) ∙ q) in
      let at : after (range_para_key head.number)
          ≡ some (wire.encode_json_range (range_of head stop)) =
        subst
          (λ (d : Db wire).
            d (range_para_key head.number) ≡ some (wire.encode_json_range (range_of head stop)))
          same (put_self (range_para_key head.number) _ _) in
      let r =
        get_para_block_blob-Finds wire p after type_error head.number synched committed fuel s _ _
          at
          (subst
            (λ (d : Db wire).
              d (
                para_key wire p head.number synched
                  (wire.decode_json_range (wire.encode_json_range (range_of head stop))))
              ≡ some (if leb_ℤ stop.number synched then data_of blocks else data_of (head ∷ [])))
            same (stored-chosen head stop blocks db synched new))
          serving fresh in
      let chosen = if leb_ℤ stop.number synched then data_of blocks else data_of (head ∷ []) in
      (r.0, r.1 ∙ ap (λ x. some (ok (chosen, x), r.0)) (wire.json_range_law (range_of head stop)))

  -- The entry of a block that is stored alone.
  abbrev single : ParaBlock Bytes → BlockRange
  single head = record {
    buffer_key = none;
    first_block_number = head.number;
    last_block_number = head.number;
  }

  abbrev overwritten : ParaBlock Bytes → Db wire → Db wire
  overwritten head db =
      put (range_para_key head.number) (wire.encode_json_range (single head))
        (put (dry_para_block head.number) (data_of (head ∷ [])) db)

  -- The range is stored under other keys than the block alone.
  ranged-dry :
      (head stop : ParaBlock Bytes) (blocks : List (ParaBlock Bytes)) (db ranged : Db wire)
      → first blocks ≡ some head
      → last blocks ≡ some stop
      → set_range_para_block_buffer wire blocks db ≡ some ranged
      → ranged (dry_para_block head.number) ≡ db (dry_para_block head.number)
  unfolding set_range_para_block_buffer put Key-discrete
  ranged-dry head stop blocks db ranged e f q =
      let made : Db wire =
        put (range_para_key head.number) (wire.encode_json_range (range_of head stop))
          (put (range_para_buffer head.number) (data_of blocks) db) in
      let same : made ≡ ranged = some_inj (sym (rw (e, f) refl) ∙ q) in
      ap (λ (d : Db wire). d (dry_para_block head.number)) (sym same)

  overwritten-lem :
      (head : ParaBlock Bytes) (db : Db wire)
      → exists db (dry_para_block head.number) ≡ false
      → set_dry_para_block_range wire head db ≡ overwritten head db
  unfolding set_dry_para_block_range
  overwritten-lem head db new = rw new refl

  overwritten-dry :
      (head : ParaBlock Bytes) (db : Db wire)
      → overwritten head db (dry_para_block head.number) ≡ some (data_of (head ∷ []))
  unfolding put
  overwritten-dry head db = ground arith

  -- When a range of para blocks is stored and then its first block, for the first time, a worker's
  -- loop that asks for that first block gets this block alone, whichever headers are synched, though
  -- the range is there, when the data provider serves the database with both and the cache has
  -- nothing else.
  pub get_para_block_blob-alone :
      (head stop : ParaBlock Bytes) (blocks : List (ParaBlock Bytes)) (db ranged : Db wire)
      (type_error : E) (synched committed : ℤ) (fuel : ℕ) (s : Fetcher Bytes)
      → exists db (dry_para_block head.number) ≡ false
      → first blocks ≡ some head
      → last blocks ≡ some stop
      → set_range_para_block_buffer wire blocks db ≡ some ranged
      → IsServing wire p (set_dry_para_block_range wire head ranged)
      → IsFresh wire p (set_dry_para_block_range wire head ranged) s
      → (t : Fetcher Bytes) × (get_para_block_blob wire p type_error head.number synched committed
            (suc fuel)
            s
          ≡ some (
            ok (
              wire.encode_blocks (head.dispatch_block_data ∷ []),
              record {
                buffer_key = none;
                first_block_number = head.number;
                last_block_number = head.number;
              },
            ),
            t,
          ))
  unfolding para_key
  get_para_block_blob-alone head stop blocks db ranged type_error synched committed fuel s new e f q
        serving fresh =
      let still : exists ranged (dry_para_block head.number) ≡ false =
        rw (exists, ranged-dry head stop blocks db ranged e f q) new in
      let same = overwritten-lem head ranged still in
      let r =
        get_para_block_blob-Finds wire p (overwritten head ranged) type_error head.number synched
          committed fuel s (wire.encode_json_range (single head)) (data_of (head ∷ []))
          (put_self (range_para_key head.number) _ _)
          (ap (λ x. overwritten head ranged (para_key wire p head.number synched x))
              (wire.json_range_law (single head))
            ∙ overwritten-dry head ranged)
          (subst (IsServing wire p) same serving)
          (subst (λ (d : Db wire). IsFresh wire p d s) same fresh) in
      (
        r.0,
        r.1 ∙ ap (λ x. some (ok (data_of (head ∷ []), x), r.0)) (wire.json_range_law (single head)),
      )
