-- ===== src/Runner/Blob.antt =====
-- src/lifecycle/runner/blob.ts: the blobs that synching takes from a data provider, through a cache
-- and a store of open promises. A data provider answers each look with what it has then, or fails;
-- the LRU cache may have dropped an entry at any look. Priorities and the clock of the waits are
-- left out. `none` means that the fuel for the looks ran out.
pub mod Served
pub mod EndToEnd
pub mod Ranges
pub mod Tests
use runtime_bridge.Prelude.{
  ℕ, zero, suc, ◌+◌, ◌≡◌, Bool, true, false, not, ◌&&◌, Option, none, some, List, [], ◌∷◌, ◌++◌,
  if◌then◌else◌,
}
use runtime_bridge.Prelude.Int.{ℤ, pos, negsuc, leb_ℤ, ltb_ℤ, ◌-ℤ◌, eqb_ℤ}
use runtime_bridge.DataProvider.Store.{
  Key, range_by_parent_block, range_para_key, dry_para_block, RangeMeta, BlockRange, Wire, put,
}
use runtime_bridge.Runner.Sync.{Answer, ok, fails}

-- The data provider over time, what the cache still has at each look, and the setting `disableLru`.
pub record Provider (E Bytes : Type 0) : Type 0 where
  pub answer : ℕ → Key → Answer E (Option Bytes)
  pub keeps : ℕ → Key → Bool
  pub disable_lru : Bool

pub record Fetcher (Bytes : Type 0) : Type 0 where
  pub cache : Key → Option Bytes
  pub looks : ℕ

module _ (wire : Wire) {E : Type 0} (p : Provider E wire.Bytes) where
  open wire use {Bytes}

  abbrev pub Look : Type 0 → Type 0
  Look A = Fetcher Bytes → Answer E (Option A) × Fetcher Bytes

  -- `getBuffer`, for one caller.
  unfoldable pub get_buffer : Key → Look Bytes
  get_buffer key s = (p.answer s.looks key, record s { looks = s.looks + 1 })

  -- `_getCachedBuffer`
  abbrev pub remember :
      Key → Answer E (Option Bytes) × Fetcher Bytes → Answer E (Option Bytes) × Fetcher Bytes
  remember key (ok (some v), s) =
      if p.disable_lru
      then (ok (some v), s)
      else (ok (some v), record s { cache = put key v s.cache })
  remember key (ok none, s) = (ok none, s)
  remember key (fails e, s) = (fails e, s)

  -- `getCachedBuffer`
  abbrev pub from_cache : Key → Option Bytes → Look Bytes
  from_cache key none s = remember key (get_buffer key s)
  from_cache key (some v) s = (ok (some v), s)

  unfoldable pub get_cached_buffer : Key → Look Bytes
  unfolding get_buffer
  get_cached_buffer key s =
      if not p.disable_lru && p.keeps s.looks key
      then from_cache key (s.cache key) s
      else remember key (get_buffer key s)

  abbrev pub Waited : Type 0 → Type 0
  Waited A = Option (Answer E A × Fetcher Bytes)

  -- `_waitFor`: looks until there is something.
  abbrev pub after_look :
      {A : Type 0} → (Fetcher Bytes → Waited A) → Answer E (Option A) × Fetcher Bytes → Waited A
  after_look again (ok none, s) = again s
  after_look again (ok (some a), s) = some (ok a, s)
  after_look again (fails e, s) = some (fails e, s)

  unfoldable pub wait_until_found : {A : Type 0} → ℕ → Look A → Fetcher Bytes → Waited A
  wait_until_found zero look s = none
  wait_until_found (suc fuel) look s = after_look (wait_until_found fuel look) (look s)

  -- `waitFor`: five further attempts after a failure, each on its own fuel.
  abbrev pub or_retry : {A : Type 0} → (Fetcher Bytes → Waited A) → Waited A → Waited A
  or_retry rest none = none
  or_retry rest (some (ok a, s)) = some (ok a, s)
  or_retry rest (some (fails e, s)) = rest s

  unfoldable pub wait_with : {A : Type 0} → ℕ → ℕ → Look A → Fetcher Bytes → Waited A
  unfolding wait_until_found
  wait_with zero fuel look s = wait_until_found fuel look s
  wait_with (suc retries) fuel look s =
      or_retry (wait_with retries fuel look) (wait_until_found fuel look s)

  unfoldable pub wait_for : {A : Type 0} → ℕ → Look A → Fetcher Bytes → Waited A
  unfolding wait_with
  wait_for = wait_with 5

  -- `waitForCachedBuffer`
  unfoldable pub wait_for_cached_buffer : Key → ℕ → Fetcher Bytes → Waited Bytes
  unfolding wait_until_found get_cached_buffer
  wait_for_cached_buffer key fuel = wait_until_found fuel (get_cached_buffer key)

  abbrev pub decoded :
      {A : Type 0}
      → (Bytes → A)
      → Answer E (Option Bytes) × Fetcher Bytes
      → Answer E (Option A) × Fetcher Bytes
  decoded decode (ok none, s) = (ok none, s)
  decoded decode (ok (some v), s) = (ok (some (decode v)), s)
  decoded decode (fails e, s) = (fails e, s)

  abbrev pub look_at : Bool → Key → Look Bytes
  look_at true key = get_cached_buffer key
  look_at false key = get_buffer key

  unfoldable pub wait_for_range_by_parent_number : ℤ → Bool → ℕ → Fetcher Bytes → Waited RangeMeta
  unfolding wait_for get_cached_buffer get_buffer
  wait_for_range_by_parent_number n cached fuel =
      wait_for fuel (λ s. decoded wire.decode_range (look_at cached (range_by_parent_block n) s))

  unfoldable pub wait_for_para_block_range : ℤ → Bool → ℕ → Fetcher Bytes → Waited BlockRange
  unfolding wait_for get_cached_buffer get_buffer
  wait_for_para_block_range n cached fuel =
      wait_for fuel (λ s. decoded wire.decode_json_range (look_at cached (range_para_key n) s))

  -- Which request is sent for headers: before the first para header is synched, the dry one.
  abbrev pub or_dry : Option Key → Key → Key
  or_dry none dry = dry
  or_dry (some k) dry = k

  unfoldable pub header_key : ℤ → RangeMeta → Key
  header_key para_header_sync_number meta =
      if eqb_ℤ para_header_sync_number (pos 1)
      then meta.dry_sync_header_req_key
      else or_dry meta.blob_sync_header_req_key meta.dry_sync_header_req_key

  -- A blob with the metadata that it was found by; the blob is null when the key has no value.
  abbrev pub with_meta :
      {M : Type 0} → M → Answer E (Option Bytes) × Fetcher Bytes → Waited (Option Bytes × M)
  with_meta meta (ok v, s) = some (ok (v, meta), s)
  with_meta meta (fails e, s) = some (fails e, s)

  abbrev pub then_blob : {M : Type 0} → (M → Key) → Waited M → Waited (Option Bytes × M)
  then_blob key_of none = none
  then_blob key_of (some (fails e, s)) = some (fails e, s)
  then_blob key_of (some (ok meta, s)) = with_meta meta (get_cached_buffer (key_of meta) s)

  -- `getHeaderBlob`
  unfoldable pub get_header_blob : ℤ → ℤ → ℤ → ℕ → Fetcher Bytes → Waited (Option Bytes × RangeMeta)
  unfolding wait_for_range_by_parent_number header_key get_cached_buffer
  get_header_blob n committed para_header_sync_number fuel s =
      then_blob (header_key para_header_sync_number)
        (wait_for_range_by_parent_number n (ltb_ℤ (pos 600) (committed -ℤ n)) fuel s)

  -- Which blocks are sent: all that a buffer has, if their headers are synched, or the one.
  abbrev pub buffer_or_dry : ℤ → ℤ → ℤ → Option Key → Key
  buffer_or_dry n synched last none = dry_para_block n
  buffer_or_dry n synched last (some k) = if leb_ℤ last synched then k else dry_para_block n

  unfoldable pub para_key : ℤ → ℤ → BlockRange → Key
  para_key n header_synched_to meta =
      buffer_or_dry n header_synched_to meta.last_block_number meta.buffer_key

  -- `getParaBlockBlob`. Setting `meta` on null is a TypeError, which is `type_error` here.
  abbrev pub set_meta : E → Waited (Option Bytes × BlockRange) → Waited (Bytes × BlockRange)
  set_meta type_error none = none
  set_meta type_error (some (fails e, s)) = some (fails e, s)
  set_meta type_error (some (ok (none, meta), s)) = some (fails type_error, s)
  set_meta type_error (some (ok (some v, meta), s)) = some (ok (v, meta), s)

  unfoldable pub get_para_block_blob :
      E → ℤ → ℤ → ℤ → ℕ → Fetcher Bytes → Waited (Bytes × BlockRange)
  unfolding wait_for_para_block_range para_key get_cached_buffer
  get_para_block_blob type_error n header_synched_to committed fuel s = set_meta type_error (
      then_blob (para_key n header_synched_to) (
        wait_for_para_block_range n
          (ltb_ℤ (pos 300) (committed -ℤ n) && ltb_ℤ (pos 300) (committed -ℤ header_synched_to))
          fuel s))
