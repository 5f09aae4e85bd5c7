-- ===== src/Runner/Blob/Served.antt =====
-- blob.ts against a data provider that serves one database: what synching gets.
use runtime_bridge.Prelude.{
  ℕ, zero, suc, ◌+◌, ◌≡◌, refl, sym, ap, subst, ◌∙◌, Bool, true, false, not, ◌&&◌, Option, none,
  some, if_cases,
}
use runtime_bridge.Prelude.Int.{ℤ}
use runtime_bridge.DataProvider.Store.{
  Key, Key-discrete, range_by_parent_block, range_para_key, Wire, put, put_self, put_ne,
}
use runtime_bridge.DataProvider.Window.{Db}
use runtime_bridge.Runner.Sync.{Answer, ok}
use runtime_bridge.Runner.Blob.{
  Provider, Fetcher, get_buffer, remember, from_cache, get_cached_buffer, Waited, after_look,
  wait_until_found, or_retry, wait_with, wait_for, decoded, look_at,
  wait_for_range_by_parent_number, wait_for_para_block_range, header_key, with_meta, then_blob,
  get_header_blob, para_key, set_meta, get_para_block_blob,
}

module _ (wire : Wire) {E : Type 0} (p : Provider E wire.Bytes) (db : Db wire) where
  open wire use {Bytes}

  -- Each look of the data provider finds what the database has, and so does the cache.
  unfoldable pub IsServing : Type 0
  IsServing = (i : ℕ) (k : Key) → p.answer i k ≡ ok (db k)

  unfoldable pub IsFresh : Fetcher Bytes → Type 0
  IsFresh s = (k : Key) (v : Bytes) → s.cache k ≡ some v → db k ≡ some v

  abbrev Serves : Key → Answer E (Option Bytes) × Fetcher Bytes → Type 0
  Serves k r = (s : Fetcher Bytes) × (r ≡ (ok (db k), s)) × IsFresh s

  put-IsFresh :
      (k : Key) (v : Bytes) (s : Fetcher Bytes) (i : ℕ)
      → db k ≡ some v
      → IsFresh s
      → IsFresh (record { cache = put k v s.cache; looks = i })
  unfolding IsFresh
  put-IsFresh k v s i e h j x q = elim (Key-discrete j k) [
    | yes t ↦ ap db t ∙ e ∙ sym (put_self k v s.cache) ∙ sym (ap (put k v s.cache) t) ∙ q
    | no t ↦ h j x (sym (put_ne k j v s.cache t) ∙ q)
  ]

  remember-Serves :
      (k : Key) (o : Option Bytes) (s : Fetcher Bytes)
      → db k ≡ o
      → IsFresh s
      → Serves k (remember wire p k (ok o, s))
  remember-Serves k none s e h = (s, ap (λ o. (ok o, s)) (sym e), h)
  remember-Serves k (some v) s e h =
      if_cases (Serves k) p.disable_lru (λ t. (s, ap (λ o. (ok o, s)) (sym e), h))
        (λ t.
          let kept = record s { cache = put k v s.cache } in
          (kept, ap (λ o. (ok o, kept)) (sym e), put-IsFresh k v s s.looks e h))

  get_buffer-Serves :
      (k : Key) (s : Fetcher Bytes) → IsServing → IsFresh s → Serves k (get_buffer wire p k s)
  unfolding get_buffer IsServing IsFresh
  get_buffer-Serves k s v h =
      let looked = record s { looks = s.looks + 1 } in
      (looked, ap (λ a. (a, looked)) (v s.looks k), h)

  looked-Serves :
      (k : Key) (s : Fetcher Bytes)
      → IsServing
      → IsFresh s
      → Serves k (remember wire p k (get_buffer wire p k s))
  looked-Serves k s v h =
      let r = get_buffer-Serves k s v h in
      subst (λ x. Serves k (remember wire p k x)) (sym r.1) (remember-Serves k (db k) r.0 refl r.2)

  from_cache-Serves :
      (k : Key) (o : Option Bytes) (s : Fetcher Bytes)
      → s.cache k ≡ o
      → IsServing
      → IsFresh s
      → Serves k (from_cache wire p k o s)
  unfolding IsFresh
  from_cache-Serves k none s e v h = looked-Serves k s v h
  from_cache-Serves k (some x) s e v h = (s, ap (λ o. (ok o, s)) (sym (h k x e)), h)

  get_cached_buffer-Serves :
      (k : Key) (s : Fetcher Bytes)
      → IsServing
      → IsFresh s
      → Serves k (get_cached_buffer wire p k s)
  unfolding get_cached_buffer
  get_cached_buffer-Serves k s v h =
      if_cases (Serves k) (not p.disable_lru && p.keeps s.looks k)
        (λ t. from_cache-Serves k (s.cache k) s refl v h) (λ t. looked-Serves k s v h)

  look_at-Serves :
      (cached : Bool) (k : Key) (s : Fetcher Bytes)
      → IsServing
      → IsFresh s
      → Serves k (look_at wire p cached k s)
  look_at-Serves true k s v h = get_cached_buffer-Serves k s v h
  look_at-Serves false k s v h = get_buffer-Serves k s v h

  -- A wait for a key that the database has ends at the first look.
  abbrev pub Finds : {A : Type 0} → A → Waited wire p A → Type 0
  Finds {A} a r = (s : Fetcher Bytes) × (r ≡ some (ok a, s)) × IsFresh s

  after_look-found :
      {A : Type 0} (decode : Bytes → A) (rest : Fetcher Bytes → Waited wire p A) (x : Bytes)
      (y : Answer E (Option Bytes) × Fetcher Bytes) (s : Fetcher Bytes)
      → y ≡ (ok (some x), s)
      → after_look wire p rest (decoded wire p decode y) ≡ some (ok (decode x), s)
  after_look-found decode rest x y s e =
      ap (λ z. after_look wire p rest (decoded wire p decode z)) e

  wait_with-Finds :
      {A : Type 0} (decode : Bytes → A) (retries fuel : ℕ) (cached : Bool) (k : Key) (x : Bytes)
      (s : Fetcher Bytes)
      → db k ≡ some x
      → IsServing
      → IsFresh s
      → Finds (decode x) (
          wait_with wire p retries
            (suc fuel)
            (λ t. decoded wire p decode (look_at wire p cached k t))
            s)
  unfolding wait_with wait_until_found
  wait_with-Finds decode zero fuel cached k x s e v h =
      let r = look_at-Serves cached k s v h in
      (r.0, after_look-found decode _ x _ r.0 (r.1 ∙ ap (λ o. (ok o, r.0)) e), r.2)
  wait_with-Finds decode (suc n) fuel cached k x s e v h =
      let r = look_at-Serves cached k s v h in
      (
        r.0,
        ap (or_retry wire p _) (after_look-found decode _ x _ r.0 (r.1 ∙ ap (λ o. (ok o, r.0)) e)),
        r.2,
      )

  then_blob-Finds :
      {M : Type 0} (key_of : M → Key) (meta : M) (r : Waited wire p M)
      → Finds meta r
      → IsServing
      → Finds (db (key_of meta), meta) (then_blob wire p key_of r)
  then_blob-Finds key_of meta r f v =
      let b = get_cached_buffer-Serves (key_of meta) f.0 v f.2 in
      (b.0, ap (then_blob wire p key_of) f.1 ∙ ap (with_meta wire p meta) b.1, b.2)

  pub get_header_blob-Finds :
      (n committed para : ℤ) (fuel : ℕ) (s : Fetcher Bytes) (x : Bytes)
      → db (range_by_parent_block n) ≡ some x
      → IsServing
      → IsFresh s
      → Finds
          (db (header_key wire p para (wire.decode_range x)), wire.decode_range x)
          (get_header_blob wire p n committed para (suc fuel) s)
  unfolding get_header_blob wait_for_range_by_parent_number wait_for
  get_header_blob-Finds n committed para fuel s x e v h =
      then_blob-Finds (header_key wire p para) (wire.decode_range x) _
        (wait_with-Finds wire.decode_range 5 fuel _ (range_by_parent_block n) x s e v h) v

  pub get_para_block_blob-Finds :
      (type_error : E) (n synched committed : ℤ) (fuel : ℕ) (s : Fetcher Bytes) (x b : Bytes)
      → db (range_para_key n) ≡ some x
      → db (para_key wire p n synched (wire.decode_json_range x)) ≡ some b
      → IsServing
      → IsFresh s
      → Finds
          (b, wire.decode_json_range x)
          (get_para_block_blob wire p type_error n synched committed (suc fuel) s)
  unfolding get_para_block_blob wait_for_para_block_range wait_for
  get_para_block_blob-Finds type_error n synched committed fuel s x b e f v h =
      let r =
        then_blob-Finds (para_key wire p n synched) (wire.decode_json_range x) _
          (wait_with-Finds wire.decode_json_range 5 fuel _ (range_para_key n) x s e v h) v in
      (
        r.0,
        ap (set_meta wire p type_error)
            (r.1 ∙ ap (λ o. some (ok (o, wire.decode_json_range x), r.0)) f),
        r.2,
      )
