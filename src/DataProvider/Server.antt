-- ===== src/DataProvider/Server.antt =====
-- src/data_provider/io/server.js, the blob server: a request is 8 bytes that identify it and a key,
-- a reply is these 8 bytes with, if the key has a value, a checksum and the value. Bytes are numbers.
-- The checksum is a parameter, and so is the text of keys, with what `utf8` and `trim` do to it.
use runtime_bridge.Prelude.{
  ℕ, ◌≡◌, ◌<◌, Option, none, some, List, [], ◌∷◌, ◌++◌, length, take, drop, ltb, if◌then◌else◌,
}
use Prim.Native.Nat.{◌/◌, ◌%◌, ◌^◌}

-- The keys of the database, which are not empty and have no blank at their ends.
pub record Keys : Type 1 where
  pub Name : Type 0
  pub utf8 : Name → List ℕ
  pub trimmed : List ℕ → Name  -- `.toString('utf8').trim()`
  pub utf8_some : (k : Name) → 0 < length (utf8 k)
  pub trimmed_utf8 : (k : Name) → trimmed (utf8 k) ≡ k

-- What `db.get` of the server's own database settles with.
pub data Lookup : Type 0 where
  found : List ℕ → Lookup
  not_found failed : Lookup

module _ (crc32c : List ℕ → ℕ) where
  -- `crc32cBuffer` of src/utils/crc.ts: the checksum, big-endian in 8 bytes.
  abbrev byte : ℕ → ℕ → ℕ
  byte n i = n / 256 ^ i % 256

  unfoldable pub crc32c_buffer : List ℕ → List ℕ
  crc32c_buffer input =
      let n = crc32c input in
      byte n 7 ∷ byte n 6 ∷ byte n 5 ∷ byte n 4 ∷ byte n 3 ∷ byte n 2 ∷ byte n 1 ∷ byte n 0 ∷ []

  -- What is written for what was looked up.
  unfoldable pub reply : List ℕ → Lookup → List ℕ
  unfolding crc32c_buffer
  reply id (found []) = id
  reply id (found (b ∷ bs)) = id ++ crc32c_buffer (b ∷ bs) ++ (b ∷ bs)
  reply id not_found = id
  reply id failed = id

  -- The `data` handler of `localServer`; `none` is a message that gets no reply.
  unfoldable pub on_request : (keys : Keys) → (keys.Name → Lookup) → List ℕ → Option (List ℕ)
  unfolding reply
  on_request keys db message =
      if ltb (length message) 9
      then none
      else some (reply (take 8 message) (db (keys.trimmed (drop 8 message))))
