-- ===== src/Lifecycle/Operator.antt =====
-- src/lifecycle/local_db/pool_model.ts: the operator's key pair in a row of a pool, which is stored
-- under a random key that is itself encrypted for this peer. The ciphers, JSON, protocol buffers and
-- the keyring are a parameter, with the laws that what is encrypted or encoded comes back; random
-- bytes are arguments.
pub mod Tests
use runtime_bridge.Prelude.{◌≡◌, refl, ap, ◌∙◌, Option, none, some, ◌>>=◌}

-- EncPb
pub record Envelope (Bytes : Type 0) : Type 0 where
  pub iv : Bytes
  pub key : Bytes
  pub payload : Bytes

-- `publicEncrypt` is randomised by its first argument; keys are those of `Pool.myId`.
pub record Crypto : Type 1 where
  pub Bytes : Type 0
  pub Column : Type 0
  pub Pair : Type 0
  pub Json : Type 0
  pub public_encrypt : Bytes → Bytes → Bytes
  pub private_decrypt : Bytes → Option Bytes
  pub cipher : Bytes → Bytes → Bytes → Bytes
  pub decipher : Bytes → Bytes → Bytes → Option Bytes
  pub encode : Envelope Bytes → Column
  pub decode : Column → Option (Envelope Bytes)
  pub stringify : Json → Bytes
  pub parse : Bytes → Option Json
  pub to_json : Pair → Json
  pub add_from_json : Json → Pair
  pub private-public : (seed key : Bytes) → private_decrypt (public_encrypt seed key) ≡ some key
  pub decipher-cipher : (key iv m : Bytes) → decipher key iv (cipher key iv m) ≡ some m
  pub decode-encode : (e : Envelope Bytes) → decode (encode e) ≡ some e
  pub parse-stringify : (j : Json) → parse (stringify j) ≡ some j

module _ (crypto : Crypto) where
  open crypto use {Bytes, Column, Pair, Json}

  -- The column `encryptedOperator`, and `#_decryptedOperatorKey`.
  pub record PoolKey : Type 0 where
    pub encrypted_operator : Column
    pub decrypted_operator_key : Option Pair

  -- A row as it is read from the database.
  abbrev pub loaded : Column → PoolKey
  loaded column = record { encrypted_operator = column; decrypted_operator_key = none }

  -- `set operator`
  unfoldable pub set_operator : Bytes → Bytes → Bytes → Pair → PoolKey
  set_operator iv raw_key seed pair = record {
    encrypted_operator = crypto.encode (record {
      iv = iv;
      key = crypto.public_encrypt seed raw_key;
      payload = crypto.cipher raw_key iv (crypto.stringify (crypto.to_json pair));
    });
    decrypted_operator_key = some pair;
  }

  abbrev pub opened : Envelope Bytes → Option Pair
  opened e = crypto.private_decrypt e.key >>= λ raw_key.
      crypto.decipher raw_key e.iv e.payload >>= λ text.
      crypto.parse text >>= λ json. some (crypto.add_from_json json)

  -- `decryptOperatorKey`
  unfoldable pub decrypt_operator_key : PoolKey → Option (Pair × PoolKey)
  decrypt_operator_key p = crypto.decode p.encrypted_operator >>= opened >>= λ pair.
      some (pair, record p { decrypted_operator_key = some pair })

  abbrev pub or_decrypt : PoolKey → Option Pair → Option (Pair × PoolKey)
  or_decrypt p none = decrypt_operator_key p
  or_decrypt p (some pair) = some (pair, p)

  -- `get operator`
  unfoldable pub get_operator : PoolKey → Option (Pair × PoolKey)
  unfolding decrypt_operator_key
  get_operator p = or_decrypt p p.decrypted_operator_key

  opened-sealed :
      (iv raw_key seed : Bytes) (pair : Pair)
      → opened (record {
        iv = iv;
        key = crypto.public_encrypt seed raw_key;
        payload = crypto.cipher raw_key iv (crypto.stringify (crypto.to_json pair));
      })
        ≡ some (crypto.add_from_json (crypto.to_json pair))
  opened-sealed iv raw_key seed pair =
      rw
        (
          crypto.private-public seed raw_key,
          crypto.decipher-cipher raw_key iv (crypto.stringify (crypto.to_json pair)),
          crypto.parse-stringify (crypto.to_json pair),
        )
        refl

  -- What `get operator` gives.
  pub IsRead : PoolKey → Pair → PoolKey → Type 0
  IsRead p pair after = get_operator p ≡ some (pair, after)

  -- For any random bytes: an operator that was set is read as it is, with no change to the row. A
  -- row that is loaded with the stored column gives the pair that the keyring makes of its JSON, and
  -- keeps it, so that the next read gives the same with no change; its column stays as it is.
  pub set_operator-get_operator :
      (iv raw_key seed : Bytes) (pair : Pair)
      → IsRead (set_operator iv raw_key seed pair) pair (set_operator iv raw_key seed pair)
        × ((after : PoolKey) × (after.encrypted_operator
              ≡ (set_operator iv raw_key seed pair).encrypted_operator)
            × IsRead
                (loaded (set_operator iv raw_key seed pair).encrypted_operator)
                (crypto.add_from_json (crypto.to_json pair))
                after
            × IsRead after (crypto.add_from_json (crypto.to_json pair)) after)
  unfolding IsRead get_operator set_operator decrypt_operator_key
  set_operator-get_operator iv raw_key seed pair = (
    refl,
    (
      record {
        encrypted_operator = (set_operator iv raw_key seed pair).encrypted_operator;
        decrypted_operator_key = some (crypto.add_from_json (crypto.to_json pair));
      },
      refl,
      rw (crypto.decode-encode _, opened-sealed iv raw_key seed pair) refl,
      refl,
    ),
  )
