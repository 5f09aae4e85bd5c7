-- ===== src/Lifecycle/Operator/Tests.antt =====
-- A toy cipher that adds its keys, and an operator's pair that is stored and read with it.
use runtime_bridge.Prelude.{ℕ, ◌+◌, ◌-◌, ◌≡◌, refl, ap, some, arith}
use runtime_bridge.Lifecycle.Operator.{
  Envelope, Crypto, PoolKey, loaded, set_operator, decrypt_operator_key, IsRead,
  set_operator-get_operator,
}

-- A pair that was read is the pair with its flag 1, for a pair that is locked.
abbrev toy : Crypto
toy = record {
  Bytes = ℕ;
  Column = Envelope ℕ;
  Pair = ℕ × ℕ;
  Json = ℕ;
  public_encrypt = λ seed key. key + 1000;
  private_decrypt = λ c. some (c - 1000);
  cipher = λ key iv m. m + (key + iv);
  decipher = λ key iv c. some (c - (key + iv));
  encode = λ e. e;
  decode = λ e. some e;
  stringify = λ j. j;
  parse = λ t. some t;
  to_json = λ pair. pair.0;
  add_from_json = λ json. (json, 1);
  private-public = λ seed key. ap (λ n. some n) (omega arith);
  decipher-cipher = λ key iv m. ap (λ n. some n) (omega arith);
  decode-encode = λ e. refl;
  parse-stringify = λ j. refl;
}

abbrev row : PoolKey toy
row = set_operator toy 3 40 5 (77, 0)

set_operator-get_operator_example :
    IsRead toy row (77, 0) row
    × ((after : PoolKey toy) × (after.encrypted_operator ≡ row.encrypted_operator)
        × IsRead toy (loaded toy row.encrypted_operator) (77, 1) after
        × IsRead toy after (77, 1) after)
set_operator-get_operator_example = set_operator-get_operator toy 3 40 5 (77, 0)

reads_sealed :
    decrypt_operator_key toy (loaded toy (record { iv = 3; key = 1040; payload = 120 }))
    ≡ some (
      (77, 1),
      record {
        encrypted_operator = record { iv = 3; key = 1040; payload = 120 };
        decrypted_operator_key = some (77, 1);
      },
    )
unfolding decrypt_operator_key
reads_sealed = refl
