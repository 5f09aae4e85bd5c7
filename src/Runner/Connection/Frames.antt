-- ===== src/Runner/Connection/Frames.antt =====
-- ptp.ts and server.js: a reply that the server writes is read back as the value that it was for.
use runtime_bridge.Prelude.{
  ℕ, ◌≡◌, ◌<◌, ◌≤◌, refl, sym, ap, ◌∙◌, true, false, Option, none, some, List, [], ◌∷◌, ◌++◌,
  append_assoc, append-nil, length, length-append, take, drop, take-append, drop-append, arith, ltb,
  lt→ltb,
}
use runtime_bridge.DataProvider.Server.{
  Keys, Lookup, found, not_found, failed, crc32c_buffer, reply, on_request,
}
use runtime_bridge.Runner.Connection.{resolved, eqb_bytes, read_reply}

pub leb→ltb : (a b : ℕ) → b ≤ a → ltb a b ≡ false
leb→ltb a b h = ground arith

pub eqb_bytes_refl : (xs : List ℕ) → eqb_bytes xs xs ≡ true
eqb_bytes_refl [] = refl
eqb_bytes_refl (x ∷ xs) = ground (arith, eqb_bytes_refl xs)

pub eqb_bytes-eq : (xs ys : List ℕ) → eqb_bytes xs ys ≡ true → xs ≡ ys
eqb_bytes-eq [] [] h = refl
eqb_bytes-eq (x ∷ xs) (y ∷ ys) h = ground (arith, eqb_bytes-eq xs ys)
eqb_bytes-eq [] (y ∷ ys) h = cc
eqb_bytes-eq (x ∷ xs) [] h = cc

-- The parts of a reply with a value.
module _ (id crc bytes : List ℕ) (id_8 : length id ≡ 8) (crc_8 : length crc ≡ 8) where
  length-frame : length (id ++ crc) ≡ 16
  length-frame = omega (arith, length-append id crc)

  frame-long : 0 < length bytes → ltb (length (id ++ crc ++ bytes)) 17 ≡ false
  frame-long h = leb→ltb _ _ (omega (arith, length-append (id ++ crc) bytes, length-frame))

  frame-crc : take 8 (drop 8 (id ++ crc ++ bytes)) ≡ crc
  frame-crc =
      ap (take 8) (ap (drop 8) (append_assoc id crc bytes) ∙ drop-append 8 id (crc ++ bytes) id_8)
      ∙ take-append 8 crc bytes crc_8

  frame-bytes : drop 16 (id ++ crc ++ bytes) ≡ bytes
  frame-bytes = drop-append 16 (id ++ crc) bytes length-frame

-- The value that a look-up has found.
abbrev pub value_of : Lookup → Option (List ℕ)
value_of (found []) = none
value_of (found (b ∷ bs)) = some (b ∷ bs)
value_of not_found = none
value_of failed = none

-- A value that is not empty.
abbrev pub IsValue : Option (List ℕ) → Type 0
IsValue none = Unit
IsValue (some bytes) = 0 < length bytes

pub value_of-IsValue : (l : Lookup) → IsValue (value_of l)
value_of-IsValue (found []) = tt
value_of-IsValue (found (b ∷ bs)) = omega arith
value_of-IsValue not_found = tt
value_of-IsValue failed = tt

module _ (crc32c : List ℕ → ℕ) where
  -- What is written for a value.
  abbrev pub reply_with : List ℕ → Option (List ℕ) → List ℕ
  reply_with id none = id
  reply_with id (some bytes) = id ++ crc32c_buffer crc32c bytes ++ bytes

  pub reply_lem : (id : List ℕ) (l : Lookup) → reply crc32c id l ≡ reply_with id (value_of l)
  unfolding reply
  reply_lem id (found []) = refl
  reply_lem id (found (b ∷ bs)) = refl
  reply_lem id not_found = refl
  reply_lem id failed = refl

  length-crc32c_buffer : (bytes : List ℕ) → length (crc32c_buffer crc32c bytes) ≡ 8
  unfolding crc32c_buffer
  length-crc32c_buffer bytes = refl

  pub read_reply-reply_with :
      (id : List ℕ) (v : Option (List ℕ))
      → length id ≡ 8
      → IsValue v
      → read_reply crc32c (reply_with id v) ≡ resolved v
  unfolding read_reply
  read_reply-reply_with id none e h = rw (lt→ltb (length id) 17 (omega arith))
  read_reply-reply_with id (some bytes) e h =
      let crc = crc32c_buffer crc32c bytes in
      rw (
        frame-long id crc bytes e (length-crc32c_buffer bytes) h,
        frame-crc id crc bytes e (length-crc32c_buffer bytes),
        frame-bytes id crc bytes e (length-crc32c_buffer bytes),
        eqb_bytes_refl crc,
      )

  pub take-reply_with :
      (id : List ℕ) (v : Option (List ℕ)) → length id ≡ 8 → take 8 (reply_with id v) ≡ id
  take-reply_with id none e = ap (take 8) (sym (append-nil id)) ∙ take-append 8 id [] e
  take-reply_with id (some bytes) e =
      ap (take 8) (append_assoc id (crc32c_buffer crc32c bytes) bytes) ∙ take-append 8 id _ e

  pub length-reply_with :
      (id : List ℕ) (v : Option (List ℕ)) → length id ≡ 8 → ltb (length (reply_with id v)) 8 ≡ false
  length-reply_with id none e = leb→ltb _ 8 (omega arith)
  length-reply_with id (some bytes) e = leb→ltb _ 8 (
      omega (
        arith,
        length-append (id ++ crc32c_buffer crc32c bytes) bytes,
        length-append id (crc32c_buffer crc32c bytes),
      ))

  -- The server's reply to a message that a `get` has written.
  pub on_request-utf8 :
      (keys : Keys) (db : keys.Name → Lookup) (id : List ℕ) (k : keys.Name)
      → length id ≡ 8
      → on_request crc32c keys db (id ++ keys.utf8 k) ≡ some (reply_with id (value_of (db k)))
  unfolding on_request
  on_request-utf8 keys db id k e = rw (
    leb→ltb (length (id ++ keys.utf8 k)) 9
        (omega (arith, length-append id (keys.utf8 k), keys.utf8_some k)),
    take-append 8 id (keys.utf8 k) e,
    drop-append 8 id (keys.utf8 k) e,
    keys.trimmed_utf8 k,
    reply_lem id (db k),
  )
