-- ===== src/DataProvider/Fetch/Parents.antt =====
-- src/data_provider/block.js and fetch_block.ts, the parent chain: what is made of a parent block, the
-- attempts to fetch it, and the loop that fetches up to the finalized block. What the node answers,
-- in each attempt, is a parameter, and so are the encodings of the chain's types.
pub mod Rounds
pub mod Stored
pub mod Tests
use runtime_bridge.Prelude.{
  ℕ, zero, suc, ◌+◌, ◌==◌, Bool, true, false, Option, none, some, List, [], ◌∷◌, leb, if◌then◌else◌,
}
use runtime_bridge.DataProvider.Fetch.{
  Headers, Ended, done, exits, rejects, StoredParent, Blocks, walk_parent_block_once,
}

-- FRNK, the engine of GRANDPA's justifications
abbrev pub frnk : ℕ
frnk = 0x46524e4b

-- `new JustificationToSync(…).isSome`, 'HeaderToSync' and 'AuthoritySetChange'
pub record Encodings (headers : Headers) : Type 0 where
  pub is_some : Option headers.Bytes → Bool
  pub header_to_sync : headers.Bytes → Option headers.Bytes → headers.Bytes
  pub authority_set_change : ℕ → headers.Bytes → headers.Bytes

-- The node's answers of one attempt; the list of authorities is asked for only with a justification,
-- and may fail.
pub record ParentAnswer (headers : Headers) : Type 0 where
  pub hash : headers.Hash
  pub header : headers.Bytes
  pub set_id : ℕ
  pub para_number : ℕ
  pub para_proof : headers.Bytes
  pub justifications : Option (List (ℕ × headers.Bytes))
  pub authorities : Option headers.Bytes

module _ (headers : Headers) (encodings : Encodings headers) where
  open headers use {Bytes}

  -- The `reduce` over the justifications; `none` is '0x'.
  unfoldable pub last_frnk : List (ℕ × Bytes) → Option Bytes → Option Bytes
  last_frnk [] acc = acc
  last_frnk ((engine, j) ∷ js) acc = last_frnk js (if engine == frnk then some j else acc)

  -- `justification`, which is undefined when the block has none
  abbrev pub justification_of : Option (List (ℕ × Bytes)) → Option (Option Bytes)
  justification_of none = none
  justification_of (some js) = some (last_frnk js none)

  abbrev pub has_justification : Option (Option Bytes) → Bool
  has_justification none = false
  has_justification (some j) = encodings.is_some j

  abbrev pub given : Option (Option Bytes) → Option Bytes
  given none = none
  given (some j) = j

  abbrev pub parent_block :
      ℕ → ParentAnswer headers → Option (Option Bytes) → Option Bytes → StoredParent headers
  parent_block n a j change = record {
    number = n;
    hash = a.hash;
    header = a.header;
    set_id = a.set_id;
    has_justification = has_justification j;
    para_number = a.para_number;
    sync_header_data = encodings.header_to_sync a.header (given j);
    authority_set_change = change;
    para_proof = a.para_proof;
  }

  abbrev pub with_authorities :
      ℕ
      → ParentAnswer headers
      → Option (Option Bytes)
      → Option Bytes
      → Option (StoredParent headers)
  with_authorities n a j none = none
  with_authorities n a j (some list) =
      some (parent_block n a j (some (encodings.authority_set_change a.set_id list)))

  -- `processParentBlock`
  unfoldable pub process_parent_block :
      ℕ → Option (ParentAnswer headers) → Option (StoredParent headers)
  unfolding last_frnk
  process_parent_block n none = none
  process_parent_block n (some a) =
      let j = justification_of a.justifications in
      if has_justification j
      then with_authorities n a j a.authorities
      else some (parent_block n a j none)

  -- `walkParentBlock`: up to four attempts.
  abbrev pub or_another : Ended (Blocks headers) → Ended (Blocks headers) → Ended (Blocks headers)
  or_another (done db) rest = done db
  or_another (exits c) rest = exits c
  or_another rejects rest = rest

  unfoldable pub try_parent_block :
      ℕ → ℕ → Blocks headers → (ℕ → Option (ParentAnswer headers)) → Ended (Blocks headers)
  unfolding process_parent_block walk_parent_block_once
  try_parent_block zero n db attempts =
      walk_parent_block_once headers n db (process_parent_block n (attempts 0))
  try_parent_block (suc retries) n db attempts =
      or_another (walk_parent_block_once headers n db (process_parent_block n (attempts 0)))
        (try_parent_block retries n db (λ i. attempts (suc i)))

  unfoldable pub walk_parent_block :
      ℕ → Blocks headers → (ℕ → Option (ParentAnswer headers)) → Ended (Blocks headers)
  unfolding try_parent_block
  walk_parent_block = try_parent_block 3

-- `updateParentTarget` and `updateParaTarget`: the last head with its number, and a new head.
abbrev pub update_target : Option (ℕ × ℕ) → ℕ × ℕ → Option (ℕ × ℕ)
update_target none (hash, number) = some (hash, number)
update_target (some (last, target)) (hash, number) =
    if hash == last then some (last, target) else some (hash, number)

abbrev pub then_iterate : {S : Type 0} → (S → Ended (ℕ × S)) → Ended S → Ended (ℕ × S)
then_iterate rest (done s) = rest s
then_iterate rest (exits c) = exits c
then_iterate rest rejects = rejects

module _ {S : Type 0} (queue_fn : ℕ → S → Ended S) where
  -- `iterate`, over the targets that its rounds see; the number is the next one, `curr + 1`.
  unfoldable pub iterate : List ℕ → ℕ → S → Ended (ℕ × S)
  iterate [] n s = done (n, s)
  iterate (target ∷ targets) n s =
      let waits = iterate targets n s in
      let goes_on = then_iterate (iterate targets (n + 1)) (queue_fn n s) in
      if leb n target then goes_on else waits

-- The loop of `start` for the parent chain.
unfoldable pub iterate_parents :
    (headers : Headers)
    → Encodings headers
    → (ℕ → ℕ → Option (ParentAnswer headers))
    → List ℕ
    → ℕ
    → Blocks headers
    → Ended (ℕ × Blocks headers)
unfolding iterate walk_parent_block
iterate_parents headers encodings attempts =
    iterate (λ n db. walk_parent_block headers encodings n db (attempts n))
