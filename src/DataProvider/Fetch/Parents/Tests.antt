-- ===== src/DataProvider/Fetch/Parents/Tests.antt =====
-- A parent chain whose node fails each first attempt, and two targets.
use runtime_bridge.Prelude.{
  if◌then◌else◌, ℕ, ◌+◌, ◌==◌, ◌≡◌, refl, true, false, Option, none, some, [], ◌∷◌, ==_iff, arith,
}
use runtime_bridge.DataProvider.Fetch.{
  Headers, done, StoredParent, Blocks, walk_parent_block_once, get_parent_block_existence,
  set_parent_block,
}
use runtime_bridge.DataProvider.Fetch.Parents.{
  Encodings, ParentAnswer, frnk, last_frnk, process_parent_block, try_parent_block,
  walk_parent_block, iterate, iterate_parents,
}
use runtime_bridge.DataProvider.Fetch.Parents.Rounds.{IsIterated}
use runtime_bridge.DataProvider.Fetch.Parents.Stored.{
  AreStored, IsFetched, iterate_parents-AreStored,
}

abbrev numbers : Headers
numbers = record {
  Bytes = ℕ;
  Hash = ℕ;
  eqb_hash = λ a b. a == b;
  blake2 = λ h. h + 100;
  parent_hash = λ h. h + 99;
  eqb_hash_eq = λ a b e. (==_iff a b).0 e;
}

abbrev encodings : Encodings numbers
encodings = record {
  is_some = λ o. elim o [ none ↦ false | some j ↦ true ];
  header_to_sync = λ h j. h;
  authority_set_change = λ set_id list. set_id + list;
}

-- Of two justifications, the one of GRANDPA counts.
abbrev answer : ℕ → ParentAnswer numbers
answer n = record {
  hash = n + 100;
  header = n;
  set_id = 5;
  para_number = 0;
  para_proof = 0;
  justifications = some ((1, 7) ∷ (frnk, 8) ∷ []);
  authorities = some 30;
}

abbrev attempts : ℕ → ℕ → Option (ParentAnswer numbers)
attempts n i = if i == 0 then none else some (answer n)

abbrev stored : ℕ → StoredParent numbers
stored n = record {
  number = n;
  hash = n + 100;
  header = n;
  set_id = 5;
  has_justification = true;
  para_number = 0;
  sync_header_data = n;
  authority_set_change = some 35;
  para_proof = 0;
}

abbrev empty : Blocks numbers
empty = record {
  paras = λ m. none;
  para_written = λ m. false;
  parents = λ m. none;
  parent_written = λ m. false;
}

fetches_two :
    iterate_parents numbers encodings attempts (10 ∷ 10 ∷ 11 ∷ []) 10 empty
    ≡ done (
      12,
      set_parent_block numbers 11 (stored 11) (set_parent_block numbers 10 (stored 10) empty),
    )
unfolding iterate_parents iterate walk_parent_block try_parent_block walk_parent_block_once
    process_parent_block last_frnk get_parent_block_existence set_parent_block
fetches_two = refl

second_attempt : (n : ℕ) → IsFetched numbers encodings 3 n (attempts n)
unfolding process_parent_block last_frnk
second_attempt n = (1, omega arith, stored n, refl)

iterate_parents-AreStored_example :
    IsIterated
      (AreStored numbers encodings attempts 10 empty)
      (10 ∷ 10 ∷ 11 ∷ [])
      10
      (iterate_parents numbers encodings attempts (10 ∷ 10 ∷ 11 ∷ []) 10 empty)
iterate_parents-AreStored_example =
    iterate_parents-AreStored numbers encodings attempts 10 empty (10 ∷ 10 ∷ 11 ∷ []) second_attempt
