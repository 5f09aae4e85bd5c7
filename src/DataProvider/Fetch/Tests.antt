-- ===== src/DataProvider/Fetch/Tests.antt =====
-- block.js and fetch_block.ts on a node with three blocks: a run, and the theorems applied to it.
use runtime_bridge.Prelude.{
  none-some, ℕ, ◌+◌, ◌≡◌, ◌≤◌, ◌<◌, refl, false, Option, none, some, inl, inr, ◌==◌, ==_iff, arith,
  if◌then◌else◌,
}
use runtime_bridge.DataProvider.Fetch.{
  Headers, StoredPara, Blocks, set_para_block, get_para_block, Attempt, Answer, done,
  process_para_block, walk_para_block_once, try_para_block, walk_para_block, iterate_para,
}
use runtime_bridge.DataProvider.Fetch.Links.{IsLinked, IsGapless}
use runtime_bridge.DataProvider.Fetch.Chain.{iterate_para-IsLinked}
use runtime_bridge.DataProvider.Fetch.Served.{IsServed, IsChain, iterate_para-IsDone}

-- The header of block `m` is `m`, and its hash `m + 100`.
abbrev numbers : Headers
numbers = record {
  Bytes = ℕ;
  Hash = ℕ;
  eqb_hash = λ a b. a == b;
  blake2 = λ h. h + 100;
  parent_hash = λ h. h + 99;
  eqb_hash_eq = λ a b e. (==_iff a b).0 e;
}

abbrev answers : ℕ → Answer numbers
answers m = record { hash = m + 100; header = m; dispatch_block_data = m }

-- The first attempt fails.
abbrev attempts : ℕ → ℕ → Attempt numbers
attempts m i = if i == 0 then none else some (answers m)

abbrev empty : Blocks numbers
empty = record {
  paras = λ m. none;
  para_written = λ m. false;
  parents = λ m. none;
  parent_written = λ m. false;
}

abbrev block : ℕ → StoredPara numbers
block m = record { number = m; hash = m + 100; header = m; dispatch_block_data = m }

abbrev fetched : Blocks numbers
fetched =
    set_para_block numbers 2 (block 2)
      (set_para_block numbers 1 (block 1) (set_para_block numbers 0 (block 0) empty))

runs : iterate_para numbers 3 0 none empty attempts ≡ done (some 102, fetched)
unfolding iterate_para walk_para_block try_para_block walk_para_block_once process_para_block
    get_para_block set_para_block
runs = refl

answers-IsChain : IsChain numbers answers
unfolding IsChain
answers-IsChain = (λ m. ground arith, λ m. ground arith)

answers-IsServed : (m : ℕ) → IsServed numbers 3 (attempts m) (answers m)
unfolding IsServed
answers-IsServed m = inr (refl, inl refl)

iterate_para-IsLinked_example :
    IsLinked numbers fetched × ((m : ℕ) → 0 ≤ m → m < 0 + 3 → ¬ (fetched.paras m ≡ none))
unfolding IsLinked IsGapless
iterate_para-IsLinked_example =
    iterate_para-IsLinked numbers 3 0 empty fetched (some 102) attempts
      (λ m b a le e. absurd (none-some e)) (λ m le e. refl) runs

iterate_para-IsDone_example :
    (l : Option ℕ) × (d : Blocks numbers) × (iterate_para numbers 3 0 none empty attempts
      ≡ done (l, d))
    × ((m : ℕ) → m < 3 → (b : StoredPara numbers) × (d.paras m ≡ some b) × (b.header ≡ m))
iterate_para-IsDone_example =
    iterate_para-IsDone numbers answers answers-IsChain 3 empty attempts (λ m. refl)
      (λ m lt. answers-IsServed m)
