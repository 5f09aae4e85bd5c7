-- ===== src/Runner/Workers/Status.antt =====
-- index.ts, updateDataProviderInfoLoop: what the runner knows of the data providers' progress. Each
-- round asks a data provider, which may be another one and may lag behind.
use runtime_bridge.Prelude.{
  ℕ, ◌≡◌, refl, Option, none, some, List, [], ◌∷◌, leb, if◌then◌else◌, arith,
}

-- `prb.data_provider.Info`
pub record Info : Type 0 where
  pub blob_server_port : ℕ
  pub parent_processed_height : ℕ
  pub parent_committed_height : ℕ
  pub para_processed_height : ℕ
  pub para_committed_height : ℕ

-- A round: no data provider is chosen, the dial throws, its response is an error, or an answer.
pub data Round : Type 0 where
  no_peer dial_throws has_error : Round
  answered : Info → Round

-- `updateDataProviderInfo`, where an error that is caught counts as null.
abbrev pub update_data_provider_info : Round → Option Info
update_data_provider_info no_peer = none
update_data_provider_info dial_throws = none
update_data_provider_info has_error = none
update_data_provider_info (answered info) = some info

-- What a round makes of `context.fetchStatus`.
abbrev pub merge_info : Option Info → Option Info → Option Info
merge_info none status = status
merge_info (some info) none = some info
merge_info (some info) (some status) =
    if leb status.para_processed_height info.para_processed_height then some info else some status

unfoldable pub update_info_rounds : List Round → Option Info → Option Info
update_info_rounds [] status = status
update_info_rounds (r ∷ rs) status =
    update_info_rounds rs (merge_info (update_data_provider_info r) status)

-- The best answer of all: the later one, unless it is behind.
abbrev pub or_later : Info → Option Info → Info
or_later info none = info
or_later info (some later) =
    if leb info.para_processed_height later.para_processed_height then later else info

abbrev pub or_better : Option Info → Option Info → Option Info
or_better none later = later
or_better (some info) later = some (or_later info later)

pub best_answer : List Round → Option Info
best_answer [] = none
best_answer (r ∷ rs) = or_better (update_data_provider_info r) (best_answer rs)

or_later_assoc :
    (a b : Info) (o : Option Info)
    → or_better (merge_info (some b) (some a)) o ≡ some (or_later a (some (or_later b o)))
or_later_assoc a b none = ground arith
or_later_assoc a b (some c) = ground arith

or_better-merge :
    (status new later : Option Info)
    → or_better (merge_info new status) later ≡ or_better status (or_better new later)
or_better-merge none none later = refl
or_better-merge none (some b) later = refl
or_better-merge (some a) none later = refl
or_better-merge (some a) (some b) later = or_later_assoc a b later

rounds_from :
    (rounds : List Round) (status : Option Info)
    → update_info_rounds rounds status ≡ or_better status (best_answer rounds)
unfolding update_info_rounds best_answer
rounds_from [] none = refl
rounds_from [] (some a) = refl
rounds_from (r ∷ rs) status =
    rw (rounds_from rs (merge_info (update_data_provider_info r) status))
      (or_better-merge status (update_data_provider_info r) (best_answer rs))

-- After any rounds, the status is the answer with the greatest height of processed para blocks, and
-- of those with that height the last; it is undefined when no round was answered.
pub update_info_rounds-best_answer :
    (rounds : List Round) → update_info_rounds rounds none ≡ best_answer rounds
update_info_rounds-best_answer rounds = rounds_from rounds none
