-- ===== src/Runner/Connection.antt =====
-- src/lifecycle/runner/ptp.ts, LifecycleRunnerDataProviderConnection: requests for keys over a
-- connection to the blob server. The ids are random bytes, so they are arguments. A write that
-- fails is only logged, so it is left out, and so is the promise of the connection itself.
pub mod Served
pub mod Link
pub mod Frames
pub mod Tables
pub mod Answers
pub mod Tests
use runtime_bridge.Prelude.{
  ℕ, ◌==◌, ◌&&◌, Bool, true, false, not, Option, none, some, List, [], ◌∷◌, ◌++◌, map, length, take,
  drop, ltb, if◌then◌else◌,
}
use runtime_bridge.DataProvider.Server.{Keys, crc32c_buffer}

pub data Failure : Type 0 where
  timeout crc_mismatch connection_closed : Failure

-- How the promise of a `get` settles; `none` is null.
pub data Settlement : Type 0 where
  resolved : Option (List ℕ) → Settlement
  rejected : Failure → Settlement

-- `remoteCrc.compare(localCrc) === 0`, and the equality of ids.
abbrev pub eqb_bytes : List ℕ → List ℕ → Bool
eqb_bytes [] [] = true
eqb_bytes (x ∷ xs) (y ∷ ys) = x == y && eqb_bytes xs ys
eqb_bytes [] (y ∷ ys) = false
eqb_bytes (x ∷ xs) [] = false

-- `responseCtx`, less its two callbacks
pub record Request (Name : Type 0) : Type 0 where
  pub id : List ℕ
  pub key : Name

-- `outcomes` are the calls of the callbacks in their order; of those of one request, the first
-- settles its promise and the others do nothing.
pub record Connection (Name : Type 0) : Type 0 where
  pub closed : Bool
  pub response_map : List (Request Name)
  pub outcomes : List (Request Name × Settlement)

module _ {Name : Type 0} where
  abbrev pub new_connection : Connection Name
  new_connection = record { closed = false; response_map = []; outcomes = [] }

  -- `Map.get`, `Map.set` and `Map.delete`
  unfoldable pub find_request : List ℕ → List (Request Name) → Option (Request Name)
  find_request id [] = none
  find_request id (r ∷ rs) = if eqb_bytes r.id id then some r else find_request id rs

  unfoldable pub set_request : Request Name → List (Request Name) → List (Request Name)
  set_request r [] = r ∷ []
  set_request r (q ∷ qs) = if eqb_bytes q.id r.id then r ∷ qs else q ∷ set_request r qs

  unfoldable pub delete_request : List ℕ → List (Request Name) → List (Request Name)
  delete_request id [] = []
  delete_request id (r ∷ rs) =
      let rest = delete_request id rs in if eqb_bytes r.id id then rest else r ∷ rest

  -- A callback is called, and the request is taken out of the map.
  unfoldable pub settle : Request Name → Settlement → Connection Name → Connection Name
  unfolding delete_request
  settle r s c = record c {
    response_map = delete_request r.id c.response_map;
    outcomes = c.outcomes ++ ((r, s) ∷ []);
  }

  -- The timer of a `get`.
  unfoldable pub expire : Request Name → Connection Name → Connection Name
  unfolding settle
  expire r c = settle r (rejected timeout) c

  -- `cleanup`
  unfoldable pub cleanup : Connection Name → Connection Name
  cleanup c = if c.closed then c else record {
    closed = true;
    response_map = [];
    outcomes =
        c.outcomes ++ map (λ (r : Request Name). (r, rejected connection_closed)) c.response_map;
  }

-- `get`: the message that is written, and the new state.
unfoldable pub get :
    (keys : Keys) → Request keys.Name → Connection keys.Name → List ℕ × Connection keys.Name
unfolding set_request
get keys r c = (r.id ++ keys.utf8 r.key, record c { response_map = set_request r c.response_map })

module _ (crc32c : List ℕ → ℕ) where
  -- What a reply says to the request that it is for.
  unfoldable pub read_reply : List ℕ → Settlement
  unfolding crc32c_buffer
  read_reply message =
      if ltb (length message) 17
      then resolved none
      else if eqb_bytes (take 8 (drop 8 message)) (crc32c_buffer crc32c (drop 16 message))
      then resolved (some (drop 16 message))
      else rejected crc_mismatch

  abbrev pub answer :
      {Name : Type 0} → List ℕ → Option (Request Name) → Connection Name → Connection Name
  answer message none c = c
  answer message (some r) c = settle r (read_reply message) c

  -- The `data` handler of `connect`.
  unfoldable pub on_data : {Name : Type 0} → List ℕ → Connection Name → Connection Name
  unfolding read_reply settle find_request
  on_data message c =
      if ltb (length message) 8
      then c
      else answer message (find_request (take 8 message) c.response_map) c
