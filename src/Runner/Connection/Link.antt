-- ===== src/Runner/Connection/Link.antt =====
-- ptp.ts and server.js joined: a connection, the messages on their way to the server or being looked
-- up by it, the replies on their way back, and the database. The server may finish its look-ups in
-- any order; the replies arrive in the order in which they were written.
use runtime_bridge.Prelude.{pick_at, ℕ, Option, none, some, List, [], ◌∷◌, ◌++◌}
use runtime_bridge.DataProvider.Server.{Keys, Lookup, on_request}
use runtime_bridge.Runner.Connection.{
  Request, Connection, new_connection, get, expire, cleanup, on_data,
}

pub record Link (keys : Keys) : Type 0 where
  pub connection : Connection keys.Name
  pub requests : List (List ℕ)
  pub replies : List (List ℕ)
  pub db : keys.Name → Lookup

abbrev pub new_link : (keys : Keys) → (keys.Name → Lookup) → Link keys
new_link keys db = record { connection = new_connection; requests = []; replies = []; db = db }

pub data Event (keys : Keys) : Type 0 where
  asks : Request keys.Name → Event keys
  serves : ℕ → Event keys
  receives : Event keys
  expires : Request keys.Name → Event keys
  closes : Event keys
  stores : (keys.Name → Lookup) → Event keys

module _ (crc32c : List ℕ → ℕ) (keys : Keys) where
  abbrev pub written : Option (List ℕ) → List (List ℕ) → List (List ℕ)
  written none replies = replies
  written (some m) replies = replies ++ (m ∷ [])

  abbrev pub served : Option (List ℕ × List (List ℕ)) → Link keys → Link keys
  served none l = l
  served (some r) l = record l {
    requests = r.1;
    replies = written (on_request crc32c keys l.db r.0) l.replies;
  }

  abbrev pub received : List (List ℕ) → Link keys → Link keys
  received [] l = l
  received (m ∷ ms) l = record l { connection = on_data crc32c m l.connection; replies = ms }

  unfoldable pub step : Event keys → Link keys → Link keys
  unfolding get expire cleanup on_data on_request
  step (asks r) l =
      let sent = get keys r l.connection in
      record l { connection = sent.1; requests = l.requests ++ (sent.0 ∷ []) }
  step (serves n) l = served (pick_at n l.requests) l
  step receives l = received l.replies l
  step (expires r) l = record l { connection = expire r l.connection }
  step closes l = record l { connection = cleanup l.connection }
  step (stores db) l = record l { db = db }

  unfoldable pub run : List (Event keys) → Link keys → Link keys
  unfolding step
  run [] l = l
  run (e ∷ es) l = run es (step e l)
