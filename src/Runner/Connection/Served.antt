-- ===== src/Runner/Connection/Served.antt =====
-- What one `get` is answered with, over a link with no other message on its way.
use runtime_bridge.Prelude.{ℕ, ◌≡◌, inl, inr, some, List, [], ◌∷◌, ◌++◌, length, Bool-cases}
use runtime_bridge.DataProvider.Server.{Keys}
use runtime_bridge.Runner.Connection.{
  resolved, eqb_bytes, Request, find_request, set_request, settle, get, on_data,
}
use runtime_bridge.Runner.Connection.Link.{Link, asks, serves, receives, run}
use runtime_bridge.Runner.Connection.Frames.{
  value_of, value_of-IsValue, read_reply-reply_with, take-reply_with, length-reply_with,
  on_request-utf8, eqb_bytes_refl,
}

module _ (crc32c : List ℕ → ℕ) (keys : Keys) where
  open keys use {Name}

  find-set :
      (r : Request Name) (rs : List (Request Name)) → find_request r.id (set_request r rs) ≡ some r
  unfolding find_request set_request
  find-set r [] = rw (eqb_bytes_refl r.id)
  find-set r (q ∷ qs) = elim (Bool-cases (eqb_bytes q.id r.id)) [
    | inl e ↦ rw (e, eqb_bytes_refl r.id)
    | inr e ↦ rw (e, find_request, e) (find-set r qs)
  ]

  -- A `get` with an id of 8 bytes, over a link with no other message on its way, is resolved when
  -- the server has served it and its reply has come: with what the database has for its key, or
  -- with null where it has nothing.
  pub get-resolved :
      (r : Request Name) (l : Link keys)
      → length r.id ≡ 8
      → l.requests ≡ []
      → l.replies ≡ []
      → (run crc32c keys (asks r ∷ serves 0 ∷ receives ∷ []) l).connection.outcomes
        ≡ l.connection.outcomes ++ ((r, resolved (value_of (l.db r.key))) ∷ [])
  unfolding run get on_data settle
  get-resolved r l e q p = rw (
    q,
    p,
    on_request-utf8 crc32c keys l.db r.id r.key e,
    length-reply_with crc32c r.id (value_of (l.db r.key)) e,
    take-reply_with crc32c r.id (value_of (l.db r.key)) e,
    find-set r l.connection.response_map,
    read_reply-reply_with crc32c r.id (value_of (l.db r.key)) e (value_of-IsValue (l.db r.key)),
  )
