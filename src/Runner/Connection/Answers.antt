-- ===== src/Runner/Connection/Answers.antt =====
-- What a `get` is answered with, over any schedule of requests, look-ups, replies and timeouts.
use runtime_bridge.Prelude.{
  pick_at, picked-All, ℕ, ◌≡◌, ◌≢◌, inl, inr, refl, sym, ap, subst, ◌∙◌, Option, List, [], ◌∷◌,
  ◌++◌, map, length, All, All-append, Bool-cases, Option-cases,
}
use runtime_bridge.DataProvider.Server.{Keys, Lookup, on_request}
use runtime_bridge.Runner.Connection.{
  timeout, crc_mismatch, connection_closed, Settlement, resolved, rejected, Request, find_request,
  settle, expire, cleanup, get, on_data,
}
use runtime_bridge.Runner.Connection.Link.{
  new_link, Link, Event, asks, serves, receives, expires, closes, stores, written, served, received,
  step, run,
}
use runtime_bridge.Runner.Connection.Frames.{
  value_of, reply_with, IsValue, value_of-IsValue, read_reply-reply_with, take-reply_with,
  length-reply_with, on_request-utf8,
}
use runtime_bridge.Runner.Connection.Tables.{delete-All, set-All, find-All}

module _ (crc32c : List ℕ → ℕ) (keys : Keys) (key_of : List ℕ → keys.Name)
    (Q : keys.Name → Option (List ℕ) → Type 0) where
  open keys use {Name}

  -- A message of the request with an id, and a reply to it.
  IsAsked : List ℕ → Type 0
  IsAsked m = (id : List ℕ) × (length id ≡ 8) × (m ≡ id ++ keys.utf8 (key_of id))

  IsReply : List ℕ → Type 0
  IsReply m =
      (id : List ℕ) × (v : Option (List ℕ)) × (length id ≡ 8)
      × (m ≡ reply_with crc32c id v)
      × IsValue v
      × Q (key_of id) v

  unfoldable pub IsOwn : Request Name → Type 0
  IsOwn r = (length r.id ≡ 8) × (r.key ≡ key_of r.id)

  abbrev pub IsTrue : Request Name × Settlement → Type 0
  IsTrue (r, resolved v) = Q r.key v
  IsTrue (r, rejected e) = e ≢ crc_mismatch

  -- The schedule uses an id for one key only, and stores what `Q` allows.
  abbrev pub Fits : Event keys → Type 0
  Fits (asks r) = IsOwn r
  Fits (stores db) = (k : Name) → Q k (value_of (db k))
  Fits _ = Unit

  record Sound (l : Link keys) : Type 0 where
    requests : All IsAsked l.requests
    replies : All IsReply l.replies
    waiting : All IsOwn l.connection.response_map
    outcomes : All IsTrue l.connection.outcomes
    stored : (k : Name) → Q k (value_of (l.db k))

  settle-Sound :
      (l : Link keys) (r : Request Name) (s : Settlement)
      → IsTrue (r, s)
      → Sound l
      → Sound (record l { connection = settle r s l.connection })
  unfolding settle
  settle-Sound l r s t h = record {
    requests = h.requests;
    replies = h.replies;
    waiting = delete-All IsOwn r.id l.connection.response_map h.waiting;
    outcomes = All-append IsTrue l.connection.outcomes ((r, s) ∷ []) h.outcomes (t, tt);
    stored = h.stored;
  }

  closed-All :
      (rs : List (Request Name))
      → All IsTrue (map (λ (r : Request Name). (r, rejected connection_closed)) rs)
  closed-All [] = tt
  closed-All (r ∷ rs) = ((λ e. cc), closed-All rs)

  written-All :
      (m : List ℕ) (l : Link keys)
      → IsAsked m
      → Sound l
      → All IsReply (written crc32c keys (on_request crc32c keys l.db m) l.replies)
  unfolding IsAsked IsReply
  written-All m l (id, e, q) h =
      let v = value_of (l.db (key_of id)) in
      rw (q, on_request-utf8 crc32c keys l.db id (key_of id) e)
        (All-append IsReply l.replies _ h.replies
          ((id, v, e, refl, value_of-IsValue (l.db (key_of id)), h.stored (key_of id)), tt))

  cleanup-Sound : (l : Link keys) → Sound l → Sound (record l { connection = cleanup l.connection })
  unfolding cleanup
  cleanup-Sound l h = elim (Bool-cases l.connection.closed) [
    | inl e ↦ simp e h
    | inr e ↦
        rw (e, cleanup)
          (record {
            requests = h.requests;
            replies = h.replies;
            waiting = tt;
            outcomes =
                All-append IsTrue l.connection.outcomes _ h.outcomes
                  (closed-All l.connection.response_map);
            stored = h.stored;
          })
  ]

  on_data-Sound :
      (l : Link keys) (m : List ℕ)
      → IsReply m
      → Sound l
      → Sound (record l { connection = on_data crc32c m l.connection })
  unfolding on_data IsReply IsOwn settle
  on_data-Sound l m (id, v, e, q, value, holds) h =
      rw (q, length-reply_with crc32c id v e, take-reply_with crc32c id v e)
        (elim (Option-cases (find_request id l.connection.response_map)) [
          | inl none_e ↦ rw none_e h
          | inr (r, some_e) ↦
              rw (some_e, read_reply-reply_with crc32c id v e value)
                (let own = find-All IsOwn id l.connection.response_map r h.waiting some_e in
                  settle-Sound l r (resolved v)
                    (subst (λ k. Q k v) (sym (own.0.1 ∙ ap key_of own.1)) holds) h)
        ])

  served-Sound :
      (l : Link keys) (n : ℕ) → Sound l → Sound (served crc32c keys (pick_at n l.requests) l)
  unfolding IsAsked IsReply
  served-Sound l n h = elim (Option-cases (pick_at n l.requests)) [
    | inl none_e ↦ rw none_e h
    | inr (r, some_e) ↦ rw some_e (
        let parts = picked-All n l.requests r some_e IsAsked h.requests in
        record {
          requests = parts.1;
          replies = written-All r.0 l parts.0 h;
          waiting = h.waiting;
          outcomes = h.outcomes;
          stored = h.stored;
        })
  ]

  received-Sound :
      (l : Link keys) (ms : List (List ℕ))
      → l.replies ≡ ms
      → Sound l
      → Sound (received crc32c keys ms l)
  received-Sound l [] e h = h
  received-Sound l (m ∷ ms) e h =
      let parts = subst (All IsReply) e h.replies in
      on_data-Sound (record l { replies = ms }) m parts.0
        (record {
          requests = h.requests;
          replies = parts.1;
          waiting = h.waiting;
          outcomes = h.outcomes;
          stored = h.stored;
        })

  step-Sound : (e : Event keys) (l : Link keys) → Fits e → Sound l → Sound (step crc32c keys e l)
  unfolding step get expire IsAsked IsOwn
  step-Sound (asks r) l f h = record {
    requests =
        All-append IsAsked l.requests (_ ∷ []) h.requests
          ((r.id, f.0, ap (λ k. r.id ++ keys.utf8 k) f.1), tt);
    replies = h.replies;
    waiting = set-All IsOwn r l.connection.response_map f h.waiting;
    outcomes = h.outcomes;
    stored = h.stored;
  }
  step-Sound (serves n) l f h = served-Sound l n h
  step-Sound receives l f h = received-Sound l l.replies refl h
  step-Sound (expires r) l f h = settle-Sound l r (rejected timeout) (λ e. cc) h
  step-Sound closes l f h = cleanup-Sound l h
  step-Sound (stores db) l f h = record {
    requests = h.requests;
    replies = h.replies;
    waiting = h.waiting;
    outcomes = h.outcomes;
    stored = f;
  }

  run-Sound :
      (es : List (Event keys)) (l : Link keys)
      → All Fits es
      → Sound l
      → Sound (run crc32c keys es l)
  unfolding run
  run-Sound [] l f h = h
  run-Sound (e ∷ es) l f h = run-Sound es (step crc32c keys e l) f.1 (step-Sound e l f.0 h)

  -- Over any schedule of requests, look-ups in any order, replies, timeouts, a close and changes of
  -- the database, in which an id of 8 bytes stands for one key: when the database only ever holds
  -- values that `Q` allows for their keys, each `get` that is resolved is resolved with a value that
  -- `Q` allows for its key, or with null where `Q` allows that the key has no value. None is
  -- rejected for a checksum.
  pub run-IsTrue :
      (es : List (Event keys)) (db : Name → Lookup)
      → ((k : Name) → Q k (value_of (db k)))
      → All Fits es
      → All IsTrue (run crc32c keys es (new_link keys db)).connection.outcomes
  run-IsTrue es db h f =
      (run-Sound es (new_link keys db) f
        (record { requests = tt; replies = tt; waiting = tt; outcomes = tt; stored = h })).outcomes
