-- ===== src/Runner/Connection/Tests.antt =====
-- ptp.ts and server.js: two requests over one link, and the theorems applied to them.
use runtime_bridge.Prelude.{
  ℕ, ◌≡◌, refl, ◌==◌, if◌then◌else◌, none, some, List, [], ◌∷◌, All, arith, ◌+◌,
}
use runtime_bridge.DataProvider.Server.{
  Keys, Lookup, found, not_found, crc32c_buffer, reply, on_request,
}
use runtime_bridge.Runner.Connection.{
  Request, resolved, find_request, set_request, delete_request, settle, get, read_reply, on_data,
}
use runtime_bridge.Runner.Connection.Frames.{value_of}
use runtime_bridge.Runner.Connection.Link.{
  new_link, Event, asks, serves, receives, expires, closes, step, run,
}
use runtime_bridge.Runner.Connection.Answers.{IsOwn, IsTrue, run-IsTrue}

-- Keys of one byte, and a checksum that adds up.
abbrev keys : Keys
keys = record {
  Name = ℕ;
  utf8 = λ k. k ∷ [];
  trimmed = first;
  utf8_some = λ k. omega arith;
  trimmed_utf8 = λ k. refl;
}
  where
    first : List ℕ → ℕ
    first [] = 0
    first (b ∷ bs) = b

abbrev sum : List ℕ → ℕ
sum [] = 0
sum (b ∷ bs) = b + sum bs

abbrev db : ℕ → Lookup
db k = if k == 5 then found (1 ∷ 2 ∷ 3 ∷ []) else not_found

abbrev five : Request ℕ
five = record { id = 1 ∷ 0 ∷ 0 ∷ 0 ∷ 0 ∷ 0 ∷ 0 ∷ 0 ∷ []; key = 5 }

abbrev six : Request ℕ
six = record { id = 2 ∷ 0 ∷ 0 ∷ 0 ∷ 0 ∷ 0 ∷ 0 ∷ 0 ∷ []; key = 6 }

abbrev key_of : List ℕ → ℕ
key_of [] = 0
key_of (b ∷ bs) = b + 4

-- The second request is looked up first; the timer of the other fires after its reply.
abbrev events : List (Event keys)
events =
    asks five ∷ asks six ∷ serves 1 ∷ serves 0 ∷ receives ∷ receives ∷ expires five ∷ closes ∷ []

run-IsTrue_example :
    All
      (IsTrue sum keys key_of (λ k v. v ≡ value_of (db k)))
      (run sum keys events (new_link keys db)).connection.outcomes
unfolding IsOwn
run-IsTrue_example =
    run-IsTrue sum keys key_of (λ k v. v ≡ value_of (db k)) events db (λ k. refl)
      ((refl, refl), ((refl, refl), (tt, (tt, (tt, (tt, (tt, (tt, tt))))))))

answered_out_of_order :
    (run sum keys
      (asks five ∷ asks six ∷ serves 1 ∷ serves 0 ∷ receives ∷ receives ∷ [])
      (new_link keys db)).connection.outcomes
    ≡ (six, resolved none) ∷ (five, resolved (some (1 ∷ 2 ∷ 3 ∷ []))) ∷ []
unfolding run step get set_request on_request reply crc32c_buffer on_data find_request read_reply
    settle delete_request
answered_out_of_order = refl
