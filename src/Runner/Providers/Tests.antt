-- ===== src/Runner/Providers/Tests.antt =====
-- Two data providers: calls that meet at a lock, a connection that closes, and the choice of one.
use runtime_bridge.Prelude.{
  ◌+◌, ℕ, ◌≡◌, refl, false, Option, none, some, List, [], ◌∷◌, ◌==◌, if◌then◌else◌,
}
use runtime_bridge.Runner.Providers.{
  Event, calls, resumes, connects, closes, new_manager, enter, resume, step, run,
}
use runtime_bridge.Runner.Providers.Singleton.{IsSound}
use runtime_bridge.Runner.Providers.Singleton.Resuming.{run-IsSound}
use runtime_bridge.Runner.Providers.Candidates.{
  Peer, Candidates, Node, set_server, dial_peers, update_round, get_random_candidate,
}

-- The second call for data provider 7 finds the lock taken; it calls again when the connection is
-- there. The connection closes, and the next call makes a new one.
abbrev events : List Event
events =
    calls 7
    ∷ calls 7
    ∷ calls 8
    ∷ connects 0
    ∷ resumes 1
    ∷ calls 7
    ∷ resumes 0
    ∷ closes 0
    ∷ calls 7
    ∷ closes 1
    ∷ resumes 1
    ∷ []

run-IsSound_example : IsSound (run events new_manager)
run-IsSound_example = run-IsSound events

returned_twice : (run events new_manager).returned ≡ (7, 0) ∷ (7, 0) ∷ []
unfolding run step enter resume
returned_twice = refl

eight_thrown : (run events new_manager).thrown ≡ 8 ∷ []
unfolding run step enter resume
eight_thrown = refl

made_anew : (run events new_manager).connections 7 ≡ some 2
unfolding run step enter resume
made_anew = refl

abbrev peer : ℕ → ℕ → ℕ → Peer
peer id chain bridge = record {
  id_str = id;
  chain_identity = chain;
  bridge_identity = bridge;
  hostname = 10 + id;
}

-- Peer 3 is on another bridge, and peer 4 on another chain; peer 2 fails and peer 5 has no port.
abbrev peers : List Peer
peers = peer 1 1 1 ∷ peer 2 1 1 ∷ peer 3 1 2 ∷ peer 4 2 1 ∷ peer 5 1 1 ∷ peer 6 1 1 ∷ []

abbrev dial : Peer → Option ℕ
dial p = if p.id_str == 2 then none else if p.id_str == 5 then some 0 else some 8000

abbrev node : Node
node = record { chain_identity = 1; bridge_identity = 1; ignore_bridge = false }

abbrev at_first : Candidates
at_first = record { candidates = []; refresh_needed = false }

chooses_six :
    get_random_candidate 1 2 (update_round dial node peers at_first)
    ≡ some record { id_str = 6; port = 8000; hostname = 16 }
unfolding get_random_candidate update_round dial_peers set_server
chooses_six = refl
