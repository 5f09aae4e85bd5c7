-- ===== src/Runner/Providers/Candidates.antt =====
-- src/lifecycle/runner/ptp.ts, the candidates of LifecycleRunnerDataProviderManager: which peers
-- serve blobs, and the choice of one. A peer's answer to a dial is a parameter, where `none` is a
-- dial that throws and 0 is no port. The random number is a fraction below one.
pub mod Choice
use Prim.Native.Nat.{◌/◌}
use runtime_bridge.Prelude.{
  ℕ, zero, suc, ◌+◌, ◌*◌, ◌<◌, ◌==◌, ◌&&◌, ◌||◌, ◌≡◌, ◌≢◌, ◌↔◌, ◌⊎◌, inl, inr, refl, Bool, true,
  false, Option, none, some, some_inj, List, [], ◌∷◌, All, All-mono, length, get_elem?,
  if◌then◌else◌, if_cases, arith, subst, Returns, sym, none-some,
}

-- WalkiePeer and BlobServerContext
pub record Peer : Type 0 where
  pub id_str : ℕ
  pub chain_identity : ℕ
  pub bridge_identity : ℕ
  pub hostname : ℕ

pub record BlobServer : Type 0 where
  pub id_str : ℕ
  pub port : ℕ
  pub hostname : ℕ

pub record Candidates : Type 0 where
  pub candidates : List BlobServer
  pub refresh_needed : Bool

-- The identities of this node, and `ptpIgnoreBridgeIdentity`.
pub record Node : Type 0 where
  pub chain_identity : ℕ
  pub bridge_identity : ℕ
  pub ignore_bridge : Bool

abbrev pub is_eligible : Node → Peer → Bool
is_eligible node p =
    p.chain_identity == node.chain_identity
    && (node.ignore_bridge || (p.bridge_identity == node.bridge_identity))

abbrev pub eligible : Node → List Peer → List Peer
eligible node [] = []
eligible node (p ∷ ps) =
    let rest = eligible node ps in if is_eligible node p then p ∷ rest else rest

-- `pendingCandidates[id] = ret`
unfoldable pub set_server : BlobServer → List BlobServer → List BlobServer
set_server b [] = b ∷ []
set_server b (c ∷ cs) = if c.id_str == b.id_str then b ∷ cs else c ∷ set_server b cs

abbrev pub server_of : Peer → ℕ → BlobServer
server_of p port = record { id_str = p.id_str; port = port; hostname = p.hostname }

abbrev pub dialled : Peer → Option ℕ → List BlobServer → List BlobServer
dialled p none pending = pending
dialled p (some port) pending = if port == 0 then pending else set_server (server_of p port) pending

module _ (dial : Peer → Option ℕ) where
  -- The loop of `CandidateUpdateIterator`.
  unfoldable pub dial_peers : List Peer → List BlobServer → List BlobServer
  unfolding set_server
  dial_peers [] pending = pending
  dial_peers (p ∷ ps) pending = dial_peers ps (dialled p (dial p) pending)

  -- `CandidateUpdateIterator`, up to its wait
  abbrev pub update_candidates : List Peer → Candidates → Candidates
  update_candidates peers s =
      if s.refresh_needed
      then record s { refresh_needed = false }
      else record s { candidates = dial_peers peers [] }

  -- One round of `makeCandidateUpdateIterator`.
  unfoldable pub update_round : Node → List Peer → Candidates → Candidates
  unfolding dial_peers
  update_round node peers s = update_candidates (eligible node peers) s

abbrev pub get_first_candidate : Candidates → Option BlobServer
get_first_candidate s = get_elem? s.candidates 0

-- `getRandomCandidate`, where `Math.random()` is the quotient of its arguments.
unfoldable pub get_random_candidate : ℕ → ℕ → Candidates → Option BlobServer
get_random_candidate num den s =
    if length s.candidates == 0
    then none
    else if length s.candidates == 1
    then get_elem? s.candidates 0
    else get_elem? s.candidates (num * length s.candidates / den)

module _ (dial : Peer → Option ℕ) (node : Node) where
  -- The peer may be used and says that it serves blobs; the server is this peer.
  pub record Serves (p : Peer) (b : BlobServer) : Type 0 where
    pub is_eligible : is_eligible node p ≡ true
    pub answers : dial p ≡ some b.port
    pub has_port : b.port ≢ 0
    pub id_str : b.id_str ≡ p.id_str
    pub hostname : b.hostname ≡ p.hostname

  abbrev pub IsServed : List Peer → BlobServer → Type 0
  IsServed [] b = ⊥
  IsServed (p ∷ ps) b = Serves p b ⊎ IsServed ps b

  -- No peer that may be used serves blobs.
  abbrev pub IsUnserved : List Peer → Type 0
  IsUnserved [] = Unit
  IsUnserved (p ∷ ps) = ((b : BlobServer) → ¬ Serves p b) × IsUnserved ps
