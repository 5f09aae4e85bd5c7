-- ===== src/Runner/Providers/Candidates/Choice.antt =====
-- ptp.ts: which data provider a runner may choose.
use runtime_bridge.Prelude.{ℕ, ◌≡◌, ◌≢◌, Option, none, some, List}
use runtime_bridge.Runner.Providers.Candidates.{
  Peer, BlobServer, Candidates, Node, server_of, IsServed, IsUnserved,
}

module _ (dial : Peer → Option ℕ) where
  -- What is said of each server that one of the peers offers.
  abbrev Offers : (BlobServer → Type 0) → Peer → Type 0
  Offers P p = (port : ℕ) → dial p ≡ some port → port ≢ 0 → P (server_of p port)

  abbrev OffersNone : Peer → Type 0
  OffersNone p = (port : ℕ) → dial p ≡ some port → port ≡ 0

  module _ (node : Node) where
    -- What a choice says of the peers.
    abbrev pub IsChoice : List Peer → Option BlobServer → Type 0
    IsChoice peers none = IsUnserved dial node peers
    IsChoice peers (some b) = IsServed dial node peers b
