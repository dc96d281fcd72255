-- ===== src/Replication/Cluster.antt =====
-- Several nodes of crates/wal-replication/src/raft/node.rs: their runs, and the elections that are
-- won.
pub mod Counts
pub mod Safety
pub mod Reigns
pub mod Parts
pub mod Requests
pub mod Follower
pub mod Handlers
pub mod System
pub mod Sound
pub mod Elects
pub mod Writes
pub mod Matching
pub mod Prefix
pub mod Keeps
pub mod Ledger
pub mod Change
pub mod Kept
pub mod Completeness
pub mod Takes
pub mod Steps
pub mod Won
pub mod Marks
pub mod Wrote
pub mod Moves
pub mod Commitment
pub mod Durable
use wal_distributed_rs.Common.{ℕ, ◌+◌, ◌^◌, ◌≡◌, ◌<◌, true, List, ◌∷◌, map}
use wal_distributed_rs.WalCore.Entry.{Crc}
use wal_distributed_rs.Replication.Config.{NodeId, NodeInfo}
use wal_distributed_rs.Replication.Node.{RaftNode, leader}
use wal_distributed_rs.Replication.Node.Ballots.{Ballot, has_ballot, Run}
use wal_distributed_rs.Replication.Node.Candidate.{
  Network, is_grant, vote_request, become_candidate, start_election,
}
use mathlib.Core.List.{Permᴰ}

abbrev pub ids : List NodeInfo → List NodeId
ids ps = map (λ (p : NodeInfo). p.id) ps

module _ ⦃c : Crc⦄ where
  -- What a node has done from its start up to now, in its own order of events.
  pub record History : Type 0 where
    pub start : RaftNode
    pub now : RaftNode
    pub ballots : List Ballot
    pub run : Run start ballots now

  -- The cluster has these members, each with its history. The node `n`, with its configuration, is
  -- one of them and wins an election: its own vote is in its history, and each vote that an answer
  -- grants to its request is in the history of the node that was asked.
  pub record Wins (members : List NodeId) (histories : NodeId → History) (net : Network)
      (n : RaftNode) : Type 0 where
    pub leads : (start_election net n).role ≡ leader
    pub configured : n.config.peers ≡ n.peers
    pub cluster : Permᴰ (n.id ∷ ids n.peers) members
    pub room : n.ps.current_term + 1 < 2 ^ 64
    pub own : has_ballot (n.ps.current_term + 1, n.id) (histories n.id).ballots ≡ true
    pub granted :
        (p : NodeInfo)
        → is_grant (net.request_vote p (vote_request (become_candidate n))) ≡ 1
        → has_ballot (n.ps.current_term + 1, n.id) (histories p.id).ballots ≡ true
