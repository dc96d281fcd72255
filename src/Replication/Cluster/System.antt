-- ===== src/Replication/Cluster/System.antt =====
-- A cluster as its nodes take turns: elections, writes, AppendEntries, and whatever leaves the logs
-- alone.
use wal_distributed_rs.Common.{
  List, ℕ, ◌+◌, ◌^◌, ◌<◌, ◌≡◌, none, [], true, length, bytes_eq, if◌then◌else◌,
}
use wal_distributed_rs.WalCore.Entry.{Crc}
use wal_distributed_rs.Replication.Config.{NodeId}
use wal_distributed_rs.Replication.Log
use wal_distributed_rs.Replication.Node.{RaftNode, leader, follower, AppendEntriesRequest, on_log}
use wal_distributed_rs.Replication.Node.Candidate.{Network, start_election}
use wal_distributed_rs.Replication.Node.Follower.{follow, on_append_entries}
use wal_distributed_rs.Replication.Node.Leader.{on_client_write}
use wal_distributed_rs.Replication.Node.Matching.{is_ok, entries_ok}
use wal_distributed_rs.Replication.Cluster.Handlers.{Idles}
use wal_distributed_rs.Replication.Cluster.Reigns.{Reigns, crown}
use wal_distributed_rs.Replication.Cluster.Requests.{Cut}

-- The nodes, and the logs of those that have led, term by term.
pub record System : Type 0 where
  pub nodes : NodeId → RaftNode
  pub reigns : Reigns

abbrev pub put_node : NodeId → RaftNode → (NodeId → RaftNode) → NodeId → RaftNode
put_node id n nodes = λ j. if bytes_eq j id then n else nodes j

-- A node leads in its term, with its log.
abbrev pub begins_reign : NodeId → RaftNode → System → System
begins_reign id n' s = record {
  nodes = put_node id n' s.nodes;
  reigns = crown n'.ps.current_term n'.log.memory.entries s.reigns;
}

-- The log of a leader, in the term in which it has led, is the one that it now has.
abbrev pub extends_reign : NodeId → RaftNode → System → System
extends_reign id n' s = record {
  nodes = put_node id n' s.nodes;
  reigns = crown (s.nodes id).ps.current_term n'.log.memory.entries s.reigns;
}

-- Before the first turn: followers with empty logs, and no term has had a leader.
pub record Begins (s : System) : Type 0 where
  pub no_leaders : (t : ℕ) → s.reigns t ≡ none
  pub followers : (id : NodeId) → (s.nodes id).role ≡ follower
  pub no_snapshot : (id : NodeId) → (s.nodes id).log.memory.snapshot_index ≡ 0
  pub no_entries : (id : NodeId) → (s.nodes id).log.memory.entries ≡ []

module _ ⦃c : Crc⦄ where
  -- A node wins an election of a term that nobody has led yet; a leader's own log accepts a write,
  -- below the last index and before a snapshot is due; a node gets AppendEntries, with no entries
  -- or with some of the log of the leader of its term, and the operations of its log do not fail;
  -- or a node does anything else that leaves its log alone and does not make it a leader.
  pub data Turn : System → System → Type 0 where
    elected :
        (id : NodeId) (net : Network) (s : System)
        → (start_election net (s.nodes id)).role ≡ leader
        → s.reigns (start_election net (s.nodes id)).ps.current_term ≡ none
        → Turn s (begins_reign id (start_election net (s.nodes id)) s)
    wrote :
        (id : NodeId) (net : Network) (payload : List ℕ) (s : System)
        → (s.nodes id).role ≡ leader
        → is_ok (on_log (Log.append (s.nodes id).ps.current_term payload) (s.nodes id)).0 ≡ true
        → (s.nodes id).ps.current_term < 2 ^ 64
        → length (s.nodes id).log.memory.entries + 2 < 2 ^ 64
        → (s.nodes id).entries_since_snapshot + 1 < (s.nodes id).snapshot_trigger
        → (s.nodes id).snapshot_trigger < 2 ^ 64
        → Turn s (extends_reign id (on_client_write net payload (s.nodes id)).1 s)
    took :
        (id : NodeId) (req : AppendEntriesRequest) (s : System)
        → Cut s.reigns req
        → entries_ok req.entries (follow req.term req.leader_id (s.nodes id)) ≡ true
        → Turn s (record s { nodes = put_node id (on_append_entries req (s.nodes id)).1 s.nodes })
    other :
        (id : NodeId) (n' : RaftNode) (s : System)
        → Idles (s.nodes id) n'
        → Turn s (record s { nodes = put_node id n' s.nodes })

  pub data Goes : System → System → Type 0 where
    here : {s : System} → Goes s s
    next : {s t u : System} → Turn s t → Goes t u → Goes s u
