-- ===== src/Replication/Cluster/Ledger.antt =====
-- A cluster with a record of the votes that were given and of the entries that were acknowledged.
use wal_distributed_rs.Common.{
  ℕ, ◌+◌, ◌*◌, ◌^◌, ◌<◌, ◌≤◌, ◌≡◌, ◌⊎◌, none, some, List, [], ◌∷◌, Bool, true, length, take,
}
use wal_distributed_rs.WalCore.Entry.{Crc}
use wal_distributed_rs.Replication.Config.{NodeId}
use wal_distributed_rs.Replication.Log
use wal_distributed_rs.Replication.Log.Record.{LogEntry, Memory}
use wal_distributed_rs.Replication.Node.{
  RaftNode, leader, AppendEntriesRequest, RequestVoteRequest, on_log,
}
use wal_distributed_rs.Replication.Node.Candidate.{
  Network, start_election, become_candidate, vote_request,
}
use wal_distributed_rs.Replication.Node.Follower.{follow, on_append_entries, on_request_vote}
use wal_distributed_rs.Replication.Node.Leader.{on_client_write}
use wal_distributed_rs.Replication.Node.Matching.{is_ok, entries_ok}
use wal_distributed_rs.Replication.Cluster.Counts.{count}
use wal_distributed_rs.Replication.Cluster.Handlers.{Idles}
use wal_distributed_rs.Replication.Cluster.Reigns.{Reigns, crown}
use wal_distributed_rs.Replication.Cluster.Parts.{PartAt}
use wal_distributed_rs.Replication.Cluster.Requests.{Before, Cut}
use wal_distributed_rs.Replication.Cluster.System.{
  System, put_node, begins_reign, extends_reign, Begins,
}

abbrev pub In : {A : Type 0} → A → List A → Type 0
In x [] = ⊥
In x (y ∷ ys) = (x ≡ y) ⊎ In x ys

-- A vote, with the voter's log as it was.
pub record Vote : Type 0 where
  pub voter : NodeId
  pub request : RequestVoteRequest
  pub memory : Memory

-- The node has had this much of the log of the term's leader, and has said so in that term.
pub record Ack : Type 0 where
  pub node : NodeId
  pub term : ℕ
  pub log : List LogEntry

-- `births` are the leaders' logs when they won.
pub record Ledger : Type 0 where
  pub base : System
  pub births : Reigns
  pub votes : List Vote
  pub acks : List Ack

abbrev pub node_of : Ledger → NodeId → RaftNode
node_of l id = l.base.nodes id

-- More than half of the members, each of which has the property.
pub record Majority (members : List NodeId) (P : NodeId → Type 0) : Type 0 where
  pub who : NodeId → Bool
  pub many : length members < 2 * count who members
  pub each : (x : NodeId) → who x ≡ true → P x

abbrev pub VotedFor : List Vote → RequestVoteRequest → NodeId → Type 0
VotedFor votes req x = (v : Vote) × In v votes × (v.voter ≡ x) × (v.request ≡ req)

abbrev pub own_vote : NodeId → RaftNode → Vote
own_vote id n = record {
  voter = id;
  request = vote_request (become_candidate n);
  memory = n.log.memory;
}

abbrev pub after_election : NodeId → RaftNode → Ledger → Ledger
after_election id n' l = record {
  base = begins_reign id n' l.base;
  births = crown n'.ps.current_term n'.log.memory.entries l.births;
  votes = own_vote id (node_of l id) ∷ l.votes;
  acks = l.acks;
}

abbrev pub after_vote : NodeId → RequestVoteRequest → Ledger → Ledger
after_vote id req l = record l {
  base = record (l.base) {
    nodes = put_node id (on_request_vote req (node_of l id)).1 l.base.nodes;
  };
  votes = record { voter = id; request = req; memory = (node_of l id).log.memory } ∷ l.votes;
}

abbrev pub after_write : NodeId → RaftNode → Ledger → Ledger
after_write id n' l = record l {
  base = extends_reign id n' l.base;
  acks =
      record { node = id; term = (node_of l id).ps.current_term; log = n'.log.memory.entries }
      ∷ l.acks;
}

abbrev pub after_turn : NodeId → RaftNode → Ledger → Ledger
after_turn id n' l = record l { base = record (l.base) { nodes = put_node id n' l.base.nodes } }

abbrev pub after_entries :
    NodeId → RaftNode → AppendEntriesRequest → List LogEntry → Ledger → Ledger
after_entries id n' req log l = record (after_turn id n' l) {
  acks =
      record {
        node = id;
        term = req.term;
        log = take (req.prev_log_index + length req.entries) log;
      }
      ∷ l.acks;
}

module _ ⦃c : Crc⦄ (members : List NodeId) where
  -- The turns of a cluster with these members, and what they add to the record: a node wins with
  -- the recorded votes of more than half of the members, its own counted, for its request, a term
  -- that nobody has led; a node grants a vote in a term that nobody has led yet; a leader's own log
  -- accepts a write; a node accepts part of the log of the leader of its term, or gets such a
  -- request or a heartbeat, and acknowledges nothing that counts; or a node does anything else that
  -- leaves its log alone, does not make it a leader and does not take its term back.
  pub data Move : Ledger → Ledger → Type 0 where
    elected :
        (id : NodeId) (net : Network) (l : Ledger)
        → (start_election net (node_of l id)).role ≡ leader
        → l.base.reigns (start_election net (node_of l id)).ps.current_term ≡ none
        → (node_of l id).ps.current_term + 1 < 2 ^ 64
        → Majority members
            (λ x. (x ≡ id) ⊎ VotedFor l.votes (vote_request (become_candidate (node_of l id))) x)
        → Move l (after_election id (start_election net (node_of l id)) l)
    voted :
        (id : NodeId) (req : RequestVoteRequest) (l : Ledger)
        → (on_request_vote req (node_of l id)).0.vote_granted ≡ true
        → l.base.reigns req.term ≡ none
        → Move l (after_vote id req l)
    wrote :
        (id : NodeId) (net : Network) (payload : List ℕ) (l : Ledger)
        → (node_of l id).role ≡ leader
        → is_ok (on_log (Log.append (node_of l id).ps.current_term payload) (node_of l id)).0 ≡ true
        → (node_of l id).ps.current_term < 2 ^ 64
        → length (node_of l id).log.memory.entries + 2 < 2 ^ 64
        → (node_of l id).entries_since_snapshot + 1 < (node_of l id).snapshot_trigger
        → (node_of l id).snapshot_trigger < 2 ^ 64
        → Move l (after_write id (on_client_write net payload (node_of l id)).1 l)
    took :
        (id : NodeId) (req : AppendEntriesRequest) (log : List LogEntry) (l : Ledger)
        → l.base.reigns req.term ≡ some log
        → PartAt req.prev_log_index req.entries log
        → Before req log
        → entries_ok req.entries (follow req.term req.leader_id (node_of l id)) ≡ true
        → (on_append_entries req (node_of l id)).0.success ≡ true
        → Move l (after_entries id (on_append_entries req (node_of l id)).1 req log l)
    heard :
        (id : NodeId) (req : AppendEntriesRequest) (l : Ledger)
        → Cut l.base.reigns req
        → entries_ok req.entries (follow req.term req.leader_id (node_of l id)) ≡ true
        → Move l (after_turn id (on_append_entries req (node_of l id)).1 l)
    other :
        (id : NodeId) (n' : RaftNode) (l : Ledger)
        → Idles (node_of l id) n'
        → (node_of l id).ps.current_term ≤ n'.ps.current_term
        → Move l (after_turn id n' l)

  pub data Moves : Ledger → Ledger → Type 0 where
    here : {l : Ledger} → Moves l l
    next : {l m n : Ledger} → Move l m → Moves m n → Moves l n

-- Before the first turn nothing is recorded; the logs are empty, down to the snapshot's term.
pub record Opens (l : Ledger) : Type 0 where
  pub begins : Begins l.base
  pub no_term : (id : NodeId) → (node_of l id).log.memory.snapshot_term ≡ 0
  pub no_births : (t : ℕ) → l.births t ≡ none
  pub no_votes : l.votes ≡ []
  pub no_acks : l.acks ≡ []
