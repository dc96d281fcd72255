-- ===== src/Examples/Matching.antt =====
-- A cluster at concrete inputs: an election, a write, and a follower that takes the entry.
use wal_distributed_rs.Common.{
  ◌≡◌, refl, some, none, [], ◌∷◌, arith, true, take, get_elem?, bytes_eq,
}
use wal_distributed_rs.Bytes.{le_bytes}
use wal_distributed_rs.Disk
use wal_distributed_rs.Disk.{find, store, erase, outcome, later}
use wal_distributed_rs.Replication.PersistentState
use wal_distributed_rs.Replication.Node.{advance_term}
use wal_distributed_rs.Replication.Config.{quorum}
use wal_distributed_rs.Replication.Log.{last_index}
use wal_distributed_rs.Common.{length, ap, inl, inr}
use wal_distributed_rs.WalCore.Entry.{encode}
use wal_distributed_rs.WalCore.Wal
use wal_distributed_rs.WalCore.Wal.Fresh.{fresh_table}
use wal_distributed_rs.WalCore.Segment
use wal_distributed_rs.WalCore.Segment.{would_overflow}
use wal_distributed_rs.WalCore.Segment.Names.{segment_path}
use wal_distributed_rs.WalCore.Segment.Content.{disk}
use wal_distributed_rs.Replication.Config.{NodeId}
use wal_distributed_rs.Replication.Log
use wal_distributed_rs.Replication.Log.Fresh.{new_log}
use wal_distributed_rs.Replication.Log.Record.{LogEntry, encode_append}
use wal_distributed_rs.Replication.Node.{
  RaftNode, AppendEntriesRequest, leader, follower, wal_config, on_log,
}
use wal_distributed_rs.Replication.Node.Candidate.{start_election}
use wal_distributed_rs.Replication.Node.Leader.{on_client_write}
use wal_distributed_rs.Replication.Node.Follower.{follow, on_append_entries}
use wal_distributed_rs.Replication.Node.Matching.{is_ok, entries_ok}
use wal_distributed_rs.Replication.Cluster.System.{
  System, Begins, Turn, Goes, begins_reign, extends_reign, put_node,
}
use wal_distributed_rs.Replication.Cluster.Requests.{Cut}
use wal_distributed_rs.Replication.Cluster.Matching.{log_matching}
use wal_distributed_rs.Examples.Nodes.{node, willing}
use wal_distributed_rs.Examples.Setup.{sums, hello}

abbrev pub empty_node : NodeId → RaftNode
empty_node id = record (node follower) {
  id = id;
  log = new_log wal_config [];
  wal_dir = disk (fresh_table []);
}

abbrev pub at_first : System
at_first = record { nodes = empty_node; reigns = λ t. none }

pub at_first-Begins : Begins at_first
at_first-Begins = record {
  no_leaders = λ t. refl;
  followers = λ id. refl;
  no_snapshot = λ id. refl;
  no_entries = λ id. refl;
}

abbrev pub a : NodeId
a = b'a' ∷ []

abbrev pub b : NodeId
b = b'b' ∷ []

abbrev led : System
led = begins_reign a (start_election willing (at_first.nodes a)) at_first

abbrev written : System
written = extends_reign a (on_client_write willing hello (led.nodes a)).1 led

abbrev pub sent : AppendEntriesRequest
sent = record {
  term = 2;
  leader_id = a;
  prev_log_index = 0;
  prev_log_term = 0;
  entries = record { term = 2; index = 1; payload = hello } ∷ [];
  leader_commit = 0;
}

abbrev taken : System
taken = record written {
  nodes = put_node b (on_append_entries sent (written.nodes b)).1 written.nodes;
}

wins : (start_election willing (at_first.nodes a)).role ≡ leader
unfolding start_election advance_term PersistentState.advance_term Disk.write Disk.rename find store
    erase bytes_eq outcome later quorum
wins = refl

leads_a : (led.nodes a).role ≡ leader
unfolding start_election advance_term PersistentState.advance_term Disk.write Disk.rename find store
    erase bytes_eq outcome later quorum
leads_a = refl

log_works : is_ok (on_log (Log.append (led.nodes a).ps.current_term hello) (led.nodes a)).0 ≡ true
unfolding start_election advance_term PersistentState.advance_term Disk.write Disk.rename find store
    erase bytes_eq outcome later quorum on_client_write Log.append Wal.append would_overflow encode
    le_bytes encode_append Segment.append Segment.write_all Segment.sync Disk.append segment_path
    Disk.sync_all
log_works = refl

counters :
    ((led.nodes a).ps.current_term ≡ 2)
    × ((led.nodes a).log.memory.entries ≡ [])
    × ((led.nodes a).entries_since_snapshot ≡ 0)
    × ((led.nodes a).snapshot_trigger ≡ 100)
unfolding start_election advance_term PersistentState.advance_term Disk.write Disk.rename find store
    erase bytes_eq outcome later quorum
counters = (refl, refl, refl, refl)

sent-Cut : Cut written.reigns sent
unfolding start_election advance_term PersistentState.advance_term Disk.write Disk.rename find store
    erase bytes_eq outcome later quorum on_client_write Log.append Wal.append would_overflow encode
    le_bytes encode_append Segment.append Segment.write_all Segment.sync Disk.append segment_path
    Disk.sync_all last_index
sent-Cut = inr (sent.entries, refl, (refl, tt), inl refl)

follower_works : entries_ok sent.entries (follow 2 a (written.nodes b)) ≡ true
unfolding start_election advance_term PersistentState.advance_term Disk.write Disk.rename find store
    erase bytes_eq outcome later quorum on_client_write Log.append Wal.append would_overflow encode
    le_bytes encode_append Segment.append Segment.write_all Segment.sync Disk.append segment_path
    Disk.sync_all last_index entries_ok follow
follower_works = refl

goes : Goes at_first taken
goes = Goes.next (Turn.elected a willing at_first wins refl) (
    Goes.next
      (Turn.wrote a willing hello led leads_a log_works (omega (arith, counters.0))
        (omega (arith, ap (length {A = LogEntry}) counters.1))
        (omega (arith, counters.2, counters.3)) (omega (arith, counters.3)))
      (Goes.next (Turn.took b sent written sent-Cut follower_works) Goes.here))

abbrev pub x : LogEntry
x = record { term = 2; index = 1; payload = hello }

both_have :
    (get_elem? (taken.nodes a).log.memory.entries 0 ≡ some x)
    × (get_elem? (taken.nodes b).log.memory.entries 0 ≡ some x)
unfolding start_election advance_term PersistentState.advance_term Disk.write Disk.rename find store
    erase bytes_eq outcome later quorum on_client_write Log.append Wal.append would_overflow encode
    le_bytes encode_append Segment.append Segment.write_all Segment.sync Disk.append segment_path
    Disk.sync_all last_index on_append_entries
both_have = (refl, refl)

log_matching_example :
    take 1 (taken.nodes a).log.memory.entries ≡ take 1 (taken.nodes b).log.memory.entries
log_matching_example =
    log_matching at_first taken a b 0 x x at_first-Begins goes both_have.0 both_have.1 refl
