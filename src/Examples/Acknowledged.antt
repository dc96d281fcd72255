-- ===== src/Examples/Acknowledged.antt =====
-- What is acknowledged in that cluster, and by whom.
use wal_distributed_rs.Common.{
  ◌≡◌, ◌||◌, ℕ, ◌⊎◌, refl, sym, none, List, [], ◌∷◌, arith, inl, inr, bytes_eq,
}
use mathlib.Core.Path.{subst}
use wal_distributed_rs.Common.Exec.{ok}
use wal_distributed_rs.Bytes.{le_bytes}
use wal_distributed_rs.Disk
use wal_distributed_rs.Disk.{find, store, erase, outcome, later}
use wal_distributed_rs.WalCore.Entry.{encode}
use wal_distributed_rs.WalCore.Wal
use wal_distributed_rs.WalCore.Segment
use wal_distributed_rs.WalCore.Segment.{would_overflow}
use wal_distributed_rs.WalCore.Segment.Names.{segment_path}
use wal_distributed_rs.Replication.Config.{quorum}
use wal_distributed_rs.Replication.PersistentState
use wal_distributed_rs.Replication.Log
use wal_distributed_rs.Replication.Log.{last_index}
use wal_distributed_rs.Replication.Log.Record.{LogEntry, encode_append}
use wal_distributed_rs.Replication.Node.{advance_term}
use wal_distributed_rs.Replication.Node.Candidate.{start_election}
use wal_distributed_rs.Replication.Node.Leader.{on_client_write}
use wal_distributed_rs.Replication.Cluster.Ledger.{node_of}
use wal_distributed_rs.Replication.Cluster.Prefix.{Prefix}
use wal_distributed_rs.Replication.Cluster.Completeness.{Chosen}
use wal_distributed_rs.Replication.Cluster.Commitment.{leader_completeness, state_machine_safety}
use wal_distributed_rs.Replication.Cluster.Durable.{HasAcked, Answered, write_durable}
use mathlib.Core.List.Permᴰ.{refl as perm_refl}
use wal_distributed_rs.Examples.Nodes.{three}
use wal_distributed_rs.Examples.Matching.{a, b, x}
use wal_distributed_rs.Examples.Setup.{sums, hello}
use wal_distributed_rs.Examples.Ledgers.{
  members, friends, l0, l0-Opens, l2, l3, l6, either_of, or_right, two, first_term, counters,
  b_wins, moves,
}

acked_a : HasAcked l6 2 (x ∷ []) a
unfolding start_election advance_term PersistentState.advance_term Disk.write Disk.rename find store
    erase bytes_eq outcome later quorum on_client_write Log.append Wal.append would_overflow encode
    le_bytes encode_append Segment.append Segment.write_all Segment.sync Disk.append segment_path
    Disk.sync_all last_index
acked_a = (
  record {
    node = a;
    term = (node_of l2 a).ps.current_term;
    log = (node_of l3 a).log.memory.entries;
  },
  inr (inl refl),
  refl,
  first_term,
  refl,
)

acked_b : HasAcked l6 2 (x ∷ []) b
acked_b = (record { node = b; term = 2; log = x ∷ [] }, inl refl, refl, refl, refl)

chosen : Chosen members l6 2 (x ∷ [])
unfolding bytes_eq
chosen = record {
  last = x;
  at_end = refl;
  of_term = refl;
  acked = two (HasAcked l6 2 (x ∷ [])) a b (omega arith) acked_a acked_b;
}

leader_completeness_example : Prefix (x ∷ []) (x ∷ [])
leader_completeness_example =
    leader_completeness members l0 l6 2 3 (x ∷ []) (x ∷ []) l0-Opens moves chosen (omega arith)
      b_wins.3

state_machine_safety_example : Prefix (x ∷ []) (x ∷ []) ⊎ Prefix (x ∷ []) (x ∷ [])
state_machine_safety_example =
    state_machine_safety members l0 l6 2 2 (x ∷ []) (x ∷ []) l0-Opens moves chosen chosen

done : (on_client_write friends hello (node_of l2 a)).0 ≡ ok 1
unfolding start_election advance_term PersistentState.advance_term Disk.write Disk.rename find store
    erase bytes_eq outcome later quorum on_client_write Log.append Wal.append would_overflow encode
    le_bytes encode_append Segment.append Segment.write_all Segment.sync Disk.append segment_path
    Disk.sync_all last_index
done = refl

logged : (on_client_write friends hello (node_of l2 a)).1.log.memory.entries ≡ x ∷ []
unfolding start_election advance_term PersistentState.advance_term Disk.write Disk.rename find store
    erase bytes_eq outcome later quorum on_client_write Log.append Wal.append would_overflow encode
    le_bytes encode_append Segment.append Segment.write_all Segment.sync Disk.append segment_path
    Disk.sync_all last_index
logged = refl

at_a :
    ((node_of l2 a).id ≡ a)
    × ((node_of l2 a).peers ≡ three.peers)
    × ((node_of l2 a).config ≡ three)
    × ((node_of l2 a).snapshot ≡ none)
unfolding start_election advance_term PersistentState.advance_term Disk.write Disk.rename find store
    erase bytes_eq outcome later quorum
at_a = (refl, refl, refl, refl)

answered : Answered members l6 friends hello 1 (node_of l2 a)
unfolding start_election advance_term PersistentState.advance_term Disk.write Disk.rename find store
    erase bytes_eq outcome later quorum
answered = record {
  who = λ w. bytes_eq w a || bytes_eq w b;
  each = λ w counted.
      subst (λ (p : ℕ × List LogEntry). HasAcked l6 p.0 p.1 w)
        (λ i. (sym first_term i, sym logged i))
        (either_of (HasAcked l6 2 (x ∷ [])) a b acked_a acked_b w counted);
  own = refl;
  heard = λ p in_peers given. or_right (bytes_eq p.id a) (bytes_eq p.id b) given;
  cluster = perm_refl members;
  configured = refl;
}

write_durable_example :
    Prefix (on_client_write friends hello (node_of l2 a)).1.log.memory.entries (x ∷ [])
write_durable_example =
    write_durable members l0 l6 friends hello (node_of l2 a) 1 3 (x ∷ []) l0-Opens moves done
      (omega (arith, counters.1, counters.2)) (omega (arith, counters.2)) at_a.3 answered
      (omega (arith, first_term)) b_wins.3
