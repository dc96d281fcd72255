-- ===== src/Examples/Rounds.antt =====
-- Rounds of replication and of elections at concrete inputs.
use wal_distributed_rs.Common.{inl, ℕ, ◌≡◌, refl, some, [], ◌∷◌, arith, true, bytes_eq}
use wal_distributed_rs.Replication.Config.{quorum}
use wal_distributed_rs.Replication.Log.{entries_from, last_index, term_at, first_index_of_term}
use wal_distributed_rs.Replication.Log.Record.{encode_append, encode_truncate, LogEntry, Memory}
use wal_distributed_rs.Replication.Node.{
  AppendEntriesRequest, InstallSnapshotRequest, RaftNode, get, insert, follower, leader,
}
use wal_distributed_rs.Replication.Node.Follower.{
  follow, log_conflict, ae_reject, on_append_entries,
}
use wal_distributed_rs.Replication.Node.Leader.{build_append_entries_for, next_for, heard_ae}
use wal_distributed_rs.Replication.Node.Candidate.{become_candidate}
use wal_distributed_rs.Replication.Node.Events.{handle_timeout}
use wal_distributed_rs.Replication.Node.Accepted.{on_append_entries-Takes}
use wal_distributed_rs.Replication.Node.Logs.{on_append_entries_lem}
use wal_distributed_rs.Replication.Node.Matching.{entries_ok}
use wal_distributed_rs.Replication.Node.Taken.{Takes}
use wal_distributed_rs.Replication.Node.Replicates.{exchange-agrees}
use wal_distributed_rs.Replication.Node.Winning.{timeout_elects, IsReady}
use wal_distributed_rs.Bytes.{le_bytes}
use wal_distributed_rs.Disk
use wal_distributed_rs.Disk.{find, store}
use wal_distributed_rs.WalCore.Entry.{encode}
use wal_distributed_rs.WalCore.Wal
use wal_distributed_rs.WalCore.Segment
use wal_distributed_rs.WalCore.Segment.{would_overflow}
use wal_distributed_rs.WalCore.Segment.Names.{segment_path}
use wal_distributed_rs.Examples.Nodes.{node, willing}
use wal_distributed_rs.Examples.Replicas.{one_entry, one_log, one_entry-IsLog}
use wal_distributed_rs.Examples.Setup.{sums, hello}

abbrev logged : ℕ → ℕ → LogEntry
logged index term = record { term = term; index = index; payload = hello }

abbrev with_memory : RaftNode → Memory → RaftNode
with_memory n m = record n { log = record one_log { memory = m } }

-- A leader whose log differs from the follower's in the first entry already.
abbrev other_log : RaftNode
other_log =
    with_memory (record (node leader) { next_index = (b'b' ∷ [], 3) ∷ [] })
      (record { entries = logged 1 2 ∷ logged 2 2 ∷ []; snapshot_index = 0; snapshot_term = 0 })

-- A request that replaces the follower's only entry, and brings a second one.
abbrev rewrite : AppendEntriesRequest
rewrite = record {
  term = 2;
  leader_id = b'b' ∷ [];
  prev_log_index = 0;
  prev_log_term = 0;
  entries = logged 1 2 ∷ logged 2 2 ∷ [];
  leader_commit = 1;
}

accepts_rewrite : (on_append_entries rewrite (node follower)).0.success ≡ true
accepts_rewrite = (on_append_entries_lem rewrite (node follower)).0.1 (omega arith, inl refl)

writes_work : entries_ok rewrite.entries (follow 2 (b'b' ∷ []) (node follower)) ≡ true
unfolding entries_ok follow Wal.append would_overflow encode le_bytes encode_truncate Segment.append
    Segment.write_all Segment.sync Disk.append find bytes_eq segment_path Disk.sync_all store
    encode_append
writes_work = refl

on_append_entries-Takes_example :
    Takes 0 rewrite.entries one_entry (on_append_entries rewrite (node follower)).1.log.memory
on_append_entries-Takes_example =
    on_append_entries-Takes rewrite (node follower) accepts_rewrite one_entry-IsLog (omega arith)
      (refl, omega arith, (refl, omega arith, tt)) (omega arith) writes_work

-- The leader sends its whole log.
abbrev sends_all : RaftNode
sends_all = record other_log { next_index = (b'b' ∷ [], 1) ∷ [] }

accepts_all :
    (on_append_entries (build_append_entries_for (b'b' ∷ []) 2 sends_all) (node follower)).0.success
    ≡ true
unfolding build_append_entries_for next_for get bytes_eq
accepts_all =
    (on_append_entries_lem (build_append_entries_for (b'b' ∷ []) 2 sends_all) (node follower)).0.1
      (omega arith, inl refl)

all_work :
    entries_ok
      (build_append_entries_for (b'b' ∷ []) 2 sends_all).entries
      (follow 1 (b'a' ∷ []) (node follower))
    ≡ true
unfolding entries_ok build_append_entries_for next_for get entries_from follow Wal.append
    would_overflow encode le_bytes encode_truncate Segment.append Segment.write_all Segment.sync
    Disk.append find bytes_eq segment_path Disk.sync_all store encode_append
all_work = refl

exchange-agrees_example :
    term_at
      (on_append_entries
        (build_append_entries_for (b'b' ∷ []) 2 sends_all)
        (node follower)).1.log.memory
      2
    ≡ term_at sends_all.log.memory 2
unfolding next_for get bytes_eq last_index
exchange-agrees_example =
    exchange-agrees (b'b' ∷ []) 2 sends_all (node follower) 2
      (record { follows = (refl, omega arith, (refl, omega arith, tt)); bound = omega arith })
      one_entry-IsLog (omega arith) (omega arith) accepts_all all_work (omega arith) (omega arith)
      (omega arith)

-- A follower whose snapshot ends at 2 and who has an entry 3 of the snapshot's term, and a leader
-- without a snapshot who has an entry of a later term there.
abbrev compacted_follower : RaftNode
compacted_follower =
    with_memory (node follower)
      (record { entries = logged 3 2 ∷ []; snapshot_index = 2; snapshot_term = 2 })

abbrev later_leader : RaftNode
later_leader =
    with_memory (record (node leader) { next_index = (b'b' ∷ [], 4) ∷ [] })
      (record {
        entries = logged 1 2 ∷ logged 2 2 ∷ logged 3 3 ∷ [];
        snapshot_index = 0;
        snapshot_term = 0;
      })

abbrev sent_back : RaftNode
sent_back = heard_ae 3 (b'b' ∷ []) (ae_reject 2 2 compacted_follower) later_leader

-- The two refusals send the leader's next index from 4 to 2, and from 2 to 4 again.
goes_round :
    (log_conflict (build_append_entries_for (b'b' ∷ []) 3 later_leader) compacted_follower
      ≡ some (2, 2))
    × (log_conflict (build_append_entries_for (b'b' ∷ []) 3 sent_back) compacted_follower
        ≡ some (4, 0))
unfolding build_append_entries_for next_for get insert bytes_eq log_conflict ae_reject term_at
    first_index_of_term last_index
goes_round = (refl, refl)

timeout_elects_example :
    let n' = handle_timeout willing (node follower) in
    (n'.role ≡ leader)
    × (n'.current_leader ≡ some (b'a' ∷ []))
    × (n'.ps.current_term ≡ 2)
    × (n'.log ≡ one_log)
    × IsReady n'
unfolding quorum become_candidate
timeout_elects_example =
    timeout_elects willing (node follower) refl (omega arith) (refl, (refl, tt))

abbrev snapshot_request : InstallSnapshotRequest
snapshot_request = record {
  term = 1;
  leader_id = b'b' ∷ [];
  last_included_index = 1;
  last_included_term = 1;
  payload = [];
}
