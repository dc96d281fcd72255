-- ===== src/Examples/Writes.antt =====
-- A client's write at concrete inputs.
use wal_distributed_rs.Common.{◌+◌, ◌≤◌, ◌≡◌, refl, [], Bool, ap, arith}
use wal_distributed_rs.Common.Exec.{ok}
use wal_distributed_rs.Disk.{Dir}
use wal_distributed_rs.Replication.Config.{quorum}
use wal_distributed_rs.Replication.Handle
use wal_distributed_rs.Replication.Handle.{handled}
use wal_distributed_rs.Replication.Log
use wal_distributed_rs.Replication.Log.{RaftLog, last_index, open_log}
use wal_distributed_rs.Replication.Log.Replay.{pushed}
use wal_distributed_rs.Replication.Node.{leader, on_log, wal_config}
use wal_distributed_rs.Replication.Node.Commits.{ae_acks, snap_acks}
use wal_distributed_rs.Replication.Node.Events.{handle_msg}
use wal_distributed_rs.Replication.Node.Leader.{ae_results, snap_results}
use wal_distributed_rs.Replication.Server.{WriteResponse, write, write_response}
use wal_distributed_rs.Replication.Server.Answers.{write-success}
use wal_distributed_rs.Replication.Server.Durable.{write-open_log}
use wal_distributed_rs.Examples.Nodes.{node, three, willing, written}
use wal_distributed_rs.Examples.Replicas.{one_entry, one_entry-IsLog, one_file, one_log-Recovers}
use wal_distributed_rs.Examples.Setup.{sums, hello}

abbrev accepted : WriteResponse
accepted = record { success = Bool.true; index = 2; leader_hint = [] }

answered : (write willing hello handled (node leader)).0 ≡ ok accepted
unfolding write Handle.write Handle.call handle_msg write_response
answered = ap write_response written

write_answers :
    let n1 = (on_log (Log.append 1 hello) (node leader)).1 in
    (leader ≡ leader)
    × (quorum three
        ≤ 1
          + ae_acks (ae_results willing 2 n1 n1.peers)
          + snap_acks (snap_results willing 2 n1 n1.peers))
    × ((write willing hello handled (node leader)).1.commit_index ≡ 2)
write_answers = write-success willing hello handled (node leader) accepted answered refl

write-open_log_example :
    (accepted.index ≡ last_index one_entry + 1)
    × ((l : RaftLog) × (d : Dir) × (open_log wal_config
            (write willing hello handled (node leader)).1.wal_dir
          ≡ (ok l, d))
        × (l.memory ≡ pushed 1 hello one_entry))
unfolding last_index
write-open_log_example =
    write-open_log willing hello (node leader) one_file wal_config accepted refl one_log-Recovers
      one_entry-IsLog (omega arith)
      (record {
        segment = omega arith;
        size32 = omega arith;
        bytes = omega arith;
        ids = omega arith;
        sequences = omega arith;
      })
      (omega arith) (omega arith) answered refl
