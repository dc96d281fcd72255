-- ===== src/Examples/Runs.antt =====
-- Runs of a log, and a disk that fails, at concrete inputs.
use wal_distributed_rs.Common.{◌≡◌, refl, some, List, [], ◌∷◌, arith}
use wal_distributed_rs.Disk.{Dir}
use wal_distributed_rs.WalCore.Segment.Content.{disk}
use wal_distributed_rs.WalCore.Wal
use wal_distributed_rs.WalCore.Wal.Bounds.{Within, Counts, append_bounded}
use wal_distributed_rs.Replication.Log.{RaftLog}
use wal_distributed_rs.Replication.Log.Replay.{IsLog}
use wal_distributed_rs.Replication.Log.Runs.{LogOp, run_log, items}
use wal_distributed_rs.Replication.Log.Runs.Refines.{run_log-effects}
use wal_distributed_rs.Examples.Setup.{sums, hello, small, two_segments, two_files}

-- The second of the two entries is cut off, the process ends, and another entry takes its place.
abbrev ops : List LogOp
ops =
    LogOp.append 1 hello
    ∷ LogOp.append 1 []
    ∷ LogOp.truncate_from 2
    ∷ LogOp.restart
    ∷ LogOp.append 2 hello
    ∷ []

run_log-effects_example :
    (l : RaftLog) × (d : Dir) × (run_log small ops (disk []) ≡ some (l, d))
    × (items l.memory.entries ≡ (1, hello) ∷ (2, hello) ∷ [])
    × (l.memory.snapshot_index ≡ 0)
    × IsLog l.memory
run_log-effects_example =
    run_log-effects small [] ops refl
      (
        (omega arith, omega arith, omega arith),
        (
          (omega arith, omega arith, omega arith),
          (omega arith, (tt, ((omega arith, omega arith, omega arith), tt))),
        ),
      )
      (omega arith) (omega arith)

-- The write of the entry stops after three bytes.
abbrev failing : Dir
failing = record { files = two_files; faults = some 3 ∷ [] }

append_bounded_example :
    let out = Wal.append hello (two_segments, failing) in
    Within two_segments out.1.0 × Counts two_segments out.0 out.1.0
append_bounded_example = append_bounded hello two_segments failing refl (omega arith) (omega arith)
