-- ===== src/Replication/Log/Fresh.antt =====
-- `open_log` in a directory that holds no log yet.
use wal_distributed_rs.Common.{◌≡◌, refl, [], filter, arith}
use wal_distributed_rs.Common.Exec.{ok}
use wal_distributed_rs.WalCore.Entry.{Crc}
use wal_distributed_rs.WalCore.Segment.Names.{is_segment_name}
use wal_distributed_rs.WalCore.Segment.Content.{disk, Table}
use wal_distributed_rs.WalCore.Wal.{WalConfig}
use wal_distributed_rs.WalCore.Wal.Model.{names}
use wal_distributed_rs.WalCore.Wal.Reads.{read_from-Stands}
use wal_distributed_rs.WalCore.Wal.Fresh.{fresh, fresh_table, open_wal-fresh}
use wal_distributed_rs.Replication.Log.{RaftLog, open_log}
use wal_distributed_rs.Replication.Log.Record.{empty, replay}
use wal_distributed_rs.Replication.Log.Recovery.{Recovers}

module _ ⦃c : Crc⦄ where
  abbrev pub new_log : WalConfig → Table → RaftLog
  new_log config t = record { memory = empty; store = fresh config t }

  pub open_log_new :
      (config : WalConfig) (t : Table)
      → filter is_segment_name (names t) ≡ []
      → (open_log config (disk t) ≡ (ok (new_log config t), disk (fresh_table t)))
        × Recovers (new_log config t) (fresh_table t)
  unfolding open_log replay
  open_log_new config t bare =
      let (opened, stands) = open_wal-fresh config t bare in
      let reads = read_from-Stands (fresh config t) (fresh_table t) [] [] 1 stands in
      (
        rw opened (rw reads refl),
        record {
          old = [];
          now = [];
          stands = stands;
          replayed = refl;
          numbered = refl;
          next = omega arith;
          successor = refl;
        },
      )

  -- In a directory without segments, with calls that do not fail, `open_log` starts an empty log,
  -- and the records on disk replay to it.
  pub open_log-fresh :
      (config : WalConfig) (t : Table)
      → filter is_segment_name (names t) ≡ []
      → (l : RaftLog) × (open_log config (disk t) ≡ (ok l, disk (fresh_table t)))
        × (l.memory ≡ empty)
        × Recovers l (fresh_table t)
  open_log-fresh config t bare =
      let (opened, recovers) = open_log_new config t bare in
      (new_log config t, opened, refl, recovers)
