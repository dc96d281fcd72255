-- ===== src/Replication/Log/Runs/Refines.antt =====
-- Runs of a replicated log against the list of items that they are to leave.
use wal_distributed_rs.Common.{
  ◌+◌, ◌*◌, ◌^◌, ◌<◌, ◌≡◌, refl, ap, ◌∙◌, some, List, [], ◌∷◌, length, All, arith, filter,
}
use wal_distributed_rs.Disk.{Dir}
use wal_distributed_rs.WalCore.Entry.{Crc}
use wal_distributed_rs.WalCore.Segment.Names.{is_segment_name}
use wal_distributed_rs.WalCore.Segment.Content.{disk, Table}
use wal_distributed_rs.WalCore.Wal.{WalConfig}
use wal_distributed_rs.WalCore.Wal.Model.{names}
use wal_distributed_rs.WalCore.Wal.Fresh.{fresh_table}
use wal_distributed_rs.Replication.Log.{RaftLog}
use wal_distributed_rs.Replication.Log.Replay.{IsLog}
use wal_distributed_rs.Replication.Log.Fresh.{open_log_new, new_log}
use wal_distributed_rs.Replication.Log.Runs.{run_log, LogOp, opened, perform_all, effects, items}
use wal_distributed_rs.Replication.Log.Runs.Steps.{OpFits, Runs, step-Done}
use wal_distributed_rs.Replication.Log.Runs.{on_some}

module _ ⦃c : Crc⦄ where
  pub perform_all-Runs :
      (config : WalConfig) (ops : List LogOp) (l : RaftLog) (t : Table)
      → Runs config (length ops) l t
      → All (OpFits config) ops
      → (l' : RaftLog) × (t' : Table) × (perform_all config ops (l, disk t) ≡ some (l', disk t'))
        × Runs config 0 l' t'
        × (items l'.memory.entries ≡ effects ops (items l.memory.entries))
  unfolding perform_all
  perform_all-Runs config [] l t h fits = (l, t, refl, h, refl)
  perform_all-Runs config (op ∷ ops) l t h fits =
      let (l1, t1, first, h1, one) = step-Done config (length ops) op l t h fits.0 in
      let (l', t', rest, h', others) = perform_all-Runs config ops l1 t1 h1 fits.1 in
      (
        l',
        t',
        ap (λ o. on_some o (perform_all config ops)) first ∙ rest,
        h',
        others ∙ ap (effects ops) one,
      )

  -- The log of a process is a list of items, and a restart changes nothing: on a disk whose calls
  -- do not fail, in a directory without segments, a log is opened, and then any operations are
  -- performed on it that append an entry, cut the log at an index, or end the process and open the
  -- log again. When the terms are u64s, the records fit a segment, and there are fewer operations
  -- than the counters have numbers, all of them succeed, and the log then holds, under the indices
  -- from 1 on, the terms and payloads of the list on which the same operations were performed.
  pub run_log-effects :
      (config : WalConfig) (t : Table) (ops : List LogOp)
      → filter is_segment_name (names t) ≡ []
      → All (OpFits config) ops
      → 2 * config.max_segment_bytes < 2 ^ 64
      → length ops + 2 < 2 ^ 64
      → (l : RaftLog) × (d : Dir) × (run_log config ops (disk t) ≡ some (l, d))
        × (items l.memory.entries ≡ effects ops [])
        × (l.memory.snapshot_index ≡ 0)
        × IsLog l.memory
  unfolding run_log
  run_log-effects config t ops bare fits bytes few =
      let (begun, recovers) = open_log_new config t bare in
      let (l, t', run, h, same) =
        perform_all-Runs config ops (new_log config t) (fresh_table t)
          (record {
            recovers = recovers;
            log = record { follows = tt; bound = omega arith };
            snapshot_index = refl;
            budget = record {
              config = refl;
              max_bytes = refl;
              size = omega arith;
              bytes = bytes;
              ids = omega (arith, few);
              sequences = omega (arith, few);
            };
            room = omega (arith, few);
          })
          fits in
      (
        l,
        disk t',
        ap (λ o. on_some (opened o) (perform_all config ops)) begun ∙ run,
        same,
        h.snapshot_index,
        h.log,
      )
