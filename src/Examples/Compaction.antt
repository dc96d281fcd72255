-- ===== src/Examples/Compaction.antt =====
-- What a compaction deletes on disk.
use wal_distributed_rs.Common.{ℕ, ◌≡◌, refl, [], bytes_eq}
use wal_distributed_rs.Common.Exec.{Result, ok, err, ◌>>◌}
use wal_distributed_rs.Disk
use wal_distributed_rs.Disk.{Dir}
use wal_distributed_rs.Bytes.{le_bytes, from_le}
use wal_distributed_rs.WalCore.Error.{Failure}
use wal_distributed_rs.WalCore.Entry
use wal_distributed_rs.WalCore.Segment
use wal_distributed_rs.WalCore.Segment.Names
use wal_distributed_rs.WalCore.Segment.Scan
use wal_distributed_rs.WalCore.Checkpoint
use wal_distributed_rs.WalCore.Segment.Content.{disk}
use wal_distributed_rs.WalCore.Wal.Fresh.{fresh, fresh_table}
use wal_distributed_rs.WalCore.Wal
use wal_distributed_rs.Replication.Log.{RaftLog, LogExec, append, compact, open_log, last_index}
use wal_distributed_rs.Replication.Log.Record
use wal_distributed_rs.Replication.Log.Record.{empty}
use wal_distributed_rs.Examples.Setup.{sums, small}

-- Three entries in a segment each, and a compaction up to the first.
abbrev three_then_compact : LogExec (Unit {0})
three_then_compact = do append 1 []; append 1 []; append 1 []; compact 1 1

-- The last index in memory, and the one after a crash.
abbrev last_of : Result Failure RaftLog × Dir → ℕ
last_of (err e, d) = 0
last_of (ok l, d) = last_index l.memory

abbrev left : RaftLog × Dir
left =
    (three_then_compact
      (record { memory = empty; store = fresh small [] }, disk (fresh_table []))).1

loses : (last_index left.0.memory ≡ 3) × (last_of (open_log small left.1) ≡ 1)
unfolding append compact open_log Record.encode_append Record.encode_snapshot Record.replay
    Wal.ids_or_panic Wal.highest_sequence_on_disk Wal.open_wal Wal.append Wal.checkpoint Wal.recover
    Wal.truncate_before Segment.create Segment.open_for_append Segment.write_all Segment.append
    Segment.sync Segment.would_overflow Segment.read_entries Names.segment_path
    Names.is_segment_name Names.sort_key Names.sort_by_key Names.list_segments Scan.read_raw
    Checkpoint.open_checkpoint Checkpoint.advance Disk.find Disk.store Disk.erase
    Disk.create_dir_all Disk.create_new Disk.open_append Disk.file_len Disk.read Disk.append
    Disk.sync_all Disk.write Disk.rename Disk.remove_file Disk.read_dir Entry.encode Entry.decode
    le_bytes from_le bytes_eq sums
loses = (refl, refl)
