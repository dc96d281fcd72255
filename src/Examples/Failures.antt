-- ===== src/Examples/Failures.antt =====
-- A write to the log whose fsync fails, and the next one.
use wal_distributed_rs.Common.{◌≡◌, refl, ℕ, none, some, [], ◌∷◌, bytes_eq}
use wal_distributed_rs.Common.Exec.{err, Result, ok}
use wal_distributed_rs.Bytes.{le_bytes, from_le}
use wal_distributed_rs.Disk
use wal_distributed_rs.Disk.{Dir, other, find, store, erase, outcome, later}
use wal_distributed_rs.WalCore.Error.{WalError, io}
use wal_distributed_rs.WalCore.Entry.{encode, decode}
use wal_distributed_rs.WalCore.Segment
use wal_distributed_rs.WalCore.Segment.{would_overflow}
use wal_distributed_rs.WalCore.Segment.Names.{segment_path}
use wal_distributed_rs.WalCore.Segment.Scan.{read_raw}
use wal_distributed_rs.WalCore.Segment.Content.{disk}
use wal_distributed_rs.WalCore.Wal.{Wal, append, read_from}
use wal_distributed_rs.Examples.Setup.{sums, entry, hello, two_segments, two_files}

-- The write goes through, its fsync does not.
abbrev refused : Result WalError ℕ × (Wal × Dir)
refused = append (9 ∷ []) (two_segments, record (disk two_files) { faults = none ∷ some 0 ∷ [] })

abbrev again : Result WalError ℕ × (Wal × Dir)
again = append hello refused.1

-- The entry whose append has failed is in the log, and the next one has the same number.
numbers_twice :
    (refused.0 ≡ err (io other))
    × (again.0 ≡ ok 4)
    × ((read_from again.1.0 4 again.1.1).0 ≡ ok (entry 4 (9 ∷ []) ∷ entry 4 hello ∷ []))
unfolding append read_from Segment.write_all Segment.append Segment.sync Segment.flush
    would_overflow Segment.read_entries segment_path read_raw Disk.find Disk.store Disk.erase
    Disk.read Disk.append Disk.sync_all Disk.write_call Disk.call Disk.outcome Disk.later encode
    decode le_bytes from_le bytes_eq sums
numbers_twice = (refl, refl, refl)
