-- ===== src/WalCore/Wal/Reads.antt =====
-- `read_from` and `recover` over a log on disk.
use wal_distributed_rs.Common.{
  ℕ, ◌+◌, ◌^◌, ◌<◌, ◌≡◌, refl, List, [], ◌∷◌, ◌++◌, All, arith, filter-append, add64,
}
use wal_distributed_rs.Common.Exec.{ok}
use wal_distributed_rs.WalCore.Entry.{Crc, Entry}
use wal_distributed_rs.WalCore.Segment.Names.{segment_path}
use wal_distributed_rs.WalCore.Segment.Content.{disk, Table}
use wal_distributed_rs.WalCore.Wal.{Wal, read_from, read_sealed, from_on, recover}
use wal_distributed_rs.WalCore.Wal.Model.{
  Part, ids, entries_of, Stored, Stands, read_entries-Stores,
}

module _ ⦃c : Crc⦄ where
  pub read_sealed-Stored :
      (n : ℕ) (t : Table) (old : List Part)
      → All (Stored t) old
      → read_sealed n (ids old) (disk t) ≡ (ok (from_on n (entries_of old)), disk t)
  unfolding read_sealed
  read_sealed-Stored n t [] h = refl
  read_sealed-Stored n t (p ∷ ps) h = rw (
    read_entries-Stores t (segment_path p.0) p.1 h.0.0,
    read_sealed-Stored n t ps h.1,
    filter-append _ p.1 (entries_of ps),
  )

  -- `read_from` on a log that stands on a disk whose calls do not fail returns exactly the entries
  -- of the log whose sequence number is at least the one asked for, in the order of the log, and
  -- changes nothing on disk.
  pub read_from-Stands :
      (w : Wal) (t : Table) (old : List Part) (now : List Entry) (n : ℕ)
      → Stands w t old now
      → read_from w n (disk t) ≡ (ok (from_on n (entries_of old ++ now)), disk t)
  unfolding read_from
  read_from-Stands w t old now n h = rw (
    h.sealed,
    read_sealed-Stored n t old h.sealed_files,
    h.active_path,
    read_entries-Stores t (segment_path w.active.id) now h.active_file,
    filter-append _ (entries_of old) now,
  )

  -- `recover` on a log that stands on a disk whose calls do not fail returns the entries above the
  -- checkpoint, for a checkpoint below the last u64.
  pub recover-Stands :
      (w : Wal) (t : Table) (old : List Part) (now : List Entry)
      → Stands w t old now
      → w.checkpoint.sequence + 1 < 2 ^ 64
      → recover w (disk t)
        ≡ (ok (from_on (w.checkpoint.sequence + 1) (entries_of old ++ now)), disk t)
  unfolding recover
  recover-Stands w t old now h lt =
      let e : add64 w.checkpoint.sequence 1 ≡ w.checkpoint.sequence + 1 = omega arith in
      rw e (read_from-Stands w t old now _ h)
