-- ===== src/WalCore/Wal/Restart.antt =====
-- A process that appends and ends, and the next one that opens the same directory.
use wal_distributed_rs.Common.{
  ℕ, ◌+◌, ◌≤◌, ◌<◌, ◌^◌, ◌≡◌, ◌∙◌, List, [], ◌∷◌, ◌++◌, length, last?-snoc, append_assoc, sym,
}
use wal_distributed_rs.Common.Exec.{ok}
use wal_distributed_rs.Disk.{Dir}
use wal_distributed_rs.WalCore.Entry.{Crc, Entry}
use wal_distributed_rs.WalCore.Segment.Read.{Fits}
use wal_distributed_rs.WalCore.Segment.Content.{disk, Table}
use wal_distributed_rs.WalCore.Wal.{Wal, WalConfig, append, open_wal, read_from, from_on}
use wal_distributed_rs.WalCore.Wal.Model.{Part, entries_of, Stands}
use wal_distributed_rs.WalCore.Wal.Reads.{read_from-Stands}
use wal_distributed_rs.WalCore.Wal.Growth.{append-Stands}
use wal_distributed_rs.WalCore.Wal.Reopen.{open_wal-Stands, reopened}

module _ ⦃c : Crc⦄ where
  -- What `append` accepted is there after a restart. For a log that stands on a disk whose calls do
  -- not fail, a payload that fits an entry and a segment, and counters that are not at their end:
  -- `append` returns the next sequence number, the directory that it leaves opens with the same
  -- next sequence number that the first process had, and reading from any number on gives the old
  -- entries from there on and, if its number is high enough, the new one behind them.
  pub read_from-open_wal-append :
      (config : WalConfig) (w : Wal) (t : Table) (old : List Part) (now : List Entry)
      (payload : List ℕ) (n : ℕ)
      → Stands w t old now
      → Fits (record { sequence = w.next_sequence; payload = payload })
      → 16 + length payload ≤ w.config.max_segment_bytes
      → w.active.size + w.config.max_segment_bytes < 2 ^ 64
      → w.active.id + 1 < 2 ^ 64
      → (left : Wal × Dir) × (again : Wal) × (append payload (w, disk t)
          ≡ (ok w.next_sequence, left))
        × (open_wal config left.1 ≡ (ok again, left.1))
        × (again.next_sequence ≡ left.0.next_sequence)
        × (read_from again n left.1 ≡ (
          ok (
              from_on n (
                (entries_of old ++ now)
                ++ record { sequence = w.next_sequence; payload = payload } ∷ [])),
          left.1,
        ))
  read_from-open_wal-append config w t old now payload n h fits room bound ids_left =
      let (left, done, g) = append-Stands w t old now payload h fits room bound ids_left in
      let e : Entry = record { sequence = w.next_sequence; payload = payload } in
      let all : entries_of g.old' ++ g.now' ≡ (entries_of old ++ now) ++ e ∷ [] =
        g.entries ∙ sym (append_assoc (entries_of old) now (e ∷ [])) in
      let (opened, stands) = open_wal-Stands config left.0 g.table g.old' g.now' g.stands in
      (
        left,
        reopened config left.0 g.table (entries_of g.old' ++ g.now'),
        done,
        rw g.on_disk opened,
        rw (all, last?-snoc (entries_of old ++ now) e) (sym g.next_sequence),
        rw (g.on_disk, ← all) (read_from-Stands _ g.table g.old' g.now' n stands),
      )
