-- ===== src/Replication/Log/Restart.antt =====
-- The replicated log when it is opened again.
use mathlib.Core.Path.{subst}
use wal_distributed_rs.Common.{◌≤◌, ◌≡◌, refl, ap, ◌∙◌, List, ◌++◌}
use wal_distributed_rs.Common.Exec.{ok}
use wal_distributed_rs.WalCore.Entry.{Crc, Entry}
use wal_distributed_rs.WalCore.Segment.Content.{disk, Table}
use wal_distributed_rs.WalCore.Wal.{WalConfig}
use wal_distributed_rs.WalCore.Wal.Model.{entries_of}
use wal_distributed_rs.WalCore.Wal.Reads.{read_from-Stands}
use wal_distributed_rs.WalCore.Wal.Reopen.{open_wal-Stands, reopened}
use wal_distributed_rs.Replication.Log.Record.{empty, replay}
use wal_distributed_rs.Replication.Log.{RaftLog, open_log}
use wal_distributed_rs.Replication.Log.Recovery.{Recovers}

module _ ⦃c : Crc⦄ where
  abbrev pub restarted : WalConfig → RaftLog → Table → List Entry → RaftLog
  restarted config l t records = record {
    memory = l.memory;
    store = reopened config l.store t records;
  }

  -- What `open_log` makes of the disk that a log stands on.
  pub open_log_done :
      (config : WalConfig) (l : RaftLog) (t : Table) (h : Recovers l t)
      → (open_log config (disk t) ≡ (ok (restarted config l t (entries_of h.old ++ h.now)), disk t))
        × Recovers (restarted config l t (entries_of h.old ++ h.now)) t
  unfolding open_log
  open_log_done config l t h =
      let (opened, stands) = open_wal-Stands config l.store t h.old h.now h.stands in
      let w = reopened config l.store t (entries_of h.old ++ h.now) in
      let reads = read_from-Stands w t h.old h.now 1 stands in
      (
        rw opened (
            rw reads (λ i. (
              ok (record { memory = (ap (replay empty) h.numbered ∙ h.replayed) i; store = w }),
              disk t,
            ))),
        record {
          old = h.old;
          now = h.now;
          stands = stands;
          replayed = h.replayed;
          numbered = h.numbered;
          next = subst (λ n. 1 ≤ n) h.successor h.next;
          successor = refl;
        },
      )

  -- After a crash the log in memory is rebuilt as it was: on a disk whose calls do not fail and
  -- whose records replay to a log, with sequence numbers from 1 on, `open_log` returns that log's
  -- entries and its snapshot's place, changes nothing on disk, and the log stands there again.
  pub open_log-Recovers :
      (config : WalConfig) (l : RaftLog) (t : Table)
      → Recovers l t
      → (l' : RaftLog) × (open_log config (disk t) ≡ (ok l', disk t))
        × (l'.memory ≡ l.memory)
        × Recovers l' t
  open_log-Recovers config l t h =
      let (done, recovers) = open_log_done config l t h in
      (restarted config l t (entries_of h.old ++ h.now), done, refl, recovers)
