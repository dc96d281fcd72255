-- ===== src/Examples/Rebuilt.antt =====
-- A log that is rebuilt from five records.
use wal_distributed_rs.Common.{
  bytes_eq, ℕ, ◌^◌, ◌<◌, ◌*◌, ◌≡◌, refl, none, List, [], ◌∷◌, length, arith, Bool, map,
}
use wal_distributed_rs.Common.Exec.{ok}
use wal_distributed_rs.Bytes.{le_bytes}
use wal_distributed_rs.Disk.{find}
use wal_distributed_rs.WalCore.Entry.{Entry, encode}
use wal_distributed_rs.WalCore.Segment.Names.{segment_path, is_segment_name, sort_by_key, sort_key}
use wal_distributed_rs.WalCore.Segment.Content.{disk, Table}
use wal_distributed_rs.WalCore.Segment.Read.{encodings}
use wal_distributed_rs.WalCore.Wal.{Wal}
use wal_distributed_rs.WalCore.Wal.Model.{Stands}
use wal_distributed_rs.WalCore.Wal.Parts.{paths_ne}
use wal_distributed_rs.Replication.Log.{RaftLog, last_index, open_log, truncated, compacted}
use wal_distributed_rs.Replication.Log.Record.{
  LogEntry, Memory, empty, encode_append, encode_truncate, encode_snapshot,
}
use wal_distributed_rs.Replication.Log.Replay.{IsLog}
use wal_distributed_rs.Replication.Log.Rebuild.{
  Written, leaves_all, records_of, AllWrite, open_log-rebuilds,
}
use wal_distributed_rs.Examples.Setup.{sums, entry, hello, whole_file}

-- Two entries, the second of them replaced by one of a later term, and a snapshot of the first.
abbrev calls : List Written
calls =
    Written.append 1 hello
    ∷ Written.append 1 []
    ∷ Written.truncate_from 2
    ∷ Written.append 2 (7 ∷ [])
    ∷ Written.compact 1 1
    ∷ []

abbrev first : LogEntry
first = record { term = 1; index = 1; payload = hello }

abbrev second : LogEntry
second = record { term = 1; index = 2; payload = [] }

abbrev third : LogEntry
third = record { term = 2; index = 2; payload = 7 ∷ [] }

abbrev records : List Entry
records =
    entry 1 (encode_append first)
    ∷ entry 2 (encode_append second)
    ∷ entry 3 (encode_truncate 2)
    ∷ entry 4 (encode_append third)
    ∷ entry 5 (encode_snapshot 1 1)
    ∷ []

abbrev left : Memory
left = record { entries = third ∷ []; snapshot_index = 1; snapshot_term = 1 }

calls-leave : leaves_all calls empty ≡ left
unfolding last_index truncated compacted
calls-leave = refl

calls-write : map (λ (e : Entry). e.payload) records ≡ records_of calls empty
unfolding last_index truncated compacted
calls-write = refl

calls-fit : AllWrite calls empty
unfolding last_index truncated compacted
calls-fit = (
  (omega arith, omega arith),
  (
    (omega arith, omega arith),
    (
      (omega arith, omega arith),
      ((omega arith, omega arith), ((omega arith, omega arith, omega arith), tt)),
    ),
  ),
)

abbrev files : Table
files = (segment_path 1, whole_file records) ∷ []

abbrev store : Wal
store = record {
  config = record { max_segment_bytes = 64 * 1024 * 1024; sync_writes = Bool.true };
  active = record {
    id = 1;
    path = segment_path 1;
    buffer = [];
    size = length (encodings records);
    max_bytes = 64 * 1024 * 1024;
  };
  sealed = [];
  checkpoint = record { sequence = 5 };
  next_sequence = 6;
}

not_found : (i : ℕ) → 1 < i → i < 2 ^ 64 → find (segment_path i) files ≡ none
unfolding find
not_found i above small =
    rw (paths_ne 1 i (omega arith) small (λ e. absurd (omega (arith, above, e)))) refl

store-Stands : Stands store files [] records
unfolding find segment_path bytes_eq encode le_bytes encode_append encode_truncate encode_snapshot
    sort_by_key is_segment_name sort_key
store-Stands = record {
  sealed = refl;
  sealed_files = tt;
  active_id = omega arith;
  active_path = refl;
  active_file = record {
    stored = whole_file records;
    found = refl;
    bytes = refl;
    fits = (
      record { sequence = omega arith; payload = omega arith },
      (
        record { sequence = omega arith; payload = omega arith },
        (
          record { sequence = omega arith; payload = omega arith },
          (
            record { sequence = omega arith; payload = omega arith },
            (record { sequence = omega arith; payload = omega arith }, tt),
          ),
        ),
      ),
    );
  };
  buffer = refl;
  size = refl;
  max_bytes = refl;
  below = tt;
  fresh = λ i above small. not_found i above small;
  listing = refl;
}

open_log-rebuilds_example :
    (l : RaftLog) × (open_log store.config (disk files) ≡ (ok l, disk files))
    × (l.memory ≡ left)
    × IsLog l.memory
unfolding last_index truncated compacted
open_log-rebuilds_example =
    open_log-rebuilds store.config store files [] records calls store-Stands refl calls-write
      calls-fit
