-- ===== src/Examples/Replicas.antt =====
-- The replicated log at concrete inputs.
use wal_distributed_rs.WalCore.Wal.{Wal}
use wal_distributed_rs.WalCore.Wal.Model.{names, Stands}
use wal_distributed_rs.WalCore.Wal.Fresh.{fresh_table}
use wal_distributed_rs.Replication.Log.Record.{empty, LogEntry, Memory, encode_append, replay}
use wal_distributed_rs.Replication.Log.Fresh.{open_log-fresh}
use wal_distributed_rs.Common.{
  filter, bytes_eq, ◌*◌, ℕ, ◌^◌, ◌<◌, ◌≡◌, refl, none, List, [], ◌∷◌, length, arith, Bool,
}
use wal_distributed_rs.Common.Exec.{ok}
use wal_distributed_rs.Bytes.{le_bytes, from_le}
use wal_distributed_rs.Disk.{find}
use wal_distributed_rs.WalCore.Entry.{Entry, encode}
use wal_distributed_rs.WalCore.Segment.Names.{segment_path, is_segment_name, sort_by_key, sort_key}
use wal_distributed_rs.WalCore.Segment.Content.{disk, Table}
use wal_distributed_rs.WalCore.Segment.Read.{encodings}
use wal_distributed_rs.WalCore.Wal.Parts.{paths_ne}
use wal_distributed_rs.Replication.Log
use wal_distributed_rs.Replication.Log.{RaftLog, last_index, open_log, truncated}
use wal_distributed_rs.Replication.Log.Replay.{IsLog, pushed}
use wal_distributed_rs.Replication.Log.Restart.{open_log-Recovers}
use wal_distributed_rs.Replication.Log.Recovery.{Recovers, append-Recovers, truncate_from-Recovers}
use wal_distributed_rs.Examples.Setup.{sums, entry, hello}

-- A log of one entry, in the first segment of its write-ahead log.
abbrev first : LogEntry
first = record { term = 1; index = 1; payload = hello }

abbrev pub one_entry : Memory
one_entry = record { entries = first ∷ []; snapshot_index = 0; snapshot_term = 0 }

abbrev records : List Entry
records = entry 1 (encode_append first) ∷ []

abbrev pub one_file : Table
one_file =
    (segment_path 1, record { bytes = encodings records; synced = length (encodings records) }) ∷ []

abbrev pub one_segment : Wal
one_segment = record {
  config = record { max_segment_bytes = 64 * 1024 * 1024; sync_writes = Bool.true };
  active = record {
    id = 1;
    path = segment_path 1;
    buffer = [];
    size = 38;
    max_bytes = 64 * 1024 * 1024;
  };
  sealed = [];
  checkpoint = record { sequence = 0 };
  next_sequence = 2;
}

abbrev pub one_log : RaftLog
one_log = record { memory = one_entry; store = one_segment }

pub one_entry-IsLog : IsLog one_entry
one_entry-IsLog = record { follows = (refl, omega arith, tt); bound = omega arith }

not_found : (i : ℕ) → 1 < i → i < 2 ^ 64 → find (segment_path i) one_file ≡ none
unfolding find
not_found i above small =
    rw (paths_ne 1 i (omega arith) small (λ e. absurd (omega (arith, above, e)))) refl

one_segment-Stands : Stands one_segment one_file [] records
unfolding find segment_path bytes_eq encode le_bytes encode_append sort_by_key is_segment_name
    sort_key
one_segment-Stands = record {
  sealed = refl;
  sealed_files = tt;
  active_id = omega arith;
  active_path = refl;
  active_file = record {
    stored = record { bytes = encodings records; synced = length (encodings records) };
    found = refl;
    bytes = refl;
    fits = (record { sequence = omega arith; payload = omega arith }, tt);
  };
  buffer = refl;
  size = refl;
  max_bytes = refl;
  below = tt;
  fresh = λ i above small. not_found i above small;
  listing = refl;
}

pub one_log-Recovers : Recovers one_log one_file
unfolding replay encode_append le_bytes from_le
one_log-Recovers = record {
  old = [];
  now = records;
  stands = one_segment-Stands;
  replayed = refl;
  numbered = refl;
  next = omega arith;
  successor = refl;
}

append-Recovers_example :
    (l' : RaftLog) × (t' : Table) × (Log.append 2 hello (one_log, disk one_file)
      ≡ (ok 2, (l', disk t')))
    × (l'.memory ≡ pushed 2 hello one_entry)
    × Recovers l' t'
unfolding last_index
append-Recovers_example =
    append-Recovers 2 hello one_log one_file one_log-Recovers one_entry-IsLog (omega arith)
      (record {
        segment = omega arith;
        size32 = omega arith;
        bytes = omega arith;
        ids = omega arith;
        sequences = omega arith;
      })

truncates_at_replica :
    (l' : RaftLog) × (t' : Table) × (Log.truncate_from 1 (one_log, disk one_file)
      ≡ (ok tt, (l', disk t')))
    × (l'.memory ≡ truncated 1 one_entry)
    × Recovers l' t'
truncates_at_replica =
    truncate_from-Recovers 1 one_log one_file one_log-Recovers one_entry-IsLog (omega arith)
      (unfold last_index in omega arith)
      (record {
        segment = omega arith;
        size32 = omega arith;
        bytes = omega arith;
        ids = omega arith;
        sequences = omega arith;
      })

opens_again :
    (l' : RaftLog) × (open_log one_segment.config (disk one_file) ≡ (ok l', disk one_file))
    × (l'.memory ≡ one_entry)
    × Recovers l' one_file
opens_again = open_log-Recovers one_segment.config one_log one_file one_log-Recovers

-- A directory with one other file.
abbrev other_file : Table
other_file = (b'x' ∷ [], record { bytes = hello; synced = 0 }) ∷ []

no_segment : filter is_segment_name (names other_file) ≡ []
unfolding is_segment_name
no_segment = refl

starts_empty :
    (l : RaftLog) × (open_log one_segment.config (disk other_file)
      ≡ (ok l, disk (fresh_table other_file)))
    × (l.memory ≡ empty)
    × Recovers l (fresh_table other_file)
starts_empty = open_log-fresh one_segment.config other_file no_segment
