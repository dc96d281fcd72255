-- ===== src/Examples/Codecs.antt =====
-- The checkpoint, the term and the vote, and the snapshot at concrete inputs.
use wal_distributed_rs.Common.{
  bytes_eq, ◌≤◌, ◌<◌, ◌≡◌, ◌≢◌, ◌⊎◌, refl, some, none, List, [], ◌∷◌, length, arith,
}
use wal_distributed_rs.Common.Exec.{ok, err, ◌>>◌}
use wal_distributed_rs.Disk.{Dir, find, other}
use wal_distributed_rs.WalCore.Segment.{Segment, append, flush, sync}
use wal_distributed_rs.WalCore.Segment.Names.{segment_path}
use wal_distributed_rs.WalCore.Segment.Content.{Holds}
use wal_distributed_rs.WalCore.Segment.Stores.{Stores, IsDurable, append-Stores}
use wal_distributed_rs.WalCore.Checkpoint.{advance}
use wal_distributed_rs.WalCore.Checkpoint.Atomic.{loaded, advance_atomic}
use wal_distributed_rs.Replication.Error.{io}
use wal_distributed_rs.Replication.Log.Record.{LogEntry, Memory}
use wal_distributed_rs.Replication.Log.{compacted, installed}
use wal_distributed_rs.Replication.Log.Replay.{compacted-eq-installed}
use wal_distributed_rs.Replication.PersistentState.{PersistentState, persist, utf8_from}
use wal_distributed_rs.Replication.PersistentState.Atomic
use wal_distributed_rs.Replication.PersistentState.Atomic.{persist_atomic}
use wal_distributed_rs.Replication.Snapshot.{
  Snapshot, save, decode_entries, encode_entries, snapshot_path, encode,
}
use wal_distributed_rs.Replication.Snapshot.Atomic.{save_atomic, loaded as loaded_snapshot}
use wal_distributed_rs.Replication.Snapshot.RoundTrip.{decode_entries-encode_entries}
use wal_distributed_rs.Examples.Setup.{hello}

-- A buffer of which the disk takes two bytes before the write fails.
abbrev buffered : Segment
buffered = record { id = 2; path = segment_path 2; buffer = hello; size = 5; max_bytes = 64 }

abbrev failing : Dir
failing = record {
  files = (segment_path 2, record { bytes = []; synced = 0 }) ∷ [];
  faults = some 2 ∷ [];
}

buffered-Holds : Holds buffered failing hello
unfolding find segment_path bytes_eq
buffered-Holds = record {
  open_file = record { bytes = []; synced = 0 };
  found = refl;
  content = refl;
}

append-Stores_example :
    Stores
      (λ f. Unit)
      buffered
      failing
      hello
      (7 ∷ [])
      ((do append (7 ∷ []); flush) (buffered, failing))
    × Stores IsDurable buffered failing hello
        (7 ∷ [])
        ((do append (7 ∷ []); sync) (buffered, failing))
append-Stores_example = append-Stores buffered failing hello (7 ∷ []) buffered-Holds

-- The rename of the checkpoint fails.
abbrev rename_fails : Dir
rename_fails = record { files = []; faults = none ∷ some 0 ∷ [] }

advance_atomic_example :
    let r = advance 7 (record { sequence = 3 }, rename_fails) in
    ((r.1.0 ≡ record { sequence = 3 })
      × (loaded r.1.1.files ≡ loaded [])
      × ((7 ≤ 3) ⊎ (r.0 ≢ ok tt)))
    ⊎ ((r.0 ≡ ok tt) × (r.1.0.sequence ≡ 7) × ((loaded r.1.1.files).sequence ≡ 7) × (3 < 7))
advance_atomic_example = advance_atomic 7 (record { sequence = 3 }) rename_fails (omega arith)

abbrev voted : PersistentState
voted = record { current_term = 5; voted_for = some hello }

persist_atomic_example :
    let r = persist (voted, rename_fails) in
    ((r.0 ≡ ok tt) × (Atomic.loaded r.1.1.files ≡ voted))
    ⊎ ((r.0 ≡ err (io other)) × (Atomic.loaded r.1.1.files ≡ Atomic.loaded []))
unfolding utf8_from
persist_atomic_example =
    persist_atomic voted rename_fails (omega arith) (refl, omega arith, omega arith)

abbrev snap : Snapshot
snap = record { last_included_index = 42; last_included_term = 3; payload = hello }

save_atomic_example :
    let r = save snap rename_fails in
    ((r.0 ≡ ok tt)
      × (loaded_snapshot r.1.files ≡ ok (some snap))
      × (find snapshot_path r.1.files
          ≡ some (record { bytes = encode snap; synced = length (encode snap) })))
    ⊎ ((r.0 ≡ err other) × (loaded_snapshot r.1.files ≡ loaded_snapshot []))
save_atomic_example =
    save_atomic snap rename_fails
      (record { index = omega arith; term = omega arith; payload = omega arith })

abbrev log_entries : List LogEntry
log_entries =
    record { term = 1; index = 1; payload = hello }
    ∷ record { term = 2; index = 2; payload = [] }
    ∷ []

decode_entries-encode_entries_example :
    decode_entries (encode_entries log_entries) ≡ some log_entries
decode_entries-encode_entries_example =
    decode_entries-encode_entries log_entries
      (
        record { index = omega arith; term = omega arith; payload = omega arith },
        (record { index = omega arith; term = omega arith; payload = omega arith }, tt),
      )
      (omega arith)

abbrev two_entries : Memory
two_entries = record { entries = log_entries; snapshot_index = 0; snapshot_term = 0 }

compacted-eq-installed_example : compacted 1 1 two_entries ≡ installed 1 1 two_entries
compacted-eq-installed_example =
    compacted-eq-installed two_entries 1 1
      (record { follows = (refl, omega arith, (refl, omega arith, tt)); bound = omega arith })
      (omega arith)
