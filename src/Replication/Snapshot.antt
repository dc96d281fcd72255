-- ===== src/Replication/Snapshot.antt =====
-- crates/wal-replication/src/raft/snapshot.rs: the snapshot file, and log entries as snapshot data.
pub mod RoundTrip
pub mod Atomic
use wal_distributed_rs.Common.{
  ℕ, suc, zero, ◌+◌, ◌%◌, ◌^◌, Option, none, some, List, [], ◌∷◌, ◌++◌, length, drop, ltb,
  if◌then◌else◌,
}
use wal_distributed_rs.Common.Exec.{Result, Exec, ok, err, ◌>>=◌, ◌>>◌}
use wal_distributed_rs.Bytes.{le_bytes, from_le, slice}
use wal_distributed_rs.Disk
use wal_distributed_rs.Disk.{Dir, FileName, IoError, not_found, invalid_data}
use wal_distributed_rs.Replication.Log.Record.{LogEntry}

pub record Snapshot : Type 0 where
  pub last_included_index : ℕ
  pub last_included_term : ℕ
  pub payload : List ℕ

-- "snapshot"
abbrev pub snapshot_path : FileName
snapshot_path = b's' ∷ b'n' ∷ b'a' ∷ b'p' ∷ b's' ∷ b'h' ∷ b'o' ∷ b't' ∷ []

abbrev pub snapshot_tmp : FileName
snapshot_tmp = snapshot_path ++ b'.' ∷ b't' ∷ b'm' ∷ b'p' ∷ []

-- The buffer that `save` fills.
unfoldable pub encode : Snapshot → List ℕ
encode s =
    le_bytes 8 s.last_included_index
    ++ (le_bytes 8 s.last_included_term ++ (le_bytes 4 (length s.payload % 2 ^ 32) ++ s.payload))

unfoldable pub save : Snapshot → Exec IoError Dir (Unit {0})
unfolding encode
save s = do
  Disk.write snapshot_tmp []
  Disk.append snapshot_tmp (encode s)
  Disk.sync_all snapshot_tmp
  Disk.rename snapshot_tmp snapshot_path

-- What `load` makes of the file's bytes.
unfoldable pub decode : List ℕ → Result IoError (Option Snapshot)
decode buf =
    if ltb (length buf) 20
    then err invalid_data
    else let data_len = from_le (slice 16 20 buf) in
      if ltb (length buf) (20 + data_len)
      then err invalid_data
      else ok (
          some (record {
            last_included_index = from_le (slice 0 8 buf);
            last_included_term = from_le (slice 8 16 buf);
            payload = slice 20 (20 + data_len) buf;
          }))

abbrev pub loaded_or : Result IoError (List ℕ) → Result IoError (Option Snapshot)
loaded_or (ok buf) = decode buf
loaded_or (err not_found) = ok none
loaded_or (err e) = err e

unfoldable pub load : Exec IoError Dir (Option Snapshot)
unfolding decode
load d = let (r, d') = Disk.read snapshot_path d in (loaded_or r, d')

unfoldable pub encode_entry : LogEntry → List ℕ
encode_entry e =
    le_bytes 8 e.index
    ++ (le_bytes 8 e.term ++ (le_bytes 4 (length e.payload % 2 ^ 32) ++ e.payload))

unfoldable pub encode_all : List LogEntry → List ℕ
unfolding encode_entry
encode_all [] = []
encode_all (e ∷ es) = encode_entry e ++ encode_all es

unfoldable pub encode_entries : List LogEntry → List ℕ
unfolding encode_all
encode_entries entries = le_bytes 4 (length entries % 2 ^ 32) ++ encode_all entries

abbrev pub push_entry : LogEntry → Option (List LogEntry) → Option (List LogEntry)
push_entry e none = none
push_entry e (some es) = some (e ∷ es)

-- The loop of `decode_entries`, `rest` being `data[pos..]`.
unfoldable pub decode_all : ℕ → List ℕ → Option (List LogEntry)
decode_all zero rest = some []
decode_all (suc count) rest =
    let len = from_le (slice 16 20 rest) in
    let more = decode_all count (drop (20 + len) rest) in
    if ltb (length rest) 20
    then none
    else if ltb (length rest) (20 + len)
    then none
    else push_entry
        (record {
          term = from_le (slice 8 16 rest);
          index = from_le (slice 0 8 rest);
          payload = slice 20 (20 + len) rest;
        })
        more

unfoldable pub decode_entries : List ℕ → Option (List LogEntry)
unfolding decode_all
decode_entries payload =
    if ltb (length payload) 4
    then some []
    else decode_all (from_le (slice 0 4 payload)) (drop 4 payload)
