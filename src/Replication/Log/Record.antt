-- ===== src/Replication/Log/Record.antt =====
-- The records that crates/wal-replication/src/raft/log.rs writes into the write-ahead log, and the
-- replay of them.
use wal_distributed_rs.Common.{
  ℕ, ◌-◌, Option, none, some, List, [], ◌∷◌, ◌++◌, length, take, drop, set, filter, ltb, leb, ◌==◌,
  add64, if◌then◌else◌,
}
use wal_distributed_rs.Bytes.{le_bytes, from_le, slice}
use wal_distributed_rs.WalCore.Entry.{Entry}

pub record LogEntry : Type 0 where
  pub term : ℕ
  pub index : ℕ
  pub payload : List ℕ

-- The in-memory part of `RaftLog`.
pub record Memory : Type 0 where
  pub entries : List LogEntry
  pub snapshot_index : ℕ
  pub snapshot_term : ℕ

abbrev pub empty : Memory
empty = record { entries = []; snapshot_index = 0; snapshot_term = 0 }

abbrev pub kind_append : ℕ
kind_append = 1

abbrev pub kind_truncate : ℕ
kind_truncate = 2

abbrev pub kind_snapshot : ℕ
kind_snapshot = 3

unfoldable pub encode_append : LogEntry → List ℕ
encode_append e = kind_append ∷ (le_bytes 8 e.index ++ (le_bytes 8 e.term ++ e.payload))

unfoldable pub decode_append : List ℕ → Option LogEntry
decode_append payload =
    if ltb (length payload) 16
    then none
    else some (record {
      term = from_le (slice 8 16 payload);
      index = from_le (slice 0 8 payload);
      payload = drop 16 payload;
    })

unfoldable pub encode_truncate : ℕ → List ℕ
encode_truncate from_index = kind_truncate ∷ le_bytes 8 from_index

unfoldable pub encode_snapshot : ℕ → ℕ → List ℕ
encode_snapshot last_index last_term =
    kind_snapshot ∷ (le_bytes 8 last_index ++ le_bytes 8 last_term)

-- The arms of the `match` in `RaftLog::open`.
unfoldable pub apply_append : LogEntry → Memory → Memory
apply_append e m =
    let offset = e.index - add64 m.snapshot_index 1 in
    if ltb m.snapshot_index e.index
    then (if ltb offset (length m.entries)
        then record m { entries = set m.entries offset e }
        else record m { entries = m.entries ++ (e ∷ []) })
    else m

unfoldable pub apply_truncate : ℕ → Memory → Memory
apply_truncate from m =
    if ltb (add64 m.snapshot_index 1) from
    then record m { entries = take (from - m.snapshot_index - 1) m.entries }
    else if from == add64 m.snapshot_index 1
    then record m { entries = [] }
    else m

unfoldable pub apply_snapshot : ℕ → ℕ → Memory → Memory
apply_snapshot index term m = record {
  entries = filter (λ e. ltb index e.index) m.entries;
  snapshot_index = index;
  snapshot_term = term;
}

abbrev pub apply_decoded : Option LogEntry → Memory → Memory
apply_decoded none m = m
apply_decoded (some e) m = apply_append e m

unfoldable pub apply_record : Memory → List ℕ → Memory
unfolding decode_append apply_append apply_truncate apply_snapshot
apply_record m [] = m
apply_record m (kind ∷ rest) =
    if kind == kind_append
    then apply_decoded (decode_append rest) m
    else if kind == kind_truncate
    then (if leb 8 (length rest) then apply_truncate (from_le (slice 0 8 rest)) m else m)
    else if kind == kind_snapshot
    then (if leb 16 (length rest)
        then apply_snapshot (from_le (slice 0 8 rest)) (from_le (slice 8 16 rest)) m
        else m)
    else m

unfoldable pub replay : Memory → List Entry → Memory
unfolding apply_record
replay m [] = m
replay m (e ∷ es) = replay (apply_record m e.payload) es
