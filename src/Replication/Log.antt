-- ===== src/Replication/Log.antt =====
-- crates/wal-replication/src/raft/log.rs: the replicated log, in memory and in the write-ahead log.
pub mod Record
pub mod Replay
pub mod Recovery
pub mod Restart
pub mod Rebuild
pub mod Budget
pub mod Runs
pub mod Fresh
pub mod Terms
pub mod Entries
use wal_distributed_rs.Common.{
  ℕ, ◌+◌, ◌-◌, Bool, true, false, ◌&&◌, ◌||◌, Option, none, some, List, [], ◌∷◌, ◌++◌, length, take,
  drop, get_elem?, last?, filter, ltb, leb, ◌==◌, add64, min, max, if◌then◌else◌,
}
use wal_distributed_rs.Common.Exec.{Result, Exec, ok, err, pure, ◌>>=◌, ◌>>◌, map_err, map_result}
use wal_distributed_rs.Disk.{Dir}
use wal_distributed_rs.WalCore.Error.{Failure}
use wal_distributed_rs.WalCore.Entry.{Crc, Entry}
use wal_distributed_rs.WalCore.Wal.{
  append as wal_append, Wal, WalConfig, WalExec, open_wal, read_from, checkpoint, truncate_before,
}
use wal_distributed_rs.Replication.Error.{RaftError, wal}
use Record.{LogEntry, Memory, empty, replay, encode_append, encode_truncate, encode_snapshot}

-- `RaftLog` keeps its in-memory part in `memory`: the entries behind the snapshot, and its place.
pub record RaftLog : Type 0 where
  pub memory : Memory
  pub store : Wal

abbrev pub LogExec : Type 0 → Type 0
LogExec A = Exec RaftError (RaftLog × Dir) A

abbrev pub on_wal : {A : Type 0} → WalExec A → LogExec A
on_wal m (l, d) =
    let (r, (w, d')) = m (l.store, d) in (map_result wal r, (record l { store = w }, d'))

abbrev pub assign : (Memory → Memory) → LogExec (Unit {0})
assign f (l, d) = (ok tt, (record l { memory = f l.memory }, d))

-- The read path.
unfoldable pub last_index : Memory → ℕ
last_index m = add64 m.snapshot_index (length m.entries)

unfoldable pub last_term : Memory → ℕ
last_term m = elim (last? m.entries) [ none ↦ m.snapshot_term | some e ↦ e.term ]

unfoldable pub term_at : Memory → ℕ → Option ℕ
term_at m index =
    if index == 0
    then none
    else if index == m.snapshot_index
    then some m.snapshot_term
    else if ltb index m.snapshot_index
    then none
    else elim (get_elem? m.entries (index - m.snapshot_index - 1)) [
      | none ↦ none
      | some e ↦ some e.term
    ]

unfoldable pub entries_from : Memory → ℕ → List LogEntry
unfolding last_index
entries_from m from_index =
    let start = max from_index (add64 m.snapshot_index 1) in
    if start == 0 || ltb (last_index m) start
    then []
    else drop (start - m.snapshot_index - 1) m.entries

unfoldable pub find_term : ℕ → List LogEntry → Option LogEntry
find_term term [] = none
find_term term (e ∷ es) = if e.term == term then some e else find_term term es

unfoldable pub first_index_of_term : Memory → ℕ → Option ℕ
unfolding find_term
first_index_of_term m term =
    if term == m.snapshot_term && ltb 0 m.snapshot_index
    then some m.snapshot_index
    else elim (find_term term m.entries) [ none ↦ none | some e ↦ some e.index ]

-- What the write path does to the entries in memory.
unfoldable pub truncated : ℕ → Memory → Memory
truncated from_index m = record m { entries = take (from_index - m.snapshot_index - 1) m.entries }

unfoldable pub compacted : ℕ → ℕ → Memory → Memory
unfolding last_index
compacted index term m =
    let trim = min index (last_index m) - m.snapshot_index in
    record {
      entries = if leb (length m.entries) trim then [] else drop trim m.entries;
      snapshot_index = index;
      snapshot_term = term;
    }

unfoldable pub installed : ℕ → ℕ → Memory → Memory
installed index term m = record {
  entries = filter (λ e. ltb index e.index) m.entries;
  snapshot_index = index;
  snapshot_term = term;
}

module _ ⦃c : Crc⦄ where
  unfoldable pub open_log : WalConfig → Exec Failure Dir RaftLog
  open_log wal_config = do
    w ← open_wal wal_config
    all ← map_err Failure.error (read_from w 1)
    pure (record { memory = replay empty all; store = w })

  unfoldable pub append : ℕ → List ℕ → LogExec ℕ
  unfolding last_index
  append term payload (l, d) =
      let index = add64 (last_index l.memory) 1 in
      let entry : LogEntry = record { term = term; index = index; payload = payload } in
      (do
        on_wal (wal_append (encode_append entry))
        assign (λ m. record m { entries = m.entries ++ (entry ∷ []) })
        pure index)
        (l, d)

  unfoldable pub truncate_from : ℕ → LogExec (Unit {0})
  unfolding last_index truncated
  truncate_from from_index (l, d) =
      if leb from_index l.memory.snapshot_index || ltb (last_index l.memory) from_index
      then (ok tt, (l, d))
      else (do on_wal (wal_append (encode_truncate from_index)); assign (truncated from_index))
          (l, d)

  -- The marker, the checkpoint behind it, and the segments that are no longer wanted.
  unfoldable pub write_snapshot : ℕ → ℕ → LogExec (Unit {0})
  write_snapshot index term = do
    snap_seq ← on_wal (wal_append (encode_snapshot index term))
    on_wal (checkpoint snap_seq)
    on_wal (truncate_before snap_seq)

  unfoldable pub compact : ℕ → ℕ → LogExec (Unit {0})
  unfolding write_snapshot compacted
  compact index term (l, d) =
      if leb index l.memory.snapshot_index
      then (ok tt, (l, d))
      else (do write_snapshot index term; assign (compacted index term)) (l, d)

  unfoldable pub install_snapshot : ℕ → ℕ → LogExec (Unit {0})
  unfolding write_snapshot installed
  install_snapshot index term (l, d) =
      if leb index l.memory.snapshot_index
      then (ok tt, (l, d))
      else (do write_snapshot index term; assign (installed index term)) (l, d)
