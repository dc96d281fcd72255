-- ===== src/Replication/Log/Rebuild.antt =====
-- The two ways to a log's memory in crates/wal-replication/src/raft/log.rs: the write path, and the
-- replay of the records that it wrote.
use wal_distributed_rs.Common.{
  suc, zero, suc, ℕ, ◌+◌, ◌-◌, ◌≤◌, ◌<◌, ◌^◌, ◌≡◌, refl, sym, ap, ◌∙◌, List, [], ◌∷◌, ◌++◌, length,
  map, drop, filter, ltb, arith, add64,
}
use mathlib.Core.Path.{subst}
use wal_distributed_rs.Common.Exec.{ok}
use wal_distributed_rs.WalCore.Entry.{Crc, Entry}
use wal_distributed_rs.WalCore.Segment.Content.{disk, Table}
use wal_distributed_rs.WalCore.Wal.{Wal, WalConfig, from_on}
use wal_distributed_rs.WalCore.Wal.Model.{Part, entries_of, Stands}
use wal_distributed_rs.WalCore.Wal.Reads.{read_from-Stands}
use wal_distributed_rs.WalCore.Wal.Reopen.{open_wal-Stands, reopened}
use wal_distributed_rs.Replication.Log.{
  RaftLog, open_log, last_index, truncated, compacted, installed,
}
use wal_distributed_rs.Replication.Log.Record.{
  LogEntry, Memory, empty, replay, apply_record, encode_append, encode_truncate, encode_snapshot,
}
use wal_distributed_rs.Replication.Log.Replay.{
  Follows, IsLog, pushed, replay-append, replay-truncate, replay-install, compacted-eq-installed,
  filter-Follows,
}
use wal_distributed_rs.Replication.Log.Entries.{pushed-IsLog, truncated-IsLog, Follows-drop}

-- A call of the write path that wrote a record.
pub data Written : Type 0 where
  append : ℕ → List ℕ → Written
  truncate_from : ℕ → Written
  compact : ℕ → ℕ → Written
  install_snapshot : ℕ → ℕ → Written

-- The memory that it left.
abbrev pub leaves : Written → Memory → Memory
leaves (append term payload) m = pushed term payload m
leaves (truncate_from i) m = truncated i m
leaves (compact i term) m = compacted i term m
leaves (install_snapshot i term) m = installed i term m

-- Its record.
abbrev pub record_of : Written → Memory → List ℕ
record_of (append term payload) m =
    encode_append (record { term = term; index = add64 (last_index m) 1; payload = payload })
record_of (truncate_from i) m = encode_truncate i
record_of (compact i term) m = encode_snapshot i term
record_of (install_snapshot i term) m = encode_snapshot i term

-- Where it writes one: `truncate_from` inside the log, `compact` and `install_snapshot` behind the
-- snapshot; terms and indices are u64s.
abbrev pub WritesOne : Written → Memory → Type 0
WritesOne (append term payload) m =
    (term < 2 ^ 64) × (m.snapshot_index + length m.entries + 2 < 2 ^ 64)
WritesOne (truncate_from i) m = (m.snapshot_index < i) × (i ≤ last_index m)
WritesOne (compact i term) m =
    (m.snapshot_index < i) × (i + length m.entries + 1 < 2 ^ 64) × (term < 2 ^ 64)
WritesOne (install_snapshot i term) m =
    (m.snapshot_index < i) × (i + length m.entries + 1 < 2 ^ 64) × (term < 2 ^ 64)

abbrev pub leaves_all : List Written → Memory → Memory
leaves_all [] m = m
leaves_all (w ∷ ws) m = leaves_all ws (leaves w m)

abbrev pub records_of : List Written → Memory → List (List ℕ)
records_of [] m = []
records_of (w ∷ ws) m = record_of w m ∷ records_of ws (leaves w m)

abbrev pub AllWrite : List Written → Memory → Type 0
AllWrite [] m = Unit
AllWrite (w ∷ ws) m = WritesOne w m × AllWrite ws (leaves w m)

length-drop_le : (k : ℕ) (es : List LogEntry) → length (drop k es) ≤ length es
length-drop_le zero es = omega arith
length-drop_le (suc k) [] = omega arith
length-drop_le (suc k) (e ∷ es) = omega (arith, length-drop_le k es)

installed-IsLog :
    (index term : ℕ) (m : Memory)
    → IsLog m
    → m.snapshot_index < index
    → index + length m.entries + 1 < 2 ^ 64
    → IsLog (installed index term m)
unfolding installed
installed-IsLog index term m h above room =
    let k = index - m.snapshot_index in
    let left : filter (λ e. ltb index e.index) m.entries ≡ drop k m.entries =
      filter-Follows index m.snapshot_index m.entries h.follows in
    record {
      follows = subst (Follows index) (sym left) (
          subst (λ i. Follows i (drop k m.entries)) (omega (arith, above))
            (Follows-drop k m.snapshot_index m.entries h.follows));
      bound = omega (arith, room, ap (length {A = LogEntry}) left, length-drop_le k m.entries);
    }

-- One call: its record leaves in a replay what the call left, which is a log again.
replay_one :
    (w : Written) (m : Memory)
    → IsLog m
    → WritesOne w m
    → (apply_record m (record_of w m) ≡ leaves w m) × IsLog (leaves w m)
replay_one (append term payload) m h (u64, room) =
    (replay-append m term payload h u64, pushed-IsLog term payload m h u64 room)
replay_one (truncate_from i) m h (above, within) =
    (replay-truncate m i h above within, truncated-IsLog i m h)
replay_one (compact i term) m h (above, room, u64) =
    let same = compacted-eq-installed m i term h above in
    (
      replay-install m i term (omega (arith, room)) u64 ∙ sym same,
      subst IsLog (sym same) (installed-IsLog i term m h above room),
    )
replay_one (install_snapshot i term) m h (above, room, u64) =
    (replay-install m i term (omega (arith, room)) u64, installed-IsLog i term m h above room)

payloads : List Entry → List (List ℕ)
payloads es = map (λ (e : Entry). e.payload) es

replay_all :
    (ws : List Written) (es : List Entry) (m : Memory)
    → IsLog m
    → AllWrite ws m
    → payloads es ≡ records_of ws m
    → (replay m es ≡ leaves_all ws m) × IsLog (leaves_all ws m)
unfolding replay payloads
replay_all [] [] m h fits same = (refl, h)
replay_all [] (e ∷ es) m h fits same = cc
replay_all (w ∷ ws) [] m h fits same = cc
replay_all (w ∷ ws) (e ∷ es) m h fits same =
    let first : e.payload ≡ record_of w m = cc in
    let others : payloads es ≡ records_of ws (leaves w m) = cc in
    let (one, log) = replay_one w m h fits.0 in
    let (rest, last) = replay_all ws es (leaves w m) log fits.1 others in
    (ap (λ m'. replay m' es) (ap (apply_record m) first ∙ one) ∙ rest, last)

module _ ⦃c : Crc⦄ where
  -- Replay does what the write path did: on a disk whose calls do not fail and that holds, numbered
  -- from 1 on, the records of any calls of `append`, of `truncate_from` inside the log, and of
  -- `compact` and `install_snapshot` beyond its snapshot, made one after the other on a log that
  -- was empty, with terms and indices that are u64s, `open_log` returns a log whose entries and
  -- whose snapshot's place are those that the calls left in memory, with contiguous indices, and
  -- changes nothing on disk.
  pub open_log-rebuilds :
      (config : WalConfig) (w : Wal) (t : Table) (old : List Part) (now : List Entry)
      (ws : List Written)
      → Stands w t old now
      → from_on 1 (entries_of old ++ now) ≡ entries_of old ++ now
      → map (λ (e : Entry). e.payload) (entries_of old ++ now) ≡ records_of ws empty
      → AllWrite ws empty
      → (l : RaftLog) × (open_log config (disk t) ≡ (ok l, disk t))
        × (l.memory ≡ leaves_all ws empty)
        × IsLog l.memory
  unfolding open_log payloads
  open_log-rebuilds config w t old now ws stands numbered written fits =
      let all = entries_of old ++ now in
      let (opened, again) = open_wal-Stands config w t old now stands in
      let w' = reopened config w t all in
      let reads = read_from-Stands w' t old now 1 again in
      let (same, log) =
        replay_all ws all empty (record { follows = tt; bound = omega arith }) fits written in
      let now_there : replay empty (from_on 1 all) ≡ leaves_all ws empty =
        ap (replay empty) numbered ∙ same in
      (
        record { memory = replay empty (from_on 1 all); store = w' },
        rw opened (rw reads refl),
        now_there,
        subst IsLog (sym now_there) log,
      )
