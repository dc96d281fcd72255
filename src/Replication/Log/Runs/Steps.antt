-- ===== src/Replication/Log/Runs/Steps.antt =====
-- One operation on a replicated log, against what it does to the list of items.
use wal_distributed_rs.Common.{
  ℕ, ◌+◌, ◌^◌, ◌≤◌, ◌<◌, ◌≡◌, refl, sym, ap, ◌∙◌, some, List, [], ◌∷◌, ◌++◌, length, take, take_all,
  arith, add64, suc, zero, Bool-cases, inl, inr, ltb, leb, ◌||◌, true, ltb→lt, not-ltb→le,
  length-append, length-take,
}
use mathlib.Core.Path.{subst}
use wal_distributed_rs.Replication.Error.{RaftError}
use mathlib.Core.List.{map-append}
use wal_distributed_rs.Common.Exec.{Result, ok}
use wal_distributed_rs.Disk.{Dir}
use wal_distributed_rs.WalCore.Entry.{Crc}
use wal_distributed_rs.WalCore.Segment.Content.{disk, Table}
use wal_distributed_rs.WalCore.Wal.{WalConfig}
use wal_distributed_rs.WalCore.Wal.Model.{entries_of}
use wal_distributed_rs.Replication.Log
use wal_distributed_rs.Replication.Log.{RaftLog, open_log, last_index, truncated}
use wal_distributed_rs.Replication.Log.Record.{LogEntry, Memory}
use wal_distributed_rs.Replication.Log.Replay.{IsLog}
use wal_distributed_rs.Replication.Log.Recovery.{Recovers, append-Recovers, truncate_from-Recovers}
use wal_distributed_rs.Replication.Log.Restart.{open_log_done, restarted}
use wal_distributed_rs.Replication.Log.Budget.{
  HasBudget, HasBudget-less, HasBudget-HasRoom, append-HasBudget, truncate_from-HasBudget,
}
use wal_distributed_rs.Replication.Log.Entries.{pushed-IsLog, truncated-IsLog}
use wal_distributed_rs.Replication.Log.Runs.{LogOp, done, opened, perform, effect, items}

-- A term that is a u64, and a record that fits a segment.
abbrev pub OpFits : WalConfig → LogOp → Type 0
OpFits config (LogOp.append term payload) =
    (term < 2 ^ 64)
    × (17 + length payload < 2 ^ 32)
    × (33 + length payload ≤ config.max_segment_bytes)
OpFits config (LogOp.truncate_from i) = 25 ≤ config.max_segment_bytes
OpFits config LogOp.restart = Unit

items-take : (k : ℕ) (es : List LogEntry) → items (take k es) ≡ take k (items es)
items-take zero es = refl
items-take (suc k) [] = refl
items-take (suc k) (e ∷ es) = ap (λ l. (e.term, e.payload) ∷ l) (items-take k es)

length-items : (es : List LogEntry) → length (items es) ≡ length es
length-items [] = refl
length-items (e ∷ es) = omega (arith, length-items es)

module _ ⦃c : Crc⦄ where
  -- The log stands on disk, starts at index 1, and has room for `k` more records.
  pub record Runs (configured : WalConfig) (k : ℕ) (l : RaftLog) (t : Table) : Type 0 where
    pub recovers : Recovers l t
    pub log : IsLog l.memory
    pub snapshot_index : l.memory.snapshot_index ≡ 0
    pub budget : HasBudget configured k l.store
    pub room : length l.memory.entries + k + 2 < 2 ^ 64

  -- After an operation that succeeds.
  abbrev Done : WalConfig → ℕ → LogOp → RaftLog → Table → Type 0
  Done config k op l t =
      (l' : RaftLog) × (t' : Table) × (perform config op (l, disk t) ≡ some (l', disk t'))
      × Runs config k l' t'
      × (items l'.memory.entries ≡ effect op (items l.memory.entries))

  append-Done :
      (config : WalConfig) (k term : ℕ) (payload : List ℕ) (l : RaftLog) (t : Table)
      → Runs config (suc k) l t
      → OpFits config (LogOp.append term payload)
      → Done config k (LogOp.append term payload) l t
  unfolding perform
  append-Done config k term payload l t h (u64, short, fits) =
      let (l', t', run, same, recovers) = append-Recovers term payload l t h.recovers h.log u64 (
        HasBudget-HasRoom config k l.store (17 + length payload) h.budget (omega (arith, fits))
          short) in
      (
        l',
        t',
        ap done run,
        record {
          recovers = recovers;
          log = rw same (
              pushed-IsLog term payload l.memory h.log u64
                (omega (arith, h.room, h.snapshot_index)));
          snapshot_index = ap (λ (m : Memory). m.snapshot_index) same ∙ h.snapshot_index;
          budget =
              subst (λ (x : Result RaftError ℕ × (RaftLog × Dir)). HasBudget config k x.1.0.store)
                run (append-HasBudget config k term payload l (disk t) h.budget);
          room = omega (
            arith,
            h.room,
            ap (λ (m : Memory). length m.entries) same,
            length-append l.memory.entries (
                record { term = term; index = add64 (last_index l.memory) 1; payload = payload }
                ∷ []),
          );
        },
        ap (λ (m : Memory). items m.entries) same ∙ map-append _ l.memory.entries _,
      )

  -- An index that the log does not have is passed over.
  truncate_from-none :
      (i : ℕ) (l : RaftLog) (d : Dir)
      → (leb i l.memory.snapshot_index || ltb (last_index l.memory) i) ≡ true
      → Log.truncate_from i (l, d) ≡ (ok tt, (l, d))
  unfolding Log.truncate_from
  truncate_from-none i l d out = rw out

  stays :
      (config : WalConfig) (k : ℕ) (i : ℕ) (l : RaftLog) (t : Table)
      → Runs config (suc k) l t
      → (leb i l.memory.snapshot_index || ltb (last_index l.memory) i) ≡ true
      → effect (LogOp.truncate_from i) (items l.memory.entries) ≡ items l.memory.entries
      → Done config k (LogOp.truncate_from i) l t
  unfolding perform
  stays config k i l t h out same = (
    l,
    t,
    ap done (truncate_from-none i l (disk t) out),
    record {
      recovers = h.recovers;
      log = h.log;
      snapshot_index = h.snapshot_index;
      budget = HasBudget-less config k l.store h.budget;
      room = omega (arith, h.room);
    },
    sym same,
  )

  cuts :
      (config : WalConfig) (k j : ℕ) (l : RaftLog) (t : Table)
      → Runs config (suc k) l t
      → 25 ≤ config.max_segment_bytes
      → suc j ≤ last_index l.memory
      → Done config k (LogOp.truncate_from (suc j)) l t
  unfolding perform
  cuts config k j l t h fits within =
      let (l', t', run, same, recovers) =
        truncate_from-Recovers (suc j) l t h.recovers h.log (omega (arith, h.snapshot_index)) within
          (HasBudget-HasRoom config k l.store 9 h.budget fits (omega arith)) in
      let first : (truncated (suc j) l.memory).entries ≡ take j l.memory.entries =
        unfold truncated in ap (λ n. take n l.memory.entries) (omega (arith, h.snapshot_index)) in
      let left : l'.memory.entries ≡ take j l.memory.entries =
        ap (λ (m : Memory). m.entries) same ∙ first in
      (
        l',
        t',
        ap done run,
        record {
          recovers = recovers;
          log = rw same (truncated-IsLog (suc j) l.memory h.log);
          snapshot_index =
              ap (λ (m : Memory). m.snapshot_index) same ∙ (unfold truncated in h.snapshot_index);
          budget =
              subst
                (λ (x : Result RaftError (Unit {0}) × (RaftLog × Dir)).
                  HasBudget config k x.1.0.store)
                run (truncate_from-HasBudget config k (suc j) l (disk t) h.budget);
          room =
              omega
                (arith, h.room, ap (length {A = LogEntry}) left, length-take j l.memory.entries);
        },
        ap items left ∙ items-take j l.memory.entries,
      )

  truncate_from-Done :
      (config : WalConfig) (k i : ℕ) (l : RaftLog) (t : Table)
      → Runs config (suc k) l t
      → 25 ≤ config.max_segment_bytes
      → Done config k (LogOp.truncate_from i) l t
  truncate_from-Done config k zero l t h fits =
      stays config k zero l t h (ground (arith, h.snapshot_index)) refl
  truncate_from-Done config k (suc j) l t h fits =
      elim (Bool-cases (ltb (last_index l.memory) (suc j))) [
        | inl behind ↦ stays config k (suc j) l t h (ground (arith, h.snapshot_index, behind)) (
            take_all j (items l.memory.entries) (
              unfold last_index in
              omega (
                arith,
                ltb→lt _ _ behind,
                length-items l.memory.entries,
                h.snapshot_index,
                h.log.bound,
              )))
        | inr within ↦ cuts config k j l t h fits (not-ltb→le _ _ within)
      ]

  restart-Done :
      (config : WalConfig) (k : ℕ) (l : RaftLog) (t : Table)
      → Runs config (suc k) l t
      → Done config k LogOp.restart l t
  unfolding perform
  restart-Done config k l t h =
      let (run, recovers) = open_log_done config l t h.recovers in
      (
        restarted config l t (entries_of h.recovers.old ++ h.recovers.now),
        t,
        ap opened run,
        record {
          recovers = recovers;
          log = h.log;
          snapshot_index = h.snapshot_index;
          budget = record {
            config = refl;
            max_bytes = refl;
            size = h.budget.size;
            bytes = h.budget.bytes;
            ids = omega (arith, h.budget.ids);
            sequences = omega (arith, h.budget.sequences, h.recovers.successor);
          };
          room = omega (arith, h.room);
        },
        refl,
      )

  pub step-Done :
      (config : WalConfig) (k : ℕ) (op : LogOp) (l : RaftLog) (t : Table)
      → Runs config (suc k) l t
      → OpFits config op
      → Done config k op l t
  step-Done config k (LogOp.append term payload) l t h fits =
      append-Done config k term payload l t h fits
  step-Done config k (LogOp.truncate_from i) l t h fits = truncate_from-Done config k i l t h fits
  step-Done config k LogOp.restart l t h fits = restart-Done config k l t h
