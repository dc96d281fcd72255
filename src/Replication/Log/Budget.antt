-- ===== src/Replication/Log/Budget.antt =====
-- Room in the write-ahead log's segments and counters for more records of the replicated log.
use wal_distributed_rs.Common.{
  ap, ℕ, ◌+◌, ◌*◌, ◌^◌, ◌≤◌, ◌<◌, ◌≡◌, sym, ◌∙◌, List, arith, suc, leb, ltb, ◌||◌,
}
use wal_distributed_rs.Common.Exec.{Result, ok, err}
use wal_distributed_rs.Common.After.{Leaves-bind, on_if}
use wal_distributed_rs.Disk.{Dir}
use wal_distributed_rs.WalCore.Error.{WalError}
use wal_distributed_rs.WalCore.Entry.{Crc}
use wal_distributed_rs.WalCore.Wal.{Wal, WalConfig, append as wal_append}
use wal_distributed_rs.WalCore.Wal.Bounds.{Within, Counts, append_bounded}
use wal_distributed_rs.Replication.Log.{
  RaftLog, append, truncate_from, truncated, on_wal, assign, last_index,
}
use wal_distributed_rs.Replication.Log.Record.{encode_append, encode_truncate}
use wal_distributed_rs.Replication.Log.Recovery.{HasRoom}
use wal_distributed_rs.Replication.Error.{RaftError}

-- Room for `k` records.
pub record HasBudget (configured : WalConfig) (k : ℕ) (w : Wal) : Type 0 where
  pub config : w.config ≡ configured
  pub max_bytes : w.active.max_bytes ≡ configured.max_segment_bytes
  pub size : w.active.size ≤ configured.max_segment_bytes
  pub bytes : 2 * configured.max_segment_bytes < 2 ^ 64
  pub ids : w.active.id + k < 2 ^ 64
  pub sequences : w.next_sequence + k < 2 ^ 64

pub HasBudget-less :
    (config : WalConfig) (k : ℕ) (w : Wal) → HasBudget config (suc k) w → HasBudget config k w
HasBudget-less config k w h = record {
  config = h.config;
  max_bytes = h.max_bytes;
  size = h.size;
  bytes = h.bytes;
  ids = omega (arith, h.ids);
  sequences = omega (arith, h.sequences);
}

Counts-le :
    (w : Wal) (r : Result WalError ℕ) (w' : Wal)
    → w.next_sequence + 1 < 2 ^ 64
    → Counts w r w'
    → w'.next_sequence ≤ w.next_sequence + 1
Counts-le w (ok seq) w' room h = omega (arith, h.1, room)
Counts-le w (err e) w' room h = omega (arith, h)

spent :
    (config : WalConfig) (k : ℕ) (w w' : Wal)
    → HasBudget config (suc k) w
    → Within w w'
    → w'.next_sequence ≤ w.next_sequence + 1
    → HasBudget config k w'
spent config k w w' h within next =
    let cap : w.config.max_segment_bytes ≡ config.max_segment_bytes =
      ap (λ (v : WalConfig). v.max_segment_bytes) h.config in
    record {
      config = within.config ∙ h.config;
      max_bytes = within.max_bytes ∙ cap;
      size = omega (arith, within.size, cap);
      bytes = h.bytes;
      ids = omega (arith, within.id_to, h.ids);
      sequences = omega (arith, next, h.sequences);
    }

module _ ⦃c : Crc⦄ where
  pub HasBudget-HasRoom :
      (config : WalConfig) (k : ℕ) (w : Wal) (size : ℕ)
      → HasBudget config (suc k) w
      → 16 + size ≤ config.max_segment_bytes
      → size < 2 ^ 32
      → HasRoom w size
  HasBudget-HasRoom config k w size h fits short =
      let cap : w.config.max_segment_bytes ≡ config.max_segment_bytes =
        ap (λ (v : WalConfig). v.max_segment_bytes) h.config in
      record {
        segment = omega (arith, cap, fits);
        size32 = short;
        bytes = omega (arith, cap, h.size, h.bytes);
        ids = omega (arith, h.ids);
        sequences = omega (arith, h.sequences);
      }

  abbrev Affords : WalConfig → ℕ → RaftLog × Dir → Type 0
  Affords config k x = HasBudget config k x.0.store

  record_spends :
      (config : WalConfig) (k : ℕ) (written : List ℕ) (l : RaftLog) (d : Dir)
      → HasBudget config (suc k) l.store
      → Affords config k (on_wal (wal_append written) (l, d)).1
  record_spends config k written l d h =
      let cap : l.store.config.max_segment_bytes ≡ config.max_segment_bytes =
        ap (λ (v : WalConfig). v.max_segment_bytes) h.config in
      let (within, counts) =
        append_bounded written l.store d (h.max_bytes ∙ sym cap) (omega (arith, h.size, cap))
          (omega (arith, h.ids)) in
      spent config k l.store _ h within (Counts-le l.store _ _ (omega (arith, h.sequences)) counts)

  -- Whatever calls fail, an operation uses up room for one record at most.
  pub append-HasBudget :
      (config : WalConfig) (k term : ℕ) (payload : List ℕ) (l : RaftLog) (d : Dir)
      → HasBudget config (suc k) l.store
      → HasBudget config k (append term payload (l, d)).1.0.store
  unfolding append
  append-HasBudget config k term payload l d h =
      Leaves-bind (Affords config k) (on_wal (wal_append (encode_append _))) _ (l, d)
        (record_spends config k _ l d h) (λ u x g. g)

  pub truncate_from-HasBudget :
      (config : WalConfig) (k from : ℕ) (l : RaftLog) (d : Dir)
      → HasBudget config (suc k) l.store
      → HasBudget config k (truncate_from from (l, d)).1.0.store
  unfolding truncate_from
  truncate_from-HasBudget config k from l d h =
      on_if (λ (x : Result RaftError (Unit {0}) × (RaftLog × Dir)). Affords config k x.1)
        (leb from l.memory.snapshot_index || ltb (last_index l.memory) from)
        (HasBudget-less config k l.store h)
        (Leaves-bind (Affords config k) (on_wal (wal_append (encode_truncate from)))
          (λ u. assign (truncated from)) (l, d)
          (record_spends config k (encode_truncate from) l d h) (λ u x g. g))
