-- ===== src/WalCore/Segment/Scan.antt =====
-- The loop of `read_entries` in crates/wal-core/src/segment.rs.
use wal_distributed_rs.Common.{ℕ, zero, suc, ◌+◌, ◌-◌, List, [], ◌∷◌}
use wal_distributed_rs.Common.Exec.{Result, ok, err}
use wal_distributed_rs.WalCore.Error.{WalError}
use wal_distributed_rs.WalCore.Entry.{Crc, Entry, decode}

-- `entries.push(entry)` before the rest of the loop, which may fail.
abbrev pub push_front : Entry → Result WalError (List Entry) → Result WalError (List Entry)
push_front e (ok es) = ok (e ∷ es)
push_front e (err x) = err x

module _ ⦃c : Crc⦄ where
  -- `while offset < raw.len()`, one byte at a time: the list is `raw[offset..]`, and `skip` bytes
  -- of it belong to the entry that was decoded last.
  unfoldable pub read_at : ℕ → ℕ → List ℕ → Result WalError (List Entry)
  read_at skip offset [] = ok []
  read_at zero offset (b ∷ bs) = elim (decode (b ∷ bs) offset) [
    | ok (entry, consumed) ↦ push_front entry (read_at (consumed - 1) (offset + 1) bs)
    | err e ↦ err e
  ]
  read_at (suc skip) offset (b ∷ bs) = read_at skip (offset + 1) bs

  unfoldable pub read_raw : List ℕ → Result WalError (List Entry)
  unfolding read_at
  read_raw raw = read_at 0 0 raw
