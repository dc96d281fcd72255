-- ===== src/WalCore/Error.antt =====
-- crates/wal-core/src/error.rs
use wal_distributed_rs.Common.{ℕ}
use wal_distributed_rs.Disk.{IoError, FileName}

pub data WalError : Type 0 where
  io : IoError → WalError
  checksum_mismatch : ℕ → ℕ → ℕ → WalError
  unexpected_eof : ℕ → WalError
  invalid_segment_filename : FileName → WalError
  segment_full : ℕ → ℕ → ℕ → WalError

-- What ends a call that may panic (`unwrap`).
pub data Failure : Type 0 where
  error : WalError → Failure
  panic : Failure
