-- ===== src/WalCore/Entry.antt =====
-- crates/wal-core/src/entry.rs: the on-disk format of one entry.
pub mod Decode
use wal_distributed_rs.Common.{
  ℕ, ◌+◌, ◌%◌, ◌^◌, ◌<◌, not, List, [], ◌∷◌, ◌++◌, length, ltb, ◌==◌, if◌then◌else◌,
}
use wal_distributed_rs.Common.Exec.{Result, ok, err}
use wal_distributed_rs.Bytes.{le_bytes, from_le, slice}
use wal_distributed_rs.WalCore.Error.{WalError, checksum_mismatch, unexpected_eof}

-- `crc32fast::hash`, a library: some function of the bytes into u32.
pub record Crc : Type 0 where
  pub hash : List ℕ → ℕ
  pub hash-lt : (bytes : List ℕ) → hash bytes < 2 ^ 32

abbrev pub header_size : ℕ
header_size = 16

pub record Entry : Type 0 where
  pub sequence : ℕ
  pub payload : List ℕ

module _ ⦃c : Crc⦄ where
  -- `data.len() as u32` wraps.
  unfoldable pub encode : ℕ → List ℕ → List ℕ
  encode sequence payload =
      le_bytes 8 sequence
      ++ (le_bytes 4 (length payload % 2 ^ 32) ++ (le_bytes 4 (c.hash payload) ++ payload))

  unfoldable pub decode : List ℕ → ℕ → Result WalError (Entry × ℕ)
  decode buf buf_offset =
      if ltb (length buf) header_size
      then err (unexpected_eof buf_offset)
      else let sequence = from_le (slice 0 8 buf) in
        let data_len = from_le (slice 8 12 buf) in
        let stored_crc = from_le (slice 12 16 buf) in
        let total = header_size + data_len in
        if ltb (length buf) total
        then err (unexpected_eof buf_offset)
        else let payload = slice header_size total buf in
          let computed_crc = c.hash payload in
          if not (stored_crc == computed_crc)
          then err (checksum_mismatch buf_offset stored_crc computed_crc)
          else ok (record { sequence = sequence; payload = payload }, total)
