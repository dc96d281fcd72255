-- ===== src/WalCore/Checkpoint.antt =====
-- crates/wal-core/src/checkpoint.rs: the highest applied sequence number, on disk.
pub mod Atomic
use wal_distributed_rs.Common.{ℕ, List, [], ◌∷◌, ◌++◌, length, take, ltb, leb, if◌then◌else◌}
use wal_distributed_rs.Common.Exec.{Exec, ok, pure, ◌>>=◌, ◌>>◌, map_err, on_snd}
use wal_distributed_rs.Bytes.{le_bytes, from_le}
use wal_distributed_rs.Disk
use wal_distributed_rs.Disk.{Dir, FileName, exists}
use wal_distributed_rs.WalCore.Error.{WalError, io}

-- "checkpoint"
abbrev pub checkpoint_file : FileName
checkpoint_file = b'c' ∷ b'h' ∷ b'e' ∷ b'c' ∷ b'k' ∷ b'p' ∷ b'o' ∷ b'i' ∷ b'n' ∷ b't' ∷ []

-- `path.with_extension("tmp")`
abbrev pub checkpoint_tmp : FileName
checkpoint_tmp = checkpoint_file ++ b'.' ∷ b't' ∷ b'm' ∷ b'p' ∷ []

pub record Checkpoint : Type 0 where
  pub sequence : ℕ

-- The first 8 bytes of the file; a shorter file counts as 0.
unfoldable pub decode : List ℕ → ℕ
decode bytes = if leb 8 (length bytes) then from_le (take 8 bytes) else 0

unfoldable pub open_checkpoint : Exec WalError Dir Checkpoint
unfolding decode
open_checkpoint d =
    if exists d checkpoint_file
    then (do
      bytes ← map_err io (Disk.read checkpoint_file)
      pure (record { sequence = decode bytes }))
        d
    else (ok (record { sequence = 0 }), d)

abbrev pub set_sequence : ℕ → Exec WalError (Checkpoint × Dir) (Unit {0})
set_sequence n (c, d) = (ok tt, (record { sequence = n }, d))

unfoldable pub advance : ℕ → Exec WalError (Checkpoint × Dir) (Unit {0})
advance sequence (c, d) =
    if ltb c.sequence sequence
    then (do
      on_snd (map_err io (Disk.write checkpoint_tmp (le_bytes 8 sequence)))
      on_snd (map_err io (Disk.rename checkpoint_tmp checkpoint_file))
      set_sequence sequence)
        (c, d)
    else (ok tt, (c, d))
