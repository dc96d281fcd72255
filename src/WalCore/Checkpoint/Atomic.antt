-- ===== src/WalCore/Checkpoint/Atomic.antt =====
-- What the checkpoint file holds, and what a step of the checkpoint leaves there.
use wal_distributed_rs.Common.{
  refl, take, arith, ◌∙◌, true, false, ap, Option, not-ltb→le, ltb→lt, inr, ltb, inl, Bool-cases,
  bytes_eq, ◌≢◌, some, ◌⊎◌, none, ◌≤◌, ◌^◌, ◌<◌, ℕ, ◌≡◌, Option-cases,
}
use wal_distributed_rs.Common.Exec.{err, ok}
use wal_distributed_rs.Bytes.{le_bytes}
use wal_distributed_rs.Bytes.Words.{u64_round_trip}
use wal_distributed_rs.Disk
use wal_distributed_rs.Disk.{Dir, File, FileName, find, store, erase, outcome, later, other}
use wal_distributed_rs.Disk.Laws.{find-store, find-store_self}
use wal_distributed_rs.WalCore.Error.{io}
use wal_distributed_rs.WalCore.Segment.Content.{disk, Table}
use wal_distributed_rs.WalCore.Checkpoint.{
  Checkpoint, checkpoint_file, checkpoint_tmp, decode, open_checkpoint, advance,
}

-- The checkpoint that the table holds.
abbrev pub record_of : Option File → Checkpoint
record_of none = record { sequence = 0 }
record_of (some f) = record { sequence = decode f.bytes }

abbrev pub loaded : Table → Checkpoint
loaded t = record_of (find checkpoint_file t)

pub open_checkpoint_done : (t : Table) → open_checkpoint (disk t) ≡ (ok (loaded t), disk t)
unfolding open_checkpoint Disk.read find
open_checkpoint_done t = elim (Option-cases (find checkpoint_file t)) [
  | inl e ↦ rw (e, open_checkpoint)
  | inr (f, e) ↦ rw (e, open_checkpoint)
]

decode-le_bytes : (n : ℕ) → n < 2 ^ 64 → decode (le_bytes 8 n) ≡ n
unfolding decode
decode-le_bytes n h = unfold le_bytes in u64_round_trip n h

-- A write of the temporary file does not show in the checkpoint.
loaded-tmp : (f : File) (t : Table) → loaded (store checkpoint_tmp f t) ≡ loaded t
loaded-tmp f t = rw (find-store checkpoint_tmp checkpoint_file f t) (unfold bytes_eq in refl)

loaded-store :
    (n s : ℕ) (t : Table)
    → n < 2 ^ 64
    → (loaded (store checkpoint_file (record { bytes = le_bytes 8 n; synced = s }) t)).sequence ≡ n
loaded-store n s t h =
    ap (λ o. (record_of o).sequence) (find-store_self checkpoint_file _ t) ∙ decode-le_bytes n h

advance_same :
    (n : ℕ) (c : Checkpoint) (d : Dir)
    → ltb c.sequence n ≡ false
    → advance n (c, d) ≡ (ok tt, (c, d))
unfolding advance
advance_same n c d h = rw (advance, h)

-- The three ends of a step that is above the checkpoint.
module _ (n : ℕ) (c : Checkpoint) (d : Dir) (above : ltb c.sequence n ≡ true) where
  abbrev tmp_file : Table
  tmp_file = store checkpoint_tmp (record { bytes = le_bytes 8 n; synced = 0 }) d.files

  advance_write_failed :
      (k : ℕ)
      → outcome d.faults ≡ some k
      → advance n (c, d) ≡ (
        err (io other),
        (
          c,
          record {
            files =
                store checkpoint_tmp (record { bytes = take k (le_bytes 8 n); synced = 0 }) d.files;
            faults = later d.faults;
          },
        ),
      )
  unfolding advance Disk.write
  advance_write_failed k o = ground (arith, above)

  advance_rename_failed :
      (k : ℕ)
      → outcome d.faults ≡ none
      → outcome (later d.faults) ≡ some k
      → advance n (c, d)
        ≡ (err (io other), (c, record { files = tmp_file; faults = later (later d.faults) }))
  unfolding advance Disk.write Disk.rename
  advance_rename_failed k o o' = ground (arith, above)

  advance_done :
      outcome d.faults ≡ none
      → outcome (later d.faults) ≡ none
      → advance n (c, d) ≡ (
        ok tt,
        (
          record { sequence = n },
          record {
            files =
                store checkpoint_file
                  (record { bytes = le_bytes 8 n; synced = 0 })
                  (erase checkpoint_tmp tmp_file);
            faults = later (later d.faults);
          },
        ),
      )
  unfolding advance Disk.write Disk.rename
  advance_done o o' = ground (
    arith,
    above,
    find-store_self checkpoint_tmp (record { bytes = le_bytes 8 n; synced = 0 }) d.files,
  )

-- The checkpoint moves to a u64 in one step, whatever calls fail and wherever a write stops: either
-- the value in memory and the one on disk both stay, because the new one is not above it or because
-- a call failed, or both are the new one and the call succeeded.
pub advance_atomic :
    (n : ℕ) (c : Checkpoint) (d : Dir)
    → n < 2 ^ 64
    → (((advance n (c, d)).1.0 ≡ c)
        × (loaded (advance n (c, d)).1.1.files ≡ loaded d.files)
        × ((n ≤ c.sequence) ⊎ ((advance n (c, d)).0 ≢ ok tt)))
      ⊎ (((advance n (c, d)).0 ≡ ok tt)
          × ((advance n (c, d)).1.0.sequence ≡ n)
          × ((loaded (advance n (c, d)).1.1.files).sequence ≡ n)
          × (c.sequence < n))
advance_atomic n c d h = elim (Bool-cases (ltb c.sequence n)) [
  | inl above ↦ elim (Option-cases (outcome d.faults)) [
    | inr (k, o) ↦
        rw (advance_write_failed n c d above k o) (inl (refl, loaded-tmp _ d.files, inr (λ e. cc)))
    | inl o ↦ elim (Option-cases (outcome (later d.faults))) [
      | inr (k, o') ↦
          rw (advance_rename_failed n c d above k o o')
            (inl (refl, loaded-tmp _ d.files, inr (λ e. cc)))
      | inl o' ↦
          rw (advance_done n c d above o o')
            (inr (refl, refl, loaded-store n 0 _ h, ltb→lt _ _ above))
    ]
  ]
  | inr same ↦ rw (advance_same n c d same) (inl (refl, refl, inl (not-ltb→le _ _ same)))
]
