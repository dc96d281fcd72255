-- ===== src/Replication/Snapshot/Atomic.antt =====
-- What a snapshot file holds, and what `save` leaves there.
use wal_distributed_rs.Replication.Snapshot.RoundTrip.{Storable, decode-encode}
use wal_distributed_rs.Common.Exec.{err, Result, ok}
use wal_distributed_rs.Common.{
  inr, ◌⊎◌, inl, Option-cases, refl, [], none, Option, bytes_eq, take, ◌∙◌, ap, length, some, List,
  ℕ, ◌≡◌, arith,
}
use wal_distributed_rs.Disk
use wal_distributed_rs.Disk.{
  Dir, File, FileName, IoError, find, store, erase, outcome, later, other,
}
use wal_distributed_rs.Disk.Laws.{find-store, find-store_self, store-store}
use wal_distributed_rs.WalCore.Segment.Content.{disk, Table}
use wal_distributed_rs.Replication.Snapshot.{
  Snapshot, snapshot_path, snapshot_tmp, encode, decode, save, load, loaded_or,
}

-- The snapshot that the table holds.
abbrev pub content : Option File → Result IoError (Option Snapshot)
content none = ok none
content (some f) = decode f.bytes

abbrev pub loaded : Table → Result IoError (Option Snapshot)
loaded t = content (find snapshot_path t)

pub load_done : (t : Table) → load (disk t) ≡ (loaded t, disk t)
unfolding load Disk.read find
load_done t = elim (Option-cases (find snapshot_path t)) [
  | inl e ↦ rw (e, load, loaded_or)
  | inr (f, e) ↦ rw (e, load, loaded_or)
]

abbrev written : Snapshot → File
written s = record { bytes = encode s; synced = length (encode s) }

abbrev partial : List ℕ → File
partial bs = record { bytes = bs; synced = 0 }

loaded-tmp : (f : File) (t : Table) → loaded (store snapshot_tmp f t) ≡ loaded t
loaded-tmp f t = rw (find-store snapshot_tmp snapshot_path f t) (unfold bytes_eq in refl)

loaded-store :
    (s : Snapshot) (t : Table)
    → Storable s
    → loaded (store snapshot_path (written s) t) ≡ ok (some s)
loaded-store s t h = ap content (find-store_self snapshot_path (written s) t) ∙ decode-encode s h

-- The ends of `save`, by the first call that fails.
module _ (s : Snapshot) (d : Dir) where
  abbrev emptied : Table
  emptied = store snapshot_tmp (partial []) d.files

  save_write :
      (k : ℕ)
      → outcome d.faults ≡ some k
      → save s d ≡ (
        err other,
        record {
          files = store snapshot_tmp (partial (take k [])) d.files;
          faults = later d.faults;
        },
      )
  unfolding save Disk.write
  save_write k o = ground arith

  save_append :
      (k : ℕ)
      → outcome d.faults ≡ none
      → outcome (later d.faults) ≡ some k
      → save s d ≡ (
        err other,
        record {
          files = store snapshot_tmp (partial (take k (encode s))) d.files;
          faults = later (later d.faults);
        },
      )
  unfolding save Disk.write Disk.append
  save_append k o o' = ground (
    arith,
    find-store_self snapshot_tmp (partial []) d.files,
    store-store snapshot_tmp (partial []) (partial (take k (encode s))) d.files,
  )

  save_sync :
      (k : ℕ)
      → outcome d.faults ≡ none
      → outcome (later d.faults) ≡ none
      → outcome (later (later d.faults)) ≡ some k
      → save s d ≡ (
        err other,
        record {
          files = store snapshot_tmp (partial (encode s)) d.files;
          faults = later (later (later d.faults));
        },
      )
  unfolding save Disk.write Disk.append Disk.sync_all
  save_sync k o o' o'' = ground (
    arith,
    find-store_self snapshot_tmp (partial []) d.files,
    store-store snapshot_tmp (partial []) (partial (encode s)) d.files,
  )

  save_synced :
      outcome d.faults ≡ none
      → outcome (later d.faults) ≡ none
      → outcome (later (later d.faults)) ≡ none
      → save s d
        ≡ Disk.rename snapshot_tmp snapshot_path (record {
          files = store snapshot_tmp (written s) d.files;
          faults = later (later (later d.faults));
        })
  unfolding save Disk.write Disk.append Disk.sync_all
  save_synced o o' o'' = ground (
    arith,
    find-store_self snapshot_tmp (partial []) d.files,
    find-store_self snapshot_tmp (partial (encode s)) d.files,
    store-store snapshot_tmp (partial []) (partial (encode s)) d.files,
    store-store snapshot_tmp (partial (encode s)) (written s) d.files,
  )

  rename_failed :
      (k : ℕ) (t : Table) (fs : List (Option ℕ))
      → outcome fs ≡ some k
      → Disk.rename snapshot_tmp snapshot_path (record { files = t; faults = fs })
        ≡ (err other, record { files = t; faults = later fs })
  unfolding Disk.rename
  rename_failed k t fs o = ground arith

  rename_done :
      (t : Table) (fs : List (Option ℕ))
      → outcome fs ≡ none
      → Disk.rename snapshot_tmp snapshot_path
          (record { files = store snapshot_tmp (written s) t; faults = fs })
        ≡ (
          ok tt,
          record {
            files =
                store snapshot_path
                  (written s)
                  (erase snapshot_tmp (store snapshot_tmp (written s) t));
            faults = later fs;
          },
        )
  unfolding Disk.rename
  rename_done t fs o = ground (arith, find-store_self snapshot_tmp (written s) t)

-- A snapshot whose fields fit the file's is saved in one step, whatever calls fail and wherever a
-- write stops: when `save` succeeds the file holds this snapshot, all of it durable, and when it
-- fails what it held before.
pub save_atomic :
    (s : Snapshot) (d : Dir)
    → Storable s
    → let r = save s d in
      ((r.0 ≡ ok tt)
        × (loaded r.1.files ≡ ok (some s))
        × (find snapshot_path r.1.files ≡ some (written s)))
      ⊎ ((r.0 ≡ err other) × (loaded r.1.files ≡ loaded d.files))
save_atomic s d h = elim (Option-cases (outcome d.faults)) [
  | inr (k, o) ↦ rw (save_write s d k o) (inr (refl, loaded-tmp _ d.files))
  | inl o ↦ elim (Option-cases (outcome (later d.faults))) [
    | inr (k, o') ↦ rw (save_append s d k o o') (inr (refl, loaded-tmp _ d.files))
    | inl o' ↦ elim (Option-cases (outcome (later (later d.faults)))) [
      | inr (k, o'') ↦ rw (save_sync s d k o o' o'') (inr (refl, loaded-tmp _ d.files))
      | inl o'' ↦ elim (Option-cases (outcome (later (later (later d.faults))))) [
        | inr (k, o3) ↦
            rw (save_synced s d o o' o'' ∙ rename_failed s d k _ _ o3)
              (inr (refl, loaded-tmp _ d.files))
        | inl o3 ↦
            rw (save_synced s d o o' o'' ∙ rename_done s d d.files _ o3)
              (inl (refl, loaded-store s _ h, find-store_self snapshot_path (written s) _))
      ]
    ]
  ]
]
