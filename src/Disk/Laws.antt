-- ===== src/Disk/Laws.antt =====
-- The file table as a map.
use wal_distributed_rs.Common.{
  ◌≡◌, none, some, ℕ, List, [], ◌∷◌, ◌++◌, length, take, bytes_eq, bytes_eq_iff, bytes_eq_refl,
  if◌then◌else◌, arith,
}
use wal_distributed_rs.Common.Exec.{ok, err}
use wal_distributed_rs.Disk
use wal_distributed_rs.Disk.{
  FileName, File, Dir, IoError, find, store, erase, outcome, later, file, other,
}

pub find-store :
    (n m : FileName) (f : File) (t : List (FileName × File))
    → find m (store n f t) ≡ (if bytes_eq n m then some f else find m t)
unfolding find store
find-store n m f [] = ground arith
find-store n m f ((k, g) ∷ t) =
    ground (arith, bytes_eq_iff k n, bytes_eq_iff k m, bytes_eq_iff n m, find-store n m f t)

pub find-erase :
    (n m : FileName) (t : List (FileName × File))
    → find m (erase n t) ≡ (if bytes_eq n m then none else find m t)
unfolding find erase
find-erase n m [] = ground arith
find-erase n m ((k, g) ∷ t) =
    ground (arith, bytes_eq_iff k n, bytes_eq_iff k m, bytes_eq_iff n m, find-erase n m t)

-- A write behind an existing file, by the outcome of the call.
pub append_done :
    (n : FileName) (bs : List ℕ) (d : Dir) {f : File}
    → file d n ≡ some f
    → outcome d.faults ≡ none
    → Disk.append n bs d ≡ (
      ok tt,
      record {
        files = store n (record { bytes = f.bytes ++ bs; synced = f.synced }) d.files;
        faults = later d.faults;
      },
    )
unfolding Disk.append
append_done n bs d found o = ground arith

pub append_failed :
    (n : FileName) (bs : List ℕ) (d : Dir) {f : File} {k : ℕ}
    → file d n ≡ some f
    → outcome d.faults ≡ some k
    → Disk.append n bs d ≡ (
      err other,
      record {
        files = store n (record { bytes = f.bytes ++ take k bs; synced = f.synced }) d.files;
        faults = later d.faults;
      },
    )
unfolding Disk.append
append_failed n bs d found o = ground arith

pub find-store_self :
    (n : FileName) (f : File) (t : List (FileName × File)) → find n (store n f t) ≡ some f
find-store_self n f t = rw (find-store n n f t) (rw (bytes_eq_refl n))

pub store-store :
    (n : FileName) (f g : File) (t : List (FileName × File)) → store n g (store n f t) ≡ store n g t
unfolding store
store-store n f g [] = ground (arith, bytes_eq_refl n)
store-store n f g ((m, h) ∷ t) =
    ground (arith, bytes_eq_iff m n, bytes_eq_refl n, store-store n f g t)

-- An fsync of an existing file, by the outcome of the call.
pub sync_all_done :
    (n : FileName) (d : Dir) {f : File}
    → file d n ≡ some f
    → outcome d.faults ≡ none
    → Disk.sync_all n d ≡ (
      ok tt,
      record {
        files = store n (record f { synced = length f.bytes }) d.files;
        faults = later d.faults;
      },
    )
unfolding Disk.sync_all
sync_all_done n d found o = ground arith

pub sync_all_failed :
    (n : FileName) (d : Dir) {k : ℕ}
    → outcome d.faults ≡ some k
    → Disk.sync_all n d ≡ (err other, record { files = d.files; faults = later d.faults })
unfolding Disk.sync_all
sync_all_failed n d o = ground arith
