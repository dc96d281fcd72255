-- ===== src/WalCore/Segment.antt =====
-- crates/wal-core/src/segment.rs: segment files, appended to through a `BufWriter`.
pub mod Names
pub mod Scan
pub mod Read
pub mod Content
pub mod Bounds
pub mod Writes
pub mod Stores
use wal_distributed_rs.Common.{
  ℕ, ◌+◌, ◌-◌, Bool, Option, none, some, List, [], ◌∷◌, ◌++◌, length, drop, ltb, leb, add64,
  if◌then◌else◌,
}
use wal_distributed_rs.Common.Exec.{
  Result, Exec, ok, err, pure, raise, gets, ◌>>=◌, ◌>>◌, map_err, map_result, on_snd,
}
use wal_distributed_rs.Disk
use wal_distributed_rs.Disk.{Dir, FileName, outcome}
use wal_distributed_rs.WalCore.Error.{WalError, io, segment_full}
use wal_distributed_rs.WalCore.Entry.{Crc, Entry}
use Names.{segment_path, segment_id_from_path}
use Scan.{read_raw}

abbrev pub default_max_segment_bytes : ℕ
default_max_segment_bytes = 67108864

-- `buffer` is what the `BufWriter` holds back.
pub record Segment : Type 0 where
  pub id : ℕ
  pub path : FileName
  pub buffer : List ℕ
  pub size : ℕ
  pub max_bytes : ℕ

-- A segment and the directory that it lies in.
abbrev pub Seg : Type 0 → Type 0
Seg A = Exec WalError (Segment × Dir) A

unfoldable pub create : ℕ → ℕ → Exec WalError Dir Segment
create id max_bytes = do
  map_err io (Disk.create_new (segment_path id))
  pure (record { id = id; path = segment_path id; buffer = []; size = 0; max_bytes = max_bytes })

unfoldable pub open_for_append : FileName → ℕ → Exec WalError Dir Segment
open_for_append path max_bytes = do
  id ← (λ d. (segment_id_from_path path, d))
  size ← map_err io (Disk.file_len path)
  map_err io (Disk.open_append path)
  pure (record { id = id; path = path; buffer = []; size = size; max_bytes = max_bytes })

-- `BufWriter`: the capacity is that of `BufWriter::new`.
abbrev pub capacity : ℕ
capacity = 8192

-- What stays in the buffer when the write of it has the given outcome.
abbrev pub left_over : Option ℕ → List ℕ → List ℕ
left_over none buffer = []
left_over (some k) buffer = drop k buffer

unfoldable pub flush_buf : Seg (Unit {0})
flush_buf (s, d) = elim s.buffer [
  | [] ↦ (ok tt, (s, d))
  | b ∷ bs ↦
      let (r, d') = Disk.append s.path s.buffer d in
      (map_result io r, (record s { buffer = left_over (outcome d.faults) s.buffer }, d'))
]

abbrev pub buffer_more : List ℕ → Seg (Unit {0})
buffer_more bytes (s, d) = (ok tt, (record s { buffer = s.buffer ++ bytes }, d))

abbrev pub write_through : List ℕ → Seg (Unit {0})
write_through bytes (s, d) = let (r, d') = Disk.append s.path bytes d in (map_result io r, (s, d'))

-- The buffer is flushed if the bytes do not fit behind it, and bypassed by as many as it can hold.
unfoldable pub write_all : List ℕ → Seg (Unit {0})
unfolding flush_buf
write_all bytes (s, d) =
    let spare = capacity - length s.buffer in
    if ltb (length bytes) spare
    then buffer_more bytes (s, d)
    else (do
      (if ltb spare (length bytes) then flush_buf else pure tt)
      if leb capacity (length bytes) then write_through bytes else buffer_more bytes)
        (s, d)

abbrev pub set_size : ℕ → Seg (Unit {0})
set_size n (s, d) = (ok tt, (record s { size = n }, d))

-- `self.size + encoded.len()`
abbrev pub size_with : Segment → ℕ → ℕ
size_with s n = add64 s.size n

unfoldable pub append : List ℕ → Seg (Unit {0})
append encoded (s, d) =
    let new_size = size_with s (length encoded) in
    if ltb s.max_bytes new_size
    then (err (segment_full s.size s.max_bytes (length encoded)), (s, d))
    else (do write_all encoded; set_size new_size) (s, d)

unfoldable pub flush : Seg (Unit {0})
unfolding flush_buf
flush = flush_buf

abbrev pub sync_file : Seg (Unit {0})
sync_file (s, d) = let (r, d') = Disk.sync_all s.path d in (map_result io r, (s, d'))

unfoldable pub sync : Seg (Unit {0})
unfolding flush_buf
sync = do flush_buf; sync_file

unfoldable pub would_overflow : Segment → ℕ → Bool
would_overflow s encoded_len = ltb s.max_bytes (size_with s encoded_len)

module _ ⦃c : Crc⦄ where
  unfoldable pub read_entries : FileName → Exec WalError Dir (List Entry)
  read_entries path = do raw ← map_err io (Disk.read path); (λ d. (read_raw raw, d))
