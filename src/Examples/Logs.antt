-- ===== src/Examples/Logs.antt =====
-- The write-ahead log and its parts at concrete inputs.
use wal_distributed_rs.Common.{
  All-append, All, ℕ, ◌+◌, ◌≤◌, ◌≡◌, refl, List, [], ◌∷◌, ◌++◌, length, take, arith,
}
use wal_distributed_rs.Common.Exec.{ok, err}
use wal_distributed_rs.Bytes.{IsByte, le_bytes, from_le}
use wal_distributed_rs.Disk.{Dir}
use wal_distributed_rs.WalCore.Error.{unexpected_eof, checksum_mismatch}
use wal_distributed_rs.WalCore.Entry.{encode, decode}
use wal_distributed_rs.WalCore.Entry.Decode.{
  decode-encode, decode_truncated, decode_corrupted, encode-decode,
}
use wal_distributed_rs.WalCore.Segment.Names.{segment_path, segment_id_from_path}
use wal_distributed_rs.WalCore.Segment.Names.RoundTrip.{segment_id_from_path-segment_path}
use wal_distributed_rs.WalCore.Segment.Read.{
  encodings, read_raw-encodings, read_raw_torn, encodings-read_raw,
}
use wal_distributed_rs.WalCore.Segment.Scan.{read_raw}
use wal_distributed_rs.WalCore.Segment.Content.{disk, Table}
use wal_distributed_rs.WalCore.Wal.{
  Wal, append, rotate, open_wal, read_from, recover, truncate_before,
}
use wal_distributed_rs.WalCore.Wal.Model.{entries_of, Stands}
use wal_distributed_rs.WalCore.Wal.Growth.{append-Stands}
use wal_distributed_rs.WalCore.Wal.Rotates.{Grown, rotate-Stands}
use wal_distributed_rs.WalCore.Wal.Reads.{read_from-Stands, recover-Stands}
use wal_distributed_rs.WalCore.Wal.Reopen.{open_wal-Stands, reopened}
use wal_distributed_rs.WalCore.Wal.Truncate.{truncate_before-read_from}
use wal_distributed_rs.WalCore.Wal.Restart.{read_from-open_wal-append}
use wal_distributed_rs.Examples.Setup.{
  sums, entry, hello, small, sealed_part, active_part, two_segments, two_files, two_segments-Stands,
}

read_from-open_wal-append_example :
    (left : Wal × Dir) × (again : Wal) × (append hello (two_segments, disk two_files)
      ≡ (ok 4, left))
    × (open_wal small left.1 ≡ (ok again, left.1))
    × (again.next_sequence ≡ left.0.next_sequence)
    × (read_from again 3 left.1 ≡ (ok (entry 3 (7 ∷ []) ∷ entry 4 hello ∷ []), left.1))
read_from-open_wal-append_example =
    read_from-open_wal-append small two_segments two_files sealed_part active_part hello 3
      two_segments-Stands (record { sequence = omega arith; payload = omega arith }) (omega arith)
      (omega arith) (omega arith)

append-Stands_example :
    (out : Wal × Dir) × (append hello (two_segments, disk two_files) ≡ (ok 4, out))
    × Grown two_segments sealed_part (active_part ++ entry 4 hello ∷ []) 5 out
append-Stands_example =
    append-Stands two_segments two_files sealed_part active_part hello two_segments-Stands
      (record { sequence = omega arith; payload = omega arith }) (omega arith) (omega arith)
      (omega arith)

rotates_and_stands :
    (out : Wal × Dir) × (rotate (two_segments, disk two_files) ≡ (ok tt, out))
    × Grown two_segments sealed_part active_part 4 out
    × (out.0.active.size ≡ 0)
    × (out.0.active.id ≡ 3)
rotates_and_stands =
    rotate-Stands two_segments two_files sealed_part active_part two_segments-Stands (omega arith)

read_from-Stands_example :
    read_from two_segments 2 (disk two_files)
    ≡ (ok (entry 2 [] ∷ entry 3 (7 ∷ []) ∷ []), disk two_files)
read_from-Stands_example =
    read_from-Stands two_segments two_files sealed_part active_part 2 two_segments-Stands

recovers_two :
    recover two_segments (disk two_files)
    ≡ (ok (entry 2 [] ∷ entry 3 (7 ∷ []) ∷ []), disk two_files)
recovers_two =
    recover-Stands two_segments two_files sealed_part active_part two_segments-Stands (omega arith)

truncate_before-read_from_example :
    (w' : Wal) × (t' : Table) × (truncate_before 3 (two_segments, disk two_files)
      ≡ (ok tt, (w', disk t')))
    × (read_from w' 3 (disk t') ≡ (ok (entry 3 (7 ∷ []) ∷ []), disk t'))
    × (w'.active ≡ two_segments.active)
    × (w'.next_sequence ≡ 4)
truncate_before-read_from_example =
    truncate_before-read_from 3 3 two_segments two_files sealed_part active_part (omega arith)
      two_segments-Stands (tt, tt)

open_wal-Stands_example :
    let again = reopened small two_segments two_files (entries_of sealed_part ++ active_part) in
    (open_wal small (disk two_files) ≡ (ok again, disk two_files))
    × Stands again two_files sealed_part active_part
open_wal-Stands_example =
    open_wal-Stands small two_segments two_files sealed_part active_part two_segments-Stands

reads_whole :
    read_raw (encodings (entry 1 hello ∷ entry 2 [] ∷ [])) ≡ ok (entry 1 hello ∷ entry 2 [] ∷ [])
reads_whole = read_raw-encodings (entry 1 hello ∷ entry 2 [] ∷ []) (
  record { sequence = omega arith; payload = omega arith },
  (record { sequence = omega arith; payload = omega arith }, tt),
)

-- The second of two entries lacks its last bytes.
read_raw_torn_example :
    read_raw (encodings active_part ++ take 18 (encode 4 hello)) ≡ err (unexpected_eof 17)
unfolding encode le_bytes
read_raw_torn_example =
    read_raw_torn active_part (entry 4 hello) 18
      (record { sequence = omega arith; payload = omega arith }, tt)
      (record { sequence = omega arith; payload = omega arith }) (omega arith) (omega arith)

-- The bytes that `encode` writes.
abbrev seven : List ℕ
seven = 7 ∷ 0 ∷ 0 ∷ 0 ∷ 0 ∷ 0 ∷ 0 ∷ 0 ∷ 1 ∷ 0 ∷ 0 ∷ 0 ∷ 5 ∷ 0 ∷ 0 ∷ 0 ∷ 5 ∷ []

seven-IsByte : All IsByte seven
seven-IsByte = ground arith

encodings-read_raw_example : seven ≡ encodings (entry 7 (5 ∷ []) ∷ [])
unfolding read_raw sums decode from_le
encodings-read_raw_example = encodings-read_raw seven (entry 7 (5 ∷ []) ∷ []) seven-IsByte refl

encode-decode_example :
    (take 17 (seven ++ seven) ≡ encode 7 (5 ∷ []))
    × (17 ≤ 34)
    × (17 ≡ 16 + length (entry 7 (5 ∷ [])).payload)
unfolding decode sums from_le
encode-decode_example =
    encode-decode (seven ++ seven) 0 (entry 7 (5 ∷ [])) 17
      (All-append IsByte seven seven seven-IsByte seven-IsByte) refl

decode-encode_example : decode (encode 7 hello ++ 9 ∷ []) 100 ≡ ok (entry 7 hello, 21)
decode-encode_example = decode-encode 7 hello (9 ∷ []) 100 (omega arith) (omega arith)

decode_truncated_example : decode (take 18 (encode 7 hello)) 100 ≡ err (unexpected_eof 100)
decode_truncated_example =
    decode_truncated 7 hello 18 100 (omega arith) (unfold encode in unfold le_bytes in omega arith)

decode_corrupted_example :
    decode (take 16 (encode 7 (1 ∷ 2 ∷ [])) ++ (3 ∷ 2 ∷ [])) 100 ≡ err (checksum_mismatch 100 3 5)
unfolding sums
decode_corrupted_example =
    decode_corrupted 7 (1 ∷ 2 ∷ []) (3 ∷ 2 ∷ []) [] 100 (omega arith) refl
      (λ e. absurd (omega (arith, e)))

segment_id_from_path-segment_path_example : segment_id_from_path (segment_path 42) ≡ ok 42
segment_id_from_path-segment_path_example = segment_id_from_path-segment_path 42 (omega arith)
