-- ===== src/Examples/Setup.antt =====
-- A checksum, and a log of two segments on a disk.
use wal_distributed_rs.Common.{
  Bool, ℕ, ◌+◌, ◌%◌, ◌^◌, ◌<◌, ◌≡◌, refl, some, none, List, [], ◌∷◌, length, arith, bytes_eq,
  filter,
}
use wal_distributed_rs.Bytes.{le_bytes}
use wal_distributed_rs.Disk.{File, find}
use wal_distributed_rs.WalCore.Entry.{Crc, Entry, encode}
use wal_distributed_rs.WalCore.Segment.Names.{segment_path, is_segment_name, sort_by_key, sort_key}
use wal_distributed_rs.WalCore.Segment.Read.{encodings}
use wal_distributed_rs.WalCore.Segment.Content.{Table}
use wal_distributed_rs.WalCore.Wal.{Wal, WalConfig}
use wal_distributed_rs.WalCore.Wal.Model.{Part, Stands}
use wal_distributed_rs.WalCore.Wal.Parts.{paths_ne}

-- The sum of the bytes, as a u32.
abbrev pub sum : List ℕ → ℕ
sum [] = 0
sum (b ∷ bs) = b + sum bs

instance unfoldable pub sums : Crc
sums = record { hash = λ bytes. sum bytes % 2 ^ 32; hash-lt = λ bytes. omega arith }

abbrev pub entry : ℕ → List ℕ → Entry
entry sequence payload = record { sequence = sequence; payload = payload }

abbrev pub hello : List ℕ
hello = b'h' ∷ b'e' ∷ b'l' ∷ b'l' ∷ b'o' ∷ []

-- Segment 1 is sealed, segment 2 is active; a segment has room for three short entries.
abbrev pub small : WalConfig
small = record { max_segment_bytes = 64; sync_writes = Bool.true }

abbrev pub sealed_part : List Part
sealed_part = (1, entry 1 hello ∷ entry 2 [] ∷ []) ∷ []

abbrev pub active_part : List Entry
active_part = entry 3 (7 ∷ []) ∷ []

abbrev pub two_segments : Wal
two_segments = record {
  config = small;
  active = record { id = 2; path = segment_path 2; buffer = []; size = 17; max_bytes = 64 };
  sealed = 1 ∷ [];
  checkpoint = record { sequence = 1 };
  next_sequence = 4;
}

abbrev pub whole_file : List Entry → File
whole_file es = record { bytes = encodings es; synced = length (encodings es) }

abbrev pub two_files : Table
two_files =
    (segment_path 1, whole_file (entry 1 hello ∷ entry 2 [] ∷ []))
    ∷ (segment_path 2, whole_file active_part)
    ∷ []

listed :
    sort_by_key (filter is_segment_name (segment_path 1 ∷ segment_path 2 ∷ []))
    ≡ segment_path 1 ∷ segment_path 2 ∷ []
unfolding sort_by_key is_segment_name segment_path bytes_eq sort_key
listed = refl

found_1 : find (segment_path 1) two_files ≡ some (whole_file (entry 1 hello ∷ entry 2 [] ∷ []))
unfolding find segment_path bytes_eq
found_1 = refl

found_2 : find (segment_path 2) two_files ≡ some (whole_file active_part)
unfolding find segment_path bytes_eq
found_2 = refl

not_found : (i : ℕ) → 2 < i → i < 2 ^ 64 → find (segment_path i) two_files ≡ none
unfolding find
not_found i above small =
    rw
      (
        paths_ne 1 i (omega arith) small (λ e. absurd (omega (arith, above, e))),
        paths_ne 2 i (omega arith) small (λ e. absurd (omega (arith, above, e))),
      )
      refl

pub two_segments-Stands : Stands two_segments two_files sealed_part active_part
two_segments-Stands = record {
  sealed = refl;
  sealed_files = (
    (
      record {
        stored = whole_file (entry 1 hello ∷ entry 2 [] ∷ []);
        found = found_1;
        bytes = refl;
        fits = (
          record { sequence = omega arith; payload = omega arith },
          (record { sequence = omega arith; payload = omega arith }, tt),
        );
      },
      omega arith,
    ),
    tt,
  );
  active_id = omega arith;
  active_path = refl;
  active_file = record {
    stored = whole_file active_part;
    found = found_2;
    bytes = refl;
    fits = (record { sequence = omega arith; payload = omega arith }, tt);
  };
  buffer = refl;
  size = (unfold encode in unfold le_bytes in refl);
  max_bytes = refl;
  below = (omega arith, tt);
  fresh = not_found;
  listing = listed;
}
