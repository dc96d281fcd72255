-- ===== src/WalCore/Segment/Names.antt =====
-- The path helpers of crates/wal-core/src/segment.rs. A file name is a list of character codes.
pub mod RoundTrip
use wal_distributed_rs.Common.{
  ℕ, zero, suc, ◌+◌, ◌-◌, ◌*◌, ◌/◌, ◌%◌, ◌^◌, Bool, true, false, ◌&&◌, Option, none, some, List, [],
  ◌∷◌, ◌++◌, bytes_eq, ltb, leb, ◌==◌, if◌then◌else◌, filter,
}
use wal_distributed_rs.Common.Exec.{Result, Exec, ok, err, pure, map_err, ◌>>=◌}
use wal_distributed_rs.Disk
use wal_distributed_rs.Disk.{Dir, FileName}
use wal_distributed_rs.WalCore.Error.{WalError, io, invalid_segment_filename}

-- "wal-"
abbrev pub prefix : FileName
prefix = b'w' ∷ b'a' ∷ b'l' ∷ b'-' ∷ []

-- ".seg"
abbrev pub suffix : FileName
suffix = b'.' ∷ b's' ∷ b'e' ∷ b'g' ∷ []

-- `{:0w}`, for a number of at most `w` digits.
unfoldable pub padded : ℕ → ℕ → List ℕ
padded zero n = []
padded (suc w) n = padded w (n / 10) ++ ((48 + n % 10) ∷ [])

-- `format!("{}{:020}{}", PREFIX, id, SUFFIX)`; a u64 has at most 20 digits.
unfoldable pub segment_path : ℕ → FileName
unfolding padded
segment_path id = prefix ++ (padded 20 id ++ suffix)

-- `s.strip_prefix(p)`
unfoldable pub strip_prefix : List ℕ → List ℕ → Option (List ℕ)
strip_prefix [] s = some s
strip_prefix (p ∷ ps) [] = none
strip_prefix (p ∷ ps) (x ∷ xs) = let rest = strip_prefix ps xs in if p == x then rest else none

-- `s.strip_suffix(p)`
unfoldable pub strip_suffix : List ℕ → List ℕ → Option (List ℕ)
strip_suffix p [] = if bytes_eq p [] then some [] else none
strip_suffix p (x ∷ xs) =
    let rest = strip_suffix p xs in
    if bytes_eq p (x ∷ xs) then some [] else elim rest [ none ↦ none | some s ↦ some (x ∷ s) ]

-- The digits of `parse::<u64>`, with its checked arithmetic.
unfoldable pub parse_digits : ℕ → List ℕ → Option ℕ
parse_digits n [] = some n
parse_digits n (ch ∷ rest) =
    let n' = n * 10 + (ch - 48) in
    let more = parse_digits n' rest in
    if leb 48 ch && leb ch 57 then (if ltb n' (2 ^ 64) then more else none) else none

-- `parse::<u64>`: a sign `+` is allowed, an empty number is not.
unfoldable pub parse_u64 : List ℕ → Option ℕ
unfolding parse_digits
parse_u64 [] = none
parse_u64 (ch ∷ []) = if ch == b'+' then none else parse_digits 0 (ch ∷ [])
parse_u64 (ch ∷ c ∷ rest) =
    if ch == b'+' then parse_digits 0 (c ∷ rest) else parse_digits 0 (ch ∷ c ∷ rest)

abbrev pub or_invalid : {A : Type 0} → FileName → Option A → Result WalError A
or_invalid filename none = err (invalid_segment_filename filename)
or_invalid filename (some a) = ok a

abbrev pub and_then : {A B : Type 0} → Option A → (A → Option B) → Option B
and_then none f = none
and_then (some a) f = f a

unfoldable pub segment_id_from_path : FileName → Result WalError ℕ
unfolding strip_prefix strip_suffix parse_u64
segment_id_from_path filename = or_invalid filename (
    and_then (strip_prefix prefix filename)
      λ s. and_then (strip_suffix suffix s) λ numeric. parse_u64 numeric)

-- The name in front of its last dot, and what is behind it.
unfoldable pub split_last_dot : FileName → Option (FileName × FileName)
split_last_dot [] = none
split_last_dot (x ∷ xs) = elim (split_last_dot xs) [
  | some (stem, e) ↦ some (x ∷ stem, e)
  | none ↦ if x == b'.' then some ([], xs) else none
]

-- `path.extension()`: none for a name that only begins with a dot.
unfoldable pub extension : FileName → Option FileName
unfolding split_last_dot
extension n = elim (split_last_dot n) [
  | none ↦ none
  | some (stem, e) ↦ elim stem [ [] ↦ none | _ ∷ _ ↦ some e ]
]

-- The filter of `list_segments`: the extension "seg" and the prefix.
unfoldable pub is_segment_name : FileName → Bool
unfolding extension strip_prefix
is_segment_name n =
    elim (extension n) [ none ↦ false | some e ↦ bytes_eq e (b's' ∷ b'e' ∷ b'g' ∷ []) ]
    && elim (strip_prefix prefix n) [ none ↦ false | some _ ↦ true ]

-- `segment_id_from_path(p).unwrap_or(u64::MAX)`
unfoldable pub sort_key : FileName → ℕ
unfolding segment_id_from_path
sort_key n = elim (segment_id_from_path n) [ ok id ↦ id | err e ↦ 2 ^ 64 - 1 ]

-- `sort_by_key` is stable: a name goes in front of those whose key is at least its own.
unfoldable pub insert_by_key : FileName → List FileName → List FileName
insert_by_key n [] = n ∷ []
insert_by_key n (m ∷ ms) =
    let behind = m ∷ insert_by_key n ms in
    if leb (sort_key n) (sort_key m) then n ∷ m ∷ ms else behind

unfoldable pub sort_by_key : List FileName → List FileName
unfolding insert_by_key
sort_by_key [] = []
sort_by_key (n ∷ ns) = insert_by_key n (sort_by_key ns)

unfoldable pub list_segments : Exec WalError Dir (List FileName)
list_segments = do
  names ← map_err io Disk.read_dir
  pure (sort_by_key (filter is_segment_name names))
