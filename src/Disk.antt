-- ===== src/Disk.antt =====
-- One directory as `std::fs` shows it: named files, the bytes of each, and how many of them are
-- known to be durable (fsync). Every call that can fail takes the next outcome from `faults`:
-- `none` lets it succeed, `some k` makes it fail, and a write that fails has written `k` bytes; an
-- empty list of outcomes means that no call fails any more.
pub mod Laws
use wal_distributed_rs.Common.{
  ℕ, ◌+◌, ◌≡◌, Bool, true, false, Option, none, some, List, [], ◌∷◌, ◌++◌, map, length, take,
  bytes_eq, if◌then◌else◌,
}
use wal_distributed_rs.Common.Exec.{Result, Exec, ok, err}

pub data IoError : Type 0 where
  not_found already_exists invalid_data other : IoError

abbrev pub FileName : Type 0
FileName = List ℕ

pub record File : Type 0 where
  pub bytes : List ℕ
  pub synced : ℕ

pub record Dir : Type 0 where
  pub files : List (FileName × File)
  pub faults : List (Option ℕ)

-- The file table. `store` overwrites in place or adds behind, so a listing keeps its order.
unfoldable pub find : FileName → List (FileName × File) → Option File
find n [] = none
find n ((m, f) ∷ t) = if bytes_eq m n then some f else find n t

unfoldable pub store : FileName → File → List (FileName × File) → List (FileName × File)
store n f [] = (n, f) ∷ []
store n f ((m, g) ∷ t) = if bytes_eq m n then (m, f) ∷ t else (m, g) ∷ store n f t

unfoldable pub erase : FileName → List (FileName × File) → List (FileName × File)
erase n [] = []
erase n ((m, g) ∷ t) = let rest = erase n t in if bytes_eq m n then rest else (m, g) ∷ rest

abbrev pub file : Dir → FileName → Option File
file d n = find n d.files

abbrev pub put_file : FileName → File → Dir → Dir
put_file n f d = record d { files = store n f d.files }

abbrev pub IsHealthy : Dir → Type 0
IsHealthy d = d.faults ≡ []

-- The outcome of the next call.
unfoldable pub outcome : List (Option ℕ) → Option ℕ
outcome [] = none
outcome (o ∷ os) = o

unfoldable pub later : List (Option ℕ) → List (Option ℕ)
later [] = []
later (o ∷ os) = os

-- A call that fails as a whole, or does `act`.
unfoldable pub call : {A : Type 0} → (Dir → Result IoError A × Dir) → Exec IoError Dir A
unfolding outcome later
call act d =
    let d' : Dir = record d { faults = later d.faults } in
    elim (outcome d.faults) [ none ↦ act d' | some k ↦ (err other, d') ]

-- A write of `bs` behind `before`: whole, or its first `k` bytes.
unfoldable pub write_call : FileName → List ℕ → ℕ → List ℕ → Exec IoError Dir (Unit {0})
unfolding outcome later
write_call n before s bs d =
    let d' : Dir = record d { faults = later d.faults } in
    elim (outcome d.faults) [
      | none ↦ (ok tt, put_file n (record { bytes = before ++ bs; synced = s }) d')
      | some k ↦ (err other, put_file n (record { bytes = before ++ take k bs; synced = s }) d')
    ]

-- `path.exists()` does not fail.
abbrev pub exists : Dir → FileName → Bool
exists d n = elim (file d n) [ none ↦ false | some f ↦ true ]

-- `fs::create_dir_all`
unfoldable pub create_dir_all : Exec IoError Dir (Unit {0})
unfolding call
create_dir_all = call (λ d. (ok tt, d))

-- `OpenOptions::new().write(true).create_new(true).open`
unfoldable pub create_new : FileName → Exec IoError Dir (Unit {0})
unfolding call
create_new n = call (λ d. elim (file d n) [
  | none ↦ (ok tt, put_file n (record { bytes = []; synced = 0 }) d)
  | some f ↦ (err already_exists, d)
])

-- `OpenOptions::new().append(true).open`
unfoldable pub open_append : FileName → Exec IoError Dir (Unit {0})
unfolding call
open_append n = call (λ d. elim (file d n) [ none ↦ (err not_found, d) | some f ↦ (ok tt, d) ])

-- `path.metadata()?.len()`
unfoldable pub file_len : FileName → Exec IoError Dir ℕ
unfolding call
file_len n =
    call (λ d. elim (file d n) [ none ↦ (err not_found, d) | some f ↦ (ok (length f.bytes), d) ])

-- `fs::read`, and `File::open` with `read_to_end`
unfoldable pub read : FileName → Exec IoError Dir (List ℕ)
unfolding call
read n = call (λ d. elim (file d n) [ none ↦ (err not_found, d) | some f ↦ (ok f.bytes, d) ])

-- Append to an open file. The data of a file that was removed meanwhile is lost.
unfoldable pub append : FileName → List ℕ → Exec IoError Dir (Unit {0})
unfolding write_call call
append n bs d = elim (file d n) [
  | none ↦ call (λ d'. (ok tt, d')) d
  | some f ↦ write_call n f.bytes f.synced bs d
]

-- `sync_all`: everything written so far is durable.
unfoldable pub sync_all : FileName → Exec IoError Dir (Unit {0})
unfolding call
sync_all n = call (λ d. elim (file d n) [
  | none ↦ (ok tt, d)
  | some f ↦ (ok tt, put_file n (record f { synced = length f.bytes }) d)
])

-- `fs::write`, and `create(true).truncate(true)` with `write_all`: the old content is gone first.
unfoldable pub write : FileName → List ℕ → Exec IoError Dir (Unit {0})
unfolding write_call
write n bs = write_call n [] 0 bs

-- `fs::rename`: the target is replaced in one step.
unfoldable pub rename : FileName → FileName → Exec IoError Dir (Unit {0})
unfolding call
rename a b = call (λ d. elim (file d a) [
  | none ↦ (err not_found, d)
  | some f ↦ (ok tt, record d { files = store b f (erase a d.files) })
])

-- `fs::remove_file`
unfoldable pub remove_file : FileName → Exec IoError Dir (Unit {0})
unfolding call
remove_file n = call (λ d. elim (file d n) [
  | none ↦ (err not_found, d)
  | some f ↦ (ok tt, record d { files = erase n d.files })
])

-- `fs::read_dir`
unfoldable pub read_dir : Exec IoError Dir (List FileName)
unfolding call
read_dir = call (λ d. (ok (map (λ p. p.0) d.files), d))
