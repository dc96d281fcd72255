-- ===== src/Replication/PersistentState.antt =====
-- crates/wal-replication/src/persistent_state.rs: the term and the vote, which outlive a crash.
pub mod Atomic
use wal_distributed_rs.Common.{
  ℕ, suc, zero, ◌+◌, ◌%◌, ◌^◌, Bool, true, false, ◌&&◌, ◌||◌, Option, none, some, List, [], ◌∷◌,
  ◌++◌, length, ltb, leb, ◌==◌, if◌then◌else◌,
}
use wal_distributed_rs.Common.Exec.{Exec, ok, pure, ◌>>=◌, ◌>>◌, map_err, on_snd}
use wal_distributed_rs.Bytes.{le_bytes, from_le, slice}
use wal_distributed_rs.Disk
use wal_distributed_rs.Disk.{Dir, FileName, exists}
use wal_distributed_rs.Replication.Config.{NodeId}
use wal_distributed_rs.Replication.Error.{RaftError, io}

-- The bytes that follow a first byte of UTF-8: how many, and the range of the next one.
unfoldable pub utf8_lead : ℕ → Option (ℕ × ℕ × ℕ)
utf8_lead b =
    if leb b 127
    then some (0, 128, 191)
    else if leb b 193
    then none
    else if leb b 223
    then some (1, 128, 191)
    else if b == 224
    then some (2, 160, 191)
    else if b == 237
    then some (2, 128, 159)
    else if leb b 239
    then some (2, 128, 191)
    else if b == 240
    then some (3, 144, 191)
    else if leb b 243
    then some (3, 128, 191)
    else if b == 244
    then some (3, 128, 143)
    else none

unfoldable pub utf8_from : ℕ → ℕ → ℕ → List ℕ → Bool
unfolding utf8_lead
utf8_from more lo hi [] = more == 0
utf8_from zero lo hi (b ∷ bs) = elim (utf8_lead b) [
  | none ↦ Bool.false
  | some (more, lo', hi') ↦ utf8_from more lo' hi' bs
]
utf8_from (suc more) lo hi (b ∷ bs) =
    let rest = utf8_from more 128 191 bs in if leb lo b && leb b hi then rest else Bool.false

-- The test of `String::from_utf8`.
abbrev pub is_utf8 : List ℕ → Bool
is_utf8 = utf8_from 0 128 191

-- "raft_state.bin"
abbrev pub state_file : FileName
state_file =
    b'r' ∷ b'a' ∷ b'f' ∷ b't' ∷ b'_' ∷ b's' ∷ b't' ∷ b'a' ∷ b't' ∷ b'e' ∷ b'.' ∷ b'b' ∷ b'i' ∷ b'n'
    ∷ []

-- `path.with_extension("tmp")`
abbrev pub state_tmp : FileName
state_tmp =
    b'r' ∷ b'a' ∷ b'f' ∷ b't' ∷ b'_' ∷ b's' ∷ b't' ∷ b'a' ∷ b't' ∷ b'e' ∷ b'.' ∷ b't' ∷ b'm' ∷ b'p'
    ∷ []

pub record PersistentState : Type 0 where
  pub current_term : ℕ
  pub voted_for : Option NodeId

-- `voted_for.unwrap_or("")`
abbrev pub name_or_empty : Option NodeId → NodeId
name_or_empty none = []
name_or_empty (some v) = v

unfoldable pub encode : ℕ → Option NodeId → List ℕ
encode term voted_for =
    let s = name_or_empty voted_for in le_bytes 8 term ++ (le_bytes 4 (length s % 2 ^ 32) ++ s)

unfoldable pub decode : List ℕ → PersistentState
decode bytes =
    if ltb (length bytes) 12
    then record { current_term = 0; voted_for = none }
    else let len = from_le (slice 8 12 bytes) in
      let name = slice 12 (12 + len) bytes in
      record {
        current_term = from_le (slice 0 8 bytes);
        voted_for =
            if len == 0 || ltb (length bytes) (12 + len)
            then none
            else if is_utf8 name
            then some name
            else none;
      }

abbrev pub StateExec : Type 0 → Type 0
StateExec A = Exec RaftError (PersistentState × Dir) A

unfoldable pub open_state : Exec RaftError Dir PersistentState
unfolding decode
open_state d =
    if exists d state_file
    then (do bytes ← map_err io (Disk.read state_file); pure (decode bytes)) d
    else (ok (record { current_term = 0; voted_for = none }), d)

unfoldable pub persist : StateExec (Unit {0})
unfolding encode
persist (s, d) =
    (do
      on_snd (map_err io (Disk.write state_tmp (encode s.current_term s.voted_for)))
      on_snd (map_err io (Disk.rename state_tmp state_file)))
      (s, d)

unfoldable pub advance_term : ℕ → StateExec (Unit {0})
unfolding persist
advance_term new_term (s, d) = persist (record { current_term = new_term; voted_for = none }, d)

unfoldable pub record_vote : NodeId → StateExec (Unit {0})
unfolding persist
record_vote candidate (s, d) = persist (record s { voted_for = some candidate }, d)
