-- ===== src/Replication/PersistentState/Atomic.antt =====
-- What the state file holds, and what a write of the term and the vote leaves there.
use wal_distributed_rs.Common.Exec.{err, ok}
use wal_distributed_rs.Common.{
  ◌-◌, ◌⊎◌, bytes_eq, ◌+◌, refl, [], ◌∙◌, ◌∷◌, ap, take_all, take, arith, ◌%◌, inr, none, length,
  inl, ◌^◌, true, some, Option-cases, ◌<◌, ℕ, Option, ◌≡◌,
}
use wal_distributed_rs.Bytes.{le_bytes, from_le}
use wal_distributed_rs.Bytes.Words.{u64_round_trip, u32_round_trip}
use wal_distributed_rs.Disk
use wal_distributed_rs.Disk.{Dir, File, FileName, find, store, erase, outcome, later, other}
use wal_distributed_rs.Disk.Laws.{find-store, find-store_self}
use wal_distributed_rs.WalCore.Segment.Content.{disk, Table}
use wal_distributed_rs.Replication.Config.{NodeId}
use wal_distributed_rs.Replication.Error.{io}
use wal_distributed_rs.Replication.PersistentState.{
  PersistentState, state_file, state_tmp, is_utf8, encode, decode, open_state, persist,
}

-- Names that the format can hold: valid UTF-8, not empty, and below 4 GiB.
abbrev pub IsName : Option NodeId → Type 0
IsName none = Unit
IsName (some v) = (is_utf8 v ≡ true) × (0 < length v) × (length v < 2 ^ 32)

decode-encode-some :
    (term : ℕ) (v : NodeId)
    → term < 2 ^ 64
    → is_utf8 v ≡ true
    → 0 < length v
    → length v < 2 ^ 32
    → decode (encode term (some v)) ≡ record { current_term = term; voted_for = some v }
unfolding decode encode le_bytes
decode-encode-some term v ht u lo hi =
    let small : length v % 2 ^ 32 ≡ length v = omega (arith, hi) in
    let cut : take (12 + length v - 12) v ≡ v =
      ap (λ n. take n v) (omega arith) ∙ take_all (length v) v (omega arith) in
    let words : from_le (le_bytes 4 (length v % 2 ^ 32)) ≡ length v =
      ap (λ n. from_le (le_bytes 4 n)) small ∙ u32_round_trip (length v) hi in
    rw (u64_round_trip term ht) (rw words (rw cut (ground (arith, u, lo))))

no_bytes : from_le (0 ∷ 0 ∷ 0 ∷ 0 ∷ []) ≡ 0
unfolding from_le
no_bytes = refl

decode-encode-none :
    (term : ℕ)
    → term < 2 ^ 64
    → decode (encode term none) ≡ record { current_term = term; voted_for = none }
unfolding decode encode le_bytes
decode-encode-none term ht = rw (u64_round_trip term ht, no_bytes) refl

-- Reading what was written gives the term and the vote back.
pub decode-encode :
    (term : ℕ) (v : Option NodeId)
    → term < 2 ^ 64
    → IsName v
    → decode (encode term v) ≡ record { current_term = term; voted_for = v }
decode-encode term none ht n = decode-encode-none term ht
decode-encode term (some v) ht n = decode-encode-some term v ht n.0 n.1 n.2

-- The state that the table holds.
abbrev pub record_of : Option File → PersistentState
record_of none = record { current_term = 0; voted_for = none }
record_of (some f) = decode f.bytes

abbrev pub loaded : Table → PersistentState
loaded t = record_of (find state_file t)

pub open_state_done : (t : Table) → open_state (disk t) ≡ (ok (loaded t), disk t)
unfolding open_state Disk.read find
open_state_done t = elim (Option-cases (find state_file t)) [
  | inl e ↦ rw (e, open_state)
  | inr (f, e) ↦ rw (e, open_state)
]

-- What a write and a rename leave under the two names, by the outcomes of the two calls.
persist_write_failed :
    (s : PersistentState) (d : Dir) (k : ℕ)
    → outcome d.faults ≡ some k
    → persist (s, d) ≡ (
      err (io other),
      (
        s,
        record {
          files =
              store state_tmp
                (record { bytes = take k (encode s.current_term s.voted_for); synced = 0 })
                d.files;
          faults = later d.faults;
        },
      ),
    )
unfolding persist Disk.write
persist_write_failed s d k o = ground arith

abbrev written : PersistentState → File
written s = record { bytes = encode s.current_term s.voted_for; synced = 0 }

persist_rename_failed :
    (s : PersistentState) (d : Dir) (k : ℕ)
    → outcome d.faults ≡ none
    → outcome (later d.faults) ≡ some k
    → persist (s, d) ≡ (
      err (io other),
      (s, record { files = store state_tmp (written s) d.files; faults = later (later d.faults) }),
    )
unfolding persist Disk.write Disk.rename
persist_rename_failed s d k o o' = ground arith

persist_done :
    (s : PersistentState) (d : Dir)
    → outcome d.faults ≡ none
    → outcome (later d.faults) ≡ none
    → persist (s, d) ≡ (
      ok tt,
      (
        s,
        record {
          files =
              store state_file (written s) (erase state_tmp (store state_tmp (written s) d.files));
          faults = later (later d.faults);
        },
      ),
    )
unfolding persist Disk.write Disk.rename
persist_done s d o o' = ground (arith, find-store_self state_tmp (written s) d.files)

loaded-tmp : (f : File) (t : Table) → loaded (store state_tmp f t) ≡ loaded t
loaded-tmp f t = rw (find-store state_tmp state_file f t) (unfold bytes_eq in refl)

-- The write of a term that is a u64 and a vote, for nobody or for a name in UTF-8 that is not empty
-- and below 4 GiB, is atomic, whatever calls fail and wherever a write stops: when it succeeds the
-- file holds exactly this term and vote, and when it fails what it held before the call.
pub persist_atomic :
    (s : PersistentState) (d : Dir)
    → s.current_term < 2 ^ 64
    → IsName s.voted_for
    → let r = persist (s, d) in
      ((r.0 ≡ ok tt) × (loaded r.1.1.files ≡ s))
      ⊎ ((r.0 ≡ err (io other)) × (loaded r.1.1.files ≡ loaded d.files))
persist_atomic s d ht hv = elim (Option-cases (outcome d.faults)) [
  | inr (k, o) ↦ rw (persist_write_failed s d k o) (inr (refl, loaded-tmp _ d.files))
  | inl o ↦ elim (Option-cases (outcome (later d.faults))) [
    | inr (k, o') ↦ rw (persist_rename_failed s d k o o') (inr (refl, loaded-tmp _ d.files))
    | inl o' ↦ rw (persist_done s d o o') (
        inl (
          refl,
          ap record_of (find-store_self state_file (written s) _)
              ∙ decode-encode s.current_term s.voted_for ht hv,
        ))
  ]
]
