-- ===== src/Replication/Node/Matching.antt =====
-- Entries that a follower takes: what its log has afterwards.
use wal_distributed_rs.Common.{
  ap, ◌∙◌, arith, sym, Bool-cases, inr, inl, le→ltb, Option-cases, lt→leb, ◌||◌, if◌then◌else◌,
  ◌==◌, some, none, ◌&&◌, [], ◌∷◌, ◌≤◌, add64, ◌<◌, ◌++◌, refl, false, true, ◌≡◌, List, Bool, ℕ,
}
use wal_distributed_rs.Common.Exec.{err, pure, ok, ◌>>◌, continue, Result}
use wal_distributed_rs.WalCore.Entry.{Crc}
use mathlib.Core.Path.{subst}
use wal_distributed_rs.Disk.{Dir}
use wal_distributed_rs.Replication.Error.{RaftError}
use wal_distributed_rs.Replication.Log
use wal_distributed_rs.WalCore.Wal.{append as wal_append}
use wal_distributed_rs.Replication.Log.{
  RaftLog, LogExec, on_wal, assign, last_index, term_at, truncated,
}
use wal_distributed_rs.Replication.Log.Terms.{within_log}
use wal_distributed_rs.Replication.Log.Record.{encode_truncate, LogEntry, Memory}
use wal_distributed_rs.Replication.Log.Replay.{IsLog, pushed}
use wal_distributed_rs.Replication.Node.{RaftNode, on_log}
use wal_distributed_rs.Replication.Node.Follower.{take_entry}

-- The call has given a result.
abbrev pub is_ok : {E A : Type 0} → Result E A → Bool
is_ok (ok a) = true
is_ok (err e) = false

-- What an operation that writes to the log and then changes the memory leaves in memory.
wrote :
    {A B : Type 0} (r : Result RaftError A) (f : Memory → Memory) (b : B) (l : RaftLog) (d : Dir)
    → is_ok (continue r (λ _. assign f >> pure b) (l, d)).0 ≡ true
    → (continue r (λ _. assign f >> pure b) (l, d)).1.0.memory ≡ f l.memory
wrote (ok a) f b l d h = refl
wrote (err e) f b l d h = cc

pub wrote_unit :
    {A : Type 0} (r : Result RaftError A) (f : Memory → Memory) (l : RaftLog) (d : Dir)
    → is_ok (continue r (λ _. assign f) (l, d)).0 ≡ true
    → (continue r (λ _. assign f) (l, d)).1.0.memory ≡ f l.memory
wrote_unit (ok a) f l d h = refl
wrote_unit (err e) f l d h = cc

module _ ⦃c : Crc⦄ where
  pub append-memory :
      (term : ℕ) (payload : List ℕ) (n : RaftNode)
      → is_ok (on_log (Log.append term payload) n).0 ≡ true
      → (on_log (Log.append term payload) n).1.log.memory ≡ pushed term payload n.log.memory
  unfolding Log.append
  append-memory term payload n h =
      wrote _
        (λ m. record m {
          entries =
              m.entries
              ++ record {
                term = term;
                index = add64 (last_index n.log.memory) 1;
                payload = payload;
              }
                ∷ [];
        })
        _ _ _ h

  truncate_from-memory :
      (from : ℕ) (n : RaftNode)
      → n.log.memory.snapshot_index < from
      → from ≤ last_index n.log.memory
      → is_ok (on_log (Log.truncate_from from) n).0 ≡ true
      → (on_log (Log.truncate_from from) n).1.log.memory ≡ truncated from n.log.memory
  unfolding Log.truncate_from
  truncate_from-memory from n above within h =
      let l = n.log in
      let writes = on_wal (wal_append (encode_truncate from)) >> assign (truncated from) in
      let runs : Log.truncate_from from (l, n.wal_dir) ≡ writes (l, n.wal_dir) =
        rw (lt→leb from l.memory.snapshot_index above, le→ltb (last_index l.memory) from within)
          refl in
      subst (λ x. x.1.0.memory ≡ truncated from l.memory) (sym runs)
        (wrote_unit _ (truncated from) _ _ (subst (λ x. is_ok x.0 ≡ true) runs h))

  -- Whether the log's operations succeed, whose errors `take_entry` ignores.
  unfoldable pub entry_ok : LogEntry → RaftNode → Bool
  unfolding term_at Log.append Log.truncate_from
  entry_ok e n = elim (term_at n.log.memory e.index) [
    | none ↦ is_ok (on_log (Log.append e.term e.payload) n).0
    | some t ↦
        let cut = on_log (Log.truncate_from e.index) n in
        t == e.term || is_ok cut.0 && is_ok (on_log (Log.append e.term e.payload) cut.1).0
  ]

  unfoldable pub entries_ok : List LogEntry → RaftNode → Bool
  unfolding entry_ok take_entry
  entries_ok [] n = true
  entries_ok (e ∷ es) n = entry_ok e n && entries_ok es (take_entry e n)

-- What `take_entry` then does in memory.
unfoldable pub put : LogEntry → Memory → Memory
unfolding term_at
put e m = elim (term_at m e.index) [
  | none ↦ pushed e.term e.payload m
  | some t ↦ if t == e.term then m else pushed e.term e.payload (truncated e.index m)
]

pub both : (a b : Bool) → (a && b) ≡ true → (a ≡ true) × (b ≡ true)
both a b h = ground (arith, h)

module _ ⦃c : Crc⦄ where
  pub take_entry-put :
      (e : LogEntry) (n : RaftNode)
      → n.log.memory.snapshot_index < e.index
      → IsLog n.log.memory
      → entry_ok e n ≡ true
      → (take_entry e n).log.memory ≡ put e n.log.memory
  unfolding entry_ok take_entry put
  take_entry-put e n above log h = elim (Option-cases (term_at n.log.memory e.index)) [
    | inl missing ↦
        rw (take_entry, put, missing)
          (append-memory e.term e.payload n (rw (entry_ok, missing) at h))
    | inr (t, found) ↦ elim (Bool-cases (t == e.term)) [
      | inl same ↦ rw (take_entry, put, found, same) refl
      | inr other ↦
          let cut = on_log (Log.truncate_from e.index) n in
          let (was_cut, was_appended) =
            both (is_ok cut.0) (is_ok (on_log (Log.append e.term e.payload) cut.1).0)
              (rw (entry_ok, found, other) at h) in
          rw (take_entry, put, found, other)
            (append-memory e.term e.payload cut.1 was_appended
              ∙ ap (pushed e.term e.payload) (
                  truncate_from-memory e.index n above (within_log n.log.memory e.index t log found)
                    was_cut))
    ]
  ]
