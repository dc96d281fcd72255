-- ===== src/Replication/Log/Recovery.antt =====
-- The replicated log over a crash: what `open_log` rebuilds is what the write path had in memory.
use mathlib.Core.Path.{subst}
use wal_distributed_rs.Common.{
  last?-snoc, ℕ, ◌+◌, ◌≤◌, ◌<◌, ◌^◌, ◌≡◌, refl, sym, ap, ◌∙◌, List, [], ◌∷◌, ◌++◌, length,
  append_assoc, arith, add64, filter-append, filter-cons_yes, le→leb, leb, lt→leb, le→ltb, last?,
}
use wal_distributed_rs.Common.Exec.{ok}
use wal_distributed_rs.Bytes.{le_bytes}
use wal_distributed_rs.Disk.{Dir}
use wal_distributed_rs.WalCore.Entry.{Crc, Entry}
use wal_distributed_rs.WalCore.Segment.Content.{disk, Table}
use wal_distributed_rs.WalCore.Wal.{Wal, from_on, next_after, append as wal_append}
use wal_distributed_rs.WalCore.Wal.Model.{Part, entries_of, Stands}
use wal_distributed_rs.WalCore.Wal.Growth.{append-Stands}
use wal_distributed_rs.WalCore.Wal.Listed.{sequence?}
use wal_distributed_rs.Replication.Log.Record.{
  LogEntry, empty, replay, apply_record, encode_append, encode_truncate,
}
use wal_distributed_rs.Replication.Log.{RaftLog, last_index, append, truncate_from, truncated}
use wal_distributed_rs.Replication.Log.Replay.{
  IsLog, replay-snoc, replay-append, replay-truncate, pushed,
}

length-encode_append : (e : LogEntry) → length (encode_append e) ≡ 17 + length e.payload
unfolding encode_append le_bytes
length-encode_append e = omega arith

length-encode_truncate : (from : ℕ) → length (encode_truncate from) ≡ 9
unfolding encode_truncate le_bytes
length-encode_truncate from = refl

module _ ⦃c : Crc⦄ where
  -- The log stands on the disk, and the records there replay to what is in memory.
  pub record Recovers (l : RaftLog) (t : Table) : Type 0 where
    pub old : List Part
    pub now : List Entry
    pub stands : Stands l.store t old now
    pub replayed : replay empty (entries_of old ++ now) ≡ l.memory
    pub numbered : from_on 1 (entries_of old ++ now) ≡ entries_of old ++ now
    pub next : 1 ≤ l.store.next_sequence
    pub successor : l.store.next_sequence ≡ next_after (sequence? (last? (entries_of old ++ now)))

  -- Room in the write-ahead log for a record of `size` bytes: in a segment, and in its u64
  -- counters.
  pub record HasRoom (w : Wal) (size : ℕ) : Type 0 where
    pub segment : 16 + size ≤ w.config.max_segment_bytes
    pub size32 : size < 2 ^ 32
    pub bytes : w.active.size + w.config.max_segment_bytes < 2 ^ 64
    pub ids : w.active.id + 1 < 2 ^ 64
    pub sequences : w.next_sequence + 1 < 2 ^ 64

  -- One more record in the write-ahead log is one more step of the replay.
  record_written :
      (l : RaftLog) (t : Table) (payload : List ℕ)
      → Recovers l t
      → HasRoom l.store (length payload)
      → (w : Wal) × (t' : Table) × (old : List Part) × (now : List Entry) × (wal_append payload
            (l.store, disk t)
          ≡ (ok l.store.next_sequence, (w, disk t')))
        × Stands w t' old now
        × (replay empty (entries_of old ++ now) ≡ apply_record l.memory payload)
        × (from_on 1 (entries_of old ++ now) ≡ entries_of old ++ now)
        × (w.next_sequence ≡ l.store.next_sequence + 1)
        × (w.next_sequence ≡ next_after (sequence? (last? (entries_of old ++ now))))
  record_written l t payload h room =
      let e : Entry = record { sequence = l.store.next_sequence; payload = payload } in
      let (out, done, g) =
        append-Stands l.store t h.old h.now payload h.stands
          (record { sequence = omega (arith, room.sequences); payload = room.size32 }) room.segment
          room.bytes room.ids in
      let all : entries_of g.old' ++ g.now' ≡ (entries_of h.old ++ h.now) ++ e ∷ [] =
        g.entries ∙ sym (append_assoc (entries_of h.old) h.now (e ∷ [])) in
      (
        out.0,
        g.table,
        g.old',
        g.now',
        done ∙ (λ i. (ok l.store.next_sequence, (out.0, g.on_disk i))),
        g.stands,
        rw all (
            replay-snoc empty (entries_of h.old ++ h.now) e
            ∙ ap (λ m. apply_record m payload) h.replayed),
        rw all (
            filter-append (λ x. leb 1 x.sequence) (entries_of h.old ++ h.now) (e ∷ [])
            ∙ rw (h.numbered, filter-cons_yes (λ x. leb 1 x.sequence) e [] (le→leb 1 _ h.next))),
        g.next_sequence ∙ omega (arith, room.sequences),
        rw (all, last?-snoc (entries_of h.old ++ h.now) e) g.next_sequence,
      )

  truncate_from_run :
      (from : ℕ) (l : RaftLog) (d : Dir) {n : ℕ} {w : Wal} {d' : Dir}
      → l.memory.snapshot_index < from
      → from ≤ last_index l.memory
      → wal_append (encode_truncate from) (l.store, d) ≡ (ok n, (w, d'))
      → truncate_from from (l, d)
        ≡ (ok tt, (record { memory = truncated from l.memory; store = w }, d'))
  unfolding truncate_from
  truncate_from_run from l d lo hi done =
      rw (lt→leb from l.memory.snapshot_index lo, le→ltb (last_index l.memory) from hi, done)

  -- `append` on a log with contiguous indices that stands on a disk whose calls do not fail, with
  -- room for the record in a segment and in the counters and a term that is a u64: it returns the
  -- index behind the last one, puts the entry at the end of the log in memory, and leaves a disk
  -- from which the log with the entry is rebuilt.
  pub append-Recovers :
      (term : ℕ) (payload : List ℕ) (l : RaftLog) (t : Table)
      → Recovers l t
      → IsLog l.memory
      → term < 2 ^ 64
      → HasRoom l.store (17 + length payload)
      → (l' : RaftLog) × (t' : Table) × (append term payload (l, disk t)
          ≡ (ok (last_index l.memory + 1), (l', disk t')))
        × (l'.memory ≡ pushed term payload l.memory)
        × Recovers l' t'
  unfolding append
  append-Recovers term payload l t h inv ht room =
      let index : add64 (last_index l.memory) 1 ≡ last_index l.memory + 1 =
        omega (arith, inv.bound) in
      let entry : LogEntry = record {
        term = term;
        index = add64 (last_index l.memory) 1;
        payload = payload;
      } in
      let (w, t', old, now, done, stands, replayed, numbered, next, successor) =
        record_written l t (encode_append entry) h
          (subst (HasRoom l.store) (sym (length-encode_append entry)) room) in
      (
        record { memory = pushed term payload l.memory; store = w },
        t',
        rw done (λ i.
            (ok (index i), (record { memory = pushed term payload l.memory; store = w }, disk t'))),
        refl,
        record {
          old = old;
          now = now;
          stands = stands;
          replayed = replayed ∙ replay-append l.memory term payload inv ht;
          numbered = numbered;
          next = omega (arith, next);
          successor = successor;
        },
      )

  -- `truncate_from` at an index of the log behind the snapshot, on a log with contiguous indices
  -- that stands on a disk whose calls do not fail, with room for the record: it cuts the log in
  -- memory there, and leaves a disk from which the cut log is rebuilt.
  pub truncate_from-Recovers :
      (from : ℕ) (l : RaftLog) (t : Table)
      → Recovers l t
      → IsLog l.memory
      → l.memory.snapshot_index < from
      → from ≤ last_index l.memory
      → HasRoom l.store 9
      → (l' : RaftLog) × (t' : Table) × (truncate_from from (l, disk t) ≡ (ok tt, (l', disk t')))
        × (l'.memory ≡ truncated from l.memory)
        × Recovers l' t'
  truncate_from-Recovers from l t h inv lo hi room =
      let (w, t', old, now, done, stands, replayed, numbered, next, successor) =
        record_written l t (encode_truncate from) h
          (subst (HasRoom l.store) (sym (length-encode_truncate from)) room) in
      (
        record { memory = truncated from l.memory; store = w },
        t',
        truncate_from_run from l (disk t) lo hi done,
        refl,
        record {
          old = old;
          now = now;
          stands = stands;
          replayed = replayed ∙ replay-truncate l.memory from inv lo hi;
          numbered = numbered;
          next = omega (arith, next);
          successor = successor;
        },
      )
