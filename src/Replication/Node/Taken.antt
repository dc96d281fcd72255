-- ===== src/Replication/Node/Taken.antt =====
-- The log in memory behind the entry before those that a follower takes.
use wal_distributed_rs.Replication.Log.Entries.{
  Follows-take, Follows-snoc, drop-get, take-get_eq, snoc-get,
}
use wal_distributed_rs.Common.{
  take-append_length, true, length-append, length-take, ==_iff, add64, take_all, ◌-◌, ◌==◌,
  Bool-cases, inr, inl, Option-cases, ◌≤◌, ◌⊎◌, refl, take-take, arith, [], ◌∙◌, ap, ◌^◌, sym, ◌∷◌,
  ◌<◌, ◌++◌, some, ◌+◌, drop, length, get_elem?, take, ◌≡◌, map, ℕ, List,
}
use Prim.Native.Nat.{suc}
use wal_distributed_rs.Replication.Log.{last_index, term_at, truncated}
use mathlib.Core.Path.{ap₂}
use wal_distributed_rs.Replication.Log.Terms.{get_elem?-lt, IsAt, term_at-none, term_at-some}
use wal_distributed_rs.Replication.Log.Record.{LogEntry, Memory}
use wal_distributed_rs.Replication.Log.Replay.{Follows, IsLog}
use wal_distributed_rs.Replication.Node.Matching.{put, both, entry_ok, entries_ok, take_entry-put}
use wal_distributed_rs.Replication.Node.Follower.{take_entry, take_entries}
use wal_distributed_rs.Replication.Node.{RaftNode}
use wal_distributed_rs.WalCore.Entry.{Crc}
use mathlib.Core.Path.{subst}

abbrev pub terms : List LogEntry → List ℕ
terms es = map (λ (e : LogEntry). e.term) es

-- `m'` has, behind the first `k` entries of `m`, entries with the terms of `es`, and is a log as
-- well.
pub record Takes (k : ℕ) (es : List LogEntry) (m m' : Memory) : Type 0 where
  pub snapshot_index : m'.snapshot_index ≡ m.snapshot_index
  pub log : IsLog m'
  pub kept : take k m'.entries ≡ take k m.entries
  pub taken : terms (take (length es) (drop k m'.entries)) ≡ terms es

-- One entry first, then the others.
Takes-cons :
    (k : ℕ) (e x : LogEntry) (es : List LogEntry) (m m1 m' : Memory)
    → m1.snapshot_index ≡ m.snapshot_index
    → take k m1.entries ≡ take k m.entries
    → get_elem? m1.entries k ≡ some x
    → x.term ≡ e.term
    → Takes (suc k) es m1 m'
    → Takes k (e ∷ es) m m'
Takes-cons k e x es m m1 m' snap kept found same rest =
    let found' : get_elem? m'.entries k ≡ some x =
      take-get_eq k m'.entries m1.entries rest.kept ∙ found in
    record {
      snapshot_index = rest.snapshot_index ∙ snap;
      log = rest.log;
      kept =
          sym (take-take k (suc k) m'.entries (omega arith))
          ∙ ap (take k) rest.kept
          ∙ take-take k (suc k) m1.entries (omega arith)
          ∙ kept;
      taken =
          ap (λ l. terms (take (suc (length es)) l)) (drop-get k m'.entries x found')
          ∙ ap₂ (λ a b. a ∷ b) same rest.taken;
    }

-- What `put` does to the entries: nothing, where the entry's term stands already, or the entry
-- comes behind those before it.
unfoldable pub PutsAt : ℕ → LogEntry → Memory → Memory → Type 0
PutsAt k e m m1 =
    ((m1 ≡ m) × ((x : LogEntry) × (get_elem? m.entries k ≡ some x) × (x.term ≡ e.term)))
    ⊎ (m1 ≡ record m {
      entries = take k m.entries ++ record e { index = m.snapshot_index + k + 1 } ∷ [];
    })

entry_of :
    (k : ℕ) (e : LogEntry) (m : Memory) (t : ℕ)
    → e.index ≡ m.snapshot_index + k + 1
    → t ≡ e.term
    → IsAt m e.index t
    → (x : LogEntry) × (get_elem? m.entries k ≡ some x) × (x.term ≡ e.term)
unfolding IsAt
entry_of k e m t at same (inl (at_snapshot, _)) = absurd (omega (arith, at, at_snapshot))
entry_of k e m t at same (inr (_, (x, found, term))) =
    let place : e.index - m.snapshot_index - 1 ≡ k = omega (arith, at) in
    (x, sym (ap (λ j. get_elem? m.entries j) place) ∙ found, term ∙ same)

pub put-PutsAt :
    (k : ℕ) (e : LogEntry) (m : Memory)
    → IsLog m
    → e.index ≡ m.snapshot_index + k + 1
    → k ≤ length m.entries
    → PutsAt k e m (put e m)
unfolding PutsAt last_index truncated put
put-PutsAt k e m log at within = elim (Option-cases (term_at m e.index)) [
  | inl missing ↦ inr (
      let end : k ≡ length m.entries = omega (
        arith,
        within,
        at,
        term_at-none m e.index (omega (arith, at)) (omega (arith, at)) missing,
      ) in
      let whole : m.entries ≡ take k m.entries = sym (take_all k m.entries (omega (arith, end))) in
      let index : add64 (last_index m) 1 ≡ m.snapshot_index + k + 1 =
        omega (arith, end, log.bound) in
      rw (put, missing)
        (λ i. record m {
          entries = whole i ++ record { term = e.term; index = index i; payload = e.payload } ∷ [];
        }))
  | inr (t, found) ↦ elim (Bool-cases (t == e.term)) [
    | inl same ↦ inl (
      rw (put, found, same) refl,
      entry_of k e m t at ((==_iff t e.term).0 same)
          (term_at-some m e.index t (omega (arith, at)) found),
    )
    | inr other ↦ inr (
        let place : e.index - m.snapshot_index - 1 ≡ k = omega (arith, at) in
        let part : take (e.index - m.snapshot_index - 1) m.entries ≡ take k m.entries =
          ap (λ j. take j m.entries) place in
        let index : add64 (last_index (truncated e.index m)) 1 ≡ m.snapshot_index + k + 1 =
          omega (
            arith,
            at,
            within,
            log.bound,
            length-take (e.index - m.snapshot_index - 1) m.entries,
          ) in
        rw (put, found, other)
          (λ i. record m {
            entries = part i ++ record { term = e.term; index = index i; payload = e.payload } ∷ [];
          }))
  ]
]

-- Each outcome leaves a log that has the entry's term behind the entries before it.
pub put-Takes :
    (k : ℕ) (e : LogEntry) (m m1 : Memory)
    → IsLog m
    → k ≤ length m.entries
    → m.snapshot_index + k + 2 < 2 ^ 64
    → e.term < 2 ^ 64
    → PutsAt k e m m1
    → (m1.snapshot_index ≡ m.snapshot_index)
      × IsLog m1
      × (take k m1.entries ≡ take k m.entries)
      × ((x : LogEntry) × (get_elem? m1.entries k ≡ some x) × (x.term ≡ e.term))
unfolding PutsAt
put-Takes k e m m1 log within room u64 (inl (same, has)) =
    subst
      (λ (y : Memory).
        (y.snapshot_index ≡ m.snapshot_index)
        × IsLog y
        × (take k y.entries ≡ take k m.entries)
        × ((x : LogEntry) × (get_elem? y.entries k ≡ some x) × (x.term ≡ e.term)))
      (sym same) (refl, log, refl, has)
put-Takes k e m m1 log within room u64 (inr changed) =
    let new : LogEntry = record e { index = m.snapshot_index + k + 1 } in
    let kept = take k m.entries in
    let long : length kept ≡ k = omega (arith, length-take k m.entries, within) in
    subst
      (λ (y : Memory).
        (y.snapshot_index ≡ m.snapshot_index)
        × IsLog y
        × (take k y.entries ≡ take k m.entries)
        × ((x : LogEntry) × (get_elem? y.entries k ≡ some x) × (x.term ≡ e.term)))
      (sym changed)
      (
        refl,
        record {
          follows =
              Follows-snoc m.snapshot_index kept new
                (Follows-take m.snapshot_index k m.entries log.follows) (omega (arith, long)) u64;
          bound = omega (arith, length-append kept (new ∷ []), long, room);
        },
        take-append_length k kept (new ∷ []) long,
        (new, snoc-get k kept new long, refl),
      )

module _ ⦃c : Crc⦄ where
  pub take_entries-Takes :
      (es : List LogEntry) (k : ℕ) (n : RaftNode)
      → IsLog n.log.memory
      → k ≤ length n.log.memory.entries
      → Follows (n.log.memory.snapshot_index + k) es
      → n.log.memory.snapshot_index + k + length es + 1 < 2 ^ 64
      → entries_ok es n ≡ true
      → Takes k es n.log.memory (take_entries es n).log.memory
  unfolding take_entries entries_ok
  take_entries-Takes [] k n log within follows room h = record {
    snapshot_index = refl;
    log = log;
    kept = refl;
    taken = refl;
  }
  take_entries-Takes (e ∷ es) k n log within follows room h =
      let m = n.log.memory in
      let n1 = take_entry e n in
      let (first, others) = both (entry_ok e n) (entries_ok es n1) h in
      let (snap, log1, kept, (x, found, same)) =
        subst
          (λ (y : Memory).
            (y.snapshot_index ≡ m.snapshot_index)
            × IsLog y
            × (take k y.entries ≡ take k m.entries)
            × ((x : LogEntry) × (get_elem? y.entries k ≡ some x) × (x.term ≡ e.term)))
          (sym (take_entry-put e n (omega (arith, follows.0)) log first))
          (put-Takes k e m (put e m) log within (omega (arith, room)) follows.1
            (put-PutsAt k e m log follows.0 within)) in
      Takes-cons k e x es m n1.log.memory (take_entries es n1).log.memory snap kept found same (
        take_entries-Takes es (suc k) n1 log1
          (omega (arith, get_elem?-lt n1.log.memory.entries k x found))
          (subst (λ i. Follows i es) (omega (arith, snap)) follows.2) (omega (arith, snap, room))
          others)
