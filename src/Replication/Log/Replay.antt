-- ===== src/Replication/Log/Replay.antt =====
-- Replaying the records of the log does in memory what the write path did.
use mathlib.Core.Path.{ap₂}
use wal_distributed_rs.Common.{
  if◌then◌else◌, min, filter-cons_no, not-leb→lt, suc, ==_iff, leb→le, not-ltb→le, leb, drop_all,
  some, ℕ, ◌+◌, ◌-◌, ◌≤◌, ◌<◌, ◌^◌, ◌≡◌, refl, sym, ap, ◌∙◌, List, [], ◌∷◌, ◌++◌, length, drop,
  filter, arith, Bool-cases, inl, inr, ltb, add64, false, le→ltb,
}
use wal_distributed_rs.Bytes.{le_bytes}
use wal_distributed_rs.Bytes.Words.{u64_round_trip}
use wal_distributed_rs.WalCore.Entry.{Entry}
use wal_distributed_rs.Replication.Log.Record.{
  LogEntry, Memory, encode_append, decode_append, encode_truncate, encode_snapshot, apply_append,
  apply_truncate, apply_snapshot, apply_record, replay, apply_decoded,
}
use wal_distributed_rs.Replication.Log.{last_index, truncated, compacted, installed}

-- The entries behind index `s` have the indices `s + 1`, `s + 2` and so on, with terms that are
-- u64s.
abbrev pub Follows : ℕ → List LogEntry → Type 0
Follows s [] = Unit
Follows s (e ∷ es) = (e.index ≡ s + 1) × (e.term < 2 ^ 64) × Follows (s + 1) es

-- A log whose indices are contiguous, below the last u64.
pub record IsLog (m : Memory) : Type 0 where
  pub follows : Follows m.snapshot_index m.entries
  pub bound : m.snapshot_index + length m.entries + 1 < 2 ^ 64

pub replay-snoc :
    (m : Memory) (es : List Entry) (e : Entry)
    → replay m (es ++ e ∷ []) ≡ apply_record (replay m es) e.payload
unfolding replay
replay-snoc m [] e = refl
replay-snoc m (x ∷ es) e = replay-snoc (apply_record m x.payload) es e

-- Each record is read back as what was written.
decode_append-encode :
    (e : LogEntry)
    → e.index < 2 ^ 64
    → e.term < 2 ^ 64
    → decode_append (le_bytes 8 e.index ++ (le_bytes 8 e.term ++ e.payload)) ≡ some e
unfolding decode_append le_bytes
decode_append-encode e hi ht =
    let long : 16 ≤ 16 + length e.payload = omega arith in
    ground (arith, u64_round_trip e.index hi, u64_round_trip e.term ht, long)

apply_record-append :
    (m : Memory) (e : LogEntry)
    → e.index < 2 ^ 64
    → e.term < 2 ^ 64
    → apply_record m (encode_append e) ≡ apply_append e m
unfolding encode_append apply_record
apply_record-append m e hi ht = ap (λ o. apply_decoded o m) (decode_append-encode e hi ht)

apply_record-truncate :
    (m : Memory) (from : ℕ)
    → from < 2 ^ 64
    → apply_record m (encode_truncate from) ≡ apply_truncate from m
unfolding encode_truncate apply_record le_bytes
apply_record-truncate m from h = ap (λ f. apply_truncate f m) (u64_round_trip from h)

apply_record-snapshot :
    (m : Memory) (index term : ℕ)
    → index < 2 ^ 64
    → term < 2 ^ 64
    → apply_record m (encode_snapshot index term) ≡ apply_snapshot index term m
unfolding encode_snapshot apply_record le_bytes
apply_record-snapshot m index term hi ht =
    ap₂ (λ i t. apply_snapshot i t m) (u64_round_trip index hi) (u64_round_trip term ht)

-- The entry that `append` puts at the end.
abbrev pub pushed : ℕ → List ℕ → Memory → Memory
pushed term payload m = record m {
  entries =
      m.entries ++ record { term = term; index = add64 (last_index m) 1; payload = payload } ∷ [];
}

-- In memory, the replay of an APPEND record is `append`, that of a TRUNCATE record is
-- `truncate_from` where this writes one, and that of a SNAPSHOT record is `install_snapshot` and
-- `compact`.
pub replay-append :
    (m : Memory) (term : ℕ) (payload : List ℕ)
    → IsLog m
    → term < 2 ^ 64
    → apply_record m
        (encode_append (record { term = term; index = add64 (last_index m) 1; payload = payload }))
      ≡ pushed term payload m
unfolding last_index
replay-append m term payload h ht =
    apply_record-append m _ (omega (arith, h.bound)) ht
    ∙ (unfold apply_append in ground (arith, h.bound))

pub replay-truncate :
    (m : Memory) (from : ℕ)
    → IsLog m
    → m.snapshot_index < from
    → from ≤ last_index m
    → apply_record m (encode_truncate from) ≡ truncated from m
unfolding last_index truncated
replay-truncate m from h lo hi =
    apply_record-truncate m from (omega (arith, h.bound))
    ∙ elim (Bool-cases (ltb (m.snapshot_index + 1) from)) [
      | inl more ↦ unfold apply_truncate in rw (next, more)
      | inr first ↦
          let here : from ≡ m.snapshot_index + 1 = omega (arith, not-ltb→le _ _ first) in
          let none_left : from - m.snapshot_index - 1 ≡ 0 = omega arith in
          unfold apply_truncate in
          rw (next, first) (rw ((==_iff from (m.snapshot_index + 1)).1 here, none_left))
    ]
  where
    next : add64 m.snapshot_index 1 ≡ m.snapshot_index + 1
    next = omega (arith, h.bound)

pub replay-install :
    (m : Memory) (index term : ℕ)
    → index < 2 ^ 64
    → term < 2 ^ 64
    → apply_record m (encode_snapshot index term) ≡ installed index term m
unfolding installed
replay-install m index term hi ht =
    apply_record-snapshot m index term hi ht ∙ (unfold apply_snapshot in refl)

filter-Follows_all :
    (i s : ℕ) (es : List LogEntry) → i ≤ s → Follows s es → filter (λ e. ltb i e.index) es ≡ es
filter-Follows_all i s [] le h = refl
filter-Follows_all i s (e ∷ es) le h =
    ground (arith, h.0, filter-Follows_all i (s + 1) es (omega arith) h.2)

-- Behind index `i` stand the entries after the first `i - s`.
pub filter-Follows :
    (i s : ℕ) (es : List LogEntry) → Follows s es → filter (λ e. ltb i e.index) es ≡ drop (i - s) es
filter-Follows i s [] h = sym (drop_all (i - s) [] (omega arith))
filter-Follows i s (e ∷ es) h = elim (Bool-cases (leb i s)) [
  | inl le ↦
      let none_left : i - s ≡ 0 = omega (arith, leb→le i s le) in
      rw none_left (filter-Follows_all i s (e ∷ es) (leb→le i s le) h)
  | inr gt ↦
      let one_less : i - s ≡ suc (i - (s + 1)) = omega (arith, not-leb→lt i s gt) in
      let skip : ltb i e.index ≡ false = le→ltb i e.index (omega (arith, not-leb→lt i s gt, h.0)) in
      rw one_less (filter-cons_no _ e es skip ∙ filter-Follows i (s + 1) es h.2)
]

-- On a log with contiguous indices, and at an index above that of its snapshot, `compact` and
-- `install_snapshot` leave the same log in memory: the entries behind the index.
pub compacted-eq-installed :
    (m : Memory) (index term : ℕ)
    → IsLog m
    → m.snapshot_index < index
    → compacted index term m ≡ installed index term m
unfolding compacted installed last_index
compacted-eq-installed m index term h lt =
    let last : add64 m.snapshot_index (length m.entries) ≡ m.snapshot_index + length m.entries =
      omega (arith, h.bound) in
    let trim : ℕ = min index (m.snapshot_index + length m.entries) - m.snapshot_index in
    let drained : (if leb (length m.entries) trim then [] else drop trim m.entries)
        ≡ drop (index - m.snapshot_index) m.entries =
      elim (Bool-cases (leb (length m.entries) trim)) [
        | inl whole ↦
            rw whole (
              sym (drop_all (index - m.snapshot_index) m.entries (omega (arith, leb→le _ _ whole))))
        | inr part ↦
            let e : trim ≡ index - m.snapshot_index = omega (arith, not-leb→lt _ _ part) in
            rw part (ap (λ n. drop n m.entries) e)
      ] in
    rw last (λ i. record {
      entries = (drained ∙ sym (filter-Follows index m.snapshot_index m.entries h.follows)) i;
      snapshot_index = index;
      snapshot_term = term;
    })
