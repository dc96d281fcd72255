-- ===== src/Replication/Cluster/Keeps.antt =====
-- What a follower's log keeps while it takes part of a leader's log.
use wal_distributed_rs.Common.{
  ℕ, ◌+◌, ◌-◌, ◌<◌, ◌≡◌, refl, sym, ap, ◌∙◌, some, List, [], ◌∷◌, length, take, get_elem?, arith,
  suc, true, inl, inr, ltb, ltb→lt, not-ltb→le, Bool-cases, ==_iff,
}
use mathlib.Core.Path.{subst}
use wal_distributed_rs.Common.{length-append, length-take}
use wal_distributed_rs.Replication.Log.Entries.{get-take}
use wal_distributed_rs.WalCore.Entry.{Crc}
use wal_distributed_rs.Replication.Log.{term_at}
use wal_distributed_rs.Replication.Log.Record.{LogEntry, Memory}
use wal_distributed_rs.Replication.Log.Terms.{get_elem?-lt}
use wal_distributed_rs.Replication.Node.{RaftNode}
use wal_distributed_rs.Replication.Node.Follower.{take_entry, take_entries}
use wal_distributed_rs.Replication.Node.Matching.{put, both, entry_ok, entries_ok, take_entry-put}
use wal_distributed_rs.Replication.Node.Taken.{PutsAt, put-PutsAt}
use wal_distributed_rs.Replication.Cluster.Reigns.{Reigns}
use wal_distributed_rs.Replication.Cluster.Parts.{PartAt, Led, InLine, Follows-get, put-InLine}
use wal_distributed_rs.Replication.Cluster.Prefix.{Prefix-same, Prefix, Prefix-get, Upto}

-- An entry that is there already stays.
put_there :
    (k : ℕ) (e : LogEntry) (m : Memory)
    → m.snapshot_index ≡ 0
    → e.index ≡ k + 1
    → get_elem? m.entries k ≡ some e
    → put e m ≡ m
unfolding put term_at
put_there k e m start index found =
    let place : e.index - m.snapshot_index - 1 ≡ k = omega (arith, start, index) in
    let at : get_elem? m.entries (e.index - m.snapshot_index - 1) ≡ some e =
      ap (get_elem? m.entries) place ∙ found in
    let here : term_at m e.index ≡ some e.term = ground (arith, at, start, index) in
    rw (put, here) (rw ((==_iff e.term e.term).1 refl) refl)

-- The next entry of a leader's log, for a follower whose log is in line with it.
module _ (r : Reigns) (log : List LogEntry) (led : Led r log) where
  put_next :
      (k : ℕ) (e : LogEntry) (m : Memory)
      → get_elem? log k ≡ some e
      → InLine r log k m
      → InLine r log (suc k) (put e m) × PutsAt k e m (put e m)
  put_next k e m at h =
      let index = (Follows-get 0 k log e led.follows at).0 in
      let puts = put-PutsAt k e m h.whole.log (omega (arith, index, h.whole.start)) h.long in
      (put-InLine r log k e m (put e m) led at h puts, puts)

  pub put-Prefix :
      (a : List LogEntry) (k : ℕ) (e : LogEntry) (m : Memory)
      → Prefix a log
      → get_elem? log k ≡ some e
      → InLine r log k m
      → Prefix a m.entries
      → Prefix a (put e m).entries
  put-Prefix a k e m of_log at h of_m = elim (Bool-cases (ltb k (length a))) [
    | inl within ↦
        let short = ltb→lt _ _ within in
        let there : get_elem? m.entries k ≡ some e =
          Prefix-get a m.entries k of_m short ∙ sym (Prefix-get a log k of_log short) ∙ at in
        let same =
          put_there k e m h.whole.start (omega (arith, (Follows-get 0 k log e led.follows at).0))
            there in
        subst (λ (y : Memory). Prefix a y.entries) (sym same) of_m
    | inr behind ↦
        Prefix-same a log (put e m).entries (suc k) (sym (put_next k e m at h).0.first)
          (omega (arith, not-ltb→le _ _ behind)) of_log
  ]

  put-Upto :
      (t k : ℕ) (e : LogEntry) (m m1 : Memory)
      → Upto t log
      → InLine r log (suc k) m1
      → PutsAt k e m m1
      → Upto t m.entries
      → Upto t m1.entries
  unfolding PutsAt
  put-Upto t k e m m1 of_log h (inl (same, _)) of_m =
      subst (λ (y : Memory). Upto t y.entries) (sym same) of_m
  put-Upto t k e m m1 of_log h (inr changed) of_m = λ i x found.
      let short : i < suc k = omega (
        arith,
        get_elem?-lt m1.entries i x found,
        ap (λ (y : Memory). length y.entries) changed,
        length-append (take k m.entries) (record e { index = m.snapshot_index + k + 1 } ∷ []),
        length-take k m.entries,
      ) in
      of_log i x (
        sym (get-take (suc k) i log short)
        ∙ ap (λ l. get_elem? l i) (sym h.first)
        ∙ get-take (suc k) i m1.entries short
        ∙ found)

  pub put_next-Upto :
      (t k : ℕ) (e : LogEntry) (m : Memory)
      → Upto t log
      → get_elem? log k ≡ some e
      → InLine r log k m
      → Upto t m.entries
      → Upto t (put e m).entries
  put_next-Upto t k e m of_log at h of_m =
      let (line, puts) = put_next k e m at h in put-Upto t k e m (put e m) of_log line puts of_m

  module _ ⦃c : Crc⦄ (P : Memory → Type 0)
      (step : (k : ℕ) (e : LogEntry) (m : Memory)
        → get_elem? log k ≡ some e
        → InLine r log k m
        → P m
        → P (put e m)) where
    -- What each entry keeps, all of them keep.
    pub take_entries-keeps :
        (es : List LogEntry) (k : ℕ) (n : RaftNode)
        → PartAt k es log
        → InLine r log k n.log.memory
        → entries_ok es n ≡ true
        → P n.log.memory
        → P (take_entries es n).log.memory
    unfolding take_entries entries_ok
    take_entries-keeps [] k n part h works p = p
    take_entries-keeps (e ∷ es) k n part h works p =
        let m = n.log.memory in
        let index = (Follows-get 0 k log e led.follows part.0).0 in
        let (first, others) = both (entry_ok e n) (entries_ok es (take_entry e n)) works in
        let one : (take_entry e n).log.memory ≡ put e m =
          take_entry-put e n (omega (arith, index, h.whole.start)) h.whole.log first in
        take_entries-keeps es (suc k) (take_entry e n) part.1
          (subst (InLine r log (suc k)) (sym one) (put_next k e m part.0 h).0) others
          (subst P (sym one) (step k e m part.0 h p))
