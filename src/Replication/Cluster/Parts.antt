-- ===== src/Replication/Cluster/Parts.antt =====
-- Part of a leader's log that a follower takes: `take_entries` brings the follower's log in line
-- with it.
use wal_distributed_rs.Common.{
  ℕ, ◌+◌, ◌^◌, ◌≤◌, ◌<◌, ◌≡◌, sym, ap, ◌∙◌, some, List, [], ◌∷◌, ◌++◌, length, take, take-take,
  length-take, get_elem?, arith, suc, zero, true, inl, inr,
}
use mathlib.Core.Path.{subst}
use wal_distributed_rs.WalCore.Entry.{Crc}
use wal_distributed_rs.Replication.Log.Record.{LogEntry, Memory}
use wal_distributed_rs.Replication.Log.Replay.{Follows, IsLog}
use wal_distributed_rs.Replication.Log.Terms.{get_elem?-lt}
use wal_distributed_rs.Replication.Node.{RaftNode}
use wal_distributed_rs.Replication.Node.Follower.{take_entry, take_entries}
use wal_distributed_rs.Replication.Node.Matching.{put, both, entry_ok, entries_ok, take_entry-put}
use wal_distributed_rs.Replication.Node.Taken.{PutsAt, put-PutsAt, put-Takes}
use wal_distributed_rs.Replication.Cluster.Reigns.{Reigns, Grounded, Grounded-take, Grounded-agree}

-- The entries stand in the log behind its first `k`.
abbrev pub PartAt : ℕ → List LogEntry → List LogEntry → Type 0
PartAt k [] log = Unit
PartAt k (e ∷ es) log = (get_elem? log k ≡ some e) × PartAt (suc k) es log

-- A log from index 1 on, that is in order.
pub record Whole (r : Reigns) (m : Memory) : Type 0 where
  pub start : m.snapshot_index ≡ 0
  pub log : IsLog m
  pub grounded : Grounded r m.entries

-- A leader's log.
pub record Led (r : Reigns) (log : List LogEntry) : Type 0 where
  pub follows : Follows 0 log
  pub bound : length log + 1 < 2 ^ 64
  pub grounded : Grounded r log

pub Follows-get :
    (s k : ℕ) (es : List LogEntry) (e : LogEntry)
    → Follows s es
    → get_elem? es k ≡ some e
    → (e.index ≡ s + k + 1) × (e.term < 2 ^ 64)
Follows-get s k [] e h found = cc
Follows-get s zero (x ∷ es) e h found =
    let this : x ≡ e = cc in
    (
      omega (arith, h.0, ap (λ (y : LogEntry). y.index) this),
      omega (arith, h.1, ap (λ (y : LogEntry). y.term) this),
    )
Follows-get s (suc k) (x ∷ es) e h found =
    let (index, term) = Follows-get (s + 1) k es e h.2 found in (omega (arith, index), term)

-- The follower's log agrees with the leader's in the first `k` entries.
pub record InLine (r : Reigns) (log : List LogEntry) (k : ℕ) (m : Memory) : Type 0 where
  pub whole : Whole r m
  pub first : take k m.entries ≡ take k log
  pub long : k ≤ length m.entries

take-suc :
    (k : ℕ) (es : List LogEntry) (e : LogEntry)
    → get_elem? es k ≡ some e
    → take (suc k) es ≡ take k es ++ e ∷ []
take-suc k [] e h = cc
take-suc zero (x ∷ es) e h = let this : x ≡ e = cc in ap (λ y. y ∷ []) this
take-suc (suc k) (x ∷ es) e h = ap (λ l. x ∷ l) (take-suc k es e h)

pub put-InLine :
    (r : Reigns) (log : List LogEntry) (k : ℕ) (e : LogEntry) (m m1 : Memory)
    → Led r log
    → get_elem? log k ≡ some e
    → InLine r log k m
    → PutsAt k e m m1
    → InLine r log (suc k) m1
unfolding PutsAt
put-InLine r log k e m m1 led at h (inl (same, (x, found, term))) =
    subst (InLine r log (suc k)) (sym same) (record {
      whole = h.whole;
      first = Grounded-agree r m.entries log k x e h.whole.grounded led.grounded found at term;
      long = omega (arith, get_elem?-lt m.entries k x found);
    })
put-InLine r log k e m m1 led at h (inr changed) =
    let (index, u64) = Follows-get 0 k log e led.follows at in
    let below = get_elem?-lt log k e at in
    let (start, ordered, _, _) =
      put-Takes k e m m1 h.whole.log h.long (omega (arith, h.whole.start, below, led.bound)) u64
        (inr changed) in
    let new : record e { index = m.snapshot_index + k + 1 } ≡ e =
      let place : m.snapshot_index + k + 1 ≡ e.index = omega (arith, index, h.whole.start) in
      λ i. record e { index = place i } in
    let all : m1.entries ≡ take (suc k) log =
      ap (λ (y : Memory). y.entries) changed
      ∙ ap (λ l. l ++ record e { index = m.snapshot_index + k + 1 } ∷ []) h.first
      ∙ ap (λ x. take k log ++ x ∷ []) new
      ∙ sym (take-suc k log e at) in
    record {
      whole = record {
        start = start ∙ h.whole.start;
        log = ordered;
        grounded = subst (Grounded r) (sym all) (Grounded-take r (suc k) log led.grounded);
      };
      first = ap (take (suc k)) all ∙ take-take (suc k) (suc k) log (omega arith);
      long = omega (arith, ap (length {A = LogEntry}) all, length-take (suc k) log, below);
    }

module _ ⦃c : Crc⦄ where
  -- Taking part of a leader's log, behind a place up to which the two logs agree.
  pub take_entries-InLine :
      (r : Reigns) (log : List LogEntry) (es : List LogEntry) (k : ℕ) (n : RaftNode)
      → Led r log
      → PartAt k es log
      → InLine r log k n.log.memory
      → entries_ok es n ≡ true
      → InLine r log (k + length es) (take_entries es n).log.memory
  unfolding take_entries entries_ok
  take_entries-InLine r log [] k n led part h works =
      subst (λ j. InLine r log j n.log.memory) (omega arith) h
  take_entries-InLine r log (e ∷ es) k n led part h works =
      let m = n.log.memory in
      let (index, _) = Follows-get 0 k log e led.follows part.0 in
      let (first, others) = both (entry_ok e n) (entries_ok es (take_entry e n)) works in
      let one : (take_entry e n).log.memory ≡ put e m =
        take_entry-put e n (omega (arith, index, h.whole.start)) h.whole.log first in
      let next : InLine r log (suc k) (take_entry e n).log.memory =
        subst (InLine r log (suc k)) (sym one) (
          put-InLine r log k e m (put e m) led part.0 h
            (put-PutsAt k e m h.whole.log (omega (arith, index, h.whole.start)) h.long)) in
      subst (λ j. InLine r log j (take_entries es (take_entry e n)).log.memory) (omega arith)
        (take_entries-InLine r log es (suc k) (take_entry e n) led part.1 next others)
