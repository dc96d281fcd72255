-- ===== src/Replication/Cluster/Requests.antt =====
-- The requests that a leader makes of its log.
use wal_distributed_rs.Common.{
  ℕ, ◌+◌, ◌-◌, ◌≤◌, ◌<◌, ◌≡◌, refl, sym, ap, ◌∙◌, some, List, [], ◌∷◌, length, get_elem?, arith,
  suc, zero, inl, inr, drop, filter, leb, ltb, not-leb→lt, Bool-cases, Option-cases, ◌⊎◌, max,
  add64, ◌==◌, ==_iff, ◌||◌,
}
use mathlib.Core.Path.{subst}
use wal_distributed_rs.Replication.Config.{NodeId}
use wal_distributed_rs.Replication.Log.{last_index, entries_from, term_at}
use wal_distributed_rs.Replication.Log.Record.{LogEntry}
use wal_distributed_rs.Replication.Log.Replay.{Follows, IsLog}
use wal_distributed_rs.Replication.Log.Terms.{IsAt, term_at-none, term_at-some}
use wal_distributed_rs.Replication.Log.Entries.{get-drop, drop-get, Follows-drop, filter-none}
use wal_distributed_rs.Replication.Node.{RaftNode, AppendEntriesRequest}
use wal_distributed_rs.Replication.Node.Leader.{build_append_entries_for, next_for, or_default}
use wal_distributed_rs.Replication.Cluster.Reigns.{Reigns}
use wal_distributed_rs.Replication.Cluster.Parts.{PartAt}

-- The entry before those of the request is in the log, or they are the first ones.
abbrev pub Before : AppendEntriesRequest → List LogEntry → Type 0
Before req log =
    (req.prev_log_index ≡ 0)
    ⊎ ((y : LogEntry) × (get_elem? log (req.prev_log_index - 1) ≡ some y)
        × (y.term ≡ req.prev_log_term))

-- The request has no entries, or its entries are from the log of the leader of its term.
abbrev pub Cut : Reigns → AppendEntriesRequest → Type 0
Cut r req =
    (req.entries ≡ [])
    ⊎ ((log : List LogEntry) × (r req.term ≡ some log)
        × PartAt req.prev_log_index req.entries log
        × Before req log)

pub found_at :
    (es : List LogEntry) (k : ℕ) → k < length es → (x : LogEntry) × (get_elem? es k ≡ some x)
found_at [] k h = absurd (omega (arith, h))
found_at (x ∷ es) zero h = (x, refl)
found_at (x ∷ es) (suc k) h = found_at es k (omega (arith, h))

tail-inj : {x y : LogEntry} {xs ys : List LogEntry} → x ∷ xs ≡ y ∷ ys → xs ≡ ys
tail-inj e = cc

PartAt-drop : (k : ℕ) (log es : List LogEntry) → drop k log ≡ es → PartAt k es log
PartAt-drop k log [] e = tt
PartAt-drop k log (x ∷ es) e =
    let here : get_elem? log k ≡ some x =
      ap (get_elem? log) (omega arith) ∙ sym (get-drop k 0 log) ∙ ap (λ l. get_elem? l 0) e in
    (here, PartAt-drop (suc k) log es (tail-inj (sym (drop-get k log x here) ∙ e)))

PartAt-filter :
    (up s k : ℕ) (es log : List LogEntry)
    → Follows s es
    → PartAt k es log
    → PartAt k (filter (λ e. leb e.index up) es) log
PartAt-filter up s k [] log h part = tt
PartAt-filter up s k (e ∷ es) log h part = elim (Bool-cases (leb e.index up)) [
  | inl wanted ↦ rw (PartAt, wanted) (part.0, PartAt-filter up (s + 1) (suc k) es log h.2 part.1)
  | inr more ↦
      rw (PartAt, more)
        (subst (λ l. PartAt k l log)
          (sym (filter-none up (s + 1) es (omega (arith, not-leb→lt _ _ more, h.0)) h.2)) tt)
]

-- What a leader sends of a log that starts at index 1.
module _ (up_to : ℕ) (id : NodeId) (n : RaftNode) (start : n.log.memory.snapshot_index ≡ 0)
    (ordered : IsLog n.log.memory) where
  sent_prefix :
      next_for id up_to n - 1 ≤ length n.log.memory.entries
      → Before (build_append_entries_for id up_to n) n.log.memory.entries
  unfolding build_append_entries_for IsAt
  sent_prefix within =
      let m = n.log.memory in
      let p = next_for id up_to n - 1 in
      elim (Bool-cases (p == 0)) [
        | inl first ↦ inl ((==_iff p 0).0 first)
        | inr later ↦ elim (Option-cases (term_at m p)) [
          | inl missing ↦ absurd (
              let some_place : 0 < p = ground (arith, later) in
              omega (
                arith,
                within,
                start,
                some_place,
                term_at-none m p (omega (arith, start)) some_place missing,
              ))
          | inr (t, found) ↦
              let term : or_default (term_at m p) 0 ≡ t = ap (λ o. or_default o 0) found in
              elim (term_at-some m p t (omega (arith, start)) found) [
                | inl (at_start, _) ↦ inl (at_start ∙ start)
                | inr (_, (x, at, same)) ↦
                    inr (x, ap (get_elem? m.entries) (omega (arith, start)) ∙ at, same ∙ sym term)
              ]
        ]
      ]

  pub build_append_entries_for-Cut :
      (r : Reigns)
      → r n.ps.current_term ≡ some n.log.memory.entries
      → Cut r (build_append_entries_for id up_to n)
  unfolding build_append_entries_for entries_from last_index
  build_append_entries_for-Cut r led =
      let m = n.log.memory in
      let next = next_for id up_to n in
      let from = max next (add64 m.snapshot_index 1) in
      let place : from ≡ next - 1 + 1 = omega (arith, start) in
      elim (Bool-cases (from == 0 || ltb (add64 m.snapshot_index (length m.entries)) from)) [
        | inl past ↦
            let nothing : entries_from m next ≡ [] = rw (entries_from, past) refl in
            inl (ap (filter (λ e. leb e.index up_to)) nothing)
        | inr within ↦ inr (
          m.entries,
          led,
          rw (entries_from, within)
              (PartAt-filter up_to (next - 1) (next - 1) _ m.entries
                (subst (λ i. Follows i (drop (from - m.snapshot_index - 1) m.entries))
                  (omega (arith, place, start))
                  (Follows-drop (from - m.snapshot_index - 1) m.snapshot_index m.entries
                    ordered.follows))
                (PartAt-drop (next - 1) m.entries _
                  (ap (λ k. drop k m.entries) (omega (arith, place, start))))),
          sent_prefix (ground (arith, within, place, start, ordered.bound)),
        )
      ]
