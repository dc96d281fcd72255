-- ===== src/Replication/Cluster/Follower.antt =====
-- AppendEntries with part of the log of its term's leader.
use wal_distributed_rs.Common.{
  ℕ, ◌-◌, ◌≡◌, refl, sym, ap, ◌∙◌, some, List, get_elem?, arith, suc, true, inl, inr,
}
use mathlib.Core.Path.{subst}
use wal_distributed_rs.WalCore.Entry.{Crc}
use wal_distributed_rs.Replication.Log.{RaftLog}
use wal_distributed_rs.Replication.Log.Record.{LogEntry, Memory}
use wal_distributed_rs.Replication.Log.Terms.{get_elem?-lt, IsAt, term_at-some}
use wal_distributed_rs.Replication.Node.{RaftNode, AppendEntriesRequest}
use wal_distributed_rs.Replication.Node.Follower.{follow, take_entries, on_append_entries}
use wal_distributed_rs.Replication.Node.Logs.{Agrees, follow-log, on_append_entries_lem}
use wal_distributed_rs.Replication.Node.Accepted.{accepted-log}
use wal_distributed_rs.Replication.Node.Matching.{entries_ok}
use wal_distributed_rs.Replication.Cluster.Reigns.{Reigns, Grounded-agree}
use wal_distributed_rs.Replication.Cluster.Parts.{Whole, Led, InLine, take_entries-InLine}
use wal_distributed_rs.Replication.Cluster.Requests.{Before, Cut}

-- Each term's log is one of a leader.
abbrev pub Ruled : Reigns → Type 0
Ruled r = (t : ℕ) (log : List LogEntry) → r t ≡ some log → Led r log

-- Where the follower has the entry before those of the request, the logs agree up to it.
pub Agrees-InLine :
    (r : Reigns) (log : List LogEntry) (req : AppendEntriesRequest) (m : Memory)
    → Led r log
    → Whole r m
    → Before req log
    → Agrees req m
    → InLine r log req.prev_log_index m
unfolding IsAt
Agrees-InLine r log req m led whole before (inl first) =
    subst (λ k. InLine r log k m) (sym first)
      (record { whole = whole; first = refl; long = omega arith })
Agrees-InLine r log req m led whole (inl first) (inr found) =
    subst (λ k. InLine r log k m) (sym first)
      (record { whole = whole; first = refl; long = omega arith })
Agrees-InLine r log req m led whole (inr (y, at, term)) (inr found) =
    elim (term_at-some m req.prev_log_index req.prev_log_term (omega (arith, whole.start)) found) [
      | inl (at_start, _) ↦
          subst (λ k. InLine r log k m) (sym (at_start ∙ whole.start))
            (record { whole = whole; first = refl; long = omega arith })
      | inr (above, (x, at', term')) ↦
          let k = req.prev_log_index - 1 in
          let place : suc k ≡ req.prev_log_index = omega (arith, above) in
          let here : get_elem? m.entries k ≡ some x =
            ap (get_elem? m.entries) (omega (arith, whole.start)) ∙ at' in
          subst (λ k. InLine r log k m) place
            (record {
              whole = whole;
              first =
                  Grounded-agree r m.entries log k x y whole.grounded led.grounded here at
                    (term' ∙ sym term);
              long = omega (arith, get_elem?-lt m.entries k x here);
            })
    ]

module _ ⦃c : Crc⦄ where
  taken-Whole :
      (r : Reigns) (req : AppendEntriesRequest) (n : RaftNode)
      → Ruled r
      → Cut r req
      → Whole r n.log.memory
      → Agrees req n.log.memory
      → entries_ok req.entries n ≡ true
      → Whole r (take_entries req.entries n).log.memory
  unfolding take_entries
  taken-Whole r req n ruled (inl nothing) whole agrees works =
      subst (λ es. Whole r (take_entries es n).log.memory) (sym nothing) whole
  taken-Whole r req n ruled (inr (log, led, part, before)) whole agrees works =
      (take_entries-InLine r log req.entries req.prev_log_index n (ruled req.term log led) part
        (Agrees-InLine r log req n.log.memory (ruled req.term log led) whole before agrees)
        works).whole

  -- The follower's log stays one of which each part is of the leader of its entry's term.
  pub on_append_entries-Whole :
      (r : Reigns) (req : AppendEntriesRequest) (n : RaftNode)
      → Ruled r
      → Cut r req
      → Whole r n.log.memory
      → entries_ok req.entries (follow req.term req.leader_id n) ≡ true
      → Whole r (on_append_entries req n).1.log.memory
  on_append_entries-Whole r req n ruled cut whole works =
      let (iff, kept, _, _, _) = on_append_entries_lem req n in
      elim kept [
        | inr (same, _) ↦ subst (λ (l : RaftLog). Whole r l.memory) (sym same) whole
        | inl accepted ↦
            let (current, agrees) = iff.0 accepted in
            let n' = follow req.term req.leader_id n in
            let same : n'.log ≡ n.log = follow-log req.term req.leader_id n in
            subst (λ (l : RaftLog). Whole r l.memory) (sym (accepted-log req n current agrees))
              (taken-Whole r req n' ruled cut
                (subst (λ (l : RaftLog). Whole r l.memory) (sym same) whole)
                (subst (λ (l : RaftLog). Agrees req l.memory) (sym same) agrees) works)
      ]
