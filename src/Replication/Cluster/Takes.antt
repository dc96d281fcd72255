-- ===== src/Replication/Cluster/Takes.antt =====
-- AppendEntries that a follower accepts: what its log keeps and gets.
use wal_distributed_rs.Common.{
  ℕ, ◌+◌, ◌≡◌, inl, inr, refl, sym, ap, ◌∙◌, some, List, arith, length, length-take, get_elem?,
  take, true, Option-cases, Bool-cases, ◌==◌,
}
use mathlib.Core.Path.{subst}
use wal_distributed_rs.WalCore.Entry.{Crc}
use wal_distributed_rs.Replication.Log.{RaftLog, term_at, truncated}
use wal_distributed_rs.Replication.Log.Record.{LogEntry, Memory}
use wal_distributed_rs.Replication.Node.{RaftNode, AppendEntriesRequest}
use wal_distributed_rs.Replication.Node.Follower.{follow, take_entries, on_append_entries}
use wal_distributed_rs.Replication.Node.Logs.{follow-log, on_append_entries_lem}
use wal_distributed_rs.Replication.Node.Accepted.{accepted-log}
use wal_distributed_rs.Replication.Node.Matching.{put, entries_ok}
use wal_distributed_rs.Replication.Cluster.Reigns.{Reigns}
use wal_distributed_rs.Replication.Cluster.Parts.{PartAt, Whole, Led, InLine, take_entries-InLine}
use wal_distributed_rs.Replication.Cluster.Requests.{Before}
use wal_distributed_rs.Replication.Cluster.Follower.{Agrees-InLine}
use wal_distributed_rs.Replication.Cluster.Prefix.{Prefix, Upto}
use wal_distributed_rs.Replication.Cluster.Keeps.{take_entries-keeps, put-Prefix, put_next-Upto}

put-snapshot_term : (e : LogEntry) (m : Memory) → (put e m).snapshot_term ≡ m.snapshot_term
unfolding put truncated
put-snapshot_term e m = elim (Option-cases (term_at m e.index)) [
  | inl missing ↦ rw (put, missing) refl
  | inr (t, found) ↦ elim (Bool-cases (t == e.term)) [
    | inl same ↦ rw (put, found, same) refl
    | inr other ↦ rw (put, found, other) refl
  ]
]

module _ ⦃c : Crc⦄ (r : Reigns) (req : AppendEntriesRequest) (n : RaftNode) (log : List LogEntry)
    (led : Led r log) (part : PartAt req.prev_log_index req.entries log) (before : Before req log)
    (whole : Whole r n.log.memory)
    (works : entries_ok req.entries (follow req.term req.leader_id n) ≡ true)
    (accepted : (on_append_entries req n).0.success ≡ true) where
  n' : RaftNode
  n' = follow req.term req.leader_id n

  same : n'.log ≡ n.log
  unfolding n'
  same = follow-log req.term req.leader_id n

  in_line : InLine r log req.prev_log_index n'.log.memory
  in_line =
      subst (λ (l : RaftLog). InLine r log req.prev_log_index l.memory) (sym same)
        (Agrees-InLine r log req n.log.memory led whole before
          ((on_append_entries_lem req n).0.0 accepted).1)

  at_last : (on_append_entries req n).1.log ≡ (take_entries req.entries n').log
  unfolding n'
  at_last =
      let (current, agrees) = (on_append_entries_lem req n).0.0 accepted in
      accepted-log req n current agrees

  -- What each entry keeps, the handler keeps.
  pub accepted_keeps :
      (P : Memory → Type 0)
      → ((k : ℕ) (e : LogEntry) (m : Memory)
          → get_elem? log k ≡ some e
          → InLine r log k m
          → P m
          → P (put e m))
      → P n.log.memory
      → P (on_append_entries req n).1.log.memory
  unfolding n'
  accepted_keeps P step p =
      subst (λ (l : RaftLog). P l.memory) (sym at_last)
        (take_entries-keeps r log led P step req.entries req.prev_log_index n' part in_line works
          (subst (λ (l : RaftLog). P l.memory) (sym same) p))

  -- The follower's log begins with the leader's up to the end of the request's entries.
  pub accepted-Prefix :
      Prefix
        (take (req.prev_log_index + length req.entries) log)
        (on_append_entries req n).1.log.memory.entries
  unfolding n'
  accepted-Prefix =
      let k = req.prev_log_index + length req.entries in
      let line : InLine r log k (on_append_entries req n).1.log.memory =
        subst (λ (l : RaftLog). InLine r log k l.memory) (sym at_last)
          (take_entries-InLine r log req.entries req.prev_log_index n' led part in_line works) in
      let m = (on_append_entries req n).1.log.memory in
      let long : length (take k log) ≡ k =
        omega (arith, ap (length {A = LogEntry}) line.first, length-take k m.entries, line.long) in
      ap (λ i. take i m.entries) long ∙ line.first

  pub accepted_keeps-Prefix :
      (b : List LogEntry)
      → Prefix b log
      → Prefix b n.log.memory.entries
      → Prefix b (on_append_entries req n).1.log.memory.entries
  accepted_keeps-Prefix b of_log of_n =
      accepted_keeps (λ m. Prefix b m.entries)
        (λ k e m at line p. put-Prefix r log led b k e m of_log at line p) of_n

  pub accepted_keeps-Upto :
      (t : ℕ)
      → Upto t log
      → Upto t n.log.memory.entries
      → Upto t (on_append_entries req n).1.log.memory.entries
  accepted_keeps-Upto t of_log of_n =
      accepted_keeps (λ m. Upto t m.entries)
        (λ k e m at line p. put_next-Upto r log led t k e m of_log at line p) of_n

  pub accepted-snapshot_term :
      n.log.memory.snapshot_term ≡ 0 → (on_append_entries req n).1.log.memory.snapshot_term ≡ 0
  accepted-snapshot_term none_yet =
      accepted_keeps (λ m. m.snapshot_term ≡ 0) (λ k e m at line p. put-snapshot_term e m ∙ p)
        none_yet
