-- ===== src/Replication/Node/Accepted.antt =====
-- AppendEntries that succeeds: the follower's log agrees with the request.
use wal_distributed_rs.Common.{
  ap, inr, ◌^◌, inl, ◌<◌, ◌+◌, le→ltb, length, true, sym, ◌-◌, arith, ◌≡◌, none, ◌≤◌, ℕ,
}
use mathlib.Core.Path.{subst}
use wal_distributed_rs.WalCore.Entry.{Crc}
use wal_distributed_rs.Replication.Log.{RaftLog, last_index}
use wal_distributed_rs.Replication.Log.Record.{Memory}
use wal_distributed_rs.Replication.Log.Replay.{Follows, IsLog}
use wal_distributed_rs.Replication.Log.Terms.{within_log}
use wal_distributed_rs.Replication.Node.{RaftNode, AppendEntriesRequest}
use wal_distributed_rs.Replication.Node.Follower.{
  follow, log_conflict, advance_commit, take_entries, answer_entries, on_append_entries,
}
use wal_distributed_rs.Replication.Node.Logs.{
  Agrees, follow-log, no_conflict, on_append_entries_lem,
}
use wal_distributed_rs.Replication.Node.Matching.{entries_ok}
use wal_distributed_rs.Replication.Node.Taken.{Takes, take_entries-Takes}

advance_commit-log : (i : ℕ) (n : RaftNode) → (advance_commit i n).log ≡ n.log
unfolding advance_commit
advance_commit-log i n = ground arith

place-le :
    (req : AppendEntriesRequest) (m : Memory)
    → IsLog m
    → m.snapshot_index ≤ req.prev_log_index
    → Agrees req m
    → req.prev_log_index - m.snapshot_index ≤ length m.entries
unfolding last_index
place-le req m log le (inl first) = omega (arith, first)
place-le req m log le (inr found) =
    omega (arith, le, log.bound, within_log m req.prev_log_index req.prev_log_term log found)

module _ ⦃c : Crc⦄ where
  answered_ok :
      (req : AppendEntriesRequest) (n : RaftNode)
      → (answer_entries req n none).1.log ≡ (take_entries req.entries n).log
  unfolding answer_entries
  answered_ok req n = advance_commit-log req.leader_commit (take_entries req.entries n)

  pub accepted-log :
      (req : AppendEntriesRequest) (n : RaftNode)
      → n.ps.current_term ≤ req.term
      → Agrees req n.log.memory
      → (on_append_entries req n).1.log
        ≡ (take_entries req.entries (follow req.term req.leader_id n)).log
  unfolding on_append_entries
  accepted-log req n current agrees =
      let n' = follow req.term req.leader_id n in
      let free : log_conflict req n' ≡ none = (no_conflict req n').1 (
        subst (λ (l : RaftLog). Agrees req l.memory) (sym (follow-log req.term req.leader_id n))
          agrees) in
      rw (le→ltb _ _ current, free) (answered_ok req n')

  -- When AppendEntries succeeds on a follower whose log has contiguous indices, with contiguous
  -- entries behind an entry that is not before the follower's snapshot, with u64s for indices and
  -- terms, and no operation of the log fails, then the log is again one of contiguous indices
  -- behind the same snapshot, has the entries that it had up to that entry, and has behind it
  -- entries with the terms of the request's entries, one for each.
  pub on_append_entries-Takes :
      (req : AppendEntriesRequest) (n : RaftNode)
      → (on_append_entries req n).0.success ≡ true
      → IsLog n.log.memory
      → n.log.memory.snapshot_index ≤ req.prev_log_index
      → Follows req.prev_log_index req.entries
      → req.prev_log_index + length req.entries + 1 < 2 ^ 64
      → entries_ok req.entries (follow req.term req.leader_id n) ≡ true
      → Takes
          (req.prev_log_index - n.log.memory.snapshot_index)
          req.entries
          n.log.memory
          (on_append_entries req n).1.log.memory
  on_append_entries-Takes req n accepted log le follows room works =
      let (current, agrees) = (on_append_entries_lem req n).0.0 accepted in
      let n' = follow req.term req.leader_id n in
      let k = req.prev_log_index - n.log.memory.snapshot_index in
      let same : n'.log ≡ n.log = follow-log req.term req.leader_id n in
      let start : n'.log.memory.snapshot_index ≡ n.log.memory.snapshot_index =
        ap (λ (l : RaftLog). l.memory.snapshot_index) same in
      let of_n' : Takes k req.entries n'.log.memory (take_entries req.entries n').log.memory =
        take_entries-Takes req.entries k n' (subst (λ (l : RaftLog). IsLog l.memory) (sym same) log)
          (subst (λ (l : RaftLog). k ≤ length l.memory.entries) (sym same)
            (place-le req n.log.memory log le agrees))
          (subst (λ i. Follows i req.entries) (omega (arith, le, start)) follows)
          (omega (arith, le, start, room)) works in
      subst (λ (l : RaftLog). Takes k req.entries n.log.memory l.memory)
        (sym (accepted-log req n current agrees))
        (subst
          (λ (l : RaftLog). Takes k req.entries l.memory (take_entries req.entries n').log.memory)
          same of_n')
