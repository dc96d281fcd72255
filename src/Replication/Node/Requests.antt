-- ===== src/Replication/Node/Requests.antt =====
-- What a leader's request to a peer carries.
use mathlib.Core.Path.{subst}
use wal_distributed_rs.Common.{
  ◌||◌, ◌==◌, ℕ, ◌≡◌, ◌≤◌, ◌<◌, ◌-◌, All, length, drop, arith, Bool-cases, inl, inr, ltb, max,
  add64,
}
use wal_distributed_rs.Replication.Config.{NodeId}
use wal_distributed_rs.Replication.Log.{last_index, entries_from}
use wal_distributed_rs.Replication.Log.Record.{Memory}
use wal_distributed_rs.Replication.Log.Replay.{Follows, IsLog}
use wal_distributed_rs.Replication.Node.{RaftNode}
use wal_distributed_rs.Replication.Node.Leader.{next_for, build_append_entries_for}
use wal_distributed_rs.Replication.Log.Entries.{Follows-drop, Follows-filter, All-filter_le}

pub Follows-entries_from :
    (m : Memory) (i : ℕ) → IsLog m → m.snapshot_index < i → Follows (i - 1) (entries_from m i)
unfolding entries_from last_index
Follows-entries_from m i h behind =
    let start : max i (add64 m.snapshot_index 1) ≡ i = omega (arith, h.bound, behind) in
    let cut : Follows (i - 1) (drop (i - m.snapshot_index - 1) m.entries) =
      subst (λ k. Follows k (drop (i - m.snapshot_index - 1) m.entries)) (omega (arith, behind))
        (Follows-drop (i - m.snapshot_index - 1) m.snapshot_index m.entries h.follows) in
    elim (Bool-cases (i == 0 || ltb (add64 m.snapshot_index (length m.entries)) i)) [
      | inl past ↦ rw (entries_from, start) (rw past tt)
      | inr within ↦ rw (entries_from, start) (rw within cut)
    ]

-- A leader whose log has contiguous indices, for a peer whose next index is above that of the
-- snapshot, sends entries in order: those right behind the index that it names as the one before
-- them, and none behind `up_to_index`.
pub build_append_entries_for-Follows :
    (id : NodeId) (up_to : ℕ) (n : RaftNode)
    → IsLog n.log.memory
    → n.log.memory.snapshot_index < next_for id up_to n
    → let req = build_append_entries_for id up_to n in
      Follows req.prev_log_index req.entries × All (λ e. e.index ≤ up_to) req.entries
unfolding build_append_entries_for entries_from last_index
build_append_entries_for-Follows id up_to n h behind = (
  Follows-filter up_to _ _ (Follows-entries_from n.log.memory (next_for id up_to n) h behind),
  All-filter_le up_to (entries_from n.log.memory (next_for id up_to n)),
)
