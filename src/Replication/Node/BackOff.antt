-- ===== src/Replication/Node/BackOff.antt =====
-- A follower that refuses entries: where the leader goes on from, and that it gets to an entry that
-- the follower has.
use wal_distributed_rs.Common.{ℕ, zero, suc, Bool, false, ◌||◌}
use wal_distributed_rs.WalCore.Entry.{Crc}
use wal_distributed_rs.Replication.PersistentState.{PersistentState}
use wal_distributed_rs.Replication.Config.{NodeId}
use wal_distributed_rs.Replication.Node.Leader.{build_append_entries_for, heard_ae}
use wal_distributed_rs.Replication.Node.{RaftNode}
use wal_distributed_rs.Replication.Node.Follower.{on_append_entries}

module _ ⦃c : Crc⦄ where
  -- A leader and one peer, for as many rounds of replication as the fuel, until the peer accepts.
  unfoldable pub accepts_within : ℕ → NodeId → ℕ → RaftNode → RaftNode → Bool
  unfolding build_append_entries_for on_append_entries
  accepts_within zero id up_to l f = false
  accepts_within (suc rounds) id up_to l f =
      let (resp, f') = on_append_entries (build_append_entries_for id up_to l) f in
      resp.success || accepts_within rounds id up_to (heard_ae up_to id resp l) f'
