-- ===== src/Replication/Node/Installs.antt =====
-- InstallSnapshot: what an answer of success says, and what a failure leaves alone.
use wal_distributed_rs.Common.{
  ltb→lt, filter, ◌<◌, ◌≤◌, ◌≡◌, ◌⊎◌, some, true, false, Bool, ltb, max,
}
use wal_distributed_rs.Common.{filter, ltb→lt}
use wal_distributed_rs.WalCore.Wal.{append as wal_append}
use wal_distributed_rs.WalCore.Entry.{Crc}
use wal_distributed_rs.Replication.Log
use wal_distributed_rs.Replication.Snapshot.{Snapshot, save}
use wal_distributed_rs.Replication.Node.{
  RaftNode, InstallSnapshotRequest, InstallSnapshotResponse, on_log,
}
use wal_distributed_rs.Replication.Node.Follower.{follow}
use wal_distributed_rs.Replication.Node.Matching.{is_ok}

-- The snapshot of a request.
abbrev pub snapshot_of : InstallSnapshotRequest → Snapshot
snapshot_of req = record {
  last_included_index = req.last_included_index;
  last_included_term = req.last_included_term;
  payload = req.payload;
}

module _ ⦃c : Crc⦄ where
  -- The node behind the call that saves the snapshot.
  abbrev pub after_save : Snapshot → RaftNode → RaftNode
  after_save snap n = record n { data_dir = (save snap n.data_dir).1 }

  -- The snapshot's file, or the log's record of it, could not be written.
  abbrev pub Unwritten : Snapshot → RaftNode → Type 0
  Unwritten snap n =
      (is_ok (save snap n.data_dir).0 ≡ false)
      ⊎ (is_ok
            (on_log (Log.install_snapshot snap.last_included_index snap.last_included_term)
              (after_save snap n)).0
          ≡ false)

  -- The log of `m` is that of `n` from behind the snapshot on.
  pub record StartsAt (snap : Snapshot) (n m : RaftNode) : Type 0 where
    pub index : m.log.memory.snapshot_index ≡ snap.last_included_index
    pub term : m.log.memory.snapshot_term ≡ snap.last_included_term
    pub entries :
        m.log.memory.entries
        ≡ filter (λ e. ltb snap.last_included_index e.index) n.log.memory.entries

  -- The two outcomes of `install`.
  unfoldable Installs : Snapshot → RaftNode → Bool × RaftNode → Type 0
  Installs snap n (true, m) =
      StartsAt snap n m
      × (m.commit_index ≡ max n.commit_index snap.last_included_index)
      × (m.snapshot ≡ some snap)
  Installs snap n (false, m) =
      (m.commit_index ≡ n.commit_index) × (m.snapshot ≡ n.snapshot) × Unwritten snap n

  -- What the answer and the node that is left have to do with the request.
  abbrev Answered : InstallSnapshotRequest → RaftNode → InstallSnapshotResponse × RaftNode → Type 0
  Answered req n (resp, m) =
      let snap = snapshot_of req in
      let n' = follow req.term req.leader_id n in
      ((req.term < n.ps.current_term) × (resp.success ≡ false) × (m ≡ n))
      ⊎ ((n.ps.current_term ≤ req.term)
          × (req.last_included_index ≤ n.log.memory.snapshot_index)
          × (resp.success ≡ true)
          × (m ≡ n'))
      ⊎ ((n.ps.current_term ≤ req.term)
          × (n.log.memory.snapshot_index < req.last_included_index)
          × (resp.success ≡ true)
          × StartsAt snap n m
          × (m.commit_index ≡ max n.commit_index req.last_included_index)
          × (m.snapshot ≡ some snap))
      ⊎ ((n.ps.current_term ≤ req.term)
          × (n.log.memory.snapshot_index < req.last_included_index)
          × (resp.success ≡ false)
          × (m.commit_index ≡ n.commit_index)
          × (m.snapshot ≡ n.snapshot)
          × Unwritten snap n')
