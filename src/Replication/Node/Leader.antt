-- ===== src/Replication/Node/Leader.antt =====
-- crates/wal-replication/src/raft/node.rs: replication, and the leader's own handlers.
use wal_distributed_rs.Replication.Node.Candidate.{Network, is_leader}
use wal_distributed_rs.Common.{
  ℕ, ◌+◌, ◌-◌, Bool, Option, none, some, List, [], ◌∷◌, ltb, leb, ◌==◌, add64, filter, map,
  if◌then◌else◌,
}
use wal_distributed_rs.Common.Exec.{Result, ok, err}
use wal_distributed_rs.WalCore.Entry.{Crc}
use wal_distributed_rs.Replication.Config.{NodeId, NodeInfo, quorum}
use wal_distributed_rs.Replication.Error.{RaftError, not_leader, quorum_not_reached, io}
use wal_distributed_rs.Replication.Log
use wal_distributed_rs.Replication.Log.{last_index, last_term, term_at, entries_from}
use wal_distributed_rs.Replication.Snapshot.{Snapshot, save, encode_entries}
use wal_distributed_rs.Replication.Node.{
  RaftNode, AppendEntriesRequest, AppendEntriesResponse, InstallSnapshotResponse, get, insert,
  step_down, on_log,
}

abbrev pub or_default : Option ℕ → ℕ → ℕ
or_default none d = d
or_default (some v) d = v

unfoldable pub next_for : NodeId → ℕ → RaftNode → ℕ
unfolding get
next_for peer_id up_to_index n = or_default (get peer_id n.next_index) (add64 up_to_index 1)

unfoldable pub build_append_entries_for : NodeId → ℕ → RaftNode → AppendEntriesRequest
unfolding next_for term_at entries_from
build_append_entries_for peer_id up_to_index n =
    let next = next_for peer_id up_to_index n in
    record {
      term = n.ps.current_term;
      leader_id = n.id;
      prev_log_index = next - 1;
      prev_log_term = or_default (term_at n.log.memory (next - 1)) 0;
      entries = filter (λ e. leb e.index up_to_index) (entries_from n.log.memory next);
      leader_commit = n.commit_index;
    }

-- A peer that is behind the snapshot is sent the snapshot, when the node has one.
unfoldable pub snapshot_for : NodeInfo → ℕ → RaftNode → Option Snapshot
unfolding next_for
snapshot_for p up_to_index n =
    if leb (next_for p.id up_to_index n) n.log.memory.snapshot_index then n.snapshot else none

abbrev pub or_failed : Result RaftError AppendEntriesResponse → AppendEntriesResponse
or_failed (ok resp) = resp
or_failed (err e) = record { term = 0; success = Bool.false; conflict_index = 0; conflict_term = 0 }

unfoldable pub ae_results :
    Network → ℕ → RaftNode → List NodeInfo → List (NodeId × AppendEntriesResponse)
unfolding snapshot_for build_append_entries_for
ae_results net up_to n [] = []
ae_results net up_to n (p ∷ ps) =
    let rest = ae_results net up_to n ps in
    elim (snapshot_for p up_to n) [
      | some s ↦ rest
      | none ↦
          (p.id, or_failed (net.append_entries p (build_append_entries_for p.id up_to n))) ∷ rest
    ]

unfoldable pub snap_results :
    Network
    → ℕ
    → RaftNode
    → List NodeInfo
    → List (NodeId × Result RaftError InstallSnapshotResponse)
unfolding snapshot_for
snap_results net up_to n [] = []
snap_results net up_to n (p ∷ ps) =
    let rest = snap_results net up_to n ps in
    elim (snapshot_for p up_to n) [
      | none ↦ rest
      | some s ↦
          (
            p.id,
            net.install_snapshot p (record {
              term = n.ps.current_term;
              leader_id = n.id;
              last_included_index = s.last_included_index;
              last_included_term = s.last_included_term;
              payload = s.payload;
            }),
          )
          ∷ rest
    ]

abbrev pub heard_ae : ℕ → NodeId → AppendEntriesResponse → RaftNode → RaftNode
heard_ae up_to peer_id resp n =
    if resp.success
    then record n {
      match_index = insert peer_id up_to n.match_index;
      next_index = insert peer_id (add64 up_to 1) n.next_index;
    }
    else if ltb 0 resp.conflict_index
    then record n { next_index = insert peer_id resp.conflict_index n.next_index }
    else n

-- The loops over the answers: the acks, and whether a higher term has ended them.
unfoldable pub count_ae :
    ℕ → List (NodeId × AppendEntriesResponse) → ℕ → RaftNode → (ℕ × Bool) × RaftNode
unfolding step_down
count_ae up_to [] acks n = ((acks, Bool.false), n)
count_ae up_to ((peer_id, resp) ∷ rs) acks n =
    let rest =
      count_ae up_to rs (if resp.success then acks + 1 else acks) (heard_ae up_to peer_id resp n) in
    if ltb n.ps.current_term resp.term then ((acks, Bool.true), step_down resp.term n) else rest

abbrev pub heard_snap : NodeId → Bool → RaftNode → RaftNode
heard_snap peer_id success n =
    let snap_idx = n.log.memory.snapshot_index in
    if success
    then record n {
      match_index = insert peer_id snap_idx n.match_index;
      next_index = insert peer_id (add64 snap_idx 1) n.next_index;
    }
    else n

unfoldable pub count_snap :
    List (NodeId × Result RaftError InstallSnapshotResponse) → ℕ → RaftNode → ℕ × RaftNode
unfolding step_down
count_snap [] acks n = (acks, n)
count_snap ((peer_id, err e) ∷ rs) acks n = count_snap rs acks n
count_snap ((peer_id, ok resp) ∷ rs) acks n =
    let rest =
      count_snap rs (if resp.success then acks + 1 else acks) (heard_snap peer_id resp.success n) in
    if ltb n.ps.current_term resp.term then (acks, step_down resp.term n) else rest

unfoldable pub replicate_to_peers : Network → ℕ → RaftNode → ℕ × RaftNode
unfolding ae_results snap_results count_ae count_snap
replicate_to_peers net up_to n =
    let ((acks, stopped), n') = count_ae up_to (ae_results net up_to n n.peers) 1 n in
    let rest = count_snap (snap_results net up_to n n.peers) acks n' in
    if stopped then (acks, n') else rest

-- The loop of `send_heartbeats` over the answers that came.
unfoldable pub heard_heartbeats :
    List (Result RaftError AppendEntriesResponse) → RaftNode → RaftNode
unfolding step_down
heard_heartbeats [] n = n
heard_heartbeats (err e ∷ rs) n = heard_heartbeats rs n
heard_heartbeats (ok resp ∷ rs) n =
    let rest = heard_heartbeats rs n in
    if ltb n.ps.current_term resp.term then step_down resp.term n else rest

unfoldable pub send_heartbeats : Network → RaftNode → RaftNode
unfolding heard_heartbeats last_index last_term
send_heartbeats net n =
    let req : AppendEntriesRequest = record {
      term = n.ps.current_term;
      leader_id = n.id;
      prev_log_index = last_index n.log.memory;
      prev_log_term = last_term n.log.memory;
      entries = [];
      leader_commit = n.commit_index;
    } in
    heard_heartbeats (map (λ p. net.append_entries p req) n.peers) n

module _ ⦃c : Crc⦄ where
  unfoldable pub take_snapshot : RaftNode → Result RaftError (Unit {0}) × RaftNode
  unfolding term_at entries_from encode_entries save Log.compact
  take_snapshot n =
      let m = n.log.memory in
      let last_index = n.commit_index in
      let snap : Snapshot = record {
        last_included_index = last_index;
        last_included_term = or_default (term_at m last_index) m.snapshot_term;
        payload =
            encode_entries
              (filter (λ e. leb e.index last_index) (entries_from m (add64 m.snapshot_index 1)));
      } in
      let (saved, d) = save snap n.data_dir in
      let n1 = record n { data_dir = d } in
      if last_index == 0 then (ok tt, n) else elim saved [
        | err e ↦ (err (io e), n1)
        | ok u ↦
            let (compacted, n2) = on_log (Log.compact last_index snap.last_included_term) n1 in
            elim compacted [
              | err e ↦ (err e, n2)
              | ok u' ↦ (ok tt, record n2 { entries_since_snapshot = 0; snapshot = some snap })
            ]
      ]

  -- What follows a quorum of acks; an error of `take_snapshot` is only logged.
  unfoldable pub commit : ℕ → RaftNode → RaftNode
  unfolding take_snapshot
  commit index n0 =
      let n = record n0 {
        commit_index = index;
        entries_since_snapshot = add64 n0.entries_since_snapshot 1;
      } in
      if leb n.snapshot_trigger n.entries_since_snapshot then (take_snapshot n).1 else n

  -- What follows the append of the leader's own log.
  unfoldable pub replicate_and_commit :
      Network → Result RaftError ℕ → RaftNode → Result RaftError ℕ × RaftNode
  unfolding replicate_to_peers commit
  replicate_and_commit net (err e) n = (err e, n)
  replicate_and_commit net (ok index) n =
      let (acks, n2) = replicate_to_peers net index n in
      if ltb acks (quorum n.config)
      then (err quorum_not_reached, n2)
      else (ok index, commit index n2)

  unfoldable pub on_client_write : Network → List ℕ → RaftNode → Result RaftError ℕ × RaftNode
  unfolding Log.append replicate_and_commit
  on_client_write net payload n =
      let (appended, n1) = on_log (Log.append n.ps.current_term payload) n in
      if is_leader n.role
      then replicate_and_commit net appended n1
      else (err (not_leader n.current_leader), n)
