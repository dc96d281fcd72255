-- ===== src/Replication/Node/Follower.antt =====
-- crates/wal-replication/src/raft/node.rs: the handlers of the three requests of other nodes.
use wal_distributed_rs.Common.{
  ℕ, Bool, not, ◌&&◌, ◌||◌, Option, none, some, List, [], ◌∷◌, ltb, leb, ◌==◌, add64, min, max,
  bytes_eq, if◌then◌else◌,
}
use wal_distributed_rs.Common.Exec.{ok, err}
use wal_distributed_rs.WalCore.Entry.{Crc}
use wal_distributed_rs.Replication.Config.{NodeId}
use wal_distributed_rs.Replication.Log
use wal_distributed_rs.Replication.Log.{last_index, last_term, term_at, first_index_of_term}
use wal_distributed_rs.Replication.Log.Record.{LogEntry}
use wal_distributed_rs.Replication.Snapshot.{Snapshot, save}
use wal_distributed_rs.Replication.Node.{
  RaftNode, AppendEntriesRequest, AppendEntriesResponse, RequestVoteRequest, RequestVoteResponse,
  InstallSnapshotRequest, InstallSnapshotResponse, follower, advance_term, record_vote,
  become_follower_with_leader, on_log,
}

-- What the checks of a request decide.
unfoldable pub ae_reject : ℕ → ℕ → RaftNode → AppendEntriesResponse
ae_reject conflict_index conflict_term n = record {
  term = n.ps.current_term;
  success = Bool.false;
  conflict_index = conflict_index;
  conflict_term = conflict_term;
}

abbrev pub or_index : Option ℕ → ℕ → ℕ
or_index none i = i
or_index (some j) i = j

-- Rule 3: the conflict that the request is answered with, if any.
unfoldable pub log_conflict : AppendEntriesRequest → RaftNode → Option (ℕ × ℕ)
unfolding term_at first_index_of_term last_index
log_conflict req n =
    if ltb 0 req.prev_log_index
    then elim (term_at n.log.memory req.prev_log_index) [
      | none ↦ some (add64 (last_index n.log.memory) 1, 0)
      | some t ↦
          if not (t == req.prev_log_term)
          then some (or_index (first_index_of_term n.log.memory t) req.prev_log_index, t)
          else none
    ]
    else none

-- The first lines of the handlers of a leader's requests.
unfoldable pub follow : ℕ → NodeId → RaftNode → RaftNode
unfolding advance_term become_follower_with_leader
follow term leader_id n =
    become_follower_with_leader (some leader_id)
      (if ltb n.ps.current_term term then advance_term term n else n)

-- Rule 5.
unfoldable pub advance_commit : ℕ → RaftNode → RaftNode
unfolding last_index
advance_commit leader_commit n =
    if ltb n.commit_index leader_commit
    then record n { commit_index = min leader_commit (last_index n.log.memory) }
    else n

unfoldable pub granted_to : RequestVoteRequest → RaftNode → Bool
unfolding last_term last_index
granted_to req n =
    let log_ok =
      ltb (last_term n.log.memory) req.last_log_term
      || (req.last_log_term == last_term n.log.memory
          && leb (last_index n.log.memory) req.last_log_index) in
    let already_voted_for_other : Bool = elim n.ps.voted_for [
      | none ↦ Bool.false
      | some v ↦ not (bytes_eq v req.candidate_id)
    ] in
    if ltb req.term n.ps.current_term
    then Bool.false
    else if already_voted_for_other
    then Bool.false
    else log_ok

unfoldable pub on_request_vote : RequestVoteRequest → RaftNode → RequestVoteResponse × RaftNode
unfolding advance_term record_vote granted_to
on_request_vote req n0 =
    let n =
      if ltb n0.ps.current_term req.term
      then record (advance_term req.term n0) { role = follower }
      else n0 in
    if granted_to req n
    then (
      record { term = n.ps.current_term; vote_granted = Bool.true },
      (let v = record_vote req.candidate_id n in record v { last_heartbeat = v.clock }),
    )
    else (record { term = n.ps.current_term; vote_granted = Bool.false }, n)

module _ ⦃c : Crc⦄ where
  -- Rule 4: errors of the log are ignored.
  unfoldable pub take_entry : LogEntry → RaftNode → RaftNode
  unfolding term_at Log.append Log.truncate_from
  take_entry e n = elim (term_at n.log.memory e.index) [
    | none ↦ (on_log (Log.append e.term e.payload) n).1
    | some t ↦
        if t == e.term
        then n
        else (on_log (Log.append e.term e.payload) (on_log (Log.truncate_from e.index) n).1).1
  ]

  unfoldable pub take_entries : List LogEntry → RaftNode → RaftNode
  unfolding take_entry
  take_entries [] n = n
  take_entries (e ∷ es) n = take_entries es (take_entry e n)

  -- Rules 4 and 5, or the refusal of rule 3.
  unfoldable pub answer_entries :
      AppendEntriesRequest → RaftNode → Option (ℕ × ℕ) → AppendEntriesResponse × RaftNode
  unfolding ae_reject take_entries advance_commit
  answer_entries req n (some p) = (ae_reject p.0 p.1 n, n)
  answer_entries req n none =
      let taken = advance_commit req.leader_commit (take_entries req.entries n) in
      (
        record {
          term = taken.ps.current_term;
          success = Bool.true;
          conflict_index = 0;
          conflict_term = 0;
        },
        taken,
      )

  unfoldable pub on_append_entries :
      AppendEntriesRequest → RaftNode → AppendEntriesResponse × RaftNode
  unfolding ae_reject follow log_conflict answer_entries
  on_append_entries req n0 =
      let n = follow req.term req.leader_id n0 in
      if ltb req.term n0.ps.current_term
      then (ae_reject 0 0 n0, n0)
      else answer_entries req n (log_conflict req n)

  -- The snapshot is saved, the log reset, and then the node's own state changes.
  unfoldable pub install : Snapshot → RaftNode → Bool × RaftNode
  unfolding save Log.install_snapshot
  install snap n =
      let (saved, d) = save snap n.data_dir in
      let n1 = record n { data_dir = d } in
      elim saved [
        | err e ↦ (Bool.false, n1)
        | ok u ↦
            let (reset, n2) =
              on_log (Log.install_snapshot snap.last_included_index snap.last_included_term) n1 in
            elim reset [
              | err e ↦ (Bool.false, n2)
              | ok u' ↦ (
                Bool.true,
                record n2 {
                  commit_index = max n2.commit_index snap.last_included_index;
                  entries_since_snapshot = 0;
                  snapshot = some snap;
                },
              )
            ]
      ]

  unfoldable pub on_install_snapshot :
      InstallSnapshotRequest → RaftNode → InstallSnapshotResponse × RaftNode
  unfolding follow install
  on_install_snapshot req n0 =
      let n = follow req.term req.leader_id n0 in
      let snap : Snapshot = record {
        last_included_index = req.last_included_index;
        last_included_term = req.last_included_term;
        payload = req.payload;
      } in
      let (success, n') = install snap n in
      if ltb req.term n0.ps.current_term
      then (record { term = n0.ps.current_term; success = Bool.false }, n0)
      else if leb req.last_included_index n.log.memory.snapshot_index
      then (record { term = n.ps.current_term; success = Bool.true }, n)
      else (record { term = n'.ps.current_term; success = success }, n')
