-- ===== src/Examples/Nodes.antt =====
-- Raft nodes at concrete inputs: a cluster of three.
use mathlib.Core.Path.{subst}
use wal_distributed_rs.Disk
use wal_distributed_rs.Disk.{find, store, erase, outcome, later}
use wal_distributed_rs.Replication.PersistentState
use wal_distributed_rs.Common.{
  ◌⊎◌, bytes_eq, sym, ap, ◌∙◌, inr, ℕ, ◌+◌, ◌≤◌, ◌≡◌, ◌↔◌, refl, some, none, [], ◌∷◌, All, arith,
  true, Bool, if◌then◌else◌,
}
use wal_distributed_rs.Common.Exec.{ok, err}
use wal_distributed_rs.WalCore.Segment.Content.{disk}
use wal_distributed_rs.Replication.Config.{NodeId, NodeInfo, ClusterConfig, new_config, quorum}
use wal_distributed_rs.Replication.Error.{transport}
use wal_distributed_rs.Bytes.{le_bytes}
use wal_distributed_rs.WalCore.Entry.{encode}
use wal_distributed_rs.WalCore.Wal
use wal_distributed_rs.WalCore.Segment
use wal_distributed_rs.WalCore.Segment.{would_overflow}
use wal_distributed_rs.WalCore.Segment.Names.{segment_path}
use wal_distributed_rs.Replication.Log
use wal_distributed_rs.Replication.Log.{RaftLog, last_index, last_term}
use wal_distributed_rs.Replication.Log.Record.{encode_append}
use wal_distributed_rs.Replication.PersistentState.{PersistentState}
use wal_distributed_rs.Replication.Node.{
  advance_term, RaftNode, Role, follower, leader, RequestVoteRequest, AppendEntriesRequest, on_log,
}
use wal_distributed_rs.Replication.Node.Follower.{on_request_vote, on_append_entries}
use wal_distributed_rs.Replication.Node.Candidate.{
  higher_term, become_candidate, Network, start_election,
}
use wal_distributed_rs.Replication.Node.Leader.{on_client_write, ae_results, snap_results}
use wal_distributed_rs.Replication.Node.Events.{
  Reaches, here, next, receives, client_read, handle_msg,
}
use wal_distributed_rs.Replication.Node.Votes.{on_request_vote_lem, judged, IsFree, UpToDate}
use wal_distributed_rs.Replication.Node.Once.{one_vote_per_term}
use wal_distributed_rs.Replication.Node.Elections.{start_election-leader, grants, answers}
use wal_distributed_rs.Replication.Node.Logs.{Agrees, on_append_entries_lem}
use wal_distributed_rs.Replication.Node.Commits.{on_client_write-ok, ae_acks, snap_acks}
use wal_distributed_rs.Examples.Setup.{sums, hello}
use wal_distributed_rs.Examples.Replicas.{one_entry, one_log, one_file}

abbrev pub info : ℕ → NodeInfo
info k = record { id = k ∷ []; addr = [] }

abbrev pub three : ClusterConfig
three = new_config (info b'a') (info b'b' ∷ info b'c' ∷ [])

abbrev pub node : Role → RaftNode
node role = record {
  id = b'a' ∷ [];
  config = three;
  peers = three.peers;
  ps = record { current_term = 1; voted_for = none };
  log = one_log;
  role = role;
  commit_index = 0;
  current_leader = none;
  next_index = [];
  match_index = [];
  last_heartbeat = 0;
  election_timeout = 200;
  snapshot = none;
  snapshot_trigger = 100;
  entries_since_snapshot = 0;
  data_dir = disk [];
  wal_dir = disk one_file;
  clock = 0;
  draws = [];
}

abbrev pub vote_for : ℕ → RequestVoteRequest
vote_for k = record { term = 2; candidate_id = k ∷ []; last_log_index = 1; last_log_term = 1 }

-- Peers that grant and acknowledge everything, in term 1 or 2.
abbrev pub willing : Network
willing = record {
  request_vote = λ p req. ok (record { term = 2; vote_granted = Bool.true });
  append_entries =
      λ p req. ok (record { term = 1; success = Bool.true; conflict_index = 0; conflict_term = 0 });
  install_snapshot = λ p req. err transport;
}

on_request_vote_lem_example :
    let (resp, n') = on_request_vote (vote_for b'b') (node follower) in
    let s : PersistentState = record { current_term = 2; voted_for = none } in
    ((resp.vote_granted ≡ true)
      ↔ ((2 ≤ 2) × IsFree (vote_for b'b') none × UpToDate (vote_for b'b') one_entry))
    × (n'.ps ≡ (if resp.vote_granted then record s { voted_for = some (b'b' ∷ []) } else s))
    × (resp.term ≡ 2)
    × (n'.log ≡ one_log)
on_request_vote_lem_example = on_request_vote_lem (vote_for b'b') (node follower)

abbrev pub heartbeat : AppendEntriesRequest
heartbeat = record {
  term = 1;
  leader_id = b'b' ∷ [];
  prev_log_index = 1;
  prev_log_term = 1;
  entries = [];
  leader_commit = 1;
}

on_append_entries_lem_example :
    let (resp, n') = on_append_entries heartbeat (node follower) in
    ((resp.success ≡ true) ↔ ((1 ≤ 1) × Agrees heartbeat one_entry))
    × ((resp.success ≡ true) ⊎ ((n'.log ≡ one_log) × (n'.commit_index ≡ 0)))
    × (n'.commit_index ≤ 1)
    × (resp.term ≡ 1)
    × (n'.ps.current_term ≡ 1)
on_append_entries_lem_example = on_append_entries_lem heartbeat (node follower)

-- A node that has voted for `b`, waits, and is asked by `b` again.
abbrev after_vote : RaftNode
after_vote = (on_request_vote (vote_for b'b') (node follower)).1

granted :
    (n : RaftNode)
    → (judged 2 n.ps).current_term ≤ 2
    → IsFree (vote_for b'b') (judged 2 n.ps).voted_for
    → UpToDate (vote_for b'b') n.log.memory
    → (on_request_vote (vote_for b'b') n).0.vote_granted ≡ true
granted n t free log = (on_request_vote_lem (vote_for b'b') n).0.1 (t, free, log)

pub up_to_date : UpToDate (vote_for b'b') one_entry
unfolding last_index last_term
up_to_date = inr (refl, omega arith)

abbrev waited : RaftNode
waited = record after_vote { clock = after_vote.clock + 5 }

once : (on_request_vote (vote_for b'b') (node follower)).0.vote_granted ≡ true
once = granted (node follower) (omega arith) tt up_to_date

-- The vote is on record.
after_vote-ps : after_vote.ps ≡ record { current_term = 2; voted_for = some (b'b' ∷ []) }
after_vote-ps =
    (on_request_vote_lem (vote_for b'b') (node follower)).1
    ∙ ap (λ b. if b then voted_state else record { current_term = 2; voted_for = none }) once
  where
    voted_state : PersistentState
    voted_state = record { current_term = 2; voted_for = some (b'b' ∷ []) }

after_vote-log : after_vote.log ≡ one_log
after_vote-log = (on_request_vote_lem (vote_for b'b') (node follower)).3

again : (on_request_vote (vote_for b'b') waited).0.vote_granted ≡ true
again =
    granted waited
      (subst (λ (s : PersistentState). (judged 2 s).current_term ≤ 2) (sym after_vote-ps)
        (omega arith))
      (subst (λ (s : PersistentState). IsFree (vote_for b'b') (judged 2 s).voted_for)
        (sym after_vote-ps) refl)
      (subst (λ (l : RaftLog). UpToDate (vote_for b'b') l.memory) (sym after_vote-log) up_to_date)

later_read : Reaches after_vote waited
unfolding handle_msg
later_read = next (receives willing (client_read 1) 5 after_vote) here

same_term :
    (on_request_vote (vote_for b'b') (node follower)).0.term
    ≡ (on_request_vote (vote_for b'b') waited).0.term
same_term =
    (on_request_vote_lem (vote_for b'b') (node follower)).2
    ∙ sym (
        (on_request_vote_lem (vote_for b'b') waited).2
        ∙ ap (λ (s : PersistentState). (judged 2 s).current_term) after_vote-ps)

one_vote_per_term_example : ◌≡◌ {A = NodeId} (b'b' ∷ []) (b'b' ∷ [])
one_vote_per_term_example =
    one_vote_per_term (vote_for b'b') (vote_for b'b') (node follower) waited once later_read again
      same_term

pub leads : (start_election willing (node follower)).role ≡ leader
unfolding start_election become_candidate advance_term PersistentState.advance_term Disk.write
    Disk.rename find store erase bytes_eq outcome later quorum
leads = refl

start_election-leader_example :
    (quorum three ≤ 1 + grants (answers willing (node follower)))
    × All (λ r. higher_term 2 r ≡ none) (answers willing (node follower))
    × ((start_election willing (node follower)).ps
        ≡ record { current_term = 2; voted_for = some (b'a' ∷ []) })
start_election-leader_example = start_election-leader willing (node follower) leads

pub written : (on_client_write willing hello (node leader)).0 ≡ ok 2
unfolding on_client_write Log.append Wal.append would_overflow encode le_bytes encode_append
    Segment.append Segment.write_all Segment.sync Disk.append find bytes_eq segment_path
    Disk.sync_all store quorum
written = refl

on_client_write-ok_example :
    let n1 = (on_log (Log.append 1 hello) (node leader)).1 in
    (leader ≡ leader)
    × (quorum three
        ≤ 1
          + ae_acks (ae_results willing 2 n1 n1.peers)
          + snap_acks (snap_results willing 2 n1 n1.peers))
    × ((on_client_write willing hello (node leader)).1.commit_index ≡ 2)
on_client_write-ok_example = on_client_write-ok willing hello (node leader) 2 written
