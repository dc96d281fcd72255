-- ===== src/Replication/Node/Candidate.antt =====
-- crates/wal-replication/src/raft/node.rs: elections. The replies of the other nodes come from a
-- parameter, `Network`.
use wal_distributed_rs.Common.{
  ℕ, ◌+◌, Bool, Option, none, some, List, [], ◌∷◌, ltb, leb, add64, map, if◌then◌else◌,
}
use wal_distributed_rs.Common.Exec.{Result, ok, err}
use wal_distributed_rs.Replication.Config.{NodeInfo, quorum}
use wal_distributed_rs.Replication.Error.{RaftError}
use wal_distributed_rs.Replication.Log.{last_index, last_term}
use wal_distributed_rs.Replication.Node.{
  RaftNode, Role, follower, candidate, leader, AppendEntriesRequest, AppendEntriesResponse,
  RequestVoteRequest, RequestVoteResponse, InstallSnapshotRequest, InstallSnapshotResponse, Indices,
  insert, advance_term, record_vote, reset_timer, step_down,
}

-- What the calls of one round bring back from each peer.
pub record Network : Type 0 where
  pub request_vote : NodeInfo → RequestVoteRequest → Result RaftError RequestVoteResponse
  pub append_entries : NodeInfo → AppendEntriesRequest → Result RaftError AppendEntriesResponse
  pub install_snapshot :
      NodeInfo → InstallSnapshotRequest → Result RaftError InstallSnapshotResponse

abbrev pub is_leader : Role → Bool
is_leader leader = Bool.true
is_leader _ = Bool.false

-- The loop over the answers to a call for votes: the votes, or the higher term that ends the
-- election.
pub data Tally : Type 0 where
  votes : ℕ → Tally
  outdated : ℕ → Tally

abbrev pub is_grant : Result RaftError RequestVoteResponse → ℕ
is_grant (err e) = 0
is_grant (ok resp) = if resp.vote_granted then 1 else 0

abbrev pub higher_term : ℕ → Result RaftError RequestVoteResponse → Option ℕ
higher_term current (err e) = none
higher_term current (ok resp) = if ltb current resp.term then some resp.term else none

unfoldable pub tally : ℕ → ℕ → List (Result RaftError RequestVoteResponse) → Tally
tally current n [] = votes n
tally current n (r ∷ rs) =
    let rest = tally current (n + is_grant r) rs in
    elim (higher_term current r) [ none ↦ rest | some t ↦ outdated t ]

-- The loop of `become_leader` over the peers, for one of the two maps.
unfoldable pub all_peers : ℕ → List NodeInfo → Indices → Indices
unfolding insert
all_peers v [] m = m
all_peers v (p ∷ ps) m = all_peers v ps (insert p.id v m)

unfoldable pub become_leader : RaftNode → RaftNode
unfolding last_index all_peers
become_leader n = record n {
  role = leader;
  current_leader = some n.id;
  next_index = all_peers (add64 (last_index n.log.memory) 1) n.peers n.next_index;
  match_index = all_peers 0 n.peers n.match_index;
}

-- The first lines of `start_election`: the node votes for itself in a new term.
unfoldable pub become_candidate : RaftNode → RaftNode
unfolding advance_term record_vote reset_timer
become_candidate n =
    let m = advance_term (add64 n.ps.current_term 1) n in
    reset_timer (record (record_vote m.id m) { role = candidate })

unfoldable pub vote_request : RaftNode → RequestVoteRequest
unfolding last_index last_term
vote_request n = record {
  term = n.ps.current_term;
  candidate_id = n.id;
  last_log_index = last_index n.log.memory;
  last_log_term = last_term n.log.memory;
}

-- The end of `start_election`.
abbrev pub conclude : Tally → RaftNode → RaftNode
conclude (outdated t) n = step_down t n
conclude (votes v) n =
    if leb (quorum n.config) v then become_leader n else record n { role = follower }

unfoldable pub start_election : Network → RaftNode → RaftNode
unfolding become_candidate vote_request tally step_down become_leader
start_election net n0 =
    let n = become_candidate n0 in
    let results = map (λ p. net.request_vote p (vote_request n)) n.peers in
    conclude (tally n.ps.current_term 1 results) n
