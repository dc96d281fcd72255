-- ===== src/Examples/Cluster.antt =====
-- A cluster of three in which one node is elected, and the server's arguments.
use mathlib.Core.List.Permᴰ.{refl as perm_refl}
use wal_distributed_rs.Common.{
  none, some, inl, Bool-cases, ℕ, ◌≡◌, refl, inr, [], ◌∷◌, List, true, arith, Bool, if◌then◌else◌,
  bytes_eq,
}
use wal_distributed_rs.Common.Exec.{ok, err}
use wal_distributed_rs.Disk
use wal_distributed_rs.Disk.{find, store, erase, outcome, later}
use wal_distributed_rs.Replication.Cluster.{History, Wins}
use wal_distributed_rs.Replication.Cluster.Safety.{election_safety}
use wal_distributed_rs.Replication.Config.{NodeId, new_config, quorum}
use wal_distributed_rs.Replication.Error.{transport}
use wal_distributed_rs.Replication.Node.{
  new_node, start, wal_config, RaftNode, follower, leader, advance_term,
}
use wal_distributed_rs.Replication.Node.Ballots.{begins, votes, restarts, stands, has_ballot}
use wal_distributed_rs.Replication.Node.Candidate.{Network, become_candidate, start_election}
use wal_distributed_rs.Replication.Node.Follower.{on_request_vote}
use wal_distributed_rs.Replication.Node.Votes.{on_request_vote_lem}
use wal_distributed_rs.Replication.PersistentState
use wal_distributed_rs.Examples.Nodes.{info, node, willing, leads, vote_for, up_to_date}
use wal_distributed_rs.Examples.Replicas.{one_log, one_file, one_log-Recovers}
use wal_distributed_rs.Replication.Log.{RaftLog, open_log}
use wal_distributed_rs.Replication.Log.Restart.{open_log-Recovers}
use wal_distributed_rs.WalCore.Segment.Content.{disk}
use wal_distributed_rs.Replication.PersistentState.Atomic.{loaded}
use wal_distributed_rs.Bytes.{le_bytes, from_le}
use wal_distributed_rs.Replication.Snapshot.{load}
use wal_distributed_rs.Examples.Setup.{sums}

-- The node `k`, with the two others as its peers.
abbrev member : ℕ → ℕ → ℕ → RaftNode
member k p q = record (node follower) {
  id = k ∷ [];
  config = new_config (info k) (info p ∷ info q ∷ []);
  peers = info p ∷ info q ∷ [];
}

votes_for_a : (k p q : ℕ) → (on_request_vote (vote_for b'a') (member k p q)).0.vote_granted ≡ true
votes_for_a k p q =
    (on_request_vote_lem (vote_for b'a') (member k p q)).0.1 (omega arith, tt, up_to_date)

-- `b` and `c` vote for `a`, which stands.
abbrev voter : ℕ → ℕ → ℕ → History
voter k p q = record {
  start = member k p q;
  now = (on_request_vote (vote_for b'a') (member k p q)).1;
  ballots = (2, b'a' ∷ []) ∷ [];
  run = votes (vote_for b'a') begins (votes_for_a k p q);
}

-- `c` starts again after its vote.
abbrev voted : RaftNode
voted = (on_request_vote (vote_for b'a') (member b'c' b'a' b'b')).1

abbrev read_log : (l : RaftLog) × (open_log wal_config (disk one_file) ≡ (ok l, disk one_file))
read_log =
    let (l, opened, _, _) = open_log-Recovers wal_config one_log one_file one_log-Recovers in
    (l, opened)

restarted : RaftNode
restarted =
    new_node voted.config 9 [] (record { current_term = 2; voted_for = some (b'a' ∷ []) })
      read_log.0 none voted.data_dir (disk one_file)

saved : loaded voted.data_dir.files ≡ voted.ps
unfolding on_request_vote Disk.write find Disk.rename store bytes_eq erase PersistentState.decode
    le_bytes from_le PersistentState.utf8_from
saved = refl

starts :
    start voted.config 9 [] (voted.data_dir, voted.wal_dir)
    ≡ (ok restarted, (voted.data_dir, disk one_file))
unfolding restarted start PersistentState.open_state load Disk.create_dir_all Disk.read
    on_request_vote Disk.write find Disk.rename store bytes_eq erase PersistentState.decode le_bytes
    from_le PersistentState.utf8_from
starts = rw read_log.1 refl

abbrev restarted_voter : History
restarted_voter = record {
  start = member b'c' b'a' b'b';
  now = restarted;
  ballots = (2, b'a' ∷ []) ∷ [];
  run =
      restarts voted.config 9 [] (votes (vote_for b'a') begins (votes_for_a b'c' b'a' b'b')) saved
        starts;
}

abbrev candidate_a : History
candidate_a = record {
  start = member b'a' b'b' b'c';
  now = start_election willing (member b'a' b'b' b'c');
  ballots = (2, b'a' ∷ []) ∷ [];
  run = stands willing begins (omega arith);
}

abbrev histories : NodeId → History
histories id =
    if bytes_eq id (b'a' ∷ [])
    then candidate_a
    else if bytes_eq id (b'b' ∷ [])
    then voter b'b' b'a' b'c'
    else restarted_voter

-- Only `b` answers.
abbrev half_deaf : Network
half_deaf = record willing {
  request_vote = λ p req.
      if bytes_eq p.id (b'b' ∷ [])
      then ok (record { term = 2; vote_granted = Bool.true })
      else err transport;
}

still_leads : (start_election half_deaf (node follower)).role ≡ leader
unfolding start_election become_candidate advance_term PersistentState.advance_term Disk.write
    Disk.rename find store erase bytes_eq outcome later quorum
still_leads = refl

in_history : (id : NodeId) → has_ballot (2, b'a' ∷ []) (histories id).ballots ≡ true
unfolding has_ballot bytes_eq
in_history id = elim (Bool-cases (bytes_eq id (b'a' ∷ []))) [
  | inl a ↦ rw a refl
  | inr other ↦ elim (Bool-cases (bytes_eq id (b'b' ∷ []))) [
    | inl b ↦ rw (other, b) refl
    | inr c ↦ rw (other, c) refl
  ]
]

abbrev members : List NodeId
members = (b'a' ∷ []) ∷ (b'b' ∷ []) ∷ (b'c' ∷ []) ∷ []

wins :
    (net : Network)
    → (start_election net (node follower)).role ≡ leader
    → Wins members histories net (node follower)
wins net led = record {
  leads = led;
  configured = refl;
  cluster = perm_refl members;
  room = omega arith;
  own = in_history (b'a' ∷ []);
  granted = λ p _. in_history p.id;
}

election_safety_example : ◌≡◌ {A = NodeId} (b'a' ∷ []) (b'a' ∷ [])
unfolding start_election become_candidate advance_term PersistentState.advance_term Disk.write
    Disk.rename find store erase bytes_eq outcome later quorum
election_safety_example =
    election_safety members histories willing half_deaf (node follower) (node follower)
      (wins willing leads) (wins half_deaf still_leads) refl
