-- ===== src/Replication/Cluster/Safety.antt =====
-- A term has at most one leader.
use wal_distributed_rs.Common.{
  ◌*◌, ◌+◌, ◌≤◌, ◌<◌, ◌≡◌, ◌∙◌, refl, ap, Bool, true, List, [], ◌∷◌, length, arith, map, inl, inr,
  ◌⊎◌,
}
use mathlib.Core.Path.{subst}
use wal_distributed_rs.Common.Exec.{Result, ok, err}
use wal_distributed_rs.WalCore.Entry.{Crc}
use wal_distributed_rs.Replication.Config.{NodeId, NodeInfo, quorum, cluster_size}
use wal_distributed_rs.Replication.Error.{RaftError}
use wal_distributed_rs.Replication.Node.{
  RaftNode, RequestVoteResponse, reset_timer, advance_term, record_vote,
}
use wal_distributed_rs.Replication.PersistentState.{PersistentState}
use wal_distributed_rs.Replication.Node.Ballots.{Ballot, has_ballot, Run-IsUnique}
use wal_distributed_rs.Replication.Node.Candidate.{
  Network, is_grant, vote_request, become_candidate, start_election,
}
use wal_distributed_rs.Replication.Node.Elections.{answers, grants, start_election-leader}
use wal_distributed_rs.Replication.Cluster.{ids, History, Wins}
use wal_distributed_rs.Replication.Cluster.Counts.{
  count, one_if, count-perm, length-perm, counts_overlap,
}

is_grant-cases : (r : Result RaftError RequestVoteResponse) → (is_grant r ≡ 0) ⊎ (is_grant r ≡ 1)
is_grant-cases (err e) = inl refl
is_grant-cases (ok resp) = ground arith

pub length-ids : (ps : List NodeInfo) → length (ids ps) ≡ length ps
length-ids [] = refl
length-ids (p ∷ ps) = omega (arith, length-ids ps)

-- Granted votes that the test knows of are counted by it.
grants-le :
    (voted : NodeId → Bool) (ask : NodeInfo → Result RaftError RequestVoteResponse)
    (ps : List NodeInfo)
    → ((p : NodeInfo) → is_grant (ask p) ≡ 1 → voted p.id ≡ true)
    → grants (map ask ps) ≤ count voted (ids ps)
grants-le voted ask [] h = omega arith
grants-le voted ask (p ∷ ps) h = elim (is_grant-cases (ask p)) [
  | inl refused ↦ omega (arith, refused, grants-le voted ask ps h)
  | inr granted ↦ omega (arith, granted, grants-le voted ask ps h, ap one_if (h p granted))
]

module _ ⦃c : Crc⦄ where
  -- The members whose history has a vote for the candidate.
  unfoldable voters : (NodeId → History) → Ballot → NodeId → Bool
  voters histories b id = has_ballot b (histories id).ballots

  grants-voters :
      {members : List NodeId} {histories : NodeId → History} {net : Network} {n : RaftNode}
      → Wins members histories net n
      → 1 + grants (answers net n) ≤ count (voters histories (n.ps.current_term + 1, n.id)) members
  unfolding voters become_candidate reset_timer advance_term record_vote
  grants-voters {members} {histories} {net} {n} w =
      let voted = voters histories (n.ps.current_term + 1, n.id) in
      omega (
        arith,
        grants-le voted (λ p. net.request_vote p (vote_request (become_candidate n))) n.peers
            w.granted,
        ap one_if w.own,
        count-perm voted w.cluster,
      )

  quorum-voters :
      {members : List NodeId} {histories : NodeId → History} {net : Network} {n : RaftNode}
      → Wins members histories net n
      → length members < 2 * count (voters histories (n.ps.current_term + 1, n.id)) members
  unfolding quorum cluster_size
  quorum-voters {members} {histories} {net} {n} w = omega (
    arith,
    (start_election-leader net n w.leads).0,
    grants-voters w,
    length-perm w.cluster,
    length-ids n.peers,
    ap length w.configured,
  )

  leader-term :
      {members : List NodeId} {histories : NodeId → History} {net : Network} {n : RaftNode}
      → Wins members histories net n
      → (start_election net n).ps.current_term ≡ n.ps.current_term + 1
  leader-term {members} {histories} {net} {n} w =
      ap (λ (s : PersistentState). s.current_term) (start_election-leader net n w.leads).2
      ∙ omega (arith, w.room)

  -- In a cluster of members that start again only on a state file that holds their term and vote,
  -- two nodes that win an election and lead in the same term are the same node, when both are
  -- configured with the members as their peers and each vote that they count is in the history of
  -- the node that gave it.
  pub election_safety :
      (members : List NodeId) (histories : NodeId → History) (net net' : Network) (n n' : RaftNode)
      → Wins members histories net n
      → Wins members histories net' n'
      → (start_election net n).ps.current_term ≡ (start_election net' n').ps.current_term
      → n.id ≡ n'.id
  unfolding voters
  election_safety members histories net net' n n' w w' same =
      let (voter, first, second) =
        counts_overlap (voters histories (n.ps.current_term + 1, n.id))
          (voters histories (n'.ps.current_term + 1, n'.id)) members
          (omega (arith, quorum-voters w, quorum-voters w')) in
      let same_term : n'.ps.current_term + 1 ≡ n.ps.current_term + 1 =
        omega (arith, leader-term w, leader-term w', same) in
      Run-IsUnique (histories voter).run (n.ps.current_term + 1) n.id n'.id first
        (subst (λ t. has_ballot (t, n'.id) (histories voter).ballots ≡ true) same_term second)
