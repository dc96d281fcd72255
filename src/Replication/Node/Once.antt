-- ===== src/Replication/Node/Once.antt =====
-- A node gives at most one vote in a term, whatever its event loop handles in between.
use wal_distributed_rs.Replication.Log
use wal_distributed_rs.Replication.Log.{last_index, last_term}
use wal_distributed_rs.Replication.Node.Elections.{
  become_candidate-ps, become_leader-ps, counted, tally-outdated, election_concluded,
}
use wal_distributed_rs.Replication.Config.{quorum, NodeId}
use wal_distributed_rs.Common.{
  map, leb, if◌then◌else◌, ℕ, ◌≡◌, ◌<◌, ◌∙◌, ◌+◌, ◌^◌, refl, sym, ap, some, List, [], ◌∷◌, Bool,
  arith, Bool-cases, inl, inr, ltb, ltb→lt, true, add64,
}
use mathlib.Core.Path.{subst}
use wal_distributed_rs.Common.Exec.{Result, ok, err}
use wal_distributed_rs.WalCore.Entry.{Crc}
use wal_distributed_rs.Replication.Error.{RaftError}
use wal_distributed_rs.Replication.Node.{
  RaftNode, AppendEntriesResponse, InstallSnapshotResponse, RequestVoteRequest, on_log,
}
use wal_distributed_rs.Replication.Node.Follower.{on_request_vote}
use wal_distributed_rs.Replication.Node.Candidate.{
  Network, become_candidate, start_election, conclude, Tally, votes, outdated, is_leader,
}
use wal_distributed_rs.Replication.Node.Leader.{
  ae_results, snap_results, count_ae, count_snap, replicate_to_peers, heard_ae, heard_snap,
  heard_heartbeats, send_heartbeats, take_snapshot, commit, on_client_write, replicate_and_commit,
}
use wal_distributed_rs.Replication.Node.Events.{
  RaftMsg, append_entries, request_vote, install_snapshot, client_write, client_read, handle_msg,
  handle_timeout, Step, Reaches, receives, times_out, here, next,
}
use wal_distributed_rs.Replication.Node.Terms.{
  KeepsVote, keeps_refl, keeps-≡, keeps_trans, keeps-if, keeps-when, keeps-higher, keeps-step_down,
  keeps-on_append_entries, keeps-on_install_snapshot,
}
use wal_distributed_rs.Replication.Node.Votes.{
  keeps-on_request_vote, on_request_vote_lem, judged, keeps-judged, free→same,
}

-- The loops over answers.
heard_ae-ps :
    (up_to : ℕ) (id : NodeId) (resp : AppendEntriesResponse) (n : RaftNode)
    → (heard_ae up_to id resp n).ps ≡ n.ps
heard_ae-ps up_to id resp n = ground arith

heard_snap-ps : (id : NodeId) (success : Bool) (n : RaftNode) → (heard_snap id success n).ps ≡ n.ps
heard_snap-ps id success n = ground arith

keeps-count_ae :
    (up_to : ℕ) (rs : List (NodeId × AppendEntriesResponse)) (acks : ℕ) (n : RaftNode)
    → KeepsVote n.ps (count_ae up_to rs acks n).1.ps
unfolding count_ae
keeps-count_ae up_to [] acks n = keeps_refl
keeps-count_ae up_to ((id, resp) ∷ rs) acks n =
    keeps-when (ltb n.ps.current_term resp.term) _ _
      (λ higher. keeps-step_down resp.term n (ltb→lt _ _ higher))
      (keeps_trans (keeps-≡ (heard_ae-ps up_to id resp n)) (
        keeps-count_ae up_to rs (if resp.success then acks + 1 else acks)
          (heard_ae up_to id resp n)))

keeps-count_snap :
    (rs : List (NodeId × Result RaftError InstallSnapshotResponse)) (acks : ℕ) (n : RaftNode)
    → KeepsVote n.ps (count_snap rs acks n).1.ps
unfolding count_snap
keeps-count_snap [] acks n = keeps_refl
keeps-count_snap ((id, err e) ∷ rs) acks n = keeps-count_snap rs acks n
keeps-count_snap ((id, ok resp) ∷ rs) acks n =
    keeps-when (ltb n.ps.current_term resp.term) _ _
      (λ higher. keeps-step_down resp.term n (ltb→lt _ _ higher))
      (keeps_trans (keeps-≡ (heard_snap-ps id resp.success n)) (
        keeps-count_snap rs (if resp.success then acks + 1 else acks)
          (heard_snap id resp.success n)))

keeps-heard_heartbeats :
    (rs : List (Result RaftError AppendEntriesResponse)) (n : RaftNode)
    → KeepsVote n.ps (heard_heartbeats rs n).ps
unfolding heard_heartbeats
keeps-heard_heartbeats [] n = keeps_refl
keeps-heard_heartbeats (err e ∷ rs) n = keeps-heard_heartbeats rs n
keeps-heard_heartbeats (ok resp ∷ rs) n = elim (Bool-cases (ltb n.ps.current_term resp.term)) [
  | inl higher ↦ rw higher (keeps-step_down resp.term n (ltb→lt _ _ higher))
  | inr same ↦ rw same (keeps-heard_heartbeats rs n)
]

keeps-replicate_to_peers :
    (net : Network) (up_to : ℕ) (n : RaftNode)
    → KeepsVote n.ps (replicate_to_peers net up_to n).1.ps
unfolding replicate_to_peers
keeps-replicate_to_peers net up_to n =
    let ae = keeps-count_ae up_to (ae_results net up_to n n.peers) 1 n in
    keeps-if _ _ _ ae (keeps_trans ae (keeps-count_snap (snap_results net up_to n n.peers) _ _))

keeps-send_heartbeats : (net : Network) (n : RaftNode) → KeepsVote n.ps (send_heartbeats net n).ps
unfolding send_heartbeats
keeps-send_heartbeats net n =
    keeps-heard_heartbeats
      (map
        (λ p. net.append_entries p (record {
          term = n.ps.current_term;
          leader_id = n.id;
          prev_log_index = last_index n.log.memory;
          prev_log_term = last_term n.log.memory;
          entries = [];
          leader_commit = n.commit_index;
        }))
        n.peers)
      n

pub keeps-concluded :
    (net : Network) (n : RaftNode) → KeepsVote (become_candidate n).ps (start_election net n).ps
keeps-concluded net n =
    subst (λ (m : RaftNode). KeepsVote (become_candidate n).ps m.ps)
      (sym (election_concluded net n)) (after (counted net n) refl)
  where
    after :
        (x : Tally)
        → counted net n ≡ x
        → KeepsVote (become_candidate n).ps (conclude x (become_candidate n)).ps
    after (votes v) e = elim (Bool-cases (leb (quorum (become_candidate n).config) v)) [
      | inl won ↦ rw won (keeps-≡ (become_leader-ps (become_candidate n)))
      | inr lost ↦ rw lost keeps_refl
    ]
    after (outdated t) e = keeps-step_down t (become_candidate n) (tally-outdated _ 1 _ e)

pub keeps-become_candidate :
    (n : RaftNode) → n.ps.current_term + 1 < 2 ^ 64 → KeepsVote n.ps (become_candidate n).ps
keeps-become_candidate n room = rw (become_candidate-ps n) (keeps-higher (omega (arith, room)))

keeps-start_election :
    (net : Network) (n : RaftNode)
    → n.ps.current_term + 1 < 2 ^ 64
    → KeepsVote n.ps (start_election net n).ps
keeps-start_election net n room =
    keeps_trans (keeps-become_candidate n room) (keeps-concluded net n)

module _ ⦃c : Crc⦄ where
  take_snapshot-ps : (n : RaftNode) → (take_snapshot n).1.ps ≡ n.ps
  unfolding take_snapshot
  take_snapshot-ps n = ground arith

  commit-ps : (i : ℕ) (n : RaftNode) → (commit i n).ps ≡ n.ps
  unfolding commit
  commit-ps i n =
      let n' : RaftNode = record n {
        commit_index = i;
        entries_since_snapshot = add64 n.entries_since_snapshot 1;
      } in
      elim (Bool-cases (leb n.snapshot_trigger (add64 n.entries_since_snapshot 1))) [
        | inl due ↦ rw due (take_snapshot-ps n')
        | inr early ↦ rw early refl
      ]

  keeps-replicate_and_commit :
      (net : Network) (r : Result RaftError ℕ) (n : RaftNode)
      → KeepsVote n.ps (replicate_and_commit net r n).1.ps
  unfolding replicate_and_commit
  keeps-replicate_and_commit net (err e) n = keeps_refl
  keeps-replicate_and_commit net (ok i) n =
      let kept = keeps-replicate_to_peers net i n in
      keeps-if _ _ _ kept (keeps_trans kept (keeps-≡ (commit-ps i (replicate_to_peers net i n).1)))

  pub keeps-on_client_write :
      (net : Network) (payload : List ℕ) (n : RaftNode)
      → KeepsVote n.ps (on_client_write net payload n).1.ps
  unfolding on_client_write
  keeps-on_client_write net payload n =
      keeps-if (is_leader n.role) _ _
        (keeps-replicate_and_commit net _ (on_log (Log.append n.ps.current_term payload) n).1)
        keeps_refl

  keeps-handle_msg :
      (net : Network) (msg : RaftMsg) (n : RaftNode) → KeepsVote n.ps (handle_msg net msg n).1.ps
  unfolding handle_msg
  keeps-handle_msg net (append_entries req) n = keeps-on_append_entries req n
  keeps-handle_msg net (request_vote req) n = keeps-on_request_vote req n
  keeps-handle_msg net (install_snapshot req) n = keeps-on_install_snapshot req n
  keeps-handle_msg net (client_write payload) n = keeps-on_client_write net payload n
  keeps-handle_msg net (client_read i) n = keeps_refl

  pub keeps-Step : {n m : RaftNode} → Step n m → KeepsVote n.ps m.ps
  unfolding handle_timeout
  keeps-Step (receives net msg t n) = keeps-handle_msg net msg (record n { clock = n.clock + t })
  keeps-Step (times_out net t n room due) = elim (Bool-cases (is_leader n.role)) [
    | inl leads ↦ rw leads (keeps-send_heartbeats net (record n { clock = n.clock + t }))
    | inr follows ↦ rw follows (keeps-start_election net (record n { clock = n.clock + t }) room)
  ]

  Reaches-KeepsVote : {n m : RaftNode} → Reaches n m → KeepsVote n.ps m.ps
  Reaches-KeepsVote here = keeps_refl
  Reaches-KeepsVote (next s r) = keeps_trans (keeps-Step s) (Reaches-KeepsVote r)

  -- Two requests for a vote that a node grants with the same term in both answers, with any run of
  -- its loop in between, are from the same candidate. A run does not count the term past the last
  -- u64.
  pub one_vote_per_term :
      (first second : RequestVoteRequest) (n m : RaftNode)
      → (on_request_vote first n).0.vote_granted ≡ true
      → Reaches (on_request_vote first n).1 m
      → (on_request_vote second m).0.vote_granted ≡ true
      → (on_request_vote first n).0.term ≡ (on_request_vote second m).0.term
      → first.candidate_id ≡ second.candidate_id
  one_vote_per_term first second n m given run again same_term =
      let (_, ps, term, _) = on_request_vote_lem first n in
      let (iff, _, term', _) = on_request_vote_lem second m in
      let s1 = judged first.term n.ps in
      let s2 = judged second.term m.ps in
      let kept : KeepsVote (record s1 { voted_for = some first.candidate_id }) s2 =
        subst (λ x. KeepsVote x s2)
          (ps ∙ ap (λ b. if b then record s1 { voted_for = some first.candidate_id } else s1) given)
          (keeps_trans (Reaches-KeepsVote run) (keeps-judged second.term m.ps)) in
      free→same second s2.voted_for (iff.0 again).1 first.candidate_id
        (kept.vote (sym term ∙ same_term ∙ term') first.candidate_id refl)
