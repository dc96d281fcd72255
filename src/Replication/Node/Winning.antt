-- ===== src/Replication/Node/Winning.antt =====
-- An election that is won.
use wal_distributed_rs.Common.{
  ℕ, ◌+◌, ◌≡◌, ◌≤◌, ◌∙◌, refl, sym, ap, some, none, List, [], ◌∷◌, All, false, arith, add64, le→leb,
}
use mathlib.Core.Path.{subst}
use wal_distributed_rs.Common.Exec.{Result}
use wal_distributed_rs.Replication.Config.{ClusterConfig, quorum}
use wal_distributed_rs.Replication.Error.{RaftError}
use wal_distributed_rs.Replication.Log.{last_index}
use wal_distributed_rs.Replication.PersistentState.{PersistentState}
use wal_distributed_rs.Replication.Node.{
  RaftNode, RequestVoteResponse, leader, get, reset_timer, advance_term, record_vote,
}
use wal_distributed_rs.Replication.Node.Candidate.{
  Network, votes, is_grant, is_leader, higher_term, tally, become_candidate, become_leader,
  conclude,
}
use wal_distributed_rs.Replication.Node.Elections.{
  answers, counted, grants, tally-same, become_candidate-config, become_candidate-ps,
  election_concluded,
}
use wal_distributed_rs.Replication.Node.Events.{handle_timeout}
use wal_distributed_rs.Replication.Node.Tables.{all_peers-get}

tally-none_higher :
    (current k : ℕ) (rs : List (Result RaftError RequestVoteResponse))
    → All (λ r. higher_term current r ≡ none) rs
    → tally current k rs ≡ votes (k + grants rs)
unfolding tally
tally-none_higher current k [] h = ap votes (omega arith)
tally-none_higher current k (r ∷ rs) (h, hs) =
    tally-same current k r rs h
    ∙ tally-none_higher current (k + is_grant r) rs hs
    ∙ ap votes (omega arith)

-- The leader's maps at the start.
abbrev pub IsReady : RaftNode → Type 0
IsReady n =
    All
      (λ p.
        (get p.id n.next_index ≡ some (add64 (last_index n.log.memory) 1))
        × (get p.id n.match_index ≡ some 0))
      n.peers

All-and :
    {A : Type 0} (P Q : A → Type 0) (xs : List A) → All P xs → All Q xs → All (λ x. P x × Q x) xs
All-and P Q [] h k = tt
All-and P Q (x ∷ xs) (h, hs) (k, ks) = ((h, k), All-and P Q xs hs ks)

become_leader-IsReady : (n : RaftNode) → IsReady (become_leader n)
unfolding become_leader
become_leader-IsReady n =
    All-and _ _ n.peers (all_peers-get (add64 (last_index n.log.memory) 1) n.peers n.next_index)
      (all_peers-get 0 n.peers n.match_index)

become_leader-fields :
    (n : RaftNode)
    → ((become_leader n).role ≡ leader)
      × ((become_leader n).current_leader ≡ some n.id)
      × ((become_leader n).log ≡ n.log)
      × ((become_leader n).ps ≡ n.ps)
unfolding become_leader
become_leader-fields n = (refl, refl, refl, refl)

pub become_candidate-fields :
    (n : RaftNode) → ((become_candidate n).id ≡ n.id) × ((become_candidate n).log ≡ n.log)
unfolding become_candidate reset_timer advance_term record_vote
become_candidate-fields n = (refl, refl)

conclude-won : (v : ℕ) (n : RaftNode) → quorum n.config ≤ v → conclude (votes v) n ≡ become_leader n
conclude-won v n enough = rw (le→leb _ _ enough) refl

wins :
    (net : Network) (n : RaftNode)
    → is_leader n.role ≡ false
    → quorum n.config ≤ 1 + grants (answers net n)
    → All (λ r. higher_term (add64 n.ps.current_term 1) r ≡ none) (answers net n)
    → handle_timeout net n ≡ become_leader (become_candidate n)
unfolding handle_timeout
wins net n waits enough same = rw waits (
    election_concluded net n
    ∙ ap (λ t. conclude t (become_candidate n)) all_counted
    ∙ conclude-won (1 + grants (answers net n)) (become_candidate n) (
        subst (λ (k : ClusterConfig). quorum k ≤ 1 + grants (answers net n))
          (sym (become_candidate-config n)) enough))
  where
    all_counted : counted net n ≡ votes (1 + grants (answers net n))
    all_counted = tally-none_higher (become_candidate n).ps.current_term 1 (answers net n) (
        subst
          (λ (s : PersistentState). All (λ r. higher_term s.current_term r ≡ none) (answers net n))
          (sym (become_candidate-ps n)) same)

-- When the timer of a node that is not the leader runs out, and with its own vote a quorum of the
-- cluster has voted for it, with no answer of a higher term, it is the leader: in the next term,
-- with its log as it was, and for each peer with the index behind its own log as the next one, and
-- none that matches.
pub timeout_elects :
    (net : Network) (n : RaftNode)
    → is_leader n.role ≡ false
    → quorum n.config ≤ 1 + grants (answers net n)
    → All (λ r. higher_term (add64 n.ps.current_term 1) r ≡ none) (answers net n)
    → let n' = handle_timeout net n in
      (n'.role ≡ leader)
      × (n'.current_leader ≡ some n.id)
      × (n'.ps.current_term ≡ add64 n.ps.current_term 1)
      × (n'.log ≡ n.log)
      × IsReady n'
timeout_elects net n waits enough same =
    let b = become_candidate n in
    let (role, lead, log, ps) = become_leader-fields b in
    let (id, kept) = become_candidate-fields n in
    subst
      (λ (n' : RaftNode).
        (n'.role ≡ leader)
        × (n'.current_leader ≡ some n.id)
        × (n'.ps.current_term ≡ add64 n.ps.current_term 1)
        × (n'.log ≡ n.log)
        × IsReady n')
      (sym (wins net n waits enough same))
      (
        role,
        lead ∙ ap some id,
        ap (λ (s : PersistentState). s.current_term) (ps ∙ become_candidate-ps n),
        log ∙ kept,
        become_leader-IsReady b,
      )
