-- ===== src/Replication/Node/Votes.antt =====
-- Votes: when one is given, and that a node gives at most one in a term.
use mathlib.Core.Path.{subst}
use wal_distributed_rs.Common.{
  if◌then◌else◌, ℕ, ◌≡◌, ◌↔◌, ◌≤◌, ◌<◌, ◌⊎◌, ◌∙◌, refl, sym, ap, some, none, Option, arith,
  Bool-cases, inl, inr, ltb, ltb→lt, true, false, bytes_eq_iff,
}
use wal_distributed_rs.Replication.Config.{NodeId}
use wal_distributed_rs.Replication.Log.{last_index, last_term}
use wal_distributed_rs.Replication.Log.Record.{Memory}
use wal_distributed_rs.Replication.PersistentState.{PersistentState}
use wal_distributed_rs.Replication.Node.{
  RaftNode, RequestVoteRequest, advance_term, record_vote, follower,
}
use wal_distributed_rs.Replication.Node.Follower.{on_request_vote, granted_to}
use wal_distributed_rs.Replication.Node.Terms.{
  KeepsVote, keeps_refl, keeps_trans, keeps-higher, advance_term-ps, record_vote-ps,
}

-- The candidate's log is at least as up to date as the node's.
abbrev pub UpToDate : RequestVoteRequest → Memory → Type 0
UpToDate req m =
    (last_term m < req.last_log_term)
    ⊎ ((req.last_log_term ≡ last_term m) × (last_index m ≤ req.last_log_index))

-- No other candidate has the vote.
abbrev pub IsFree : RequestVoteRequest → Option NodeId → Type 0
IsFree req none = Unit
IsFree req (some v) = v ≡ req.candidate_id

granted_iff :
    (req : RequestVoteRequest) (n : RaftNode) (v : Option NodeId)
    → (granted_to req (record n { ps = record (n.ps) { voted_for = v } }) ≡ true)
      ↔ ((n.ps.current_term ≤ req.term) × IsFree req v × UpToDate req n.log.memory)
unfolding granted_to
granted_iff req n none = (λ h. ground (arith, h), λ h. ground (arith, h))
granted_iff req n (some v) = (
  λ h. ground (arith, h, bytes_eq_iff v req.candidate_id),
  λ h. ground (arith, h, bytes_eq_iff v req.candidate_id),
)

-- The term and the vote with which a request is judged.
abbrev pub judged : ℕ → PersistentState → PersistentState
judged term s =
    if ltb s.current_term term then record { current_term = term; voted_for = none } else s

abbrev after_term : RequestVoteRequest → RaftNode → RaftNode
after_term req n =
    if ltb n.ps.current_term req.term
    then record (advance_term req.term n) { role = follower }
    else n

after_term-ps :
    (req : RequestVoteRequest) (n : RaftNode) → (after_term req n).ps ≡ judged req.term n.ps
after_term-ps req n = elim (Bool-cases (ltb n.ps.current_term req.term)) [
  | inl lt ↦ rw lt (advance_term-ps req.term n)
  | inr ge ↦ rw ge refl
]

record_vote-log : (id : NodeId) (n : RaftNode) → (record_vote id n).log ≡ n.log
unfolding record_vote
record_vote-log id n = refl

after_term-log : (req : RequestVoteRequest) (n : RaftNode) → (after_term req n).log ≡ n.log
unfolding advance_term
after_term-log req n = ground arith

granted_after :
    (req : RequestVoteRequest) (n : RaftNode)
    → (granted_to req (after_term req n) ≡ true) ↔ (
        ((judged req.term n.ps).current_term ≤ req.term)
        × IsFree req (judged req.term n.ps).voted_for
        × UpToDate req n.log.memory)
granted_after req n =
    subst
      (λ s.
        (granted_to req (after_term req n) ≡ true)
        ↔ ((s.current_term ≤ req.term) × IsFree req s.voted_for × UpToDate req n.log.memory))
      (after_term-ps req n)
      (subst
        (λ l. (granted_to req (after_term req n) ≡ true) ↔ (
          ((after_term req n).ps.current_term ≤ req.term)
          × IsFree req (after_term req n).ps.voted_for
          × UpToDate req l.memory))
        (after_term-log req n) (granted_iff req (after_term req n) (after_term req n).ps.voted_for))

request_granted :
    (req : RequestVoteRequest) (n : RaftNode)
    → granted_to req (after_term req n) ≡ true
    → on_request_vote req n ≡ (
      record { term = (after_term req n).ps.current_term; vote_granted = true },
      record (record_vote req.candidate_id (after_term req n)) {
        last_heartbeat = (record_vote req.candidate_id (after_term req n)).clock;
      },
    )
unfolding on_request_vote
request_granted req n h = rw h refl

request_refused :
    (req : RequestVoteRequest) (n : RaftNode)
    → granted_to req (after_term req n) ≡ false
    → on_request_vote req n ≡ (
      record { term = (after_term req n).ps.current_term; vote_granted = false },
      after_term req n,
    )
unfolding on_request_vote
request_refused req n h = rw h refl

-- A request for a vote is judged in the request's term if that is higher, with no vote given yet,
-- else in the node's. The vote is granted exactly when the request is not of an older term, no
-- other candidate has the vote, and the candidate's log is at least as up to date as the node's;
-- then it is recorded, and otherwise the vote stays as it was. The answer carries the term, and the
-- log stays.
pub on_request_vote_lem :
    (req : RequestVoteRequest) (n : RaftNode)
    → let (resp, n') = on_request_vote req n in
      let s = judged req.term n.ps in
      ((resp.vote_granted ≡ true)
        ↔ ((s.current_term ≤ req.term) × IsFree req s.voted_for × UpToDate req n.log.memory))
      × (n'.ps ≡ (if resp.vote_granted then record s { voted_for = some req.candidate_id } else s))
      × (resp.term ≡ s.current_term)
      × (n'.log ≡ n.log)
on_request_vote_lem req n = elim (Bool-cases (granted_to req (after_term req n))) [
  | inl h ↦ rw (request_granted req n h) (
    (λ _. (granted_after req n).0 h, λ _. refl),
    record_vote-ps req.candidate_id (after_term req n)
        ∙ ap (λ (s : PersistentState). record s { voted_for = some req.candidate_id })
            (after_term-ps req n),
    ap (λ (s : PersistentState). s.current_term) (after_term-ps req n),
    record_vote-log req.candidate_id (after_term req n) ∙ after_term-log req n,
  )
  | inr h ↦ rw (request_refused req n h) (
    (λ e. cc, λ k. sym h ∙ (granted_after req n).1 k),
    after_term-ps req n,
    ap (λ (s : PersistentState). s.current_term) (after_term-ps req n),
    after_term-log req n,
  )
]

-- A vote that is given, or stays, keeps to the rule of one vote in a term.
pub keeps-judged : (term : ℕ) (s : PersistentState) → KeepsVote s (judged term s)
keeps-judged term s = elim (Bool-cases (ltb s.current_term term)) [
  | inl lt ↦ rw lt (keeps-higher (ltb→lt _ _ lt))
  | inr ge ↦ rw ge keeps_refl
]

keeps-vote :
    (id : NodeId) (s : PersistentState)
    → ((v : NodeId) → s.voted_for ≡ some v → v ≡ id)
    → KeepsVote s (record s { voted_for = some id })
keeps-vote id s free = record { term = omega arith; vote = λ _ v h. ap some (sym (free v h)) }

pub free→same :
    (req : RequestVoteRequest) (o : Option NodeId)
    → IsFree req o
    → (v : NodeId) → o ≡ some v
    → v ≡ req.candidate_id
free→same req none f v h = cc
free→same req (some w) f v h = cc

pub keeps-on_request_vote :
    (req : RequestVoteRequest) (n : RaftNode) → KeepsVote n.ps (on_request_vote req n).1.ps
keeps-on_request_vote req n =
    let (iff, ps, _, _) = on_request_vote_lem req n in
    keeps_trans (keeps-judged req.term n.ps)
      (elim (Bool-cases (on_request_vote req n).0.vote_granted) [
        | inl given ↦
            rw (ps, given)
              (keeps-vote req.candidate_id (judged req.term n.ps) (free→same req _ (iff.0 given).1))
        | inr refused ↦ rw (ps, refused) keeps_refl
      ])
