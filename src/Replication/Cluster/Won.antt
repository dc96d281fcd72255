-- ===== src/Replication/Cluster/Won.antt =====
-- A turn in which a node wins an election with recorded votes: what it changes in the ledger.
use wal_distributed_rs.Common.{
  Option-cases, get_elem?, ℕ, ◌+◌, ◌^◌, ◌<◌, ◌≡◌, ◌⊎◌, refl, sym, ap, ◌∙◌, none, some, List, arith,
  inl, inr, Bool-cases, ◌==◌, ==_iff,
}
use mathlib.Core.Path.{subst}
use wal_distributed_rs.Replication.Config.{NodeId}
use wal_distributed_rs.Replication.PersistentState.{PersistentState}
use wal_distributed_rs.Replication.Log.{RaftLog, last_index, last_term}
use wal_distributed_rs.Replication.Log.Record.{LogEntry, Memory}
use wal_distributed_rs.Replication.Node.{RaftNode, leader, RequestVoteRequest}
use wal_distributed_rs.Replication.Node.Candidate.{
  Network, start_election, become_candidate, vote_request,
}
use wal_distributed_rs.Replication.Node.Elections.{start_election-leader, become_candidate-ps}
use wal_distributed_rs.Replication.Node.Winning.{become_candidate-fields}
use wal_distributed_rs.Replication.Node.Votes.{UpToDate}
use wal_distributed_rs.Replication.Cluster.Handlers.{start_election-log}
use wal_distributed_rs.Replication.Cluster.Reigns.{Reigns, crown, some-inj, Grounded-crown_new}
use wal_distributed_rs.Replication.Cluster.Prefix.{Prefix-self}
use wal_distributed_rs.Replication.Cluster.Sound.{crowned}
use wal_distributed_rs.Replication.Cluster.Ledger.{
  Ledger, node_of, Majority, VotedFor, own_vote, after_election,
}
use wal_distributed_rs.Replication.Cluster.Change.{
  plain, HasReign, Backs, Below, IsKept, NewVote, Change,
}
use wal_distributed_rs.Replication.Cluster.Steps.{
  IsBasic, Steps, same-Steps, put-Steps, plain_node, put_same,
}

-- A term gets its first leader.
pub crown_keeps :
    (t : ℕ) (log : List LogEntry) (r : Reigns)
    → r t ≡ none
    → (u : ℕ) (led : List LogEntry) → r u ≡ some led
    → crown t log r u ≡ some led
crown_keeps t log r vacant u led by = elim (Bool-cases (u == t)) [
  | inl this ↦
      absurd (let no : some led ≡ none = sym by ∙ ap r ((==_iff u t).0 this) ∙ vacant in cc)
  | inr other ↦ rw other by
]

pub crown_split :
    (t : ℕ) (log : List LogEntry) (r : Reigns) (u : ℕ) (led : List LogEntry)
    → crown t log r u ≡ some led
    → (u ≡ t) ⊎ (r u ≡ some led)
crown_split t log r u led by = elim (Bool-cases (u == t)) [
  | inl this ↦ inl ((==_iff u t).0 this)
  | inr other ↦ inr (rw other at by)
]

module _ (members : List NodeId) (id : NodeId) (net : Network) (l : Ledger) (basic : IsBasic l)
    (h : IsKept members l) (led : (start_election net (node_of l id)).role ≡ leader)
    (vacant : l.base.reigns (start_election net (node_of l id)).ps.current_term ≡ none)
    (room : (node_of l id).ps.current_term + 1 < 2 ^ 64)
    (won : Majority members
      (λ x. (x ≡ id) ⊎ VotedFor l.votes (vote_request (become_candidate (node_of l id))) x)) where
  n : RaftNode
  n = node_of l id

  n' : RaftNode
  unfolding n
  n' = start_election net n

  now : n'.ps.current_term ≡ n.ps.current_term + 1
  unfolding n n'
  now =
      ap (λ (s : PersistentState). s.current_term) (start_election-leader net n led).2
      ∙ omega (arith, room)

  log_same : n'.log.memory ≡ n.log.memory
  unfolding n n'
  log_same = ap (λ (x : RaftLog). x.memory) (start_election-log net n)

  req : RequestVoteRequest
  unfolding n
  req = vote_request (become_candidate n)

  req_term : req.term ≡ n'.ps.current_term
  unfolding n n' req vote_request
  req_term =
      ap (λ (s : PersistentState). s.current_term) (become_candidate-ps n)
      ∙ omega (arith, room)
      ∙ sym now

  as_candidate : (become_candidate n).log.memory ≡ n.log.memory
  unfolding n
  as_candidate = ap (λ (x : RaftLog). x.memory) (become_candidate-fields n).1

  own_fresh : UpToDate req n.log.memory
  unfolding n req vote_request
  own_fresh = inr (ap last_term as_candidate, omega (arith, ap last_index as_candidate))

  -- The node's log is that of the new leader.
  as_plain : n.log.memory ≡ plain n'.log.memory.entries
  unfolding n n'
  as_plain = plain_node l basic id ∙ ap (λ (m : Memory). plain m.entries) (sym log_same)

  l' : Ledger
  unfolding n n'
  l' = after_election id n' l

  backed : Majority members (Backs l'.votes n'.ps.current_term n'.log.memory.entries)
  unfolding n n' l' req vote_request
  backed = record {
    who = won.who;
    many = won.many;
    each = λ x yes.
        let index : req.last_log_index ≡ last_index (plain n'.log.memory.entries) =
          ap last_index (as_candidate ∙ as_plain) in
        let last : req.last_log_term ≡ last_term (plain n'.log.memory.entries) =
          ap last_term (as_candidate ∙ as_plain) in
        elim (won.each x yes) [
          | inl this ↦ (own_vote id n, inl refl, sym this, req_term, index, last)
          | inr (v, in_votes, voter, request) ↦ (
            v,
            inr in_votes,
            voter,
            ap (λ (q : RequestVoteRequest). q.term) request ∙ req_term,
            ap (λ (q : RequestVoteRequest). q.last_log_index) request ∙ index,
            ap (λ (q : RequestVoteRequest). q.last_log_term) request ∙ last,
          )
        ];
  }

  below : Below n'.ps.current_term n'.log.memory.entries
  unfolding n n'
  below i e found =
      let le =
        basic.own_terms id i e
          (ap (λ (m : Memory). get_elem? m.entries i) (sym log_same) ∙ found) in
      omega (arith, le, now)

  unborn : l.births n'.ps.current_term ≡ none
  unfolding n n'
  unborn = elim (Option-cases (l.births n'.ps.current_term)) [
    | inl nothing ↦ nothing
    | inr (log, born) ↦ absurd (
        let (led', by, _) = h.birth_reign n'.ps.current_term log born in
        let no : some led' ≡ none = sym by ∙ vacant in cc)
  ]

  pub won_steps :
      (x : NodeId)
      → let l' = after_election id (start_election net (node_of l id)) l in
        Steps l.base.reigns l'.births (node_of l x) (node_of l' x)
  unfolding n n' l'
  won_steps =
      put-Steps l.base.reigns l'.births id n' l.base.nodes
        (same-Steps l.base.reigns l'.births n n' log_same (omega (arith, now)))

  reign : HasReign l'.base.reigns n'.ps.current_term n'.log.memory.entries
  unfolding n n' l'
  reign = (
    n'.log.memory.entries,
    crowned n'.ps.current_term n'.log.memory.entries l.base.reigns,
    Prefix-self n'.log.memory.entries,
  )

  pub won-Change : Change members l (after_election id (start_election net (node_of l id)) l)
  unfolding n n' l' req
  won-Change = record {
    terms = λ x. (won_steps x).term;
    reigns_stay = λ t old by. (
      old,
      crown_keeps n'.ps.current_term n'.log.memory.entries l.base.reigns vacant t old by,
      Prefix-self old,
    );
    grounded_stay =
        λ xs. Grounded-crown_new l.base.reigns n'.ps.current_term n'.log.memory.entries xs vacant;
    births_stay = crown_keeps n'.ps.current_term n'.log.memory.entries l.births unborn;
    new_births = λ t log born. elim (Bool-cases (t == n'.ps.current_term)) [
      | inr other ↦ inl (rw other at born)
      | inl this ↦
          let same : n'.log.memory.entries ≡ log = some-inj (rw this at born) in
          let at_t : n'.ps.current_term ≡ t = sym ((==_iff t n'.ps.current_term).0 this) in
          inr (
            subst
              (λ u.
                HasReign l'.base.reigns u log
                × Below u log
                × Majority members (Backs l'.votes u log))
              at_t
              (subst
                (λ xs.
                  HasReign l'.base.reigns n'.ps.current_term xs
                  × Below n'.ps.current_term xs
                  × Majority members (Backs l'.votes n'.ps.current_term xs))
                same (reign, below, backed)))
    ];
    new_reigns = λ t new by.
        elim (crown_split n'.ps.current_term n'.log.memory.entries l.base.reigns t new by) [
          | inl this ↦ inr (
            n'.log.memory.entries,
            ap l'.births this ∙ crowned n'.ps.current_term n'.log.memory.entries l.births,
          )
          | inr old ↦ inl (new, old)
        ];
    logs = λ x b t. (won_steps x).logs b t;
    votes_stay = λ v in_votes. inr in_votes;
    new_votes = λ v in_votes. elim in_votes [
      | inr old ↦ inl old
      | inl this ↦ inr (
          subst (λ w. NewVote l l' w) (sym this)
            (
              ap l.base.reigns req_term ∙ vacant,
              omega (arith, req_term, now),
              omega (
                arith,
                req_term,
                ap (λ (x : RaftNode). x.ps.current_term) (put_same id n' l.base.nodes),
              ),
              refl,
              own_fresh,
              λ a in_acks. in_acks,
            ))
    ];
    new_acks = λ a in_acks. inl in_acks;
  }
