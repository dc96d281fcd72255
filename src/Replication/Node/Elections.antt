-- ===== src/Replication/Node/Elections.antt =====
-- Elections: the ends of `start_election`, and how many votes a leader has.
use mathlib.Core.Path.{subst}
use wal_distributed_rs.Replication.PersistentState.{PersistentState}
use wal_distributed_rs.Common.{
  if◌then◌else◌, Option-cases, ℕ, ◌≡◌, ◌≤◌, ◌<◌, ◌∙◌, ◌+◌, refl, sym, ap, some, none, List, [], ◌∷◌,
  arith, Bool-cases, inl, inr, leb, leb→le, add64, All, map,
}
use wal_distributed_rs.Common.Exec.{Result, ok, err}
use wal_distributed_rs.Replication.Config.{quorum}
use wal_distributed_rs.Replication.Error.{RaftError}
use wal_distributed_rs.Replication.Node.{
  become_follower_with_leader, RaftNode, RequestVoteResponse, follower, leader, advance_term,
  record_vote, reset_timer, step_down,
}
use wal_distributed_rs.Replication.Node.Candidate.{
  Network, Tally, votes, outdated, is_grant, higher_term, tally, vote_request, become_candidate,
  become_leader, conclude, start_election,
}
use wal_distributed_rs.Replication.Node.Terms.{advance_term-ps, record_vote-ps}

pub become_candidate-ps :
    (n : RaftNode)
    → (become_candidate n).ps
      ≡ record { current_term = add64 n.ps.current_term 1; voted_for = some n.id }
unfolding become_candidate reset_timer
become_candidate-ps n =
    let m = advance_term (add64 n.ps.current_term 1) n in
    record_vote-ps m.id m ∙ (λ i. record {
      current_term = (advance_term-ps (add64 n.ps.current_term 1) n i).current_term;
      voted_for = some n.id;
    })

pub become_leader-ps : (n : RaftNode) → (become_leader n).ps ≡ n.ps
unfolding become_leader
become_leader-ps n = refl

abbrev pub answers : Network → RaftNode → List (Result RaftError RequestVoteResponse)
answers net n =
    map (λ p. net.request_vote p (vote_request (become_candidate n))) (become_candidate n).peers

abbrev pub counted : Network → RaftNode → Tally
counted net n = tally (become_candidate n).ps.current_term 1 (answers net n)

-- The peers that granted their vote.
abbrev pub grants : List (Result RaftError RequestVoteResponse) → ℕ
grants [] = 0
grants (r ∷ rs) = is_grant r + grants rs

pub tally-same :
    (current k : ℕ) (r : Result RaftError RequestVoteResponse)
    (rs : List (Result RaftError RequestVoteResponse))
    → higher_term current r ≡ none
    → tally current k (r ∷ rs) ≡ tally current (k + is_grant r) rs
unfolding tally
tally-same current k r rs h = ground (arith, h)

tally-higher :
    (current k : ℕ) (r : Result RaftError RequestVoteResponse)
    (rs : List (Result RaftError RequestVoteResponse)) {t : ℕ}
    → higher_term current r ≡ some t
    → tally current k (r ∷ rs) ≡ outdated t
unfolding tally
tally-higher current k r rs h = ground (arith, h)

votes-inj : {v w : ℕ} → votes v ≡ votes w → v ≡ w
votes-inj e = cc

outdated-inj : {v w : ℕ} → outdated v ≡ outdated w → v ≡ w
outdated-inj e = cc

tally-votes :
    (current k : ℕ) (rs : List (Result RaftError RequestVoteResponse)) {v : ℕ}
    → tally current k rs ≡ votes v
    → (v ≡ k + grants rs) × All (λ r. higher_term current r ≡ none) rs
unfolding tally
tally-votes current k [] {v} e =
    ((let base : votes k ≡ votes v = e in omega (arith, votes-inj base)), tt)
tally-votes current k (r ∷ rs) {v} e = elim (Option-cases (higher_term current r)) [
  | inl same ↦
      let (sum, others) =
        tally-votes current (k + is_grant r) rs (sym (tally-same current k r rs same) ∙ e) in
      (omega (arith, sum), (same, others))
  | inr (t, higher) ↦
      absurd (let both : outdated t ≡ votes v = sym (tally-higher current k r rs higher) ∙ e in cc)
]

higher_term-lt :
    (current : ℕ) (r : Result RaftError RequestVoteResponse) {t : ℕ}
    → higher_term current r ≡ some t
    → current < t
higher_term-lt current (err e) h = cc
higher_term-lt current (ok resp) h = ground (arith, h)

pub tally-outdated :
    (current k : ℕ) (rs : List (Result RaftError RequestVoteResponse)) {t : ℕ}
    → tally current k rs ≡ outdated t
    → current < t
unfolding tally
tally-outdated current k [] e = cc
tally-outdated current k (r ∷ rs) {t} e = elim (Option-cases (higher_term current r)) [
  | inl same ↦ tally-outdated current (k + is_grant r) rs (sym (tally-same current k r rs same) ∙ e)
  | inr (u, higher) ↦
      subst (λ x. current < x) (outdated-inj (sym (tally-higher current k r rs higher) ∙ e))
        (higher_term-lt current r higher)
]

pub election_concluded :
    (net : Network) (n : RaftNode)
    → start_election net n ≡ conclude (counted net n) (become_candidate n)
unfolding start_election
election_concluded net n = refl

become_leader-role : (n : RaftNode) → (become_leader n).role ≡ leader
unfolding become_leader
become_leader-role n = refl

step_down-role : (t : ℕ) (n : RaftNode) → (step_down t n).role ≡ follower
unfolding step_down become_follower_with_leader reset_timer
step_down-role t n = refl

conclude-leader :
    (v : ℕ) (n : RaftNode)
    → (conclude (votes v) n).role ≡ leader
    → (quorum n.config ≤ v) × ((conclude (votes v) n).ps ≡ n.ps)
conclude-leader v n led = elim (Bool-cases (leb (quorum n.config) v)) [
  | inl won ↦ (leb→le _ _ won, rw won (become_leader-ps n))
  | inr lost ↦ absurd (
      let same : follower ≡ leader =
        subst (λ b. (if b then become_leader n else record n { role = follower }).role ≡ leader)
          lost led in
      cc)
]

pub become_candidate-config : (n : RaftNode) → (become_candidate n).config ≡ n.config
unfolding become_candidate reset_timer advance_term record_vote
become_candidate-config n = refl

-- A node that `start_election` leaves as the leader has had no answer with a higher term than its
-- new one, and with its own vote as many votes granted as a quorum of the cluster has nodes; it has
-- voted for itself in the new term.
pub start_election-leader :
    (net : Network) (n : RaftNode)
    → (start_election net n).role ≡ leader
    → (quorum n.config ≤ 1 + grants (answers net n))
      × All (λ r. higher_term (add64 n.ps.current_term 1) r ≡ none) (answers net n)
      × ((start_election net n).ps
          ≡ record { current_term = add64 n.ps.current_term 1; voted_for = some n.id })
start_election-leader net n led = by_tally (counted net n) refl
  where
    led' : (conclude (counted net n) (become_candidate n)).role ≡ leader
    led' = subst (λ (x : RaftNode). x.role ≡ leader) (election_concluded net n) led

    by_tally :
        (x : Tally)
        → counted net n ≡ x
        → (quorum n.config ≤ 1 + grants (answers net n))
          × All (λ r. higher_term (add64 n.ps.current_term 1) r ≡ none) (answers net n)
          × ((start_election net n).ps
              ≡ record { current_term = add64 n.ps.current_term 1; voted_for = some n.id })
    by_tally (votes v) e =
        let (enough, ps) =
          conclude-leader v (become_candidate n)
            (subst (λ x. (conclude x (become_candidate n)).role ≡ leader) e led') in
        let (sum, others) = tally-votes _ 1 (answers net n) e in
        (
          subst (λ x. quorum x ≤ 1 + grants (answers net n)) (become_candidate-config n)
              (subst (λ x. quorum (become_candidate n).config ≤ x) sum enough),
          subst
              (λ (x : PersistentState).
                All (λ r. higher_term x.current_term r ≡ none) (answers net n))
              (become_candidate-ps n) others,
          ap (λ (x : RaftNode). x.ps)
                (election_concluded net n ∙ ap (λ x. conclude x (become_candidate n)) e)
              ∙ ps
              ∙ become_candidate-ps n,
        )
    by_tally (outdated t) e = absurd (
        let led : (conclude (outdated t) (become_candidate n)).role ≡ leader =
          subst (λ x. (conclude x (become_candidate n)).role ≡ leader) e led' in
        let same : follower ≡ leader = sym (step_down-role t (become_candidate n)) ∙ led in cc)
