-- ===== src/Replication/Cluster/Marks.antt =====
-- Turns that give a vote or acknowledge entries, and those that do neither: what they change in the
-- ledger.
use wal_distributed_rs.Common.{
  not-ltb→le, ltb→lt, ltb, if◌then◌else◌, not-leb→lt, ℕ, ◌+◌, ◌≤◌, ◌≡◌, refl, sym, ap, ◌∙◌, none,
  some, List, ◌∷◌, arith, inl, inr, true, length, take, length-take, take_all, leb, Bool-cases,
}
use mathlib.Core.Path.{subst}
use wal_distributed_rs.WalCore.Entry.{Crc}
use wal_distributed_rs.Replication.Config.{NodeId}
use wal_distributed_rs.Replication.PersistentState.{PersistentState}
use wal_distributed_rs.Replication.Log.{RaftLog}
use wal_distributed_rs.Replication.Log.Record.{LogEntry}
use wal_distributed_rs.Replication.Node.{RaftNode, AppendEntriesRequest, RequestVoteRequest}
use wal_distributed_rs.Replication.Node.Follower.{follow, on_append_entries, on_request_vote}
use wal_distributed_rs.Replication.Node.Logs.{on_append_entries_lem}
use wal_distributed_rs.Replication.Node.Matching.{entries_ok}
use wal_distributed_rs.Replication.Node.Votes.{UpToDate, judged, on_request_vote_lem}
use wal_distributed_rs.Replication.Cluster.Parts.{PartAt}
use wal_distributed_rs.Replication.Cluster.Requests.{Before}
use wal_distributed_rs.Replication.Cluster.Prefix.{Prefix, Prefix-self}
use wal_distributed_rs.Replication.Cluster.Takes.{accepted-Prefix}
use wal_distributed_rs.Replication.Cluster.System.{put_node}
use wal_distributed_rs.Replication.Cluster.Ledger.{
  Vote, Ack, Ledger, node_of, after_vote, after_turn, after_entries,
}
use wal_distributed_rs.Replication.Cluster.Change.{HasReign, NewVote, NewAck, IsKept, Change}
use wal_distributed_rs.Replication.Cluster.Steps.{
  IsBasic, Steps, same-Steps, put-Steps, put_same, taken-Steps,
}

Prefix-cut : (k : ℕ) (x : List LogEntry) → Prefix (take k x) x
Prefix-cut k x = elim (Bool-cases (leb k (length x))) [
  | inl short ↦
      let same : length (take k x) ≡ k = ground (arith, short, length-take k x) in
      ap (λ i. take i x) same
  | inr long ↦
      let over = not-leb→lt _ _ long in
      take_all (length (take k x)) x (omega (arith, over, length-take k x))
      ∙ sym (take_all k x (omega (arith, over)))
]

module _ (members : List NodeId) (id : NodeId) (n' : RaftNode) (l : Ledger)
    (s : Steps l.base.reigns l.births (node_of l id) n') where
  abbrev pub put_steps :
      (x : NodeId) → Steps l.base.reigns l.births (node_of l x) (put_node id n' l.base.nodes x)
  put_steps = put-Steps l.base.reigns l.births id n' l.base.nodes s

  -- Nothing is recorded.
  pub turn-Change : Change members l (after_turn id n' l)
  turn-Change = record {
    terms = λ x. (put_steps x).term;
    reigns_stay = λ t led by. (led, by, Prefix-self led);
    grounded_stay = λ xs g. g;
    births_stay = λ t log born. born;
    new_births = λ t log born. inl born;
    new_reigns = λ t led by. inl (led, by);
    logs = λ x. (put_steps x).logs;
    votes_stay = λ v in_votes. in_votes;
    new_votes = λ v in_votes. inl in_votes;
    new_acks = λ a in_acks. inl in_acks;
  }

  -- A vote is recorded.
  pub vote-Change :
      (v : Vote)
      → NewVote l (record (after_turn id n' l) { votes = v ∷ l.votes }) v
      → Change members l (record (after_turn id n' l) { votes = v ∷ l.votes })
  vote-Change v new = record {
    terms = λ x. (put_steps x).term;
    reigns_stay = λ t led by. (led, by, Prefix-self led);
    grounded_stay = λ xs g. g;
    births_stay = λ t log born. born;
    new_births = λ t log born. inl born;
    new_reigns = λ t led by. inl (led, by);
    logs = λ x. (put_steps x).logs;
    votes_stay = λ w in_votes. inr in_votes;
    new_votes = λ w in_votes. elim in_votes [
      | inl this ↦
          inr
            (subst (NewVote l (record (after_turn id n' l) { votes = v ∷ l.votes })) (sym this) new)
      | inr old ↦ inl old
    ];
    new_acks = λ a in_acks. inl in_acks;
  }

  -- The node acknowledges what it has of the log of its term's leader.
  pub ack-Change :
      (t : ℕ) (log : List LogEntry)
      → (node_of l id).ps.current_term ≤ t
      → t ≤ n'.ps.current_term
      → Prefix log n'.log.memory.entries
      → HasReign l.base.reigns t log
      → let ack : Ack = record { node = id; term = t; log = log } in
        Change members l (record (after_turn id n' l) { acks = ack ∷ l.acks })
  ack-Change t log from to part reign = record {
    terms = λ x. (put_steps x).term;
    reigns_stay = λ u led by. (led, by, Prefix-self led);
    grounded_stay = λ xs g. g;
    births_stay = λ u xs born. born;
    new_births = λ u xs born. inl born;
    new_reigns = λ u led by. inl (led, by);
    logs = λ x. (put_steps x).logs;
    votes_stay = λ v in_votes. in_votes;
    new_votes = λ v in_votes. inl in_votes;
    new_acks = λ a in_acks. elim in_acks [
      | inr old ↦ inl old
      | inl this ↦ inr (
          let ack : Ack = record { node = id; term = t; log = log } in
          let now = put_same id n' l.base.nodes in
          subst (NewAck l (record (after_turn id n' l) { acks = ack ∷ l.acks })) (sym this) (
            from,
            subst (λ (m : RaftNode). t ≤ m.ps.current_term) (sym now) to,
            subst (λ (m : RaftNode). Prefix log m.log.memory.entries) (sym now) part,
            reign,
            λ v in_votes. in_votes,
          ))
    ];
  }

-- The terms and the log behind a vote that is granted.
pub granted-facts :
    (req : RequestVoteRequest) (n : RaftNode)
    → (on_request_vote req n).0.vote_granted ≡ true
    → (n.ps.current_term ≤ req.term)
      × ((on_request_vote req n).1.ps.current_term ≡ req.term)
      × UpToDate req n.log.memory
      × ((on_request_vote req n).1.log.memory ≡ n.log.memory)
granted-facts req n given =
    let (iff, ps, _, log) = on_request_vote_lem req n in
    let (le, _, fresh) = iff.0 given in
    let term : (on_request_vote req n).1.ps.current_term ≡ (judged req.term n.ps).current_term =
      ap (λ (s : PersistentState). s.current_term) ps
      ∙ ap
          (λ b.
            (if b
              then record (judged req.term n.ps) { voted_for = some req.candidate_id }
              else judged req.term n.ps).current_term)
          given in
    let at : (n.ps.current_term ≤ req.term) × ((judged req.term n.ps).current_term ≡ req.term) =
      elim (Bool-cases (ltb n.ps.current_term req.term)) [
        | inl below ↦ (let lt = ltb→lt _ _ below in omega (arith, lt), rw below refl)
        | inr high ↦
            let le' : n.ps.current_term ≤ req.term = rw high at le in
            let ge = not-ltb→le _ _ high in (le', rw high (omega (arith, le', ge)))
      ] in
    (at.0, term ∙ at.1, fresh, ap (λ (x : RaftLog). x.memory) log)

pub voted-Change :
    (members : List NodeId) (id : NodeId) (req : RequestVoteRequest) (l : Ledger)
    → (on_request_vote req (node_of l id)).0.vote_granted ≡ true
    → l.base.reigns req.term ≡ none
    → Change members l (after_vote id req l)
voted-Change members id req l given vacant =
    let n = node_of l id in
    let n' = (on_request_vote req n).1 in
    let (le, now, fresh, same) = granted-facts req n given in
    let step : Steps l.base.reigns l.births n n' =
      same-Steps l.base.reigns l.births n n' same (omega (arith, le, now)) in
    vote-Change members id n' l step (record { voter = id; request = req; memory = n.log.memory })
      (
        vacant,
        le,
        omega (arith, now, ap (λ (x : RaftNode). x.ps.current_term) (put_same id n' l.base.nodes)),
        refl,
        fresh,
        λ a in_acks. in_acks,
      )

module _ ⦃c : Crc⦄ where
  pub took-Change :
      (members : List NodeId) (id : NodeId) (req : AppendEntriesRequest) (log : List LogEntry)
      (l : Ledger)
      → IsBasic l
      → IsKept members l
      → l.base.reigns req.term ≡ some log
      → PartAt req.prev_log_index req.entries log
      → Before req log
      → entries_ok req.entries (follow req.term req.leader_id (node_of l id)) ≡ true
      → (on_append_entries req (node_of l id)).0.success ≡ true
      → Change members l (after_entries id (on_append_entries req (node_of l id)).1 req log l)
  took-Change members id req log l basic h led part before works accepted =
      let n = node_of l id in
      let (iff, _, _, _, now) = on_append_entries_lem req n in
      let (current, _) = iff.0 accepted in
      let k = req.prev_log_index + length req.entries in
      ack-Change members id (on_append_entries req n).1 l
        (taken-Steps members l basic h id req works log led part before accepted) req.term
        (take k log) current (omega (arith, now))
        (accepted-Prefix l.base.reigns req n log (basic.sound.ruled req.term log led) part before
          (basic.sound.whole id) works accepted)
        (log, led, Prefix-cut k log)
