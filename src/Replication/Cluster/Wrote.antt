-- ===== src/Replication/Cluster/Wrote.antt =====
-- A turn in which a leader writes: what it changes in the ledger.
use wal_distributed_rs.Common.{
  add64, ℕ, ◌≤◌, ◌≡◌, refl, sym, ap, ◌∙◌, some, List, [], ◌∷◌, ◌++◌, arith, inl, inr, Bool-cases,
  ◌==◌, ==_iff,
}
use mathlib.Core.Path.{subst}
use wal_distributed_rs.Replication.Config.{NodeId}
use wal_distributed_rs.Replication.Log.{last_index}
use wal_distributed_rs.Replication.Log.Record.{LogEntry, Memory}
use wal_distributed_rs.Replication.Log.Replay.{pushed}
use wal_distributed_rs.Replication.Node.{RaftNode, leader}
use wal_distributed_rs.Replication.Cluster.Reigns.{crown, some-inj, Grounded, Grounded-crown_more}
use wal_distributed_rs.Replication.Cluster.Prefix.{Prefix, Prefix-self, Prefix-append}
use wal_distributed_rs.Replication.Cluster.Sound.{crowned}
use wal_distributed_rs.Replication.Cluster.System.{put_node}
use wal_distributed_rs.Replication.Cluster.Ledger.{Ledger, node_of, after_write}
use wal_distributed_rs.Replication.Cluster.Change.{NewAck, Change}
use wal_distributed_rs.Replication.Cluster.Steps.{IsBasic, Steps, pushed-Steps, put-Steps, put_same}

-- A leader's write, with its own acknowledgement.
module _ (members : List NodeId) (id : NodeId) (n' : RaftNode) (payload : List ℕ) (l : Ledger)
    (basic : IsBasic l) (led : (node_of l id).role ≡ leader)
    (same : n'.log.memory ≡ pushed (node_of l id).ps.current_term payload (node_of l id).log.memory)
    (le : (node_of l id).ps.current_term ≤ n'.ps.current_term) where
  t : ℕ
  t = (node_of l id).ps.current_term

  before : List LogEntry
  before = (node_of l id).log.memory.entries

  by_now : l.base.reigns t ≡ some before
  unfolding t before
  by_now = basic.sound.leads id led

  new : LogEntry
  unfolding t
  new = record {
    term = t;
    index = add64 (last_index (node_of l id).log.memory) 1;
    payload = payload;
  }

  grown : n'.log.memory.entries ≡ before ++ new ∷ []
  unfolding t before new
  grown = ap (λ (m : Memory). m.entries) same

  longer : Prefix before n'.log.memory.entries
  longer =
      subst (Prefix before) (sym grown)
        (Prefix-append before before (new ∷ []) (Prefix-self before))

  pub write_steps :
      (x : NodeId) → Steps l.base.reigns l.births (node_of l x) (put_node id n' l.base.nodes x)
  write_steps =
      put-Steps l.base.reigns l.births id n' l.base.nodes
        (pushed-Steps l.base.reigns l.births payload (node_of l id) n' same le)

  pub write-Change : Change members l (after_write id n' l)
  unfolding t before
  write-Change = record {
    terms = λ x. (write_steps x).term;
    reigns_stay = λ u old by. elim (Bool-cases (u == t)) [
      | inr other ↦ (old, rw other by, Prefix-self old)
      | inl this ↦ (
        n'.log.memory.entries,
        rw this refl,
        subst (λ xs. Prefix xs n'.log.memory.entries)
            (some-inj (sym by_now ∙ ap l.base.reigns (sym ((==_iff u t).0 this)) ∙ by)) longer,
      )
    ];
    grounded_stay = λ xs g.
        subst (λ log. Grounded (crown t log l.base.reigns) xs) (sym grown)
          (Grounded-crown_more l.base.reigns t before new xs by_now g);
    births_stay = λ u log born. born;
    new_births = λ u log born. inl born;
    new_reigns = λ u xs by. elim (Bool-cases (u == t)) [
      | inr other ↦ inl (xs, rw other at by)
      | inl this ↦ inl (before, ap l.base.reigns ((==_iff u t).0 this) ∙ by_now)
    ];
    logs = λ x. (write_steps x).logs;
    votes_stay = λ v in_votes. in_votes;
    new_votes = λ v in_votes. inl in_votes;
    new_acks = λ a in_acks. elim in_acks [
      | inr old ↦ inl old
      | inl this ↦ inr (
          let now = put_same id n' l.base.nodes in
          subst (NewAck l (after_write id n' l)) (sym this) (
            omega arith,
            subst (λ (m : RaftNode). t ≤ m.ps.current_term) (sym now) le,
            subst (λ (m : RaftNode). Prefix n'.log.memory.entries m.log.memory.entries) (sym now)
                (Prefix-self n'.log.memory.entries),
            (
              n'.log.memory.entries,
              crowned t n'.log.memory.entries l.base.reigns,
              Prefix-self n'.log.memory.entries,
            ),
            λ v in_votes. in_votes,
          ))
    ];
  }
