-- ===== src/Replication/Cluster/Moves.antt =====
-- What holds of a ledger's nodes and of what is recorded, from the first turn on.
use wal_distributed_rs.Common.{
  ==_iff, ◌==◌, get_elem?, Bool-cases, ℕ, ◌≡◌, refl, sym, ap, ◌∙◌, none, some, List, arith, inl,
  inr,
}
use mathlib.Core.Path.{subst}
use wal_distributed_rs.WalCore.Entry.{Crc}
use wal_distributed_rs.Replication.Config.{NodeId}
use wal_distributed_rs.Replication.Log.Record.{LogEntry}
use wal_distributed_rs.Replication.Node.{RaftNode}
use wal_distributed_rs.Replication.Node.Candidate.{start_election}
use wal_distributed_rs.Replication.Node.Follower.{on_append_entries, on_request_vote}
use wal_distributed_rs.Replication.Node.Leader.{on_client_write}
use wal_distributed_rs.Replication.Node.Once.{keeps-on_client_write}
use wal_distributed_rs.Replication.Cluster.Handlers.{on_request_vote-Idles, on_client_write-pushed}
use wal_distributed_rs.Replication.Cluster.Reigns.{Reigns, crown, some-inj}
use wal_distributed_rs.Replication.Cluster.Prefix.{Upto}
use wal_distributed_rs.Replication.Cluster.System.{Turn}
use wal_distributed_rs.Replication.Cluster.Sound.{IsSound, Begins-IsSound}
use wal_distributed_rs.Replication.Cluster.Matching.{Turn-IsSound}
use wal_distributed_rs.Replication.Cluster.Ledger.{
  In, Ack, Vote, Ledger, node_of, Move, Moves, Opens,
}
use wal_distributed_rs.Replication.Cluster.Change.{IsKept, Change}
use wal_distributed_rs.Replication.Cluster.Kept.{Change-IsKept}
use wal_distributed_rs.Replication.Cluster.Steps.{
  IsBasic, Steps, plain_node, same-Steps, heard-Steps, taken-Steps, pushed-Upto, put_same,
}
use wal_distributed_rs.Replication.Cluster.Won.{won_steps, won-Change}
use wal_distributed_rs.Replication.Cluster.Marks.{
  put_steps, turn-Change, granted-facts, voted-Change, took-Change,
}
use wal_distributed_rs.Replication.Cluster.Wrote.{write_steps, write-Change}

-- The nodes of a later ledger, given what its turn did to each of them.
stepped-IsBasic :
    (l l' : Ledger) (births : Reigns)
    → IsBasic l
    → IsSound l'.base
    → ((x : NodeId) → Steps l.base.reigns births (node_of l x) (node_of l' x))
    → ((t : ℕ) (led : List LogEntry) → l'.base.reigns t ≡ some led → Upto t led)
    → IsBasic l'
stepped-IsBasic l l' births h sound steps terms = record {
  sound = sound;
  plain_term = λ x. (steps x).no_term (h.plain_term x);
  own_terms = λ x. (steps x).upto (h.own_terms x);
  reign_terms = terms;
}

-- A log of a term that gets a leader, or more of its leader's log.
crown_terms :
    (t : ℕ) (log : List LogEntry) (l : Ledger)
    → IsBasic l
    → Upto t log
    → (u : ℕ) (led : List LogEntry) → crown t log l.base.reigns u ≡ some led
    → Upto u led
crown_terms t log l h own u led by = elim (Bool-cases (u == t)) [
  | inr other ↦ h.reign_terms u led (rw other at by)
  | inl this ↦
      let same : log ≡ led = some-inj (sym (rw this refl) ∙ by) in
      subst (λ k. Upto k led) (sym ((==_iff u t).0 this)) (subst (Upto t) same own)
]

pub Opens-IsBasic : (l : Ledger) → Opens l → IsBasic l
Opens-IsBasic l o = record {
  sound = Begins-IsSound l.base o.begins;
  plain_term = o.no_term;
  own_terms = λ x i e found. absurd (
      let no : none ≡ some e = ap (λ es. get_elem? es i) (sym (o.begins.no_entries x)) ∙ found in
      cc);
  reign_terms =
      λ t led by. absurd (let no : none ≡ some led = sym (o.begins.no_leaders t) ∙ by in cc);
}

module _ (members : List NodeId) (l : Ledger) (o : Opens l) where
  unborn : {A : Type 0} (t : ℕ) (log : List LogEntry) → l.births t ≡ some log → A
  unborn t log born = absurd (let no : none ≡ some log = sym (o.no_births t) ∙ born in cc)

  no_ack : {A : Type 0} (a : Ack) → In a l.acks → A
  no_ack a in_acks = absurd (subst (In a) o.no_acks in_acks)

  no_vote : {A : Type 0} (v : Vote) → In v l.votes → A
  no_vote v in_votes = absurd (subst (In v) o.no_votes in_votes)

  pub Opens-IsKept : IsKept members l
  Opens-IsKept = record {
    birth_reign = λ t log born. unborn t log born;
    birth_below = λ t log born. unborn t log born;
    birth_backed = λ t log born. unborn t log born;
    born = λ t led by. absurd (let no : none ≡ some led = sym (o.begins.no_leaders t) ∙ by in cc);
    ack_reign = λ a h. no_ack a h;
    ack_term = λ a h. no_ack a h;
    ack_kept = λ a b h _ _. no_ack a h;
    vote_term = λ v h. no_vote v h;
    vote_plain = λ v h. no_vote v h;
    vote_short = λ v h. no_vote v h;
    vote_grounded = λ v h. no_vote v h;
    vote_fresh = λ v h. no_vote v h;
    vote_kept = λ v a b m h _ _ _ _ _ _. no_vote v h;
  }

-- What holds, and goes on holding.
pub record Holds (members : List NodeId) (l : Ledger) : Type 0 where
  pub basic : IsBasic l
  pub kept : IsKept members l

changed-Holds :
    (members : List NodeId) (l l' : Ledger)
    → Holds members l
    → IsBasic l'
    → Change members l l'
    → Holds members l'
changed-Holds members l l' h basic change = record {
  basic = basic;
  kept =
      Change-IsKept members l l' h.kept change (plain_node l h.basic)
        (λ x. let bound = (h.basic.sound.whole x).log.bound in omega (arith, bound))
        (λ x. (h.basic.sound.whole x).grounded);
}

module _ ⦃c : Crc⦄ where
  Move-Holds :
      (members : List NodeId) {l l' : Ledger}
      → Move members l l'
      → Holds members l
      → Holds members l'
  Move-Holds members (Move.elected id net l led vacant room won) h =
      let n = node_of l id in
      let steps = won_steps members id net l h.basic h.kept led vacant room won in
      changed-Holds members l _ h
        (stepped-IsBasic l _ _ h.basic
          (Turn-IsSound (Turn.elected id net l.base led vacant) h.basic.sound) steps
          (crown_terms _ _ l h.basic (
            subst (λ (m : RaftNode). Upto m.ps.current_term m.log.memory.entries)
              (put_same id (start_election net n) l.base.nodes)
              ((steps id).upto (h.basic.own_terms id)))))
        (won-Change members id net l h.basic h.kept led vacant room won)
  Move-Holds members (Move.voted id req l given vacant) h =
      let n = node_of l id in
      let (le, now, _, same) = granted-facts req n given in
      let step : Steps l.base.reigns l.births n (on_request_vote req n).1 =
        same-Steps l.base.reigns l.births n (on_request_vote req n).1 same
          (omega (arith, le, now)) in
      changed-Holds members l _ h
        (stepped-IsBasic l _ _ h.basic
          (Turn-IsSound
            (Turn.other id (on_request_vote req n).1 l.base (on_request_vote-Idles req n))
            h.basic.sound)
          (put_steps members id (on_request_vote req n).1 l step) h.basic.reign_terms)
        (voted-Change members id req l given vacant)
  Move-Holds members (Move.wrote id net payload l led works u64 room early trigger) h =
      let n = node_of l id in
      let n' = (on_client_write net payload n).1 in
      let (same, _) = on_client_write-pushed net payload n led works early trigger in
      let le = (keeps-on_client_write net payload n).term in
      changed-Holds members l _ h
        (stepped-IsBasic l _ _ h.basic
          (Turn-IsSound (Turn.wrote id net payload l.base led works u64 room early trigger)
            h.basic.sound)
          (write_steps members id n' payload l h.basic led same le)
          (crown_terms _ _ l h.basic (pushed-Upto payload n n' same (h.basic.own_terms id))))
        (write-Change members id n' payload l h.basic led same le)
  Move-Holds members (Move.took id req log l led part before works accepted) h =
      let n = node_of l id in
      changed-Holds members l _ h
        (stepped-IsBasic l _ _ h.basic
          (Turn-IsSound (Turn.took id req l.base (inr (log, led, part, before)) works)
            h.basic.sound)
          (put_steps members id (on_append_entries req n).1 l
            (taken-Steps members l h.basic h.kept id req works log led part before accepted))
          h.basic.reign_terms)
        (took-Change members id req log l h.basic h.kept led part before works accepted)
  Move-Holds members (Move.heard id req l cut works) h =
      let n = node_of l id in
      let step = heard-Steps members l h.basic h.kept id req works cut in
      changed-Holds members l _ h
        (stepped-IsBasic l _ _ h.basic
          (Turn-IsSound (Turn.took id req l.base cut works) h.basic.sound)
          (put_steps members id (on_append_entries req n).1 l step) h.basic.reign_terms)
        (turn-Change members id (on_append_entries req n).1 l step)
  Move-Holds members (Move.other id n' l idles le) h =
      let step : Steps l.base.reigns l.births (node_of l id) n' =
        same-Steps l.base.reigns l.births (node_of l id) n' idles.memory le in
      changed-Holds members l _ h
        (stepped-IsBasic l _ _ h.basic (Turn-IsSound (Turn.other id n' l.base idles) h.basic.sound)
          (put_steps members id n' l step) h.basic.reign_terms)
        (turn-Change members id n' l step)

  Moves-Holds :
      (members : List NodeId) {l l' : Ledger}
      → Moves members l l'
      → Holds members l
      → Holds members l'
  Moves-Holds members Moves.here h = h
  Moves-Holds members (Moves.next move moves) h =
      Moves-Holds members moves (Move-Holds members move h)

  pub opened-Holds :
      (members : List NodeId) {l l' : Ledger} → Opens l → Moves members l l' → Holds members l'
  opened-Holds members {l} opens moves =
      Moves-Holds members moves
        (record { basic = Opens-IsBasic l opens; kept = Opens-IsKept members l opens })
