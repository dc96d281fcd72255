-- ===== src/Replication/Cluster/Commitment.antt =====
-- Entries that more than half of the members have acknowledged: all later leaders have them, and
-- all such logs agree.
use wal_distributed_rs.Common.{
  ℕ, ◌≤◌, ◌≡◌, ◌⊎◌, sym, ap, ◌∙◌, some, List, arith, inl, inr, suc, leb, leb→le, not-leb→lt,
  Bool-cases, ◌==◌, ==_iff,
}
use mathlib.Core.Path.{subst}
use wal_distributed_rs.WalCore.Entry.{Crc}
use wal_distributed_rs.Replication.Config.{NodeId}
use wal_distributed_rs.Replication.Log.Record.{LogEntry}
use wal_distributed_rs.Replication.Cluster.Counts.{counts_overlap}
use wal_distributed_rs.Replication.Cluster.Reigns.{some-inj}
use wal_distributed_rs.Replication.Cluster.Prefix.{Prefix, Prefix-trans, Prefix-either}
use wal_distributed_rs.Replication.Cluster.Ledger.{Ledger, Moves, Opens}
use wal_distributed_rs.Replication.Cluster.Change.{HasReign}
use wal_distributed_rs.Replication.Cluster.Completeness.{Chosen, later-Prefix}
use wal_distributed_rs.Replication.Cluster.Moves.{Holds, opened-Holds}

module _ (members : List NodeId) (l : Ledger) (h : Holds members l) where
  -- Some member has acknowledged the entries, in their term: its leader has them.
  pub Chosen-reign : (t : ℕ) (a : List LogEntry) → Chosen members l t a → HasReign l.base.reigns t a
  Chosen-reign t a chosen =
      let (x, has, _) =
        counts_overlap chosen.acked.who chosen.acked.who members
          (omega (arith, chosen.acked.many)) in
      let (k, in_acks, _, term, part) = chosen.acked.each x has in
      let (led, by, first) = h.kept.ack_reign k in_acks in
      (led, ap l.base.reigns (sym term) ∙ by, Prefix-trans a k.log led part first)

  pub Chosen-led :
      (t u : ℕ) (a led : List LogEntry)
      → Chosen members l t a
      → t ≤ u
      → l.base.reigns u ≡ some led
      → Prefix a led
  Chosen-led t u a led chosen le by = elim (Bool-cases (t == u)) [
    | inl same ↦
        let (led', by', part) = Chosen-reign t a chosen in
        subst (Prefix a) (some-inj (sym by' ∙ ap l.base.reigns ((==_iff t u).0 same) ∙ by)) part
    | inr apart ↦
        let (log, born) = h.kept.born u led by in
        let (led', by', first) = h.kept.birth_reign u log born in
        subst (Prefix a) (some-inj (sym by' ∙ by)) (
          Prefix-trans a log led'
            (later-Prefix members l h.kept (λ t led by. (h.basic.sound.ruled t led by).grounded)
              h.basic.reign_terms t a chosen (suc u) u log (omega arith) (ground (arith, apart, le))
              born)
            first)
  ]

  Chosen-either :
      (t u : ℕ) (a b : List LogEntry)
      → Chosen members l t a
      → Chosen members l u b
      → t ≤ u
      → Prefix a b ⊎ Prefix b a
  Chosen-either t u a b chosen chosen' le =
      let (led, by, part) = Chosen-reign u b chosen' in
      Prefix-either a b led (Chosen-led t u a led chosen le by) part

module _ ⦃c : Crc⦄ where
  -- Leader Completeness: in a cluster that begins with followers whose logs are empty, and takes
  -- any turns, where no term is led a second time, a node wins with the recorded votes of more than
  -- half of the members, terms and indices stay below 2^64, no snapshot comes due and followers'
  -- logs do not fail while they take entries, entries of which the last is of the term `t`, and
  -- that more than half of the members have acknowledged in that term, stand at the start of the
  -- log of the leader of `t` and of every later term.
  pub leader_completeness :
      (members : List NodeId) (l l' : Ledger) (t u : ℕ) (a led : List LogEntry)
      → Opens l
      → Moves members l l'
      → Chosen members l' t a
      → t ≤ u
      → l'.base.reigns u ≡ some led
      → Prefix a led
  leader_completeness members l l' t u a led opens moves chosen le by =
      Chosen-led members l' (opened-Holds members opens moves) t u a led chosen le by

  -- State Machine Safety: in a cluster that begins with followers whose logs are empty, and takes
  -- any turns, where no term is led a second time, a node wins with the recorded votes of more than
  -- half of the members, terms and indices stay below 2^64, no snapshot comes due and followers'
  -- logs do not fail while they take entries, of two lists of entries that more than half of the
  -- members have acknowledged, each in the term of its last entry, one is the start of the other.
  pub state_machine_safety :
      (members : List NodeId) (l l' : Ledger) (t u : ℕ) (a b : List LogEntry)
      → Opens l
      → Moves members l l'
      → Chosen members l' t a
      → Chosen members l' u b
      → Prefix a b ⊎ Prefix b a
  state_machine_safety members l l' t u a b opens moves chosen chosen' =
      let h = opened-Holds members opens moves in
      elim (Bool-cases (leb t u)) [
        | inl first ↦ Chosen-either members l' h t u a b chosen chosen' (leb→le _ _ first)
        | inr second ↦
            let le : u ≤ t = omega (arith, not-leb→lt _ _ second) in
            elim (Chosen-either members l' h u t b a chosen' chosen le) [
              | inl part ↦ inr part
              | inr part ↦ inl part
            ]
      ]
