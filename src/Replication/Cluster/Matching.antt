-- ===== src/Replication/Cluster/Matching.antt =====
-- The logs of a cluster's nodes match.
use wal_distributed_rs.Common.{ℕ, ◌≡◌, sym, ap, ◌∙◌, some, take, get_elem?, suc}
use mathlib.Core.Path.{subst}
use wal_distributed_rs.WalCore.Entry.{Crc}
use wal_distributed_rs.Replication.Config.{NodeId}
use wal_distributed_rs.Replication.Log.{RaftLog}
use wal_distributed_rs.Replication.Log.Record.{LogEntry}
use wal_distributed_rs.Replication.Node.{RaftNode}
use wal_distributed_rs.Replication.Node.Candidate.{start_election}
use wal_distributed_rs.Replication.Node.Follower.{on_append_entries}
use wal_distributed_rs.Replication.Node.Leader.{on_client_write}
use wal_distributed_rs.Replication.Cluster.Handlers.{
  start_election-log, on_append_entries-leads, on_client_write-pushed,
}
use wal_distributed_rs.Replication.Cluster.Reigns.{Grounded-agree}
use wal_distributed_rs.Replication.Cluster.Parts.{Whole}
use wal_distributed_rs.Replication.Cluster.Follower.{on_append_entries-Whole}
use wal_distributed_rs.Replication.Cluster.System.{System, Begins, Turn, Goes}
use wal_distributed_rs.Replication.Cluster.Sound.{IsSound, Begins-IsSound, kept-IsSound}
use wal_distributed_rs.Replication.Cluster.Elects.{begins-IsSound}
use wal_distributed_rs.Replication.Cluster.Writes.{extends-IsSound}

module _ ⦃c : Crc⦄ where
  pub Turn-IsSound : {s t : System} → Turn s t → IsSound s → IsSound t
  Turn-IsSound (Turn.elected id net s led vacant) h =
      begins-IsSound id (start_election net (s.nodes id)) s h
        (ap (λ (l : RaftLog). l.memory) (start_election-log net (s.nodes id))) vacant
  Turn-IsSound (Turn.wrote id net payload s led works u64 room early trigger) h =
      let (same, term) = on_client_write-pushed net payload (s.nodes id) led works early trigger in
      extends-IsSound id (on_client_write net payload (s.nodes id)).1 payload s h led same term u64
        room
  Turn-IsSound (Turn.took id req s cut works) h =
      let n = s.nodes id in
      let n' = (on_append_entries req n).1 in
      kept-IsSound id n' s h (on_append_entries-Whole s.reigns req n h.ruled cut (h.whole id) works)
        (λ led.
          let same = on_append_entries-leads req n led in
          (
            ap (λ (x : RaftNode). x.role) (sym same) ∙ led,
            ap (λ (x : RaftNode). x.ps.current_term) same,
          ))
        (λ led. ap (λ (x : RaftNode). x.log.memory) (on_append_entries-leads req n led))
  Turn-IsSound (Turn.other id n' s idles) h =
      kept-IsSound id n' s h (subst (Whole s.reigns) (sym idles.memory) (h.whole id)) idles.leads
        (λ _. idles.memory)

  Goes-IsSound : {s t : System} → Goes s t → IsSound s → IsSound t
  Goes-IsSound Goes.here h = h
  Goes-IsSound (Goes.next turn goes) h = Goes-IsSound goes (Turn-IsSound turn h)

  -- Log Matching: in a cluster that begins with followers whose logs are empty, and takes any
  -- turns, where no term is led a second time, terms and indices stay below 2^64 while a leader
  -- writes, no snapshot comes due and followers' logs do not fail while they take entries, two
  -- nodes whose logs have entries of the same term at a place have the same entries up to there,
  -- payloads included.
  pub log_matching :
      (s t : System) (a b : NodeId) (i : ℕ) (x y : LogEntry)
      → Begins s
      → Goes s t
      → get_elem? (t.nodes a).log.memory.entries i ≡ some x
      → get_elem? (t.nodes b).log.memory.entries i ≡ some y
      → x.term ≡ y.term
      → take (suc i) (t.nodes a).log.memory.entries ≡ take (suc i) (t.nodes b).log.memory.entries
  log_matching s t a b i x y begins goes found found' same =
      let h = Goes-IsSound goes (Begins-IsSound s begins) in
      Grounded-agree t.reigns _ _ i x y (h.whole a).grounded (h.whole b).grounded found found' same
