-- ===== src/Replication/Cluster/Writes.antt =====
-- A turn in which a leader writes.
use wal_distributed_rs.Common.{
  ℕ, ◌+◌, ◌^◌, ◌<◌, ◌≡◌, refl, sym, ap, ◌∙◌, some, List, [], ◌∷◌, ◌++◌, length, arith, true, false,
  inl, inr, Bool-cases, bytes_eq, bytes_eq_iff, ◌==◌, ==_iff, add64,
}
use mathlib.Core.Path.{subst}
use wal_distributed_rs.Replication.Config.{NodeId}
use wal_distributed_rs.Replication.Log.{last_index}
use wal_distributed_rs.Replication.Log.Record.{LogEntry, Memory}
use wal_distributed_rs.Replication.Log.Replay.{Follows, IsLog, pushed}
use wal_distributed_rs.Replication.Log.Entries.{pushed-IsLog}
use wal_distributed_rs.Replication.Node.{RaftNode, leader}
use wal_distributed_rs.Replication.Cluster.Reigns.{
  Reigns, crown, Grounded, Grounded-crown_more, Grounded-snoc,
}
use wal_distributed_rs.Replication.Cluster.Parts.{Whole, Led}
use wal_distributed_rs.Replication.Cluster.System.{System, extends_reign}
use wal_distributed_rs.Replication.Cluster.Sound.{
  IsSound, put_cases, LeadsOn, put-alone, crown_cases, crowned,
}

-- A node that leads, with one more entry in its log, of its term.
module _ (id : NodeId) (n : RaftNode) (payload : List ℕ) (s : System) (h : IsSound s)
    (led : (s.nodes id).role ≡ leader)
    (same : n.log.memory ≡ pushed (s.nodes id).ps.current_term payload (s.nodes id).log.memory)
    (same_term : n.role ≡ leader → n.ps.current_term ≡ (s.nodes id).ps.current_term)
    (u64 : (s.nodes id).ps.current_term < 2 ^ 64)
    (room : length (s.nodes id).log.memory.entries + 2 < 2 ^ 64) where
  now : ℕ
  now = (s.nodes id).ps.current_term

  reigns_now : Reigns
  unfolding now
  reigns_now = crown now n.log.memory.entries s.reigns

  old : List LogEntry
  old = (s.nodes id).log.memory.entries

  new : LogEntry
  new = record {
    term = (s.nodes id).ps.current_term;
    index = add64 (last_index (s.nodes id).log.memory) 1;
    payload = payload;
  }

  entries_now : n.log.memory.entries ≡ old ++ new ∷ []
  unfolding old new
  entries_now = ap (λ (m : Memory). m.entries) same

  Grounded-now : (log : List LogEntry) → Grounded s.reigns log → Grounded reigns_now log
  unfolding reigns_now now old new
  Grounded-now log g =
      subst (λ l. Grounded (crown now l s.reigns) log) (sym entries_now)
        (Grounded-crown_more s.reigns now old new log (h.leads id led) g)

  own : Whole reigns_now n.log.memory
  unfolding reigns_now now old new
  own = record {
    start = ap (λ (m : Memory). m.snapshot_index) same ∙ (h.whole id).start;
    log = subst IsLog (sym same) (
        pushed-IsLog now payload (s.nodes id).log.memory (h.whole id).log u64
          (omega (arith, room, (h.whole id).start)));
    grounded =
        subst (λ l. Grounded (crown now l s.reigns) l) (sym entries_now)
          (Grounded-snoc s.reigns now old new (h.leads id led) (h.whole id).grounded refl);
  }

  Whole-now : (m : Memory) → Whole s.reigns m → Whole reigns_now m
  Whole-now m w = record {
    start = w.start;
    log = w.log;
    grounded = Grounded-now m.entries w.grounded;
  }

  keeps : LeadsOn (s.nodes id) n
  keeps leads = (led, same_term leads)

  pub extends-IsSound : IsSound (extends_reign id n s)
  unfolding reigns_now now
  extends-IsSound = record {
    ruled =
        crown_cases now n.log.memory.entries s.reigns (Led reigns_now)
          (record {
            follows = subst (λ i. Follows i n.log.memory.entries) own.start own.log.follows;
            bound = omega (arith, own.start, own.log.bound);
            grounded = own.grounded;
          })
          (λ u log by.
            let was = h.ruled u log by in
            record {
              follows = was.follows;
              bound = was.bound;
              grounded = Grounded-now log was.grounded;
            });
    whole = λ j.
        put_cases (λ j x. Whole reigns_now x.log.memory) id n s.nodes j (λ _. own)
          (λ _. Whole-now _ (h.whole j));
    leads = λ j.
        put_cases
          (λ j x. x.role ≡ leader → reigns_now x.ps.current_term ≡ some x.log.memory.entries) id n
          s.nodes j
          (λ _ leads. ap reigns_now (same_term leads) ∙ crowned now n.log.memory.entries s.reigns)
          (λ apart leads. elim (Bool-cases ((s.nodes j).ps.current_term == now)) [
            | inl this ↦ absurd (
                let it : (bytes_eq j id) ≡ true =
                  (bytes_eq_iff j id).1 (h.alone j id leads led ((==_iff _ _).0 this)) in
                let no : true ≡ false = sym it ∙ apart in cc)
            | inr other ↦ rw other (h.leads j leads)
          ]);
    alone = put-alone id n s h keeps;
  }
