-- ===== src/Replication/Cluster/Elects.antt =====
-- A turn in which a node wins an election.
use wal_distributed_rs.Common.{
  ◌≢◌, ◌≡◌, sym, ap, ◌∙◌, none, some, arith, inl, inr, Bool-cases, ◌==◌, ==_iff,
}
use mathlib.Core.Path.{subst}
use wal_distributed_rs.Replication.Config.{NodeId}
use wal_distributed_rs.Replication.Log.Record.{Memory}
use wal_distributed_rs.Replication.Log.Replay.{Follows}
use wal_distributed_rs.Replication.Node.{RaftNode, leader}
use wal_distributed_rs.Replication.Cluster.Reigns.{Reigns, crown, Grounded-crown_new}
use wal_distributed_rs.Replication.Cluster.Parts.{Whole, Led}
use wal_distributed_rs.Replication.Cluster.System.{System, put_node, begins_reign}
use wal_distributed_rs.Replication.Cluster.Sound.{IsSound, put_cases, crown_cases, crowned}

-- A node that leads a term which had no leader.
module _ (id : NodeId) (n : RaftNode) (s : System) (h : IsSound s)
    (same : n.log.memory ≡ (s.nodes id).log.memory)
    (vacant : s.reigns n.ps.current_term ≡ none) where
  reigns_now : Reigns
  reigns_now = crown n.ps.current_term n.log.memory.entries s.reigns

  Whole-new : (m : Memory) → Whole s.reigns m → Whole reigns_now m
  unfolding reigns_now
  Whole-new m w = record {
    start = w.start;
    log = w.log;
    grounded =
        Grounded-crown_new s.reigns n.ps.current_term n.log.memory.entries m.entries vacant
          w.grounded;
  }

  no_leader_yet :
      (j : NodeId) → (s.nodes j).role ≡ leader → (s.nodes j).ps.current_term ≢ n.ps.current_term
  no_leader_yet j led e =
      let no : some (s.nodes j).log.memory.entries ≡ none =
        sym (h.leads j led) ∙ ap s.reigns e ∙ vacant in
      cc

  pub begins-IsSound : IsSound (begins_reign id n s)
  unfolding reigns_now
  begins-IsSound =
      let own : Whole reigns_now n.log.memory =
        subst (Whole reigns_now) (sym same) (Whole-new _ (h.whole id)) in
      record {
        ruled =
            crown_cases n.ps.current_term n.log.memory.entries s.reigns (Led reigns_now)
              (record {
                follows = subst (λ i. Follows i n.log.memory.entries) own.start own.log.follows;
                bound = omega (arith, own.start, own.log.bound);
                grounded = own.grounded;
              })
              (λ u log led.
                let was = h.ruled u log led in
                record {
                  follows = was.follows;
                  bound = was.bound;
                  grounded =
                      Grounded-crown_new s.reigns n.ps.current_term n.log.memory.entries log vacant
                        was.grounded;
                });
        whole = λ j.
            put_cases (λ j x. Whole reigns_now x.log.memory) id n s.nodes j (λ _. own)
              (λ _. Whole-new _ (h.whole j));
        leads = λ j.
            put_cases
              (λ j x. x.role ≡ leader → reigns_now x.ps.current_term ≡ some x.log.memory.entries) id
              n s.nodes j (λ _ _. crowned n.ps.current_term n.log.memory.entries s.reigns)
              (λ _ led. elim (Bool-cases ((s.nodes j).ps.current_term == n.ps.current_term)) [
                | inl this ↦ absurd (no_leader_yet j led ((==_iff _ _).0 this))
                | inr apart ↦ rw apart (h.leads j led)
              ]);
        alone = λ a b.
            put_cases
              (λ a x.
                x.role ≡ leader
                → (put_node id n s.nodes b).role ≡ leader
                → x.ps.current_term ≡ (put_node id n s.nodes b).ps.current_term
                → a ≡ b)
              id n s.nodes a
              (λ this_a _.
                put_cases (λ b y. y.role ≡ leader → n.ps.current_term ≡ y.ps.current_term → a ≡ b)
                  id n s.nodes b (λ this_b _ _. this_a ∙ sym this_b)
                  (λ _ led e. absurd (no_leader_yet b led (sym e))))
              (λ _ led_a.
                put_cases
                  (λ b y. y.role ≡ leader → (s.nodes a).ps.current_term ≡ y.ps.current_term → a ≡ b)
                  id n s.nodes b (λ _ _ e. absurd (no_leader_yet a led_a e))
                  (λ _ led_b e. h.alone a b led_a led_b e));
      }
