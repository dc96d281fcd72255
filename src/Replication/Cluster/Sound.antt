-- ===== src/Replication/Cluster/Sound.antt =====
-- What holds of a cluster between turns.
use wal_distributed_rs.Common.{
  ℕ, ◌≡◌, refl, sym, ap, ◌∙◌, none, some, List, length, arith, false, inl, inr, Bool-cases,
  bytes_eq, bytes_eq_iff, ◌==◌, ==_iff,
}
use mathlib.Core.Path.{subst}
use wal_distributed_rs.Replication.Config.{NodeId}
use wal_distributed_rs.Replication.Log.Record.{LogEntry, Memory}
use wal_distributed_rs.Replication.Log.Replay.{Follows}
use wal_distributed_rs.Replication.Node.{RaftNode, leader, follower}
use wal_distributed_rs.Replication.Cluster.Reigns.{some-inj, Reigns, crown, Grounded}
use wal_distributed_rs.Replication.Cluster.Parts.{Whole}
use wal_distributed_rs.Replication.Cluster.Follower.{Ruled}
use wal_distributed_rs.Replication.Cluster.System.{System, put_node, Begins}

-- Every log is grounded in those of the leaders, and a node that leads has the log of its term's
-- leader.
pub record IsSound (s : System) : Type 0 where
  pub ruled : Ruled s.reigns
  pub whole : (id : NodeId) → Whole s.reigns (s.nodes id).log.memory
  pub leads :
      (id : NodeId)
      → (s.nodes id).role ≡ leader
      → s.reigns (s.nodes id).ps.current_term ≡ some (s.nodes id).log.memory.entries
  pub alone :
      (a b : NodeId)
      → (s.nodes a).role ≡ leader
      → (s.nodes b).role ≡ leader
      → (s.nodes a).ps.current_term ≡ (s.nodes b).ps.current_term
      → a ≡ b

pub Begins-IsSound : (s : System) → Begins s → IsSound s
Begins-IsSound s h = record {
  ruled = λ t log led. absurd (let no : none ≡ some log = sym (h.no_leaders t) ∙ led in cc);
  whole = λ id. record {
    start = h.no_snapshot id;
    log = record {
      follows = subst (Follows (s.nodes id).log.memory.snapshot_index) (sym (h.no_entries id)) tt;
      bound = omega (arith, h.no_snapshot id, ap (length {A = LogEntry}) (h.no_entries id));
    };
    grounded = subst (Grounded s.reigns) (sym (h.no_entries id)) (λ i e found. cc);
  };
  leads = λ id led. absurd (let no : follower ≡ leader = sym (h.followers id) ∙ led in cc);
  alone = λ a b led _ _. absurd (let no : follower ≡ leader = sym (h.followers a) ∙ led in cc);
}

-- Of all nodes, one has changed.
pub put_cases :
    (P : NodeId → RaftNode → Type 0) (id : NodeId) (n : RaftNode) (nodes : NodeId → RaftNode)
    (j : NodeId)
    → (j ≡ id → P j n)
    → ((bytes_eq j id ≡ false) → P j (nodes j))
    → P j (put_node id n nodes j)
put_cases P id n nodes j this others = elim (Bool-cases (bytes_eq j id)) [
  | inl same ↦ rw same (this ((bytes_eq_iff j id).0 same))
  | inr apart ↦ rw apart (others apart)
]

abbrev pub LeadsOn : RaftNode → RaftNode → Type 0
LeadsOn n m = m.role ≡ leader → (n.role ≡ leader) × (m.ps.current_term ≡ n.ps.current_term)

pub put-LeadsOn :
    (id : NodeId) (n : RaftNode) (nodes : NodeId → RaftNode)
    → LeadsOn (nodes id) n
    → (j : NodeId) → LeadsOn (nodes j) (put_node id n nodes j)
put-LeadsOn id n nodes keeps j =
    put_cases (λ j x. LeadsOn (nodes j) x) id n nodes j
      (λ this. subst (λ k. LeadsOn (nodes k) n) (sym this) keeps) (λ _ led. (led, refl))

-- Where a node leads on, if it leads, no two nodes come to lead a term.
pub put-alone :
    (id : NodeId) (n : RaftNode) (s : System)
    → IsSound s
    → LeadsOn (s.nodes id) n
    → (a b : NodeId) → (put_node id n s.nodes a).role ≡ leader
    → (put_node id n s.nodes b).role ≡ leader
    → (put_node id n s.nodes a).ps.current_term ≡ (put_node id n s.nodes b).ps.current_term
    → a ≡ b
put-alone id n s h keeps a b led_a led_b same =
    let (was_a, term_a) = put-LeadsOn id n s.nodes keeps a led_a in
    let (was_b, term_b) = put-LeadsOn id n s.nodes keeps b led_b in
    h.alone a b was_a was_b (sym term_a ∙ same ∙ term_b)

-- A turn in which the leaders' logs stay.
pub kept-IsSound :
    (id : NodeId) (n : RaftNode) (s : System)
    → IsSound s
    → Whole s.reigns n.log.memory
    → LeadsOn (s.nodes id) n
    → (n.role ≡ leader → n.log.memory ≡ (s.nodes id).log.memory)
    → IsSound (record s { nodes = put_node id n s.nodes })
kept-IsSound id n s h whole keeps same = record {
  ruled = h.ruled;
  whole = λ j.
      put_cases (λ j x. Whole s.reigns x.log.memory) id n s.nodes j (λ _. whole) (λ _. h.whole j);
  leads = λ j.
      put_cases (λ j x. x.role ≡ leader → s.reigns x.ps.current_term ≡ some x.log.memory.entries) id
        n s.nodes j
        (λ _ led.
          let (was, term) = keeps led in
          ap s.reigns term ∙ h.leads id was ∙ ap (λ (m : Memory). some m.entries) (sym (same led)))
        (λ _ led. h.leads j led);
  alone = put-alone id n s h keeps;
}

-- The log of a term's leader, where that is a new one.
pub crown_cases :
    (t : ℕ) (log : List LogEntry) (r : Reigns) (P : List LogEntry → Type 0)
    → P log
    → ((u : ℕ) (l : List LogEntry) → r u ≡ some l → P l)
    → (u : ℕ) (l : List LogEntry) → crown t log r u ≡ some l
    → P l
crown_cases t log r P new old u l led = elim (Bool-cases (u == t)) [
  | inl this ↦ subst P (some-inj (sym (rw this refl) ∙ led)) new
  | inr other ↦ old u l (rw other at led)
]

pub crowned : (t : ℕ) (log : List LogEntry) (r : Reigns) → crown t log r t ≡ some log
crowned t log r = rw ((==_iff t t).1 refl) refl
