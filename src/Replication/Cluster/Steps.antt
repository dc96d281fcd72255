-- ===== src/Replication/Cluster/Steps.antt =====
-- What a turn does to the node whose turn it is: its term, its log, and the parts of it that
-- leaders share.
use wal_distributed_rs.Common.{
  ℕ, ◌≤◌, ◌≡◌, refl, sym, ap, ◌∙◌, some, List, [], ◌∷◌, ◌++◌, arith, true, inl, inr, length,
  length-append, get_elem?, Bool-cases, ltb, ltb→lt, not-ltb→le, ◌==◌, ==_iff, bytes_eq_iff,
}
use mathlib.Core.Path.{subst}
use wal_distributed_rs.WalCore.Entry.{Crc}
use wal_distributed_rs.Replication.Config.{NodeId}
use wal_distributed_rs.Replication.Log.{RaftLog}
use wal_distributed_rs.Replication.Log.Record.{LogEntry, Memory}
use wal_distributed_rs.Replication.Log.Replay.{pushed}
use wal_distributed_rs.Replication.Log.Terms.{get_elem?-lt}
use wal_distributed_rs.Replication.Log.Entries.{snoc-get}
use wal_distributed_rs.Replication.Node.{RaftNode, AppendEntriesRequest}
use wal_distributed_rs.Replication.Node.Follower.{follow, take_entries, on_append_entries}
use wal_distributed_rs.Replication.Node.Logs.{follow-log, on_append_entries_lem}
use wal_distributed_rs.Replication.Node.Accepted.{accepted-log}
use wal_distributed_rs.Replication.Node.Matching.{entries_ok}
use wal_distributed_rs.Replication.Cluster.Reigns.{Reigns, some-inj, get-append_le}
use wal_distributed_rs.Replication.Cluster.Parts.{PartAt}
use wal_distributed_rs.Replication.Cluster.Requests.{Before, Cut}
use wal_distributed_rs.Replication.Cluster.Prefix.{Prefix, Upto, Prefix-append, Prefix-trans}
use wal_distributed_rs.Replication.Cluster.Takes.{
  accepted_keeps-Prefix, accepted_keeps-Upto, accepted-snapshot_term,
}
use wal_distributed_rs.Replication.Cluster.System.{put_node}
use wal_distributed_rs.Replication.Cluster.Sound.{IsSound, put_cases}
use wal_distributed_rs.Replication.Cluster.Ledger.{Ledger, node_of}
use wal_distributed_rs.Replication.Cluster.Change.{plain, Clear, HasReign, IsKept}

-- What holds of the nodes: no entry has a term above its node's, and no leader's log has one above
-- the leader's.
pub record IsBasic (l : Ledger) : Type 0 where
  pub sound : IsSound l.base
  pub plain_term : (x : NodeId) → (node_of l x).log.memory.snapshot_term ≡ 0
  pub own_terms : (x : NodeId) → Upto (node_of l x).ps.current_term (node_of l x).log.memory.entries
  pub reign_terms : (t : ℕ) (led : List LogEntry) → l.base.reigns t ≡ some led → Upto t led

pub plain_node :
    (l : Ledger)
    → IsBasic l
    → (x : NodeId) → (node_of l x).log.memory ≡ plain (node_of l x).log.memory.entries
plain_node l h x =
    let m = (node_of l x).log.memory in
    let start = (h.sound.whole x).start in
    let term = h.plain_term x in
    λ i. record { entries = m.entries; snapshot_index = start i; snapshot_term = term i }

pub put_same : (id : NodeId) (n : RaftNode) (nodes : NodeId → RaftNode) → put_node id n nodes id ≡ n
put_same id n nodes = rw ((bytes_eq_iff id id).1 refl) refl

-- A node's turn: what it has of a leader's log it keeps, unless a later leader did not have it.
pub record Steps (r births : Reigns) (n n' : RaftNode) : Type 0 where
  pub term : n.ps.current_term ≤ n'.ps.current_term
  pub logs :
      (b : List LogEntry) (t : ℕ)
      → t ≤ n.ps.current_term
      → HasReign r t b
      → Clear births b t n'.ps.current_term
      → Prefix b n.log.memory.entries
      → Prefix b n'.log.memory.entries
  pub no_term : n.log.memory.snapshot_term ≡ 0 → n'.log.memory.snapshot_term ≡ 0
  pub upto :
      Upto n.ps.current_term n.log.memory.entries → Upto n'.ps.current_term n'.log.memory.entries

pub same-Steps :
    (r births : Reigns) (n n' : RaftNode)
    → n'.log.memory ≡ n.log.memory
    → n.ps.current_term ≤ n'.ps.current_term
    → Steps r births n n'
same-Steps r births n n' same le = record {
  term = le;
  logs = λ b t _ _ _ part. subst (λ (m : Memory). Prefix b m.entries) (sym same) part;
  no_term = λ h. ap (λ (m : Memory). m.snapshot_term) same ∙ h;
  upto = λ h i e found.
      let below = h i e (ap (λ (m : Memory). get_elem? m.entries i) (sym same) ∙ found) in
      omega (arith, below, le);
}

pub put-Steps :
    (r births : Reigns) (id : NodeId) (n' : RaftNode) (nodes : NodeId → RaftNode)
    → Steps r births (nodes id) n'
    → (x : NodeId) → Steps r births (nodes x) (put_node id n' nodes x)
put-Steps r births id n' nodes s x =
    put_cases (λ j m. Steps r births (nodes j) m) id n' nodes x
      (λ this. subst (λ k. Steps r births (nodes k) n') (sym this) s)
      (λ _. same-Steps r births (nodes x) (nodes x) refl (omega arith))

Upto-snoc :
    (m k : ℕ) (xs : List LogEntry) (new : LogEntry)
    → Upto m xs
    → m ≤ k
    → new.term ≤ k
    → Upto k (xs ++ new ∷ [])
Upto-snoc m k xs new h le term i e found = elim (Bool-cases (ltb i (length xs))) [
  | inl old ↦
      let below = h i e (sym (get-append_le i xs (new ∷ []) (ltb→lt _ _ old)) ∙ found) in
      omega (arith, below, le)
  | inr at_end ↦
      let short = get_elem?-lt (xs ++ new ∷ []) i e found in
      let last : i ≡ length xs =
        omega (arith, not-ltb→le _ _ at_end, short, length-append xs (new ∷ [])) in
      let this : e ≡ new =
        some-inj
          (sym found ∙ ap (get_elem? (xs ++ new ∷ [])) last ∙ snoc-get (length xs) xs new refl) in
      omega (arith, ap (λ (x : LogEntry). x.term) this, term)
]

-- The leader's log has no term above the leader's.
pub pushed-Upto :
    (payload : List ℕ) (n n' : RaftNode)
    → n'.log.memory ≡ pushed n.ps.current_term payload n.log.memory
    → Upto n.ps.current_term n.log.memory.entries
    → Upto n.ps.current_term n'.log.memory.entries
pushed-Upto payload n n' same h =
    subst (λ (m : Memory). Upto n.ps.current_term m.entries) (sym same)
      (Upto-snoc n.ps.current_term n.ps.current_term n.log.memory.entries _ h (omega arith)
        (omega arith))

pub pushed-Steps :
    (r births : Reigns) (payload : List ℕ) (n n' : RaftNode)
    → n'.log.memory ≡ pushed n.ps.current_term payload n.log.memory
    → n.ps.current_term ≤ n'.ps.current_term
    → Steps r births n n'
pushed-Steps r births payload n n' same le = record {
  term = le;
  logs = λ b t _ _ _ part.
      subst (λ (m : Memory). Prefix b m.entries) (sym same)
        (Prefix-append b n.log.memory.entries _ part);
  no_term = λ h. ap (λ (m : Memory). m.snapshot_term) same ∙ h;
  upto = λ h.
      subst (λ (m : Memory). Upto n'.ps.current_term m.entries) (sym same)
        (Upto-snoc n.ps.current_term n'.ps.current_term n.log.memory.entries _ h le le);
}

module _ ⦃c : Crc⦄ (members : List NodeId) (l : Ledger) (basic : IsBasic l)
    (h : IsKept members l) where
  -- What leads to the leader of a later term: a part of an earlier leader's log that those between
  -- had.
  pub Prefix-led :
      (b log : List LogEntry) (t u : ℕ)
      → t ≤ u
      → HasReign l.base.reigns t b
      → Clear l.births b t u
      → l.base.reigns u ≡ some log
      → Prefix b log
  Prefix-led b log t u le (led, by, part) clear now = elim (Bool-cases (t == u)) [
    | inl same ↦
        subst (Prefix b) (some-inj (sym by ∙ ap l.base.reigns ((==_iff t u).0 same) ∙ now)) part
    | inr apart ↦
        let (first, born) = h.born u log now in
        let (led', by', more) = h.birth_reign u first born in
        subst (Prefix b) (some-inj (sym by' ∙ now)) (
          Prefix-trans b first led' (clear u first (ground (arith, apart, le)) (omega arith) born)
            more)
  ]

  module _ (id : NodeId) (req : AppendEntriesRequest)
      (works : entries_ok req.entries (follow req.term req.leader_id (node_of l id)) ≡ true) where
    -- A request that is accepted, of the log of the leader of its term.
    pub taken-Steps :
        (log : List LogEntry)
        → l.base.reigns req.term ≡ some log
        → PartAt req.prev_log_index req.entries log
        → Before req log
        → (on_append_entries req (node_of l id)).0.success ≡ true
        → Steps l.base.reigns l.births (node_of l id) (on_append_entries req (node_of l id)).1
    taken-Steps log led part before accepted =
        let n = node_of l id in
        let (iff, _, _, _, now) = on_append_entries_lem req n in
        let (current, _) = iff.0 accepted in
        let of_led = basic.sound.ruled req.term log led in
        let whole = basic.sound.whole id in
        let term : (on_append_entries req n).1.ps.current_term ≡ req.term =
          omega (arith, now, current) in
        record {
          term = omega (arith, now);
          logs = λ b t le reign clear had.
              accepted_keeps-Prefix l.base.reigns req n log of_led part before whole works accepted
                b
                (Prefix-led b log t req.term (omega (arith, le, current)) reign
                  (subst (Clear l.births b t) term clear) led)
                had;
          no_term =
              accepted-snapshot_term l.base.reigns req n log of_led part before whole works
                accepted;
          upto = λ below.
              subst (λ k. Upto k (on_append_entries req n).1.log.memory.entries) (sym term)
                (accepted_keeps-Upto l.base.reigns req n log of_led part before whole works accepted
                  req.term (basic.reign_terms req.term log led)
                  (λ i e found. omega (arith, below i e found, current)));
        }

    pub heard-Steps :
        Cut l.base.reigns req
        → Steps l.base.reigns l.births (node_of l id) (on_append_entries req (node_of l id)).1
    unfolding take_entries
    heard-Steps cut =
        let n = node_of l id in
        let (iff, kept, _, _, now) = on_append_entries_lem req n in
        let alone = same-Steps l.base.reigns l.births n (on_append_entries req n).1 in
        let same_memory : (on_append_entries req n).1.log ≡ n.log
            → (on_append_entries req n).1.log.memory ≡ n.log.memory =
          ap (λ (x : RaftLog). x.memory) in
        elim kept [
          | inr (same, _) ↦ alone (same_memory same) (omega (arith, now))
          | inl accepted ↦ elim cut [
            | inr (log, led, part, before) ↦ taken-Steps log led part before accepted
            | inl nothing ↦
                let (current, agrees) = iff.0 accepted in
                let n' = follow req.term req.leader_id n in
                alone
                  (same_memory (
                    accepted-log req n current agrees
                    ∙ ap (λ es. (take_entries es n').log) nothing
                    ∙ follow-log req.term req.leader_id n))
                  (omega (arith, now))
          ]
        ]
