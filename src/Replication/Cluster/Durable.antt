-- ===== src/Replication/Cluster/Durable.antt =====
-- A leader's write that succeeds, in a cluster that records its acknowledgements.
use wal_distributed_rs.Common.{
  length-append, ◌-◌, ◌++◌, if◌then◌else◌, add64, leb, ℕ, ◌+◌, ◌^◌, ◌≤◌, ◌<◌, ◌≡◌, refl, sym, ap,
  ◌∙◌, Bool, true, none, some, List, [], ◌∷◌, arith, inl, inr, length, get_elem?, Bool-cases,
}
use mathlib.Core.List.{Permᴰ}
use wal_distributed_rs.Common.Exec.{Result, ok, err}
use wal_distributed_rs.WalCore.Entry.{Crc}
use wal_distributed_rs.Replication.Config.{NodeId, NodeInfo, quorum, cluster_size}
use wal_distributed_rs.Replication.Error.{RaftError}
use wal_distributed_rs.Replication.Log
use wal_distributed_rs.Replication.Log.{last_index}
use wal_distributed_rs.Replication.Log.Record.{LogEntry, Memory}
use wal_distributed_rs.Replication.Log.Entries.{snoc-get}
use wal_distributed_rs.Replication.Node.{RaftNode, on_log}
use wal_distributed_rs.Replication.Node.Candidate.{Network, is_leader}
use wal_distributed_rs.Replication.Node.Leader.{
  ae_results, snap_results, snapshot_for, next_for, or_failed, build_append_entries_for,
  replicate_and_commit, on_client_write,
}
use wal_distributed_rs.Replication.Node.Commits.{ae_acks, snap_acks, on_client_write-ok}
use wal_distributed_rs.Replication.Node.Matching.{is_ok}
use wal_distributed_rs.Replication.Cluster.{ids}
use wal_distributed_rs.Replication.Cluster.Counts.{count, one_if, count-perm, length-perm}
use wal_distributed_rs.Replication.Cluster.Safety.{length-ids}
use wal_distributed_rs.Replication.Cluster.Handlers.{on_client_write-pushed}
use wal_distributed_rs.Replication.Cluster.Prefix.{Prefix}
use wal_distributed_rs.Replication.Cluster.Ledger.{In, Ack, Ledger, Moves, Opens}
use wal_distributed_rs.Replication.Cluster.Completeness.{Chosen}
use wal_distributed_rs.Replication.Cluster.Commitment.{leader_completeness}

-- The member has acknowledged the entries in the term.
abbrev pub HasAcked : Ledger → ℕ → List LogEntry → NodeId → Type 0
HasAcked l t log x = (a : Ack) × In a l.acks × (a.node ≡ x) × (a.term ≡ t) × Prefix log a.log

-- The peers whose answers to the leader's AppendEntries say success are members that have
-- acknowledged its log, and so is the leader.
module _ ⦃c : Crc⦄ where
  pub record Answered (members : List NodeId) (l : Ledger) (net : Network) (payload : List ℕ)
      (i : ℕ) (n : RaftNode) : Type 0 where
    pub who : NodeId → Bool
    pub each :
        (x : NodeId)
        → who x ≡ true
        → HasAcked l n.ps.current_term (on_client_write net payload n).1.log.memory.entries x
    pub own : who n.id ≡ true
    pub heard :
        (p : NodeInfo)
        → In p n.peers
        → (or_failed (
            net.append_entries p (
              build_append_entries_for p.id i
                (on_log (Log.append n.ps.current_term payload) n).1))).success
          ≡ true
        → who p.id ≡ true
    pub cluster : Permᴰ (n.id ∷ ids n.peers) members
    pub configured : n.config.peers ≡ n.peers

ae_acks-le :
    (net : Network) (i : ℕ) (n : RaftNode) (who : NodeId → Bool) (ps : List NodeInfo)
    → n.snapshot ≡ none
    → ((p : NodeInfo)
        → In p ps
        → (or_failed (net.append_entries p (build_append_entries_for p.id i n))).success ≡ true
        → who p.id ≡ true)
    → ae_acks (ae_results net i n ps) + snap_acks (snap_results net i n ps) ≤ count who (ids ps)
unfolding ae_results snap_results snapshot_for
ae_acks-le net i n who [] no_snapshot h = omega arith
ae_acks-le net i n who (p ∷ ps) no_snapshot h =
    let others = ae_acks-le net i n who ps no_snapshot (λ q later. h q (inr later)) in
    let to_peer : snapshot_for p i n ≡ none =
      elim (Bool-cases (leb (next_for p.id i n) n.log.memory.snapshot_index)) [
        | inl behind ↦ rw (snapshot_for, behind) no_snapshot
        | inr near ↦ rw (snapshot_for, near) refl
      ] in
    let answer = or_failed (net.append_entries p (build_append_entries_for p.id i n)) in
    let one : (if answer.success then 1 else 0) ≤ one_if (who p.id) =
      elim (Bool-cases answer.success) [
        | inl given ↦ rw (given, h p (inl refl) given) (omega arith)
        | inr refused ↦ rw refused (omega arith)
      ] in
    rw (ae_results, snap_results, to_peer) (omega (arith, others, one))

module _ ⦃c : Crc⦄ where
  on_client_write-logged :
      (net : Network) (payload : List ℕ) (n : RaftNode) (i : ℕ)
      → (on_client_write net payload n).0 ≡ ok i
      → is_ok (on_log (Log.append n.ps.current_term payload) n).0 ≡ true
  unfolding on_client_write replicate_and_commit
  on_client_write-logged net payload n i done =
      logged (on_log (Log.append n.ps.current_term payload) n).0 refl
    where
      led : is_leader n.role ≡ true
      led = ap is_leader (on_client_write-ok net payload n i done).0

      logged :
          (r : Result RaftError ℕ)
          → (on_log (Log.append n.ps.current_term payload) n).0 ≡ r
          → is_ok r ≡ true
      logged (ok j) e = refl
      logged (err x) e = absurd (
          let n1 = (on_log (Log.append n.ps.current_term payload) n).1 in
          let no : err x ≡ ok i =
            sym (
              let run : on_client_write net payload n
                  ≡ replicate_and_commit net (on_log (Log.append n.ps.current_term payload) n).0
                      n1 =
                rw (on_client_write, led) refl in
              ap (λ (y : Result RaftError ℕ × RaftNode). y.0)
                (run ∙ ap (λ r. replicate_and_commit net r n1) e))
            ∙ done in
          cc)

  -- The entries of a write that succeeds are acknowledged by more than half of the members.
  written-Chosen :
      (members : List NodeId) (l : Ledger) (net : Network) (payload : List ℕ) (n : RaftNode) (i : ℕ)
      → (on_client_write net payload n).0 ≡ ok i
      → n.entries_since_snapshot + 1 < n.snapshot_trigger
      → n.snapshot_trigger < 2 ^ 64
      → n.snapshot ≡ none
      → Answered members l net payload i n
      → Chosen members l n.ps.current_term (on_client_write net payload n).1.log.memory.entries
  unfolding quorum cluster_size
  written-Chosen members l net payload n i done early trigger no_snapshot answered =
      let (led, enough, _) = on_client_write-ok net payload n i done in
      let (same, _) =
        on_client_write-pushed net payload n led (on_client_write-logged net payload n i done) early
          trigger in
      let n1 = (on_log (Log.append n.ps.current_term payload) n).1 in
      let counted = ae_acks-le net i n1 answered.who n.peers no_snapshot answered.heard in
      let new : LogEntry = record {
        term = n.ps.current_term;
        index = add64 (last_index n.log.memory) 1;
        payload = payload;
      } in
      let grown : (on_client_write net payload n).1.log.memory.entries
          ≡ n.log.memory.entries ++ new ∷ [] =
        ap (λ (m : Memory). m.entries) same in
      record {
        last = new;
        at_end =
            ap (λ xs. get_elem? xs (length xs - 1)) grown
            ∙ snoc-get (length (n.log.memory.entries ++ new ∷ []) - 1) n.log.memory.entries new
                (omega (arith, length-append n.log.memory.entries (new ∷ [])));
        of_term = refl;
        acked = record {
          who = answered.who;
          many = omega (
            arith,
            enough,
            counted,
            ap one_if answered.own,
            count-perm answered.who answered.cluster,
            length-perm answered.cluster,
            length-ids n.peers,
            ap length answered.configured,
          );
          each = answered.each;
        };
      }

  -- A write that succeeds is durable: in a cluster that begins with followers whose logs are empty,
  -- and takes any turns, where no term is led a second time, a node wins with the recorded votes of
  -- more than half of the members, terms and indices stay below 2^64, no snapshot comes due and
  -- followers' logs do not fail while they take entries, when the leader and the peers that
  -- answered its AppendEntries with success have acknowledged its log in its term, the members are
  -- the leader and the peers of its configuration, and it has no snapshot and none comes due, the
  -- leader's log with the new entry stands at the start of the log of the leader of its term and of
  -- every later one.
  pub write_durable :
      (members : List NodeId) (l l' : Ledger) (net : Network) (payload : List ℕ) (n : RaftNode)
      (i u : ℕ) (later : List LogEntry)
      → Opens l
      → Moves members l l'
      → (on_client_write net payload n).0 ≡ ok i
      → n.entries_since_snapshot + 1 < n.snapshot_trigger
      → n.snapshot_trigger < 2 ^ 64
      → n.snapshot ≡ none
      → Answered members l' net payload i n
      → n.ps.current_term ≤ u
      → l'.base.reigns u ≡ some later
      → Prefix (on_client_write net payload n).1.log.memory.entries later
  write_durable members l l' net payload n i u later opens moves done early trigger no_snapshot
        answered le by =
      leader_completeness members l l' n.ps.current_term u _ later opens moves
        (written-Chosen members l' net payload n i done early trigger no_snapshot answered) le by
