-- ===== src/Replication/Node/Stores.antt =====
-- Rounds of replication leave the node's own log alone.
use wal_distributed_rs.Common.Exec.{ok, err, Result}
use wal_distributed_rs.Common.{
  inr, inl, Bool-cases, arith, lt→leb, false, add64, leb, ◌^◌, ◌<◌, refl, ◌+◌, ltb, if◌then◌else◌,
  List, ℕ, Bool, ◌∙◌, ◌≡◌,
}
use wal_distributed_rs.Common.{true, false, List, [], ◌∷◌, ℕ, ◌≡◌, refl, ◌∙◌, Bool, ◌+◌, ltb, leb}
use wal_distributed_rs.WalCore.Entry.{Crc}
use wal_distributed_rs.Replication.Config.{NodeId, quorum}
use wal_distributed_rs.Replication.Error.{RaftError}
use wal_distributed_rs.Replication.Node.{
  RaftNode, leader, AppendEntriesResponse, InstallSnapshotResponse, step_down,
  become_follower_with_leader, reset_timer, advance_term,
}
use wal_distributed_rs.Replication.Node.Candidate.{Network}
use wal_distributed_rs.Replication.Node.Leader.{
  ae_results, snap_results, count_ae, count_snap, heard_ae, heard_snap, replicate_to_peers, commit,
  replicate_and_commit,
}

-- The log, its directory, and when the next snapshot is due. A node that leads then has led before,
-- in the same term.
pub record SameStore (n m : RaftNode) : Type 0 where
  pub log : m.log ≡ n.log
  pub wal_dir : m.wal_dir ≡ n.wal_dir
  pub since : m.entries_since_snapshot ≡ n.entries_since_snapshot
  pub trigger : m.snapshot_trigger ≡ n.snapshot_trigger
  pub leads : m.role ≡ leader → (n.role ≡ leader) × (m.ps.current_term ≡ n.ps.current_term)

same_refl : (n : RaftNode) → SameStore n n
same_refl n = record {
  log = refl;
  wal_dir = refl;
  since = refl;
  trigger = refl;
  leads = λ led. (led, refl);
}

same_trans : {n m o : RaftNode} → SameStore n m → SameStore m o → SameStore n o
same_trans h k = record {
  log = k.log ∙ h.log;
  wal_dir = k.wal_dir ∙ h.wal_dir;
  since = k.since ∙ h.since;
  trigger = k.trigger ∙ h.trigger;
  leads = λ led. ((h.leads (k.leads led).0).0, (k.leads led).1 ∙ (h.leads (k.leads led).0).1);
}

same-if :
    (b : Bool) {n x y : RaftNode} → SameStore n x → SameStore n y → SameStore n (if b then x else y)
same-if true h k = h
same-if false h k = k

same-step_down : (t : ℕ) (n : RaftNode) → SameStore n (step_down t n)
unfolding step_down become_follower_with_leader reset_timer advance_term
same-step_down t n = record {
  log = refl;
  wal_dir = refl;
  since = refl;
  trigger = refl;
  leads = λ led. cc;
}

same-heard_ae :
    (up_to : ℕ) (id : NodeId) (resp : AppendEntriesResponse) (n : RaftNode)
    → SameStore n (heard_ae up_to id resp n)
same-heard_ae up_to id resp n =
    same-if resp.success
      (record {
        log = refl;
        wal_dir = refl;
        since = refl;
        trigger = refl;
        leads = λ led. (led, refl);
      })
      (same-if (ltb 0 resp.conflict_index)
        (record {
          log = refl;
          wal_dir = refl;
          since = refl;
          trigger = refl;
          leads = λ led. (led, refl);
        })
        (same_refl n))

same-heard_snap :
    (id : NodeId) (success : Bool) (n : RaftNode) → SameStore n (heard_snap id success n)
same-heard_snap id success n =
    same-if success
      (record {
        log = refl;
        wal_dir = refl;
        since = refl;
        trigger = refl;
        leads = λ led. (led, refl);
      })
      (same_refl n)

-- A branch on whether an answer has a higher term.
same-higher :
    {A : Type 0} (b : Bool) {n : RaftNode} (x y : A × RaftNode)
    → SameStore n x.1
    → SameStore n y.1
    → SameStore n (if b then x else y).1
same-higher true x y h k = h
same-higher false x y h k = k

same-count_ae :
    (up_to : ℕ) (rs : List (NodeId × AppendEntriesResponse)) (acks : ℕ) (n : RaftNode)
    → SameStore n (count_ae up_to rs acks n).1
unfolding count_ae
same-count_ae up_to [] acks n = same_refl n
same-count_ae up_to ((id, resp) ∷ rs) acks n =
    same-higher (ltb n.ps.current_term resp.term) _ _ (same-step_down resp.term n) (
      same_trans (same-heard_ae up_to id resp n) (
        same-count_ae up_to rs (if resp.success then acks + 1 else acks)
          (heard_ae up_to id resp n)))

same-count_snap :
    (rs : List (NodeId × Result RaftError InstallSnapshotResponse)) (acks : ℕ) (n : RaftNode)
    → SameStore n (count_snap rs acks n).1
unfolding count_snap
same-count_snap [] acks n = same_refl n
same-count_snap ((id, err e) ∷ rs) acks n = same-count_snap rs acks n
same-count_snap ((id, ok resp) ∷ rs) acks n =
    same-higher (ltb n.ps.current_term resp.term) _ _ (same-step_down resp.term n) (
      same_trans (same-heard_snap id resp.success n) (
        same-count_snap rs (if resp.success then acks + 1 else acks)
          (heard_snap id resp.success n)))

same-replicate_to_peers :
    (net : Network) (up_to : ℕ) (n : RaftNode) → SameStore n (replicate_to_peers net up_to n).1
unfolding replicate_to_peers
same-replicate_to_peers net up_to n =
    let ae = same-count_ae up_to (ae_results net up_to n n.peers) 1 n in
    same-higher _ _ _ ae (same_trans ae (same-count_snap (snap_results net up_to n n.peers) _ _))

module _ ⦃c : Crc⦄ where
  -- The log and its directory, after the round and the commit of an entry.
  pub replicate_and_commit-store :
      (net : Network) (i : ℕ) (n : RaftNode)
      → n.entries_since_snapshot + 1 < n.snapshot_trigger
      → n.snapshot_trigger < 2 ^ 64
      → ((replicate_and_commit net (ok i) n).1.log ≡ n.log)
        × ((replicate_and_commit net (ok i) n).1.wal_dir ≡ n.wal_dir)
        × ((replicate_and_commit net (ok i) n).1.role ≡ leader
            → (n.role ≡ leader)
              × ((replicate_and_commit net (ok i) n).1.ps.current_term ≡ n.ps.current_term))
  unfolding replicate_and_commit commit
  replicate_and_commit-store net i n early u64 =
      let n2 = (replicate_to_peers net i n).1 in
      let same = same-replicate_to_peers net i n in
      let no_snapshot : leb n2.snapshot_trigger (add64 n2.entries_since_snapshot 1) ≡ false =
        lt→leb _ _ (omega (arith, same.since, same.trigger, early, u64)) in
      elim (Bool-cases (ltb (replicate_to_peers net i n).0 (quorum n.config))) [
        | inl few ↦ rw (replicate_and_commit, few) (same.log, same.wal_dir, same.leads)
        | inr enough ↦
            rw (replicate_and_commit, enough, no_snapshot) (same.log, same.wal_dir, same.leads)
      ]
