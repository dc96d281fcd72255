-- ===== src/Replication/Node/Commits.antt =====
-- A leader's writes: what it sends, and what its success means.
use mathlib.Core.Path.{subst}
use wal_distributed_rs.Common.{
  if◌then◌else◌, ℕ, ◌≡◌, ◌≤◌, ◌∙◌, ◌+◌, refl, sym, ap, List, [], ◌∷◌, arith, Bool-cases, inl, inr,
  ltb, leb, not-ltb→le, true, add64,
}
use wal_distributed_rs.Common.Exec.{Result, ok, err}
use wal_distributed_rs.WalCore.Entry.{Crc}
use wal_distributed_rs.Replication.Config.{NodeId, quorum}
use wal_distributed_rs.Replication.Error.{RaftError, quorum_not_reached, not_leader}
use wal_distributed_rs.Replication.Log
use wal_distributed_rs.Replication.Log.{last_index, entries_from}
use wal_distributed_rs.Replication.Node.{
  RaftNode, Role, follower, candidate, leader, AppendEntriesResponse, InstallSnapshotResponse,
  on_log,
}
use wal_distributed_rs.Replication.Node.Candidate.{Network, is_leader}
use wal_distributed_rs.Replication.Node.Leader.{
  ae_results, snap_results, count_ae, count_snap, replicate_to_peers, heard_ae, heard_snap,
  take_snapshot, commit, replicate_and_commit, on_client_write,
}

-- The successes among the answers.
abbrev pub ae_acks : List (NodeId × AppendEntriesResponse) → ℕ
ae_acks [] = 0
ae_acks ((id, resp) ∷ rs) = (if resp.success then 1 else 0) + ae_acks rs

abbrev pub is_installed : Result RaftError InstallSnapshotResponse → ℕ
is_installed (err e) = 0
is_installed (ok resp) = if resp.success then 1 else 0

abbrev pub snap_acks : List (NodeId × Result RaftError InstallSnapshotResponse) → ℕ
snap_acks [] = 0
snap_acks ((id, r) ∷ rs) = is_installed r + snap_acks rs

count_ae-le :
    (up_to : ℕ) (rs : List (NodeId × AppendEntriesResponse)) (acks : ℕ) (n : RaftNode)
    → (count_ae up_to rs acks n).0.0 ≤ acks + ae_acks rs
unfolding count_ae
count_ae-le up_to [] acks n = omega arith
count_ae-le up_to ((id, resp) ∷ rs) acks n = ground (
  arith,
  count_ae-le up_to rs (if resp.success then acks + 1 else acks) (heard_ae up_to id resp n),
)

count_snap-le :
    (rs : List (NodeId × Result RaftError InstallSnapshotResponse)) (acks : ℕ) (n : RaftNode)
    → (count_snap rs acks n).0 ≤ acks + snap_acks rs
unfolding count_snap
count_snap-le [] acks n = omega arith
count_snap-le ((id, err e) ∷ rs) acks n = omega (arith, count_snap-le rs acks n)
count_snap-le ((id, ok resp) ∷ rs) acks n = ground (
  arith,
  count_snap-le rs (if resp.success then acks + 1 else acks) (heard_snap id resp.success n),
)

replicate_to_peers-le :
    (net : Network) (up_to : ℕ) (n : RaftNode)
    → (replicate_to_peers net up_to n).0
      ≤ 1 + ae_acks (ae_results net up_to n n.peers) + snap_acks (snap_results net up_to n n.peers)
unfolding replicate_to_peers
replicate_to_peers-le net up_to n =
    let (counted, n') = count_ae up_to (ae_results net up_to n n.peers) 1 n in
    let ae = count_ae-le up_to (ae_results net up_to n n.peers) 1 n in
    let all = count_snap-le (snap_results net up_to n n.peers) counted.0 n' in
    elim (Bool-cases counted.1) [
      | inl stopped ↦ rw (replicate_to_peers, stopped) (omega (arith, ae))
      | inr done ↦ rw (replicate_to_peers, done) (omega (arith, ae, all))
    ]

is_leader-lem : (r : Role) → is_leader r ≡ true → r ≡ leader
is_leader-lem leader h = refl
is_leader-lem follower h = cc
is_leader-lem candidate h = cc

module _ ⦃c : Crc⦄ where
  take_snapshot-commit : (n : RaftNode) → (take_snapshot n).1.commit_index ≡ n.commit_index
  unfolding take_snapshot
  take_snapshot-commit n = ground arith

  commit-commit : (i : ℕ) (n : RaftNode) → (commit i n).commit_index ≡ i
  unfolding commit
  commit-commit i n =
      let n' : RaftNode = record n {
        commit_index = i;
        entries_since_snapshot = add64 n.entries_since_snapshot 1;
      } in
      elim (Bool-cases (leb n.snapshot_trigger (add64 n.entries_since_snapshot 1))) [
        | inl due ↦ rw due (take_snapshot-commit n')
        | inr early ↦ rw early refl
      ]

  ok-inj : {i j : ℕ} → ◌≡◌ {A = Result RaftError ℕ} (ok i) (ok j) → i ≡ j
  ok-inj e = cc

  replicate_and_commit-ok :
      (net : Network) (r : Result RaftError ℕ) (n : RaftNode) (i : ℕ)
      → (replicate_and_commit net r n).0 ≡ ok i
      → (quorum n.config
          ≤ 1 + ae_acks (ae_results net i n n.peers) + snap_acks (snap_results net i n n.peers))
        × ((replicate_and_commit net r n).1.commit_index ≡ i)
  unfolding replicate_and_commit
  replicate_and_commit-ok net (err e) n i h = cc
  replicate_and_commit-ok net (ok j) n i h =
      elim (Bool-cases (ltb (replicate_to_peers net j n).0 (quorum n.config))) [
        | inl few ↦ absurd (
            let e : err quorum_not_reached ≡ ok i =
              subst
                (λ b.
                  (let r : Result RaftError ℕ × RaftNode =
                      if b
                      then (err quorum_not_reached, (replicate_to_peers net j n).1)
                      else (ok j, commit j (replicate_to_peers net j n).1) in
                    r).0
                  ≡ ok i)
                few h in
            cc)
        | inr enough ↦
            let same : j ≡ i = ok-inj (
              subst
                (λ b.
                  (let r : Result RaftError ℕ × RaftNode =
                      if b
                      then (err quorum_not_reached, (replicate_to_peers net j n).1)
                      else (ok j, commit j (replicate_to_peers net j n).1) in
                    r).0
                  ≡ ok i)
                enough h) in
            (
              subst
                  (λ k.
                    quorum n.config
                    ≤ 1
                      + ae_acks (ae_results net k n n.peers)
                      + snap_acks (snap_results net k n n.peers))
                  same (omega (arith, not-ltb→le _ _ enough, replicate_to_peers-le net j n)),
              rw (replicate_and_commit, enough)
                  (commit-commit j (replicate_to_peers net j n).1 ∙ same),
            )
      ]

  -- A write that succeeds is one of a leader: with the leader itself, as many nodes as a quorum
  -- have answered the round of AppendEntries and InstallSnapshot with success, and the commit index
  -- is the index that is returned.
  pub on_client_write-ok :
      (net : Network) (payload : List ℕ) (n : RaftNode) (i : ℕ)
      → (on_client_write net payload n).0 ≡ ok i
      → let n1 = (on_log (Log.append n.ps.current_term payload) n).1 in
        (n.role ≡ leader)
        × (quorum n.config
            ≤ 1
              + ae_acks (ae_results net i n1 n1.peers)
              + snap_acks (snap_results net i n1 n1.peers))
        × ((on_client_write net payload n).1.commit_index ≡ i)
  unfolding on_client_write
  on_client_write-ok net payload n i h = elim (Bool-cases (is_leader n.role)) [
    | inl led ↦
        let (r, n1) = on_log (Log.append n.ps.current_term payload) n in
        let e : on_client_write net payload n ≡ replicate_and_commit net r n1 =
          rw (on_client_write, led) refl in
        let (enough, at) =
          replicate_and_commit-ok net r n1 i
            (ap (λ (x : Result RaftError ℕ × RaftNode). x.0) (sym e) ∙ h) in
        (
          is_leader-lem n.role led,
          enough,
          ap (λ (x : Result RaftError ℕ × RaftNode). x.1.commit_index) e ∙ at,
        )
    | inr other ↦ absurd (
        let e : on_client_write net payload n ≡ (err (not_leader n.current_leader), n) =
          rw (on_client_write, other) refl in
        let no : err (not_leader n.current_leader) ≡ ok i =
          ap (λ (x : Result RaftError ℕ × RaftNode). x.0) (sym e) ∙ h in
        cc)
  ]
