-- ===== src/Replication/Server/Durable.antt =====
-- A write that is answered with success is in the leader's log, on disk.
use wal_distributed_rs.Common.{
  length, ℕ, ◌+◌, ◌^◌, ◌<◌, ◌≡◌, ◌∙◌, refl, sym, ap, true, List, Bool-cases, inl, inr, ltb,
}
use wal_distributed_rs.Common.Exec.{Result, ok, err}
use wal_distributed_rs.Disk.{Dir}
use wal_distributed_rs.WalCore.Entry.{Crc}
use wal_distributed_rs.WalCore.Segment.Content.{disk, Table}
use wal_distributed_rs.WalCore.Wal.{WalConfig}
use wal_distributed_rs.Replication.Config.{quorum}
use wal_distributed_rs.Replication.Error.{RaftError, not_leader, quorum_not_reached}
use wal_distributed_rs.Replication.Handle
use wal_distributed_rs.Replication.Handle.{handled}
use wal_distributed_rs.Replication.Log
use wal_distributed_rs.Replication.Log.{RaftLog, last_index, open_log}
use wal_distributed_rs.Replication.Log.Restart.{open_log-Recovers}
use wal_distributed_rs.Replication.Log.Recovery.{Recovers, HasRoom, append-Recovers}
use wal_distributed_rs.Replication.Log.Replay.{IsLog, pushed}
use wal_distributed_rs.Replication.Node.{RaftNode, on_log}
use wal_distributed_rs.Replication.Node.Candidate.{Network, is_leader}
use wal_distributed_rs.Replication.Node.Events.{handle_msg}
use wal_distributed_rs.Replication.Node.Leader.{
  on_client_write, replicate_to_peers, replicate_and_commit,
}
use wal_distributed_rs.Replication.Node.Stores.{replicate_and_commit-store}
use wal_distributed_rs.Replication.Server.{WriteResponse, write}
use wal_distributed_rs.Replication.Server.Answers.{write_response-success}

module _ ⦃c : Crc⦄ where
  ok-inj : {i j : ℕ} → ◌≡◌ {A = Result RaftError ℕ} (ok i) (ok j) → i ≡ j
  ok-inj e = cc

  replicate_and_commit-index :
      (net : Network) (i j : ℕ) (n : RaftNode)
      → (replicate_and_commit net (ok i) n).0 ≡ ok j
      → i ≡ j
  unfolding replicate_and_commit
  replicate_and_commit-index net i j n h =
      elim (Bool-cases (ltb (replicate_to_peers net i n).0 (quorum n.config))) [
        | inl few ↦
            absurd
              (let no : err quorum_not_reached ≡ ok j = rw (replicate_and_commit, few) at h in cc)
        | inr enough ↦ ok-inj (rw (replicate_and_commit, enough) at h)
      ]

  -- A successful write is a round of replication behind an append.
  led_write :
      (net : Network) (payload : List ℕ) (n : RaftNode) (i : ℕ)
      → (on_client_write net payload n).0 ≡ ok i
      → let x = on_log (Log.append n.ps.current_term payload) n in
        on_client_write net payload n ≡ replicate_and_commit net x.0 x.1
  unfolding on_client_write
  led_write net payload n i h = elim (Bool-cases (is_leader n.role)) [
    | inl led ↦ rw (on_client_write, led) refl
    | inr other ↦
        absurd (
          let no : err (not_leader n.current_leader) ≡ ok i = rw (on_client_write, other) at h in
          cc)
  ]

  -- When the leader's log stands on a disk whose calls do not fail, with room for the record, and
  -- no snapshot is due, then a write that is answered with success has got the index behind the
  -- last one, and the directory that it leaves opens as the leader's log with the entry at its end.
  pub write-open_log :
      (net : Network) (payload : List ℕ) (n : RaftNode) (t : Table) (config : WalConfig)
      (resp : WriteResponse)
      → n.wal_dir ≡ disk t
      → Recovers n.log t
      → IsLog n.log.memory
      → n.ps.current_term < 2 ^ 64
      → HasRoom n.log.store (17 + length payload)
      → n.entries_since_snapshot + 1 < n.snapshot_trigger
      → n.snapshot_trigger < 2 ^ 64
      → (write net payload handled n).0 ≡ ok resp
      → resp.success ≡ true
      → (resp.index ≡ last_index n.log.memory + 1)
        × ((l : RaftLog) × (d : Dir) × (open_log config (write net payload handled n).1.wal_dir
              ≡ (ok l, d))
            × (l.memory ≡ pushed n.ps.current_term payload n.log.memory))
  unfolding write Handle.write Handle.call handle_msg
  write-open_log net payload n t config resp at stands log u64 room early u64' h s =
      let (l, t', done, memory, recovers) =
        append-Recovers n.ps.current_term payload n.log t stands log u64 room in
      let result = write_response-success (on_client_write net payload n).0 resp h s in
      let n1 : RaftNode = record n { log = l; wal_dir = disk t' } in
      let appended : on_log (Log.append n.ps.current_term payload) n
          ≡ (ok (last_index n.log.memory + 1), n1) =
        ap (λ d. on_log (Log.append n.ps.current_term payload) (record n { wal_dir = d })) at
        ∙ ap
            (λ (x : Result RaftError ℕ × (RaftLog × Dir)).
              (x.0, record n { log = x.1.0; wal_dir = x.1.1 }))
            done in
      let led : on_client_write net payload n
          ≡ replicate_and_commit net (ok (last_index n.log.memory + 1)) n1 =
        led_write net payload n resp.index result
        ∙ ap (λ (x : Result RaftError ℕ × RaftNode). replicate_and_commit net x.0 x.1) appended in
      let (same_log, same_dir, _) =
        replicate_and_commit-store net (last_index n.log.memory + 1) n1 early u64' in
      let index =
        replicate_and_commit-index net (last_index n.log.memory + 1) resp.index n1
          (ap (λ (x : Result RaftError ℕ × RaftNode). x.0) (sym led) ∙ result) in
      let (opened, reads, same_memory, _) = open_log-Recovers config l t' recovers in
      (
        sym index,
        (
          opened,
          disk t',
          ap (λ (x : Result RaftError ℕ × RaftNode). open_log config x.1.wal_dir) led
              ∙ ap (open_log config) same_dir
              ∙ reads,
          same_memory ∙ memory,
        ),
      )
