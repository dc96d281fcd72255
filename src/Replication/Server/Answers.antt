-- ===== src/Replication/Server/Answers.antt =====
-- What the answers of the client service mean.
use wal_distributed_rs.Common.{◌≢◌, ℕ, ◌≡◌, ◌≤◌, ◌+◌, ap, ◌∙◌, true, false, List}
use wal_distributed_rs.Common.Exec.{Result, ok, err}
use wal_distributed_rs.WalCore.Entry.{Crc}
use wal_distributed_rs.Replication.Config.{quorum}
use wal_distributed_rs.Replication.Handle
use wal_distributed_rs.Replication.Handle.{Delivery, closed, dropped, handled}
use wal_distributed_rs.Replication.Node.Events.{handle_msg}
use wal_distributed_rs.Replication.Error.{RaftError, not_leader, shutdown}
use wal_distributed_rs.Replication.Log
use wal_distributed_rs.Replication.Node.{RaftNode, leader, on_log}
use wal_distributed_rs.Replication.Node.Candidate.{Network}
use wal_distributed_rs.Replication.Node.Leader.{on_client_write, ae_results, snap_results}
use wal_distributed_rs.Replication.Node.Commits.{ae_acks, snap_acks, on_client_write-ok}
use wal_distributed_rs.Replication.Server.{Status, WriteResponse, write_response, write}

response-inj : {a b : WriteResponse} → ◌≡◌ {A = Result Status WriteResponse} (ok a) (ok b) → a ≡ b
response-inj e = cc

pub write_response-success :
    (r : Result RaftError ℕ) (resp : WriteResponse)
    → write_response r ≡ ok resp
    → resp.success ≡ true
    → r ≡ ok resp.index
unfolding write_response
write_response-success (ok i) resp h s = ap (λ (a : WriteResponse). ok a.index) (response-inj h)
write_response-success (err (not_leader hint)) resp h s =
    absurd
      (let no : false ≡ true = ap (λ (a : WriteResponse). a.success) (response-inj h) ∙ s in cc)
write_response-success (err e) resp h s = cc

shutdown-no_success : (resp : WriteResponse) → write_response (err shutdown) ≢ ok resp
unfolding write_response
shutdown-no_success resp h = cc

module _ ⦃c : Crc⦄ where
  -- An answer to a client's write that says success comes from a leader that, with itself, has had
  -- as many answers of success to AppendEntries and InstallSnapshot as a quorum, and that has
  -- committed the index in the answer.
  pub write-success :
      (net : Network) (payload : List ℕ) (d : Delivery) (n : RaftNode) (resp : WriteResponse)
      → (write net payload d n).0 ≡ ok resp
      → resp.success ≡ true
      → let n1 = (on_log (Log.append n.ps.current_term payload) n).1 in
        (n.role ≡ leader)
        × (quorum n.config
            ≤ 1
              + ae_acks (ae_results net resp.index n1 n1.peers)
              + snap_acks (snap_results net resp.index n1 n1.peers))
        × ((write net payload d n).1.commit_index ≡ resp.index)
  unfolding write Handle.write Handle.call handle_msg
  write-success net payload handled n resp h s =
      on_client_write-ok net payload n resp.index
        (write_response-success (on_client_write net payload n).0 resp h s)
  write-success net payload closed n resp h s = absurd (shutdown-no_success resp h)
  write-success net payload dropped n resp h s = absurd (shutdown-no_success resp h)
