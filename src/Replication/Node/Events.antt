-- ===== src/Replication/Node/Events.antt =====
-- crates/wal-replication/src/raft/node.rs: the event loop of `run`, one event at a time.
use wal_distributed_rs.Common.{◌≤◌, ℕ, ◌+◌, ◌-◌, ◌<◌, ◌^◌, List, if◌then◌else◌}
use wal_distributed_rs.Common.Exec.{Result}
use wal_distributed_rs.WalCore.Entry.{Crc}
use wal_distributed_rs.Replication.Error.{RaftError}
use wal_distributed_rs.Replication.Log.{entries_from}
use wal_distributed_rs.Replication.Log.Record.{LogEntry}
use wal_distributed_rs.Replication.Node.{
  RaftNode, AppendEntriesRequest, AppendEntriesResponse, RequestVoteRequest, RequestVoteResponse,
  InstallSnapshotRequest, InstallSnapshotResponse,
}
use wal_distributed_rs.Replication.Node.Follower.{
  on_append_entries, on_request_vote, on_install_snapshot,
}
use wal_distributed_rs.Replication.Node.Candidate.{Network, is_leader, start_election}
use wal_distributed_rs.Replication.Node.Leader.{send_heartbeats, on_client_write}

pub data RaftMsg : Type 0 where
  append_entries : AppendEntriesRequest → RaftMsg
  request_vote : RequestVoteRequest → RaftMsg
  install_snapshot : InstallSnapshotRequest → RaftMsg
  client_write : List ℕ → RaftMsg
  client_read : ℕ → RaftMsg

pub data Reply : Type 0 where
  appended : AppendEntriesResponse → Reply
  voted : RequestVoteResponse → Reply
  installed : InstallSnapshotResponse → Reply
  written : Result RaftError ℕ → Reply
  entries : List LogEntry → Reply

unfoldable pub time_until_timeout : RaftNode → ℕ
time_until_timeout n =
    if is_leader n.role
    then n.config.heartbeat_interval
    else n.election_timeout - (n.clock - n.last_heartbeat)

unfoldable pub handle_timeout : Network → RaftNode → RaftNode
unfolding send_heartbeats start_election
handle_timeout net n = if is_leader n.role then send_heartbeats net n else start_election net n

module _ ⦃c : Crc⦄ where
  unfoldable pub handle_msg : Network → RaftMsg → RaftNode → Reply × RaftNode
  unfolding on_append_entries on_request_vote on_install_snapshot on_client_write entries_from
  handle_msg net (append_entries req) n =
      let (resp, n') = on_append_entries req n in (appended resp, n')
  handle_msg net (request_vote req) n = let (resp, n') = on_request_vote req n in (voted resp, n')
  handle_msg net (install_snapshot req) n =
      let (resp, n') = on_install_snapshot req n in (installed resp, n')
  handle_msg net (client_write payload) n =
      let (r, n') = on_client_write net payload n in (written r, n')
  handle_msg net (client_read from_index) n = (entries (entries_from n.log.memory from_index), n)

  -- One turn of `run`: a message comes after `t` milliseconds and is handled, or the sleep ends; it
  -- lasts at least as long as it was told to. The term has not run out.
  pub data Step : RaftNode → RaftNode → Type 0 where
    receives :
        (net : Network) (msg : RaftMsg) (t : ℕ) (n : RaftNode)
        → Step n (handle_msg net msg (record n { clock = n.clock + t })).1
    times_out :
        (net : Network) (t : ℕ) (n : RaftNode)
        → n.ps.current_term + 1 < 2 ^ 64
        → time_until_timeout n ≤ t
        → Step n (handle_timeout net (record n { clock = n.clock + t }))

  pub data Reaches : RaftNode → RaftNode → Type 0 where
    here : {n : RaftNode} → Reaches n n
    next : {n m o : RaftNode} → Step n m → Reaches m o → Reaches n o
