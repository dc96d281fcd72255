-- ===== src/Replication/Handle.antt =====
-- crates/wal-replication/src/raft/node.rs: RaftHandle. Each method sends the actor a message with a
-- channel for the reply, and waits for it.
use wal_distributed_rs.Common.{ℕ, List}
use wal_distributed_rs.Common.Exec.{Result, ok, err}
use wal_distributed_rs.WalCore.Entry.{Crc}
use wal_distributed_rs.Replication.Error.{RaftError, shutdown}
use wal_distributed_rs.Replication.Log.Record.{LogEntry}
use wal_distributed_rs.Replication.Node.{
  RaftNode, AppendEntriesRequest, AppendEntriesResponse, RequestVoteRequest, RequestVoteResponse,
  InstallSnapshotRequest, InstallSnapshotResponse,
}
use wal_distributed_rs.Replication.Node.Candidate.{Network}
use wal_distributed_rs.Replication.Node.Events.{RaftMsg, Reply, handle_msg}
use wal_distributed_rs.Replication.Node.Events

-- What becomes of a message: the channel is closed, the actor ends before it gets to the message,
-- or the actor handles it.
pub data Delivery : Type 0 where
  closed dropped handled : Delivery

-- The channel of a message carries one kind of reply only.
abbrev pub as_appended : Reply → Result RaftError AppendEntriesResponse
as_appended (Events.appended resp) = ok resp
as_appended _ = err shutdown

abbrev pub as_voted : Reply → Result RaftError RequestVoteResponse
as_voted (Events.voted resp) = ok resp
as_voted _ = err shutdown

abbrev pub as_installed : Reply → Result RaftError InstallSnapshotResponse
as_installed (Events.installed resp) = ok resp
as_installed _ = err shutdown

abbrev pub as_written : Reply → Result RaftError ℕ
as_written (Events.written r) = r
as_written _ = err shutdown

abbrev pub as_entries : Reply → Result RaftError (List LogEntry)
as_entries (Events.entries es) = ok es
as_entries _ = err shutdown

module _ ⦃c : Crc⦄ where
  -- The send, and the wait for the reply.
  unfoldable pub call :
      {A : Type 0}
      → Network
      → (Reply → Result RaftError A)
      → RaftMsg
      → Delivery
      → RaftNode
      → Result RaftError A × RaftNode
  unfolding handle_msg
  call net get_reply msg closed n = (err shutdown, n)
  call net get_reply msg dropped n = (err shutdown, n)
  call net get_reply msg handled n = let (reply, n') = handle_msg net msg n in (get_reply reply, n')

  unfoldable pub append_entries :
      Network
      → AppendEntriesRequest
      → Delivery
      → RaftNode
      → Result RaftError AppendEntriesResponse × RaftNode
  unfolding call
  append_entries net req = call net as_appended (Events.append_entries req)

  unfoldable pub request_vote :
      Network
      → RequestVoteRequest
      → Delivery
      → RaftNode
      → Result RaftError RequestVoteResponse × RaftNode
  unfolding call
  request_vote net req = call net as_voted (Events.request_vote req)

  unfoldable pub install_snapshot :
      Network
      → InstallSnapshotRequest
      → Delivery
      → RaftNode
      → Result RaftError InstallSnapshotResponse × RaftNode
  unfolding call
  install_snapshot net req = call net as_installed (Events.install_snapshot req)

  unfoldable pub write : Network → List ℕ → Delivery → RaftNode → Result RaftError ℕ × RaftNode
  unfolding call
  write net payload = call net as_written (Events.client_write payload)

  unfoldable pub read_from :
      Network → ℕ → Delivery → RaftNode → Result RaftError (List LogEntry) × RaftNode
  unfolding call
  read_from net from_index = call net as_entries (Events.client_read from_index)
