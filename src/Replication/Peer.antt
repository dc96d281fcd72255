-- ===== src/Replication/Peer.antt =====
-- crates/wal-replication/src/raft/node.rs: PeerClient, the calls of a node to another one, which
-- connect, send, and give up after 300 ms.
use wal_distributed_rs.Common.Exec.{Result, err}
use wal_distributed_rs.WalCore.Entry.{Crc}
use wal_distributed_rs.Replication.Handle.{Delivery}
use wal_distributed_rs.Replication.Node.{
  RaftNode, AppendEntriesRequest, AppendEntriesResponse, RequestVoteRequest, RequestVoteResponse,
  InstallSnapshotRequest, InstallSnapshotResponse,
}
use wal_distributed_rs.Replication.Node.Candidate.{Network}
use wal_distributed_rs.Replication.Server
use wal_distributed_rs.Replication.Server.{Status, unavailable, deadline_exceeded}

-- What becomes of a call: there is no connection; the time is up before the other node has the
-- request; it has the request, but the time is up before the answer is back; the connection breaks
-- with a status of the transport, before or after the request is served; or the answer comes.
pub data Fate : Type 0 where
  refused : Fate
  late : Fate
  late_answer : Delivery → Fate
  broken : Status → Fate
  broken_answer : Status → Delivery → Fate
  answered : Delivery → Fate

-- The call under `timeout`, given the service of the other node.
abbrev pub within_timeout :
    {A : Type 0}
    → (Delivery → RaftNode → Result Status A × RaftNode)
    → Fate
    → RaftNode
    → Result Status A × RaftNode
within_timeout serve refused n = (err unavailable, n)
within_timeout serve late n = (err deadline_exceeded, n)
within_timeout serve (late_answer d) n = (err deadline_exceeded, (serve d n).1)
within_timeout serve (broken s) n = (err s, n)
within_timeout serve (broken_answer s d) n = (err s, (serve d n).1)
within_timeout serve (answered d) n = serve d n

-- The node is the peer that is called; `net` is the network of the peer.
module _ ⦃c : Crc⦄ (net : Network) where
  unfoldable pub append_entries :
      AppendEntriesRequest → Fate → RaftNode → Result Status AppendEntriesResponse × RaftNode
  unfolding Server.append_entries
  append_entries req = within_timeout (Server.append_entries net req)

  unfoldable pub request_vote :
      RequestVoteRequest → Fate → RaftNode → Result Status RequestVoteResponse × RaftNode
  unfolding Server.request_vote
  request_vote req = within_timeout (Server.request_vote net req)

  unfoldable pub install_snapshot :
      InstallSnapshotRequest → Fate → RaftNode → Result Status InstallSnapshotResponse × RaftNode
  unfolding Server.install_snapshot
  install_snapshot req = within_timeout (Server.install_snapshot net req)
