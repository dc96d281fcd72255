-- ===== src/Lib.antt =====
-- A verification library for wal-distributed-rs, a write-ahead log engine (crates/wal-core) and a
-- Raft-replicated log service over it (crates/wal-replication), with the server that runs a node of it
-- (crates/wal-server).
--
-- The parts, and where they are modelled (paths from the repository's root):
--   Common, Bytes       shared helpers: Boolean tests, lists measured by native numbers, results with
--                       the state that is left behind, little-endian words
--   Disk                std::fs on one directory: named files, their bytes, what is known to be
--                       durable, and the outcome of each call
--   WalCore/Entry       crates/wal-core/src/entry.rs: encode, decode
--   WalCore/Segment     crates/wal-core/src/segment.rs: Segment with its BufWriter, read_entries (Scan),
--                       segment_path, segment_id_from_path, list_segments (Names)
--   WalCore/Checkpoint  crates/wal-core/src/checkpoint.rs: open, advance
--   WalCore/Wal         crates/wal-core/src/wal.rs: open (open_wal), append, rotate, read_from, recover,
--                       checkpoint, truncate_before, sync
--   Replication/Config, Replication/Error
--                       crates/wal-replication/src/config.rs and error.rs
--   Replication/PersistentState
--                       crates/wal-replication/src/persistent_state.rs: the term and the vote
--   Replication/Snapshot
--                       crates/wal-replication/src/raft/snapshot.rs
--   Replication/Log     crates/wal-replication/src/raft/log.rs: RaftLog, the records that it writes
--                       (Record), `open` as a replay of them, and sequences of operations with restarts
--                       in between (Runs)
--   Replication/Node    crates/wal-replication/src/raft/node.rs and proto/wal.proto: the state of a node,
--                       the handlers of requests (Follower), elections (Candidate), replication
--                       and client writes (Leader), the event loop as a step relation (Events)
--   Replication/Handle, Replication/Peer
--                       crates/wal-replication/src/raft/node.rs: RaftHandle and PeerClient, the calls of
--                       a node by its services and by other nodes
--   Replication/Server  crates/wal-replication/src/server.rs: the services for other nodes and clients
--   Replication/Cluster several nodes: what each has done and the elections that are won (Safety), and the
--                       turns that they take, with the logs that the leaders came to have (System, Reigns)
--                       and with a record of votes and acknowledgements (Ledger), which the turns extend and
--                       the code does not keep
--   WalServer           crates/wal-server/src/main.rs: Args, validate_args, the configuration and the
--                       start of the node (boot), and the HTTP endpoints (route, handle_http)
--   Examples            the theorems at concrete inputs
--
-- How code is rendered. A fallible operation with a state is a function from the state to a result and
-- the state that is left, errors included (Common/Exec); `?` is the do block. Code on a field of a
-- record goes through on_active, on_checkpoint, on_wal, on_log. Numbers are natural numbers; sums of
-- u64s wrap (add64) as in a release build, and differences are written where the code keeps them above
-- zero. usize lengths of buffers are not wrapped, `len() as u32` is. Fields and variables called `data`
-- are called payload. A file name and a node's name are lists of bytes; what the code cannot read as
-- UTF-8 is not in the directory. `unwrap` on an error ends in Failure.panic.
--
-- What a directory's calls do is chosen by a list of outcomes in Dir: each call takes the next, and a
-- write that fails may have written a first part. A theorem about `disk t` is about calls that do not
-- fail; those about Dir hold for every list. The write-ahead log and the node's own files lie in two
-- directories. The BufWriter has the capacity of BufWriter::new, 8192 bytes.
--
-- Loops are structural recursion: over the list that the code walks, or, for `while offset < len` in
-- read_entries, over the bytes that are left, with those of the entry that was decoded last to be
-- skipped. The models have no fuel; only a statement about repeated rounds of replication counts them.
--
-- Parameters: crc32fast::hash is the instance argument Crc, a function into u32; the answers of other
-- nodes are a Network; the clock and the random election timeouts are fields of RaftNode. A handler runs
-- to its end before the next message, as in the actor's loop, so the answers of one round are all there
-- before the first of them is looked at (join_all).
--
-- What becomes of a message in a channel, and of a call over the network, is an argument of the call
-- (Delivery, Fate): it may be handled and its answer lost.
--
-- Not modelled: tracing and metrics; tokio, tonic and hyper themselves; of the server binary the reading
-- of the command line by clap, the accept loop and the spawning of the servers; Drop; the text of
-- errors; and the order in which a directory lists its files (a listing is sorted before use).
pub mod Common
pub mod Bytes
pub mod Disk
pub mod WalCore
pub mod Replication
pub mod WalServer
pub mod Examples
