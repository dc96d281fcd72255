-- ===== src/Replication/Node.antt =====
-- crates/wal-replication/src/raft/node.rs: the messages of proto/wal.proto, the state of a node,
-- and the helpers that its handlers share.
pub mod Follower
pub mod Candidate
pub mod Leader
pub mod Events
pub mod Votes
pub mod Commits
pub mod Requests
pub mod Stores
pub mod Elections
pub mod Once
pub mod Restarts
pub mod Ballots
pub mod Terms
pub mod Logs
pub mod Matching
pub mod Taken
pub mod Accepted
pub mod Installs
pub mod Replicates
pub mod Tables
pub mod Winning
pub mod BackOff
use wal_distributed_rs.Common.{
  ℕ, ◌+◌, ◌-◌, ◌%◌, ◌*◌, Bool, true, false, Option, none, some, List, [], ◌∷◌, leb, add64, bytes_eq,
  if◌then◌else◌,
}
use wal_distributed_rs.Common.Exec.{Result, ok, err, Exec, pure, ◌>>=◌, ◌>>◌, map_err}
use wal_distributed_rs.Disk
use wal_distributed_rs.Disk.{Dir, IoError}
use wal_distributed_rs.WalCore.Error.{Failure}
use wal_distributed_rs.WalCore.Entry.{Crc}
use wal_distributed_rs.WalCore.Wal.{WalConfig}
use wal_distributed_rs.Replication.Config.{NodeId, NodeInfo, ClusterConfig}
use wal_distributed_rs.Replication.Error.{RaftError}
use wal_distributed_rs.Replication.Log.{RaftLog, LogExec, open_log}
use wal_distributed_rs.Replication.Log.Record.{LogEntry}
use wal_distributed_rs.Replication.PersistentState
use wal_distributed_rs.Replication.PersistentState.{PersistentState, open_state}
use wal_distributed_rs.Replication.Snapshot.{Snapshot, load}

pub data Role : Type 0 where
  follower candidate leader : Role

-- The messages; an entry of the protocol is a `LogEntry`.
pub record AppendEntriesRequest : Type 0 where
  pub term : ℕ
  pub leader_id : NodeId
  pub prev_log_index : ℕ
  pub prev_log_term : ℕ
  pub entries : List LogEntry
  pub leader_commit : ℕ

pub record AppendEntriesResponse : Type 0 where
  pub term : ℕ
  pub success : Bool
  pub conflict_index : ℕ
  pub conflict_term : ℕ

pub record RequestVoteRequest : Type 0 where
  pub term : ℕ
  pub candidate_id : NodeId
  pub last_log_index : ℕ
  pub last_log_term : ℕ

pub record RequestVoteResponse : Type 0 where
  pub term : ℕ
  pub vote_granted : Bool

pub record InstallSnapshotRequest : Type 0 where
  pub term : ℕ
  pub leader_id : NodeId
  pub last_included_index : ℕ
  pub last_included_term : ℕ
  pub payload : List ℕ

pub record InstallSnapshotResponse : Type 0 where
  pub term : ℕ
  pub success : Bool

-- `HashMap<NodeId, u64>`
abbrev pub Indices : Type 0
Indices = List (NodeId × ℕ)

unfoldable pub get : NodeId → Indices → Option ℕ
get id [] = none
get id ((k, v) ∷ m) = if bytes_eq k id then some v else get id m

unfoldable pub insert : NodeId → ℕ → Indices → Indices
insert id v [] = (id, v) ∷ []
insert id v ((k, u) ∷ m) = if bytes_eq k id then (k, v) ∷ m else (k, u) ∷ insert id v m

-- The node, with the two directories that it writes, the clock that `Instant::now` reads, in
-- milliseconds, and the numbers that the random generator is yet to give.
pub record RaftNode : Type 0 where
  pub id : NodeId
  pub config : ClusterConfig
  pub peers : List NodeInfo
  pub ps : PersistentState
  pub log : RaftLog
  pub role : Role
  pub commit_index : ℕ
  pub current_leader : Option NodeId
  pub next_index : Indices
  pub match_index : Indices
  pub last_heartbeat : ℕ
  pub election_timeout : ℕ
  pub snapshot : Option Snapshot
  pub snapshot_trigger : ℕ
  pub entries_since_snapshot : ℕ
  pub data_dir : Dir
  pub wal_dir : Dir
  pub clock : ℕ
  pub draws : List ℕ

-- `rng().random_range(min..=max)`: some number of the range.
unfoldable pub random_election_timeout : ClusterConfig → List ℕ → ℕ
random_election_timeout config [] = config.election_timeout_min
random_election_timeout config (x ∷ xs) =
    config.election_timeout_min
    + x % (config.election_timeout_max - config.election_timeout_min + 1)

abbrev pub later_draws : List ℕ → List ℕ
later_draws [] = []
later_draws (x ∷ xs) = xs

-- `last_heartbeat = Instant::now(); election_timeout = random_election_timeout(..)`
unfoldable pub reset_timer : RaftNode → RaftNode
unfolding random_election_timeout
reset_timer n = record n {
  last_heartbeat = n.clock;
  election_timeout = random_election_timeout n.config n.draws;
  draws = later_draws n.draws;
}

-- `let _ = self.ps.advance_term(term)` and `let _ = self.ps.record_vote(candidate)`
unfoldable pub advance_term : ℕ → RaftNode → RaftNode
unfolding PersistentState.advance_term
advance_term new_term n =
    let (r, (ps, d)) = PersistentState.advance_term new_term (n.ps, n.data_dir) in
    record n { ps = ps; data_dir = d }

unfoldable pub record_vote : NodeId → RaftNode → RaftNode
unfolding PersistentState.record_vote
record_vote id n =
    let (r, (ps, d)) = PersistentState.record_vote id (n.ps, n.data_dir) in
    record n { ps = ps; data_dir = d }

-- Code on `self.log`.
abbrev pub on_log : {A : Type 0} → LogExec A → RaftNode → Result RaftError A × RaftNode
on_log m n = let (r, (l, d)) = m (n.log, n.wal_dir) in (r, record n { log = l; wal_dir = d })

abbrev pub known_leader : Option NodeId → Option NodeId → Option NodeId
known_leader old none = old
known_leader old (some l) = some l

unfoldable pub become_follower_with_leader : Option NodeId → RaftNode → RaftNode
unfolding reset_timer
become_follower_with_leader l n =
    reset_timer (record n { role = follower; current_leader = known_leader n.current_leader l })

-- A reply that carries a higher term.
unfoldable pub step_down : ℕ → RaftNode → RaftNode
unfolding advance_term become_follower_with_leader
step_down term n = become_follower_with_leader none (advance_term term n)

abbrev pub wal_config : WalConfig
wal_config = record { max_segment_bytes = 64 * 1024 * 1024; sync_writes = Bool.true }

-- `Snapshot::load(..).unwrap_or(None)`
abbrev pub or_none : Result IoError (Option Snapshot) → Option Snapshot
or_none (ok s) = s
or_none (err e) = none

pub data StartError : Type 0 where
  raft : RaftError → StartError
  in_log : Failure → StartError

-- Code on one of the two directories.
abbrev pub in_data : {A : Type 0} → Exec StartError Dir A → Exec StartError (Dir × Dir) A
in_data m (d, w) = let (r, d') = m d in (r, (d', w))

abbrev pub in_wal : {A : Type 0} → Exec StartError Dir A → Exec StartError (Dir × Dir) A
in_wal m (d, w) = let (r, w') = m w in (r, (d, w'))

abbrev pub never_fails :
    {A : Type 0} → (Result IoError A → A) → Exec IoError Dir A → Exec StartError Dir A
never_fails f m d = let (r, d') = m d in (ok (f r), d')

-- The node before its first turn.
unfoldable pub new_node :
    ClusterConfig → ℕ → List ℕ → PersistentState → RaftLog → Option Snapshot → Dir → Dir → RaftNode
unfolding random_election_timeout
new_node config clock draws ps log snapshot d w = record {
  id = config.this_node.id;
  config = config;
  peers = config.peers;
  ps = ps;
  log = log;
  role = follower;
  commit_index = 0;
  current_leader = none;
  next_index = [];
  match_index = [];
  last_heartbeat = clock;
  election_timeout = random_election_timeout config draws;
  snapshot = snapshot;
  snapshot_trigger = 100;
  entries_since_snapshot = 0;
  data_dir = d;
  wal_dir = w;
  clock = clock;
  draws = later_draws draws;
}

module _ ⦃c : Crc⦄ where
  -- The node that `start` spawns, given the directories, the time and the random numbers.
  unfoldable pub start : ClusterConfig → ℕ → List ℕ → Exec StartError (Dir × Dir) RaftNode
  unfolding new_node
  start config clock draws = do
    in_data (map_err (λ e. raft (RaftError.io e)) Disk.create_dir_all)
    ps ← in_data (map_err raft open_state)
    log ← in_wal (map_err in_log (open_log wal_config))
    snapshot ← in_data (never_fails or_none load)
    (λ (d, w). (ok (new_node config clock draws ps log snapshot d w), (d, w)))
