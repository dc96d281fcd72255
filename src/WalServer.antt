-- ===== src/WalServer.antt =====
-- crates/wal-server/src/main.rs: the arguments, the cluster that they describe, the start of the
-- node, and the endpoints of the HTTP server.
pub mod Boot
use Prim.Native.String.{String}
use text.Mathlib.Text.{◌==◌}
use wal_distributed_rs.Common.{ℕ, ◌||◌, List, [], ◌∷◌, length, not, if◌then◌else◌}
use wal_distributed_rs.Common
use wal_distributed_rs.Common.Exec.{Result, ok, err, Exec, ◌>>=◌, ◌>>◌, lift, map_err, map_result}
use wal_distributed_rs.Disk.{Dir}
use wal_distributed_rs.WalCore.Entry.{Crc}
use wal_distributed_rs.Replication.Config.{NodeId, NodeInfo, ClusterConfig, new_config}
use wal_distributed_rs.Replication.Node.{RaftNode, StartError, start}

-- The arguments as clap gives them: with the default ports 7001 and 8080, the lists cut at commas.
-- The directory is that of the file operations.
pub record Args : Type 0 where
  pub id : NodeId
  pub addr : List ℕ
  pub grpc_port : ℕ
  pub peers : List (List ℕ)
  pub peer_ids : List NodeId
  pub data_dir : List ℕ
  pub http_port : ℕ

pub data ArgsError : Type 0 where
  empty_id : ArgsError
  uneven_peers : ℕ → ℕ → ArgsError

abbrev pub is_empty : List ℕ → Common.Bool
is_empty [] = Common.true
is_empty (x ∷ xs) = Common.false

unfoldable pub validate_args : Args → Result ArgsError (Unit {0})
validate_args args =
    if is_empty args.id
    then err empty_id
    else if not (Common.◌==◌ (length args.peer_ids) (length args.peers))
    then err (uneven_peers (length args.peer_ids) (length args.peers))
    else ok tt

-- `peer_ids.iter().zip(peers.iter()).map(..)`
unfoldable pub peer_infos : List NodeId → List (List ℕ) → List NodeInfo
peer_infos (id ∷ ids) (addr ∷ addrs) = record { id = id; addr = addr } ∷ peer_infos ids addrs
peer_infos _ _ = []

unfoldable pub cluster_config : Args → ClusterConfig
unfolding peer_infos
cluster_config args =
    new_config (record { id = args.id; addr = args.addr }) (peer_infos args.peer_ids args.peers)

pub data BootError : Type 0 where
  in_args : ArgsError → BootError
  in_start : StartError → BootError

module _ ⦃c : Crc⦄ where
  -- `main` up to the servers.
  unfoldable pub boot : Args → ℕ → List ℕ → Exec BootError (Dir × Dir) RaftNode
  unfolding validate_args cluster_config start
  boot args clock draws = do
    lift (map_result in_args (validate_args args))
    map_err in_start (start (cluster_config args) clock draws)

-- A JSON value, before `to_string`.
pub data Json : Type 0 where
  string : String → Json
  strings : List String → Json

pub data Body : Type 0 where
  json : List (String × Json) → Body
  plain : String → Body

pub record Response : Type 0 where
  pub status : ℕ
  pub content_type : String
  pub body : Body

-- The match of `handle_http`: the status and the body; `prometheus.render()` is given.
unfoldable pub route : String → String → ℕ × Body
route rendered path =
    if path == "/health" || path == "/healthz"
    then (200, json (("status", string "ok") ∷ []))
    else if path == "/metrics"
    then (200, plain rendered)
    else if path == "/status"
    then (200, json (("status", string "ok") ∷ ("service", string "wal-server") ∷ []))
    else (
      404,
      json (
          ("error", string "not found")
          ∷ ("available", strings ("/health" ∷ "/metrics" ∷ "/status" ∷ []))
          ∷ []),
    )

unfoldable pub handle_http : String → String → Response
unfolding route
handle_http rendered path =
    let (status, body) = route rendered path in
    record { status = status; content_type = "application/json"; body = body }
