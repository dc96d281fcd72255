-- ===== src/Examples/Servers.antt =====
-- The server's arguments and endpoints, and calls between nodes, at concrete inputs.
use wal_distributed_rs.Common.{◌≡◌, refl, [], ◌∷◌, none, false, map}
use wal_distributed_rs.Common.Exec.{ok, err}
use wal_distributed_rs.Disk
use wal_distributed_rs.Disk.{Dir, find}
use wal_distributed_rs.WalCore.Segment.Content.{disk}
use wal_distributed_rs.WalCore.Wal.Fresh.{fresh_table}
use wal_distributed_rs.Replication.Config.{NodeInfo, cluster_size}
use wal_distributed_rs.Replication.Log.{RaftLog, open_log}
use wal_distributed_rs.Replication.Log.Fresh.{open_log-fresh}
use wal_distributed_rs.Replication.Node.{RaftNode, follower, wal_config, new_node, start}
use wal_distributed_rs.Replication.PersistentState.{open_state}
use wal_distributed_rs.Replication.Snapshot.{load}
use wal_distributed_rs.Examples.Setup.{sums}
use wal_distributed_rs.WalServer.{
  Args, boot, validate_args, cluster_config, is_empty, route, handle_http, empty_id, uneven_peers,
  json, string,
}
use wal_distributed_rs.WalServer.Boot.{boot-ok}

abbrev args : Args
args = record {
  id = b'a' ∷ [];
  addr = b'1' ∷ [];
  grpc_port = 7001;
  peers = (b'2' ∷ []) ∷ (b'3' ∷ []) ∷ [];
  peer_ids = (b'b' ∷ []) ∷ (b'c' ∷ []) ∷ [];
  data_dir = b'd' ∷ [];
  http_port = 8080;
}

abbrev fresh_log : (l : RaftLog) × (open_log wal_config (disk []) ≡ (ok l, disk (fresh_table [])))
fresh_log = let (l, opened, _, _) = open_log-fresh wal_config [] refl in (l, opened)

abbrev booted : RaftNode
booted =
    new_node (cluster_config args) 5 [] (record { current_term = 0; voted_for = none }) fresh_log.0
      none (disk []) (disk (fresh_table []))

boots : boot args 5 [] (disk [], disk []) ≡ (ok booted, (disk [], disk (fresh_table [])))
unfolding boot start validate_args cluster_config open_state load find Disk.create_dir_all sums
    Disk.store Disk.read
boots = rw fresh_log.1 refl

boot-ok_example :
    (is_empty args.id ≡ false)
    × (booted.id ≡ args.id)
    × (map (λ (p : NodeInfo). p.id) booted.peers ≡ args.peer_ids)
    × (map (λ (p : NodeInfo). p.addr) booted.peers ≡ args.peers)
    × (cluster_size booted.config ≡ 3)
    × (booted.role ≡ follower)
    × (booted.commit_index ≡ 0)
boot-ok_example = boot-ok args 5 [] (disk [], disk []) (disk [], disk (fresh_table [])) booted boots

refuses_no_id : validate_args (record args { id = [] }) ≡ err empty_id
unfolding validate_args
refuses_no_id = refl

refuses_uneven : validate_args (record args { peers = [] }) ≡ err (uneven_peers 2 0)
unfolding validate_args
refuses_uneven = refl

health : route "metrics text" "/healthz" ≡ (200, json (("status", string "ok") ∷ []))
unfolding route
health = refl

no_page : (handle_http "metrics text" "/").status ≡ 404
unfolding handle_http route
no_page = refl
