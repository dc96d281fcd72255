-- ===== src/WalServer/Boot.antt =====
-- A node that the server starts has the cluster of the arguments.
use wal_distributed_rs.Common.{Option, ◌∙◌, ◌+◌, ℕ, List, [], ◌∷◌, ◌≡◌, arith, refl, ap}
use wal_distributed_rs.Common.{false, length, map, ℕ, ◌≡◌, List}
use wal_distributed_rs.Common.Exec.{map_err, continue, map_result, Result, ok, err}
use wal_distributed_rs.Common.Gives.{Gives, Gives-bind, Gives-ok, Gives-map_result, Gives-and}
use wal_distributed_rs.Disk.{Dir}
use wal_distributed_rs.WalCore.Entry.{Crc}
use wal_distributed_rs.Replication.Config.{NodeId, NodeInfo, ClusterConfig, cluster_size}
use wal_distributed_rs.Disk
use wal_distributed_rs.Replication.Error.{RaftError}
use wal_distributed_rs.Replication.Log.{open_log, RaftLog}
use wal_distributed_rs.Replication.PersistentState.{open_state, PersistentState}
use wal_distributed_rs.Replication.Snapshot.{load, Snapshot}
use wal_distributed_rs.Replication.Node.{
  new_node, in_data, in_wal, or_none, wal_config, raft, in_log, RaftNode, follower, start,
}
use wal_distributed_rs.WalServer.{
  Args, ArgsError, in_args, is_empty, in_start, validate_args, peer_infos, cluster_config, boot,
}

ids_of : List NodeInfo → List NodeId
ids_of ps = map (λ (p : NodeInfo). p.id) ps

peer_infos-pairs :
    (ids : List NodeId) (addrs : List (List ℕ))
    → length ids ≡ length addrs
    → (map (λ (p : NodeInfo). p.id) (peer_infos ids addrs) ≡ ids)
      × (map (λ (p : NodeInfo). p.addr) (peer_infos ids addrs) ≡ addrs)
      × (length (peer_infos ids addrs) ≡ length addrs)
unfolding peer_infos
peer_infos-pairs [] [] h = (refl, refl, refl)
peer_infos-pairs [] (a ∷ rest) h = absurd (omega (arith, h))
peer_infos-pairs (i ∷ is) [] h = absurd (omega (arith, h))
peer_infos-pairs (i ∷ is) (a ∷ rest) h =
    let (l, r, n) = peer_infos-pairs is rest (omega (arith, h)) in
    (ap (λ x. i ∷ x) l, ap (λ x. a ∷ x) r, omega (arith, n))

validate_args-ok :
    (args : Args)
    → validate_args args ≡ ok tt
    → (is_empty args.id ≡ false) × (length args.peer_ids ≡ length args.peers)
unfolding validate_args
validate_args-ok args h = ground (arith, h)

-- What `start` gives every node, whatever the files hold.
unfoldable IsStarted : ClusterConfig → RaftNode → Type 0
IsStarted config n =
    (n.id ≡ config.this_node.id)
    × (n.config ≡ config)
    × (n.peers ≡ config.peers)
    × (n.role ≡ follower)
    × (n.commit_index ≡ 0)

new_node-IsStarted :
    (config : ClusterConfig) (clock : ℕ) (draws : List ℕ) (ps : PersistentState) (log : RaftLog)
    (snapshot : Option Snapshot) (d w : Dir)
    → IsStarted config (new_node config clock draws ps log snapshot d w)
unfolding IsStarted new_node
new_node-IsStarted config clock draws ps log snapshot d w = (refl, refl, refl, refl, refl)

module _ ⦃c : Crc⦄ where
  start-IsStarted :
      (config : ClusterConfig) (clock : ℕ) (draws : List ℕ) (ds : Dir × Dir)
      → Gives (IsStarted config) (start config clock draws ds).0
  unfolding start
  start-IsStarted config clock draws ds =
      Gives-bind (IsStarted config)
        (in_data (map_err (λ e. raft (RaftError.io e)) Disk.create_dir_all)) _ ds
        (λ u s1. Gives-bind (IsStarted config) (in_data (map_err raft open_state)) _ s1 (λ ps s2.
          Gives-bind (IsStarted config) (in_wal (map_err in_log (open_log wal_config))) _ s2
            (λ log s3.
              new_node-IsStarted config clock draws ps log (or_none (load s3.0).0) (load s3.0).1
                s3.1)))

  boot-Gives :
      (args : Args) (clock : ℕ) (draws : List ℕ) (ds : Dir × Dir)
      → Gives
          (λ n. (validate_args args ≡ ok tt) × IsStarted (cluster_config args) n)
          (boot args clock draws ds).0
  unfolding boot
  boot-Gives args clock draws ds = by_check (validate_args args) refl
    where
      by_check :
          (r : Result ArgsError (Unit {0}))
          → validate_args args ≡ r
          → Gives
              (λ n. (validate_args args ≡ ok tt) × IsStarted (cluster_config args) n)
              (continue
                (map_result in_args r)
                (λ u. map_err in_start (start (cluster_config args) clock draws))
                ds).0
      by_check (err e) h = tt
      by_check (ok tt) h =
          Gives-map_result _ in_start (start (cluster_config args) clock draws ds).0
            (Gives-and _ _ h (start-IsStarted (cluster_config args) clock draws ds))

  -- A node that the server starts has an id that is not empty, and its peers are the ids and the
  -- addresses of the arguments, paired in order, none left out; it counts one node more than there
  -- are peers, and begins as a follower that has committed nothing.
  pub boot-ok :
      (args : Args) (clock : ℕ) (draws : List ℕ) (ds ds' : Dir × Dir) (n : RaftNode)
      → boot args clock draws ds ≡ (ok n, ds')
      → (is_empty args.id ≡ false)
        × (n.id ≡ args.id)
        × (map (λ (p : NodeInfo). p.id) n.peers ≡ args.peer_ids)
        × (map (λ (p : NodeInfo). p.addr) n.peers ≡ args.peers)
        × (cluster_size n.config ≡ length args.peers + 1)
        × (n.role ≡ follower)
        × (n.commit_index ≡ 0)
  unfolding IsStarted cluster_config cluster_size
  boot-ok args clock draws ds ds' n h =
      let (valid, (id, config, peers, role, commit)) =
        Gives-ok _ h (boot-Gives args clock draws ds) in
      let (named, same) = validate_args-ok args valid in
      let (ids, addrs, count) = peer_infos-pairs args.peer_ids args.peers same in
      (
        named,
        id,
        rw peers ids,
        rw peers addrs,
        ap cluster_size config ∙ ap (λ k. k + 1) count,
        role,
        commit,
      )
