-- ===== src/Replication/Node/Restarts.antt =====
-- A node that is started on the directories of an earlier run.
use wal_distributed_rs.Common.Exec.{err, ok, Exec, map_err}
use wal_distributed_rs.Common.{
  some, none, inr, refl, inl, ◌∙◌, Option, Option-cases, arith, ℕ, List, ◌≡◌,
}
use wal_distributed_rs.WalCore.Entry.{Crc}
use wal_distributed_rs.Disk
use wal_distributed_rs.Disk.{Dir, File, IoError, other, find, outcome}
use wal_distributed_rs.Common.Gives.{
  Gives, Gives-bind, Gives-bind_with, Gives-map_result, Gives-Unit,
}
use mathlib.Core.Path.{subst}
use wal_distributed_rs.Replication.Config.{ClusterConfig}
use wal_distributed_rs.Replication.Error.{RaftError, io}
use wal_distributed_rs.Replication.Log.{RaftLog, open_log}
use wal_distributed_rs.Replication.PersistentState.{PersistentState, decode, open_state, state_file}
use wal_distributed_rs.Replication.PersistentState.Atomic.{loaded}
use wal_distributed_rs.Replication.Node.{
  RaftNode, StartError, start, new_node, in_data, in_wal, raft, in_log, wal_config, or_none,
}
use wal_distributed_rs.Replication.Snapshot.{load, Snapshot}

create_dir_all-files : (d : Dir) → (Disk.create_dir_all d).1.files ≡ d.files
unfolding Disk.create_dir_all
create_dir_all-files d = ground arith

state_missing :
    (d : Dir)
    → find state_file d.files ≡ none
    → (open_state d).0 ≡ ok (record { current_term = 0; voted_for = none })
unfolding open_state
state_missing d h = ground (arith, h)

state_read :
    (d : Dir) (f : File)
    → find state_file d.files ≡ some f
    → outcome d.faults ≡ none
    → (open_state d).0 ≡ ok (decode f.bytes)
unfolding open_state Disk.read
state_read d f h works = ground (arith, h, works)

state_unread :
    (d : Dir) (f : File) (k : ℕ)
    → find state_file d.files ≡ some f
    → outcome d.faults ≡ some k
    → (open_state d).0 ≡ err (io other)
unfolding open_state Disk.read
state_unread d f k h fails = ground (arith, h, fails)

open_state-loaded : (d : Dir) → Gives (λ s. s ≡ loaded d.files) (open_state d).0
open_state-loaded d = elim (Option-cases (find state_file d.files)) [
  | inl missing ↦ rw (state_missing d missing, missing) refl
  | inr (f, found) ↦ elim (Option-cases (outcome d.faults)) [
    | inl works ↦ rw (state_read d f found works, found) refl
    | inr (k, fails) ↦ rw (state_unread d f k found fails) tt
  ]
]

new_node-ps :
    (config : ClusterConfig) (clock : ℕ) (draws : List ℕ) (ps : PersistentState) (log : RaftLog)
    (snapshot : Option Snapshot) (d w : Dir)
    → (new_node config clock draws ps log snapshot d w).ps ≡ ps
unfolding new_node
new_node-ps config clock draws ps log snapshot d w = refl

module _ ⦃c : Crc⦄ where
  -- A node that starts has the term and the vote of the state file.
  pub start-ps :
      (config : ClusterConfig) (clock : ℕ) (draws : List ℕ) (ds : Dir × Dir)
      → Gives (λ m. m.ps ≡ loaded ds.0.files) (start config clock draws ds).0
  unfolding start
  start-ps config clock draws ds =
      let P : RaftNode → Type 0 = λ m. m.ps ≡ loaded ds.0.files in
      let d1 = (Disk.create_dir_all ds.0).1 in
      let makes : Exec StartError (Dir × Dir) (Unit {0}) =
        in_data (map_err (λ e. raft (RaftError.io e)) Disk.create_dir_all) in
      let s1 = (makes ds).1 in
      Gives-bind_with (λ u. Unit {0}) P makes _ ds (Gives-Unit (makes ds).0)
        (λ u _.
          Gives-bind_with (λ s. s ≡ loaded ds.0.files) P (in_data (map_err raft open_state)) _ s1
            (Gives-map_result (λ s. s ≡ loaded ds.0.files) raft (open_state d1).0
              (subst (λ files. Gives (λ s. s ≡ loaded files) (open_state d1).0)
                (create_dir_all-files ds.0) (open_state-loaded d1)))
            (λ ps same.
              Gives-bind P (in_wal (map_err in_log (open_log wal_config))) _
                (in_data (map_err raft open_state) s1).1
                (λ log s3.
                  new_node-ps config clock draws ps log (or_none (load s3.0).0) (load s3.0).1 s3.1
                  ∙ same)))
