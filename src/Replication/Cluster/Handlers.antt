-- ===== src/Replication/Cluster/Handlers.antt =====
-- What a node's handlers do to its log and to its lead.
use wal_distributed_rs.Common.{
  ℕ, ◌+◌, ◌^◌, ◌<◌, ◌≡◌, refl, sym, ap, ◌∙◌, Option, none, some, List, [], ◌∷◌, arith, true, inl,
  inr, Bool-cases, ◌==◌, ltb, if◌then◌else◌, Option-cases,
}
use mathlib.Core.Path.{subst}
use wal_distributed_rs.Common.Exec.{Result, ok, err}
use wal_distributed_rs.WalCore.Entry.{Crc}
use wal_distributed_rs.Replication.Config.{NodeId}
use wal_distributed_rs.Replication.Error.{RaftError}
use wal_distributed_rs.Replication.Log
use wal_distributed_rs.Replication.Log.{RaftLog, term_at, last_index, last_term}
use wal_distributed_rs.Replication.PersistentState.{PersistentState}
use wal_distributed_rs.Common.After.{on_if}
use wal_distributed_rs.Replication.Node.Terms.{record_vote-ps}
use wal_distributed_rs.Replication.Node.Follower.{granted_to}
use wal_distributed_rs.Replication.Node.{RequestVoteResponse}
use wal_distributed_rs.Common.{map}
use wal_distributed_rs.Replication.Log.Record.{LogEntry}
use wal_distributed_rs.Replication.Log.Replay.{pushed}
use wal_distributed_rs.Replication.Node.{
  RaftNode, leader, follower, AppendEntriesRequest, AppendEntriesResponse, RequestVoteRequest,
  on_log, step_down, become_follower_with_leader, reset_timer, advance_term, record_vote,
}
use wal_distributed_rs.Replication.Node.Candidate.{
  Network, Tally, votes, outdated, conclude, become_candidate, become_leader, start_election,
  is_leader,
}
use wal_distributed_rs.Replication.Node.Elections.{election_concluded, counted}
use wal_distributed_rs.Replication.Node.Winning.{become_candidate-fields}
use wal_distributed_rs.Replication.Node.Follower.{
  follow, log_conflict, advance_commit, take_entry, take_entries, answer_entries, on_append_entries,
  on_request_vote,
}
use wal_distributed_rs.Replication.Node.Leader.{
  on_client_write, replicate_and_commit, send_heartbeats, heard_heartbeats,
}
use wal_distributed_rs.Replication.Node.Matching.{is_ok, append-memory}
use wal_distributed_rs.Replication.Node.Stores.{replicate_and_commit-store}

ok-cases : {A : Type 0} (r : Result RaftError A) → is_ok r ≡ true → (a : A) × (r ≡ ok a)
ok-cases (ok a) h = (a, refl)
ok-cases (err e) h = cc

-- The log stays, and a node that leads has led before, in the same term.
pub record Idles (n m : RaftNode) : Type 0 where
  pub memory : m.log.memory ≡ n.log.memory
  pub leads : m.role ≡ leader → (n.role ≡ leader) × (m.ps.current_term ≡ n.ps.current_term)

conclude-log : (t : Tally) (n : RaftNode) → (conclude t n).log ≡ n.log
unfolding become_leader step_down become_follower_with_leader reset_timer advance_term
conclude-log (outdated t) n = refl
conclude-log (votes v) n = ground arith

-- An election leaves the node's log alone, whoever wins.
pub start_election-log : (net : Network) (n : RaftNode) → (start_election net n).log ≡ n.log
start_election-log net n =
    ap (λ (x : RaftNode). x.log) (election_concluded net n)
    ∙ conclude-log (counted net n) (become_candidate n)
    ∙ (become_candidate-fields n).1

heard_heartbeats-Idles :
    (rs : List (Result RaftError AppendEntriesResponse)) (n : RaftNode)
    → Idles n (heard_heartbeats rs n)
unfolding heard_heartbeats step_down become_follower_with_leader reset_timer advance_term
heard_heartbeats-Idles [] n = record { memory = refl; leads = λ led. (led, refl) }
heard_heartbeats-Idles (err e ∷ rs) n = heard_heartbeats-Idles rs n
heard_heartbeats-Idles (ok resp ∷ rs) n =
    on_if (Idles n) (ltb n.ps.current_term resp.term) (record { memory = refl; leads = λ led. cc })
      (heard_heartbeats-Idles rs n)

pub send_heartbeats-Idles : (net : Network) (n : RaftNode) → Idles n (send_heartbeats net n)
unfolding send_heartbeats
send_heartbeats-Idles net n =
    let req : AppendEntriesRequest = record {
      term = n.ps.current_term;
      leader_id = n.id;
      prev_log_index = last_index n.log.memory;
      prev_log_term = last_term n.log.memory;
      entries = [];
      leader_commit = n.commit_index;
    } in
    heard_heartbeats-Idles (map (λ p. net.append_entries p req) n.peers) n

voted-Idles :
    (id : NodeId) (n m : RaftNode)
    → Idles n m
    → Idles n (let v = record_vote id m in record v { last_heartbeat = v.clock })
unfolding record_vote
voted-Idles id n m h = record {
  memory = h.memory;
  leads = λ led. (
    (h.leads led).0,
    ap (λ (s : PersistentState). s.current_term) (record_vote-ps id m) ∙ (h.leads led).1,
  );
}

pub on_request_vote-Idles :
    (req : RequestVoteRequest) (n : RaftNode) → Idles n (on_request_vote req n).1
unfolding on_request_vote advance_term
on_request_vote-Idles req n =
    let n1 : RaftNode =
      if ltb n.ps.current_term req.term
      then record (advance_term req.term n) { role = follower }
      else n in
    let first : Idles n n1 =
      on_if (Idles n) (ltb n.ps.current_term req.term) (record { memory = refl; leads = λ led. cc })
        (record { memory = refl; leads = λ led. (led, refl) }) in
    on_if (λ (x : RequestVoteResponse × RaftNode). Idles n x.1) (granted_to req n1)
      (voted-Idles req.candidate_id n n1 first) first

module _ ⦃c : Crc⦄ where
  take_entry-role : (e : LogEntry) (n : RaftNode) → (take_entry e n).role ≡ n.role
  unfolding take_entry
  take_entry-role e n = elim (Option-cases (term_at n.log.memory e.index)) [
    | inl missing ↦ rw (take_entry, missing) refl
    | inr (t, found) ↦ elim (Bool-cases (t == e.term)) [
      | inl same ↦ rw (take_entry, found, same) refl
      | inr other ↦ rw (take_entry, found, other) refl
    ]
  ]

  take_entries-role : (es : List LogEntry) (n : RaftNode) → (take_entries es n).role ≡ n.role
  unfolding take_entries
  take_entries-role [] n = refl
  take_entries-role (e ∷ es) n = take_entries-role es (take_entry e n) ∙ take_entry-role e n

  answer_entries-role :
      (req : AppendEntriesRequest) (n : RaftNode) (o : Option (ℕ × ℕ))
      → (answer_entries req n o).1.role ≡ n.role
  unfolding answer_entries advance_commit
  answer_entries-role req n (some p) = refl
  answer_entries-role req n none =
      let taken = take_entries req.entries n in
      on_if (λ (x : RaftNode). x.role ≡ n.role) (ltb taken.commit_index req.leader_commit)
        (take_entries-role req.entries n) (take_entries-role req.entries n)

  -- A node that leads behind an AppendEntries has refused it.
  pub on_append_entries-leads :
      (req : AppendEntriesRequest) (n : RaftNode)
      → (on_append_entries req n).1.role ≡ leader
      → (on_append_entries req n).1 ≡ n
  unfolding on_append_entries follow become_follower_with_leader reset_timer
  on_append_entries-leads req n led = elim (Bool-cases (ltb req.term n.ps.current_term)) [
    | inl stale ↦ rw (on_append_entries, stale) refl
    | inr current ↦ absurd (
        let n' = follow req.term req.leader_id n in
        let no : follower ≡ leader =
          sym (answer_entries-role req n' (log_conflict req n'))
          ∙ (rw (on_append_entries, current) at led) in
        cc)
  ]

  -- A leader's write that its own log accepts, with no snapshot due: the entry is at the end of the
  -- log.
  pub on_client_write-pushed :
      (net : Network) (payload : List ℕ) (n : RaftNode)
      → n.role ≡ leader
      → is_ok (on_log (Log.append n.ps.current_term payload) n).0 ≡ true
      → n.entries_since_snapshot + 1 < n.snapshot_trigger
      → n.snapshot_trigger < 2 ^ 64
      → let n' = (on_client_write net payload n).1 in
        (n'.log.memory ≡ pushed n.ps.current_term payload n.log.memory)
        × (n'.role ≡ leader → n'.ps.current_term ≡ n.ps.current_term)
  unfolding on_client_write
  on_client_write-pushed net payload n led works early u64 =
      let (appended, n1) = on_log (Log.append n.ps.current_term payload) n in
      let leads : is_leader n.role ≡ true = ap is_leader led in
      let run : on_client_write net payload n ≡ replicate_and_commit net appended n1 =
        rw leads refl in
      let (i, e) = ok-cases appended works in
      let (log, dir, keeps) = replicate_and_commit-store net i n1 early u64 in
      subst
        (λ (x : Result RaftError ℕ × RaftNode).
          (x.1.log.memory ≡ pushed n.ps.current_term payload n.log.memory)
          × (x.1.role ≡ leader → x.1.ps.current_term ≡ n.ps.current_term))
        (sym (run ∙ ap (λ r. replicate_and_commit net r n1) e))
        (
          ap (λ (l : RaftLog). l.memory) log ∙ append-memory n.ps.current_term payload n works,
          λ h. (keeps h).1,
        )
