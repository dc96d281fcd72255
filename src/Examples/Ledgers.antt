-- ===== src/Examples/Ledgers.antt =====
-- A cluster with a record of its votes and acknowledgements at concrete inputs: a leader's entry is
-- in the log of the leader of the next term.
use wal_distributed_rs.Common.{
  ◌≡◌, ◌||◌, ◌∙◌, ◌*◌, ◌<◌, refl, sym, ap, some, none, List, [], ◌∷◌, arith, true, inl, inr, length,
  bytes_eq, bytes_eq_iff, Bool, Bool-cases,
}
use mathlib.Core.Path.{subst}
use wal_distributed_rs.Common.Exec.{ok}
use wal_distributed_rs.Bytes.{le_bytes}
use wal_distributed_rs.Disk
use wal_distributed_rs.Disk.{find, store, erase, outcome, later}
use wal_distributed_rs.WalCore.Entry.{encode}
use wal_distributed_rs.WalCore.Wal
use wal_distributed_rs.WalCore.Segment
use wal_distributed_rs.WalCore.Segment.{would_overflow}
use wal_distributed_rs.WalCore.Segment.Names.{segment_path}
use wal_distributed_rs.Replication.Config.{NodeId, quorum}
use wal_distributed_rs.Replication.PersistentState
use wal_distributed_rs.Replication.Log
use wal_distributed_rs.Replication.Log.{last_index}
use wal_distributed_rs.Replication.Log.Record.{LogEntry, encode_append}
use wal_distributed_rs.Replication.Node.{leader, on_log, advance_term, RequestVoteRequest}
use wal_distributed_rs.Replication.Node.Candidate.{
  Network, start_election, become_candidate, vote_request,
}
use wal_distributed_rs.Replication.Node.Leader.{on_client_write}
use wal_distributed_rs.Replication.Node.Follower.{follow, on_append_entries, on_request_vote}
use wal_distributed_rs.Replication.Node.Matching.{is_ok, entries_ok}
use wal_distributed_rs.Replication.Cluster.Counts.{count}
use wal_distributed_rs.Replication.Cluster.Ledger.{
  Ledger, node_of, Majority, Move, Moves, Opens, after_vote, after_election, after_write,
  after_entries,
}
use wal_distributed_rs.Examples.Matching.{empty_node, at_first, at_first-Begins, a, b, sent, x}
use wal_distributed_rs.Examples.Setup.{sums, hello}

abbrev pub c : NodeId
c = b'c' ∷ []

abbrev pub members : List NodeId
members = a ∷ b ∷ c ∷ []

-- Votes are granted, and `b` acknowledges entries.
abbrev pub friends : Network
friends = record {
  request_vote = λ p req. ok (record { term = 2; vote_granted = Bool.true });
  append_entries = λ p req.
      ok (record { term = 1; success = bytes_eq p.id b; conflict_index = 0; conflict_term = 0 });
  install_snapshot = λ p req. ok (record { term = 1; success = Bool.false });
}

abbrev pub l0 : Ledger
l0 = record { base = at_first; births = λ t. none; votes = []; acks = [] }

pub l0-Opens : Opens l0
l0-Opens = record {
  begins = at_first-Begins;
  no_term = λ id. refl;
  no_births = λ t. refl;
  no_votes = refl;
  no_acks = refl;
}

-- What `a` asks, and later `b`.
abbrev ask : RequestVoteRequest
ask = vote_request (become_candidate (empty_node a))

abbrev pub l1 : Ledger
l1 = after_vote b ask l0

abbrev pub l2 : Ledger
l2 = after_election a (start_election friends (node_of l1 a)) l1

abbrev pub l3 : Ledger
l3 = after_write a (on_client_write friends hello (node_of l2 a)).1 l2

abbrev l4 : Ledger
l4 = after_entries b (on_append_entries sent (node_of l3 b)).1 sent (x ∷ []) l3

abbrev ask' : RequestVoteRequest
ask' = vote_request (become_candidate (node_of l4 b))

abbrev l5 : Ledger
l5 = after_vote c ask' l4

abbrev pub l6 : Ledger
l6 = after_election b (start_election friends (node_of l5 b)) l5

pub either_of :
    (P : NodeId → Type 0) (y z : NodeId)
    → P y
    → P z
    → (w : NodeId) → (bytes_eq w y || bytes_eq w z) ≡ true
    → P w
either_of P y z of_y of_z w this_or_that = elim (Bool-cases (bytes_eq w y)) [
  | inl this ↦ subst P (sym ((bytes_eq_iff w y).0 this)) of_y
  | inr other ↦ subst P (sym ((bytes_eq_iff w z).0 (rw other at this_or_that))) of_z
]

pub or_right : (u v : Bool) → v ≡ true → (u || v) ≡ true
or_right Bool.true v h = refl
or_right Bool.false v h = h

pub two :
    (P : NodeId → Type 0) (y z : NodeId)
    → length members < 2 * count (λ w. bytes_eq w y || bytes_eq w z) members
    → P y
    → P z
    → Majority members P
two P y z many of_y of_z = record {
  who = λ w. bytes_eq w y || bytes_eq w z;
  many = many;
  each = either_of P y z of_y of_z;
}

voted_b : (on_request_vote ask (node_of l0 b)).0.vote_granted ≡ true
unfolding on_request_vote vote_request become_candidate advance_term PersistentState.advance_term
    Disk.write Disk.rename find store erase bytes_eq outcome later
voted_b = refl

a_wins : (start_election friends (node_of l1 a)).role ≡ leader
unfolding start_election advance_term PersistentState.advance_term Disk.write Disk.rename find store
    erase bytes_eq outcome later quorum
a_wins = refl

pub first_term : (node_of l2 a).ps.current_term ≡ 2
unfolding start_election advance_term PersistentState.advance_term Disk.write Disk.rename find store
    erase bytes_eq outcome later quorum
first_term = refl

vacant_2 : l1.base.reigns (start_election friends (node_of l1 a)).ps.current_term ≡ none
vacant_2 = refl

a_leads : (node_of l2 a).role ≡ leader
unfolding start_election advance_term PersistentState.advance_term Disk.write Disk.rename find store
    erase bytes_eq outcome later quorum
a_leads = refl

a_logs : is_ok (on_log (Log.append (node_of l2 a).ps.current_term hello) (node_of l2 a)).0 ≡ true
unfolding start_election advance_term PersistentState.advance_term Disk.write Disk.rename find store
    erase bytes_eq outcome later quorum on_client_write Log.append Wal.append would_overflow encode
    le_bytes encode_append Segment.append Segment.write_all Segment.sync Disk.append segment_path
    Disk.sync_all
a_logs = refl

pub counters :
    ((node_of l2 a).log.memory.entries ≡ [])
    × ((node_of l2 a).entries_since_snapshot ≡ 0)
    × ((node_of l2 a).snapshot_trigger ≡ 100)
unfolding start_election advance_term PersistentState.advance_term Disk.write Disk.rename find store
    erase bytes_eq outcome later quorum
counters = (refl, refl, refl)

b_takes :
    (l3.base.reigns 2 ≡ some (x ∷ []))
    × (entries_ok sent.entries (follow 2 a (node_of l3 b)) ≡ true)
    × ((on_append_entries sent (node_of l3 b)).0.success ≡ true)
unfolding start_election advance_term PersistentState.advance_term Disk.write Disk.rename find store
    erase bytes_eq outcome later quorum on_client_write Log.append Wal.append would_overflow encode
    le_bytes encode_append Segment.append Segment.write_all Segment.sync Disk.append segment_path
    Disk.sync_all last_index entries_ok follow on_append_entries on_request_vote
b_takes = (refl, refl, refl)

voted_c : (on_request_vote ask' (node_of l4 c)).0.vote_granted ≡ true
unfolding start_election advance_term PersistentState.advance_term Disk.write Disk.rename find store
    erase bytes_eq outcome later quorum on_client_write Log.append Wal.append would_overflow encode
    le_bytes encode_append Segment.append Segment.write_all Segment.sync Disk.append segment_path
    Disk.sync_all last_index entries_ok follow on_append_entries on_request_vote vote_request
    become_candidate
voted_c = refl

b_term : ((node_of l4 b).ps.current_term ≡ 2) × (ask'.term ≡ 3)
unfolding start_election advance_term PersistentState.advance_term Disk.write Disk.rename find store
    erase bytes_eq outcome later quorum on_client_write Log.append Wal.append would_overflow encode
    le_bytes encode_append Segment.append Segment.write_all Segment.sync Disk.append segment_path
    Disk.sync_all last_index entries_ok follow on_append_entries on_request_vote vote_request
    become_candidate
b_term = (refl, refl)

pub b_wins :
    ((start_election friends (node_of l5 b)).role ≡ leader)
    × ((start_election friends (node_of l5 b)).ps.current_term ≡ 3)
    × (l5.base.reigns 3 ≡ none)
    × (l6.base.reigns 3 ≡ some (x ∷ []))
unfolding start_election advance_term PersistentState.advance_term Disk.write Disk.rename find store
    erase bytes_eq outcome later quorum on_client_write Log.append Wal.append would_overflow encode
    le_bytes encode_append Segment.append Segment.write_all Segment.sync Disk.append segment_path
    Disk.sync_all last_index entries_ok follow on_append_entries on_request_vote vote_request
    become_candidate
b_wins = (refl, refl, refl, refl)

first_move : Move members l0 l1
first_move = Move.voted b ask l0 voted_b refl

second_move : Move members l1 l2
unfolding bytes_eq
second_move = Move.elected a friends l1 a_wins vacant_2 (omega arith) (
    two _ a b (omega arith) (inl refl) (
      inr (
        record { voter = b; request = ask; memory = (empty_node b).log.memory },
        inl refl,
        refl,
        refl,
      )))

third_move : Move members l2 l3
third_move =
    Move.wrote a friends hello l2 a_leads a_logs (omega (arith, first_term))
      (omega (arith, ap (length {A = LogEntry}) counters.0)) (omega (arith, counters.1, counters.2))
      (omega (arith, counters.2))

fourth_move : Move members l3 l4
fourth_move = Move.took b sent (x ∷ []) l3 b_takes.0 (refl, tt) (inl refl) b_takes.1 b_takes.2

no_third : l4.base.reigns ask'.term ≡ none
no_third = ap l4.base.reigns b_term.1 ∙ b_wins.2

fifth_move : Move members l4 l5
fifth_move = Move.voted c ask' l4 voted_c no_third

sixth_move : Move members l5 l6
unfolding bytes_eq
sixth_move =
    Move.elected b friends l5 b_wins.0 (ap l5.base.reigns b_wins.1 ∙ b_wins.2)
      (omega (arith, b_term.0))
      (two _ b c (omega arith) (inl refl) (
        inr (
          record { voter = c; request = ask'; memory = (node_of l4 c).log.memory },
          inl refl,
          refl,
          refl,
        )))

pub moves : Moves members l0 l6
moves = Moves.next first_move (
    Moves.next second_move (
      Moves.next third_move
        (Moves.next fourth_move (Moves.next fifth_move (Moves.next sixth_move Moves.here)))))
