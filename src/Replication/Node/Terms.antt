-- ===== src/Replication/Node/Terms.antt =====
-- What the handlers do to the term and the vote: terms never fall, and a vote stays for its term.
use wal_distributed_rs.Common.{
  leb, if◌then◌else◌, ℕ, ◌≡◌, ◌≤◌, ◌<◌, ◌∙◌, refl, sym, some, none, Option, List, [], ◌∷◌, Bool,
  arith, Bool-cases, inl, inr, ltb, ltb→lt, true, false,
}
use mathlib.Core.Path.{subst}
use wal_distributed_rs.Common.Exec.{continue, Result, Exec, ok, err, on_snd}
use wal_distributed_rs.Disk.{Dir}
use wal_distributed_rs.WalCore.Entry.{Crc}
use wal_distributed_rs.Replication.Config.{NodeId}
use wal_distributed_rs.Replication.Error.{RaftError}
use wal_distributed_rs.Replication.Log.Record.{LogEntry}
use wal_distributed_rs.Replication.PersistentState
use wal_distributed_rs.Replication.PersistentState.{PersistentState, persist}
use wal_distributed_rs.Replication.Snapshot.{Snapshot}
use wal_distributed_rs.Replication.Node.{
  RaftNode, AppendEntriesRequest, InstallSnapshotRequest, advance_term, record_vote, reset_timer,
  step_down, become_follower_with_leader,
}
use wal_distributed_rs.Replication.Node.Follower.{
  follow, advance_commit, take_entry, take_entries, answer_entries, on_append_entries, install,
  on_install_snapshot, log_conflict,
}

-- From `s` on to `t` the term does not fall, and a vote does not change within a term.
pub record KeepsVote (s t : PersistentState) : Type 0 where
  pub term : s.current_term ≤ t.current_term
  pub vote :
      s.current_term ≡ t.current_term → (v : NodeId) → s.voted_for ≡ some v → t.voted_for ≡ some v

pub keeps_refl : {s : PersistentState} → KeepsVote s s
keeps_refl = record { term = omega arith; vote = λ _ v h. h }

pub keeps-≡ : {s t : PersistentState} → t ≡ s → KeepsVote s t
keeps-≡ {s} e = subst (KeepsVote s) (sym e) keeps_refl

pub keeps_trans : {s t u : PersistentState} → KeepsVote s t → KeepsVote t u → KeepsVote s u
keeps_trans {s} {t} {u} h k = record {
  term = omega (arith, h.term, k.term);
  vote = λ e v hv.
      let st : s.current_term ≡ t.current_term = omega (arith, h.term, k.term) in
      k.vote (sym st ∙ e) v (h.vote st v hv);
}

-- Any state of a higher term.
pub keeps-higher : {s t : PersistentState} → s.current_term < t.current_term → KeepsVote s t
keeps-higher lt = record { term = omega (arith, lt); vote = λ e v h. absurd (omega (arith, lt, e)) }

continue-on_snd :
    {S T A B : Type 0} (r : Result RaftError A) (k : A → Exec RaftError T B) (s : S) (t : T)
    → (continue r (λ a. on_snd (k a)) (s, t)).1.0 ≡ s
continue-on_snd (ok a) k s t = refl
continue-on_snd (err e) k s t = refl

persist-ps : (s : PersistentState) (d : Dir) → (persist (s, d)).1.0 ≡ s
unfolding persist
persist-ps s d = continue-on_snd _ _ s _

pub advance_term-ps :
    (t : ℕ) (n : RaftNode) → (advance_term t n).ps ≡ record { current_term = t; voted_for = none }
unfolding advance_term PersistentState.advance_term
advance_term-ps t n = persist-ps _ n.data_dir

pub record_vote-ps :
    (id : NodeId) (n : RaftNode) → (record_vote id n).ps ≡ record (n.ps) { voted_for = some id }
unfolding record_vote PersistentState.record_vote
record_vote-ps id n = persist-ps _ n.data_dir

pub keeps-advance_term :
    (t : ℕ) (n : RaftNode) → n.ps.current_term < t → KeepsVote n.ps (advance_term t n).ps
keeps-advance_term t n lt = rw (advance_term-ps t n) (keeps-higher lt)

pub keeps-step_down :
    (t : ℕ) (n : RaftNode) → n.ps.current_term < t → KeepsVote n.ps (step_down t n).ps
unfolding step_down become_follower_with_leader reset_timer
keeps-step_down t n lt = keeps-advance_term t n lt

keeps-follow : (t : ℕ) (id : NodeId) (n : RaftNode) → KeepsVote n.ps (follow t id n).ps
unfolding follow become_follower_with_leader reset_timer
keeps-follow t id n = elim (Bool-cases (ltb n.ps.current_term t)) [
  | inl lt ↦ rw lt (keeps-advance_term t n (ltb→lt _ _ lt))
  | inr ge ↦ rw ge keeps_refl
]

advance_commit-ps : (i : ℕ) (n : RaftNode) → (advance_commit i n).ps ≡ n.ps
unfolding advance_commit
advance_commit-ps i n = ground arith

-- Through the branches of a handler.
pub keeps-if :
    {X : Type 0} {s : PersistentState} (b : Bool) (x y : X × RaftNode)
    → KeepsVote s x.1.ps
    → KeepsVote s y.1.ps
    → KeepsVote s (if b then x else y).1.ps
keeps-if true x y hx hy = hx
keeps-if false x y hx hy = hy

pub keeps-when :
    {X : Type 0} {s : PersistentState} (b : Bool) (x y : X × RaftNode)
    → (b ≡ true → KeepsVote s x.1.ps)
    → KeepsVote s y.1.ps
    → KeepsVote s (if b then x else y).1.ps
keeps-when true x y hx hy = hx refl
keeps-when false x y hx hy = hy

module _ ⦃c : Crc⦄ where
  take_entry-ps : (e : LogEntry) (n : RaftNode) → (take_entry e n).ps ≡ n.ps
  unfolding take_entry
  take_entry-ps e n = ground arith

  take_entries-ps : (es : List LogEntry) (n : RaftNode) → (take_entries es n).ps ≡ n.ps
  unfolding take_entries
  take_entries-ps [] n = refl
  take_entries-ps (e ∷ es) n = take_entries-ps es (take_entry e n) ∙ take_entry-ps e n

  install-ps : (s : Snapshot) (n : RaftNode) → (install s n).1.ps ≡ n.ps
  unfolding install
  install-ps s n = ground arith

  pub answer_entries-ps :
      (req : AppendEntriesRequest) (n : RaftNode) (o : Option (ℕ × ℕ))
      → (answer_entries req n o).1.ps ≡ n.ps
  unfolding answer_entries
  answer_entries-ps req n (some p) = refl
  answer_entries-ps req n none =
      advance_commit-ps req.leader_commit (take_entries req.entries n)
      ∙ take_entries-ps req.entries n

  pub keeps-on_append_entries :
      (req : AppendEntriesRequest) (n : RaftNode) → KeepsVote n.ps (on_append_entries req n).1.ps
  unfolding on_append_entries
  keeps-on_append_entries req n =
      let n' = follow req.term req.leader_id n in
      keeps-if (ltb req.term n.ps.current_term) _ _ keeps_refl (
        keeps_trans (keeps-follow req.term req.leader_id n)
          (keeps-≡ (answer_entries-ps req n' (log_conflict req n'))))

  pub keeps-on_install_snapshot :
      (req : InstallSnapshotRequest) (n : RaftNode)
      → KeepsVote n.ps (on_install_snapshot req n).1.ps
  unfolding on_install_snapshot
  keeps-on_install_snapshot req n =
      let n' = follow req.term req.leader_id n in
      keeps-if (ltb req.term n.ps.current_term) _ _ keeps_refl (
        keeps-if (leb req.last_included_index n'.log.memory.snapshot_index) _ _
          (keeps-follow req.term req.leader_id n)
          (keeps_trans (keeps-follow req.term req.leader_id n) (keeps-≡ (install-ps _ n'))))
