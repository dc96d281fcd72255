-- ===== src/Replication/Node/Logs.antt =====
-- AppendEntries: when it is accepted, and what a refused one leaves alone.
use mathlib.Core.Path.{subst}
use wal_distributed_rs.Replication.Log.{RaftLog, term_at}
use wal_distributed_rs.Replication.PersistentState.{PersistentState}
use wal_distributed_rs.Common.{
  ℕ, ◌≡◌, ◌↔◌, ◌⊎◌, ◌≤◌, ◌∙◌, refl, sym, ap, some, none, Option, List, [], ◌∷◌, Bool, arith,
  Bool-cases, Option-cases, inl, inr, ltb, ltb→lt, not-ltb→le, true, max,
}
use wal_distributed_rs.WalCore.Entry.{Crc}
use wal_distributed_rs.Replication.Log.Record.{Memory, LogEntry}
use wal_distributed_rs.Replication.Config.{NodeId}
use wal_distributed_rs.Replication.Node.{
  RaftNode, AppendEntriesRequest, advance_term, become_follower_with_leader, reset_timer,
}
use wal_distributed_rs.Replication.Node.Follower.{
  follow, log_conflict, ae_reject, advance_commit, take_entry, take_entries, answer_entries,
  on_append_entries,
}
use wal_distributed_rs.Replication.Node.Terms.{advance_term-ps, answer_entries-ps}

-- The log has the entry that the request's entries come behind.
abbrev pub Agrees : AppendEntriesRequest → Memory → Type 0
Agrees req m = (req.prev_log_index ≡ 0) ⊎ (term_at m req.prev_log_index ≡ some req.prev_log_term)

pub no_conflict :
    (req : AppendEntriesRequest) (n : RaftNode)
    → (log_conflict req n ≡ none) ↔ Agrees req n.log.memory
unfolding log_conflict
no_conflict req n = elim (Bool-cases (ltb 0 req.prev_log_index)) [
  | inr first ↦ ((λ _. inl (omega (arith, not-ltb→le _ _ first))), (λ _. rw first refl))
  | inl later ↦ elim (Option-cases (term_at n.log.memory req.prev_log_index)) [
    | inl missing ↦ (λ h. ground (arith, h, later, missing), λ h. ground (arith, h, later, missing))
    | inr (t, found) ↦ (λ h. ground (arith, h, later, found), λ h. ground (arith, h, later, found))
  ]
]

pub follow-log : (t : ℕ) (id : NodeId) (n : RaftNode) → (follow t id n).log ≡ n.log
unfolding follow become_follower_with_leader reset_timer advance_term
follow-log t id n = ground arith

pub follow-commit :
    (t : ℕ) (id : NodeId) (n : RaftNode) → (follow t id n).commit_index ≡ n.commit_index
unfolding follow become_follower_with_leader reset_timer advance_term
follow-commit t id n = ground arith

follow-term :
    (t : ℕ) (id : NodeId) (n : RaftNode) → (follow t id n).ps.current_term ≡ max n.ps.current_term t
unfolding follow become_follower_with_leader reset_timer
follow-term t id n = elim (Bool-cases (ltb n.ps.current_term t)) [
  | inl lt ↦ rw lt (rw (advance_term-ps t n) (omega (arith, ltb→lt _ _ lt)))
  | inr ge ↦ rw ge (omega (arith, not-ltb→le _ _ ge))
]

module _ ⦃c : Crc⦄ where
  take_entry-commit : (e : LogEntry) (n : RaftNode) → (take_entry e n).commit_index ≡ n.commit_index
  unfolding take_entry
  take_entry-commit e n = ground arith

  take_entries-commit :
      (es : List LogEntry) (n : RaftNode) → (take_entries es n).commit_index ≡ n.commit_index
  unfolding take_entries
  take_entries-commit [] n = refl
  take_entries-commit (e ∷ es) n = take_entries-commit es (take_entry e n) ∙ take_entry-commit e n

advance_commit-le :
    (i : ℕ) (n : RaftNode) → (advance_commit i n).commit_index ≤ max n.commit_index i
unfolding advance_commit
advance_commit-le i n = elim (Bool-cases (ltb n.commit_index i)) [
  | inl lt ↦ rw lt (omega arith)
  | inr ge ↦ rw ge (omega arith)
]

module _ ⦃c : Crc⦄ where
  answer_entries_lem :
      (req : AppendEntriesRequest) (n : RaftNode) (o : Option (ℕ × ℕ))
      → let (resp, n') = answer_entries req n o in
        ((resp.success ≡ true) ↔ (o ≡ none))
        × ((resp.success ≡ true) ⊎ ((n'.log ≡ n.log) × (n'.commit_index ≡ n.commit_index)))
        × (n'.commit_index ≤ max n.commit_index req.leader_commit)
        × (resp.term ≡ n.ps.current_term)
  unfolding answer_entries ae_reject
  answer_entries_lem req n (some p) = ((λ h. cc, λ h. cc), inr (refl, refl), omega arith, refl)
  answer_entries_lem req n none = (
    (λ _. refl, λ _. refl),
    inl refl,
    subst
        (λ k.
          (advance_commit req.leader_commit (take_entries req.entries n)).commit_index
          ≤ max k req.leader_commit)
        (take_entries-commit req.entries n)
        (advance_commit-le req.leader_commit (take_entries req.entries n)),
    ap (λ (s : PersistentState). s.current_term) (answer_entries-ps req n none),
  )

  -- AppendEntries succeeds exactly when it is not of an older term and the log agrees with it at
  -- the entry before the new ones. A request that fails changes neither the log nor the commit
  -- index. The commit index never passes both its old value and the leader's, and the answer
  -- carries the higher of the two terms, which is the node's from then on.
  pub on_append_entries_lem :
      (req : AppendEntriesRequest) (n : RaftNode)
      → let (resp, n') = on_append_entries req n in
        ((resp.success ≡ true) ↔ ((n.ps.current_term ≤ req.term) × Agrees req n.log.memory))
        × ((resp.success ≡ true) ⊎ ((n'.log ≡ n.log) × (n'.commit_index ≡ n.commit_index)))
        × (n'.commit_index ≤ max n.commit_index req.leader_commit)
        × (resp.term ≡ max n.ps.current_term req.term)
        × (n'.ps.current_term ≡ max n.ps.current_term req.term)
  unfolding on_append_entries ae_reject
  on_append_entries_lem req n = elim (Bool-cases (ltb req.term n.ps.current_term)) [
    | inl stale ↦
        rw (on_append_entries, stale)
          (
            (
              λ h. absurd (let e : Bool.false ≡ true = h in cc),
              λ h. absurd (omega (arith, h.0, ltb→lt _ _ stale)),
            ),
            inr (refl, refl),
            omega arith,
            omega (arith, ltb→lt _ _ stale),
            omega (arith, ltb→lt _ _ stale),
          )
    | inr current ↦
        let n' = follow req.term req.leader_id n in
        let same_log = follow-log req.term req.leader_id n in
        let same_commit = follow-commit req.term req.leader_id n in
        let term_now = follow-term req.term req.leader_id n in
        let (iff, kept, le, term) = answer_entries_lem req n' (log_conflict req n') in
        rw (on_append_entries, current)
          (
            (
              λ h. (
                not-ltb→le _ _ current,
                subst (λ (l : RaftLog). Agrees req l.memory) same_log
                    ((no_conflict req n').0 (iff.0 h)),
              ),
              λ k. iff.1 (
                  (no_conflict req n').1
                    (subst (λ (l : RaftLog). Agrees req l.memory) (sym same_log) k.1)),
            ),
            elim kept [ inl done ↦ inl done | inr k ↦ inr (k.0 ∙ same_log, k.1 ∙ same_commit) ],
            subst
                (λ k.
                  (answer_entries req n' (log_conflict req n')).1.commit_index
                  ≤ max k req.leader_commit)
                same_commit le,
            term ∙ term_now,
            ap (λ (s : PersistentState). s.current_term)
                  (answer_entries-ps req n' (log_conflict req n'))
                ∙ term_now,
          )
  ]
