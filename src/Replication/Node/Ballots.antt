-- ===== src/Replication/Node/Ballots.antt =====
-- The votes that a node gives while it runs: those that its handler grants to others, and its own
-- when it stands for election.
use mathlib.Core.Path.{subst}
use wal_distributed_rs.Common.{
  Option, ==_iff, ℕ, ◌+◌, ◌^◌, ◌≡◌, ◌≤◌, ◌<◌, ◌∙◌, ◌⊎◌, inl, inr, sym, ap, Bool, true, ◌||◌, ◌&&◌,
  ◌==◌, some, List, [], ◌∷◌, All, arith, bytes_eq, bytes_eq_iff, if◌then◌else◌,
}
use wal_distributed_rs.WalCore.Entry.{Crc}
use wal_distributed_rs.Replication.Config.{NodeId, ClusterConfig}
use wal_distributed_rs.Replication.PersistentState.{PersistentState}
use wal_distributed_rs.Common.Exec.{ok}
use wal_distributed_rs.Common.Gives.{Gives-ok}
use wal_distributed_rs.Disk.{Dir}
use wal_distributed_rs.Replication.PersistentState.Atomic.{loaded}
use wal_distributed_rs.Replication.Node.Restarts.{start-ps}
use wal_distributed_rs.Replication.Node.{RaftNode, RequestVoteRequest, start}
use wal_distributed_rs.Replication.Node.Follower.{on_request_vote}
use wal_distributed_rs.Replication.Node.Candidate.{Network, start_election, become_candidate}
use wal_distributed_rs.Replication.Node.Elections.{become_candidate-ps}
use wal_distributed_rs.Replication.Node.Events.{Step}
use wal_distributed_rs.Replication.Node.Once.{keeps-Step, keeps-concluded, keeps-become_candidate}
use wal_distributed_rs.Replication.Node.Terms.{keeps-≡, KeepsVote}
use wal_distributed_rs.Replication.Node.Votes.{judged, on_request_vote_lem, keeps-on_request_vote}

-- A vote: its term, and the candidate that has it.
abbrev pub Ballot : Type 0
Ballot = ℕ × NodeId

-- The vote is among those given.
unfoldable pub has_ballot : Ballot → List Ballot → Bool
has_ballot b [] = Bool.false
has_ballot (t, v) ((u, w) ∷ bs) = (u == t && bytes_eq w v) || has_ballot (t, v) bs

module _ ⦃c : Crc⦄ where
  -- A run of the node: turns of its loop, the votes that it gives, and restarts.
  pub data Run (first : RaftNode) : List Ballot → RaftNode → Type 0 where
    begins : Run first [] first
    turns : {bs : List Ballot} {n m : RaftNode} → Run first bs n → Step n m → Run first bs m
    votes :
        {bs : List Ballot} {n : RaftNode} (req : RequestVoteRequest)
        → Run first bs n
        → (on_request_vote req n).0.vote_granted ≡ true
        → Run first ((req.term, req.candidate_id) ∷ bs) (on_request_vote req n).1
    -- `start` on the directories that the node left, when its state file holds its term and its
    -- vote.
    restarts :
        {bs : List Ballot} {n m : RaftNode} {ds : Dir × Dir} (config : ClusterConfig) (clock : ℕ)
        (draws : List ℕ)
        → Run first bs n
        → loaded n.data_dir.files ≡ n.ps
        → start config clock draws (n.data_dir, n.wal_dir) ≡ (ok m, ds)
        → Run first bs m
    stands :
        {bs : List Ballot} {n : RaftNode} (net : Network)
        → Run first bs n
        → n.ps.current_term + 1 < 2 ^ 64
        → Run first ((n.ps.current_term + 1, n.id) ∷ bs) (start_election net n)

-- The state keeps the vote as long as its term lasts.
unfoldable Recalls : PersistentState → Ballot → Type 0
Recalls s (t, v) = (t ≤ s.current_term) × ((t ≡ s.current_term) → (s.voted_for ≡ some v))

Recalls-keeps : {s s' : PersistentState} (b : Ballot) → KeepsVote s s' → Recalls s b → Recalls s' b
unfolding Recalls
Recalls-keeps b k (le, vote) = (
  omega (arith, le, k.term),
  λ e. k.vote (omega (arith, le, k.term, e)) b.1 (vote (omega (arith, le, k.term, e))),
)

Recalls-keeps_All :
    {s s' : PersistentState} (bs : List Ballot)
    → KeepsVote s s'
    → All (Recalls s) bs
    → All (Recalls s') bs
Recalls-keeps_All [] k h = tt
Recalls-keeps_All (b ∷ bs) k (h, hs) = (Recalls-keeps b k h, Recalls-keeps_All bs k hs)

-- The state in which the vote is given.
unfoldable Casts : PersistentState → Ballot → Type 0
Casts s (t, v) = (s.current_term ≡ t) × (s.voted_for ≡ some v)

Casts→Recalls : (s : PersistentState) (b : Ballot) → Casts s b → Recalls s b
unfolding Casts Recalls
Casts→Recalls s b (term, vote) = (omega (arith, term), λ _. vote)

has_ballot-cons :
    (t : ℕ) (v : NodeId) (b : Ballot) (bs : List Ballot)
    → has_ballot (t, v) (b ∷ bs) ≡ true
    → ((b.0 ≡ t) × (b.1 ≡ v)) ⊎ (has_ballot (t, v) bs ≡ true)
unfolding has_ballot
has_ballot-cons t v (u, w) bs h = ground (arith, h, bytes_eq_iff w v, ==_iff u t)

has_ballot-Recalls :
    (s : PersistentState) (t : ℕ) (v : NodeId) (bs : List Ballot)
    → All (Recalls s) bs
    → has_ballot (t, v) bs ≡ true
    → Recalls s (t, v)
unfolding has_ballot
has_ballot-Recalls s t v [] hs h = cc
has_ballot-Recalls s t v (b ∷ bs) (r, rs) h = elim (has_ballot-cons t v b bs h) [
  | inl (t_eq, v_eq) ↦ subst (λ (x : Ballot). Recalls s x) (λ i. (t_eq i, v_eq i)) r
  | inr old ↦ has_ballot-Recalls s t v bs rs old
]

-- There is one candidate in a term.
abbrev pub IsUnique : List Ballot → Type 0
IsUnique bs =
    (t : ℕ) (v w : NodeId) → has_ballot (t, v) bs ≡ true → has_ballot (t, w) bs ≡ true → v ≡ w

some-inj : {v w : NodeId} → ◌≡◌ {A = Option NodeId} (some v) (some w) → v ≡ w
some-inj e = cc

agrees_with_new :
    (s : PersistentState) (t : ℕ) (w : NodeId) (b : Ballot)
    → Casts s b
    → b.0 ≡ t
    → Recalls s (t, w)
    → b.1 ≡ w
unfolding Casts Recalls
agrees_with_new s t w b (term, vote) e (_, recall) =
    some-inj (sym vote ∙ recall (omega (arith, e, term)))

IsUnique-cons :
    (s : PersistentState) (b : Ballot) (bs : List Ballot)
    → All (Recalls s) bs
    → Casts s b
    → IsUnique bs
    → IsUnique (b ∷ bs)
IsUnique-cons s b bs old new unique t v w hv hw =
    by_age (has_ballot-cons t v b bs hv) (has_ballot-cons t w b bs hw)
  where
    by_age :
        ((b.0 ≡ t) × (b.1 ≡ v)) ⊎ (has_ballot (t, v) bs ≡ true)
        → ((b.0 ≡ t) × (b.1 ≡ w)) ⊎ (has_ballot (t, w) bs ≡ true)
        → v ≡ w
    by_age (inl (_, ev)) (inl (_, ew)) = sym ev ∙ ew
    by_age (inl (et, ev)) (inr ow) =
        sym ev ∙ agrees_with_new s t w b new et (has_ballot-Recalls s t w bs old ow)
    by_age (inr ov) (inl (et, ew)) =
        sym (agrees_with_new s t v b new et (has_ballot-Recalls s t v bs old ov)) ∙ ew
    by_age (inr ov) (inr ow) = unique t v w ov ow

judged-ge : (t : ℕ) (s : PersistentState) → t ≤ (judged t s).current_term
judged-ge t s = ground arith

granted-Casts :
    (req : RequestVoteRequest) (n : RaftNode)
    → (on_request_vote req n).0.vote_granted ≡ true
    → Casts (on_request_vote req n).1.ps (req.term, req.candidate_id)
unfolding Casts
granted-Casts req n given =
    let (iff, ps, _, _) = on_request_vote_lem req n in
    let s = judged req.term n.ps in
    let ps' : (on_request_vote req n).1.ps ≡ record s { voted_for = some req.candidate_id } =
      ps ∙ ap (λ b. if b then record s { voted_for = some req.candidate_id } else s) given in
    (
      ap (λ (x : PersistentState). x.current_term) ps'
          ∙ omega (arith, judged-ge req.term n.ps, (iff.0 given).0),
      ap (λ (x : PersistentState). x.voted_for) ps',
    )

candidate-Casts :
    (n : RaftNode)
    → n.ps.current_term + 1 < 2 ^ 64
    → Casts (become_candidate n).ps (n.ps.current_term + 1, n.id)
unfolding Casts
candidate-Casts n room = (
  ap (λ (x : PersistentState). x.current_term) (become_candidate-ps n) ∙ omega (arith, room),
  ap (λ (x : PersistentState). x.voted_for) (become_candidate-ps n),
)

module _ ⦃c : Crc⦄ where
  restarted-ps :
      (config : ClusterConfig) (clock : ℕ) (draws : List ℕ) (ds : Dir × Dir) {ds' : Dir × Dir}
      {m : RaftNode}
      → start config clock draws ds ≡ (ok m, ds')
      → m.ps ≡ loaded ds.0.files
  restarted-ps config clock draws ds started =
      Gives-ok (λ (m : RaftNode). m.ps ≡ loaded ds.0.files) started (start-ps config clock draws ds)

  Run-Recalls :
      {first : RaftNode} {bs : List Ballot} {n : RaftNode} → Run first bs n → All (Recalls n.ps) bs
  Run-Recalls begins = tt
  Run-Recalls (turns {bs} r s) = Recalls-keeps_All bs (keeps-Step s) (Run-Recalls r)
  Run-Recalls (restarts {bs} config clock draws r saved started) =
      Recalls-keeps_All bs (keeps-≡ (restarted-ps config clock draws _ started ∙ saved))
        (Run-Recalls r)
  Run-Recalls (votes {bs} {n} req r given) = (
    Casts→Recalls _ _ (granted-Casts req n given),
    Recalls-keeps_All bs (keeps-on_request_vote req n) (Run-Recalls r),
  )
  Run-Recalls (stands {bs} {n} net r room) =
      Recalls-keeps_All ((n.ps.current_term + 1, n.id) ∷ bs) (keeps-concluded net n) (
        Casts→Recalls _ _ (candidate-Casts n room),
        Recalls-keeps_All bs (keeps-become_candidate n room) (Run-Recalls r),
      )

  -- Among the votes that a node gives in a run, its own included, no two of a term are for
  -- different candidates.
  pub Run-IsUnique :
      {first : RaftNode} {bs : List Ballot} {n : RaftNode} → Run first bs n → IsUnique bs
  unfolding has_ballot
  Run-IsUnique begins = λ t v w hv hw. cc
  Run-IsUnique (turns r s) = Run-IsUnique r
  Run-IsUnique (restarts config clock draws r saved started) = Run-IsUnique r
  Run-IsUnique (votes {bs} {n} req r given) =
      IsUnique-cons _ _ bs (Recalls-keeps_All bs (keeps-on_request_vote req n) (Run-Recalls r))
        (granted-Casts req n given) (Run-IsUnique r)
  Run-IsUnique (stands {bs} {n} net r room) =
      IsUnique-cons _ _ bs (Recalls-keeps_All bs (keeps-become_candidate n room) (Run-Recalls r))
        (candidate-Casts n room) (Run-IsUnique r)
