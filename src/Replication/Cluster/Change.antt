-- ===== src/Replication/Cluster/Change.antt =====
-- What holds of the recorded votes and acknowledgements, and that it stays so whenever the ledger
-- changes.
use wal_distributed_rs.Common.{length, ℕ, ◌+◌, ◌≤◌, ◌<◌, ◌^◌, ◌≡◌, ◌⊎◌, none, some, List, get_elem?}
use wal_distributed_rs.Replication.Config.{NodeId}
use wal_distributed_rs.Replication.Log.{last_index, last_term}
use wal_distributed_rs.Replication.Log.Record.{LogEntry, Memory}
use wal_distributed_rs.Replication.Node.Votes.{UpToDate}
use wal_distributed_rs.Replication.Cluster.Reigns.{Reigns, Grounded}
use wal_distributed_rs.Replication.Cluster.Prefix.{Prefix}
use wal_distributed_rs.Replication.Cluster.Ledger.{In, Vote, Ack, Ledger, node_of, Majority}

-- A log from index 1 on.
abbrev pub plain : List LogEntry → Memory
plain es = record { entries = es; snapshot_index = 0; snapshot_term = 0 }

-- The leaders of the terms behind `t`, up to `m`, had `b` when they won.
abbrev pub Clear : Reigns → List LogEntry → ℕ → ℕ → Type 0
Clear births b t m =
    (w : ℕ) (log : List LogEntry) → t < w → w ≤ m → births w ≡ some log → Prefix b log

abbrev pub HasReign : Reigns → ℕ → List LogEntry → Type 0
HasReign r t b = (led : List LogEntry) × (r t ≡ some led) × Prefix b led

-- A vote for a candidate with this log.
abbrev pub Backs : List Vote → ℕ → List LogEntry → NodeId → Type 0
Backs votes t log x =
    (v : Vote) × In v votes
    × (v.voter ≡ x)
    × (v.request.term ≡ t)
    × (v.request.last_log_index ≡ last_index (plain log))
    × (v.request.last_log_term ≡ last_term (plain log))

abbrev pub Below : ℕ → List LogEntry → Type 0
Below t log = (i : ℕ) (e : LogEntry) → get_elem? log i ≡ some e → e.term < t

pub record IsKept (members : List NodeId) (l : Ledger) : Type 0 where
  pub birth_reign :
      (t : ℕ) (log : List LogEntry) → l.births t ≡ some log → HasReign l.base.reigns t log
  pub birth_below : (t : ℕ) (log : List LogEntry) → l.births t ≡ some log → Below t log
  pub birth_backed :
      (t : ℕ) (log : List LogEntry) → l.births t ≡ some log → Majority members (Backs l.votes t log)
  pub born :
      (t : ℕ) (led : List LogEntry)
      → l.base.reigns t ≡ some led
      → (log : List LogEntry) × (l.births t ≡ some log)
  pub ack_reign : (a : Ack) → In a l.acks → HasReign l.base.reigns a.term a.log
  pub ack_term : (a : Ack) → In a l.acks → a.term ≤ (node_of l a.node).ps.current_term
  pub ack_kept :
      (a : Ack) (b : List LogEntry)
      → In a l.acks
      → Prefix b a.log
      → Clear l.births b a.term (node_of l a.node).ps.current_term
      → Prefix b (node_of l a.node).log.memory.entries
  pub vote_term : (v : Vote) → In v l.votes → v.request.term ≤ (node_of l v.voter).ps.current_term
  pub vote_plain : (v : Vote) → In v l.votes → v.memory ≡ plain v.memory.entries
  pub vote_short : (v : Vote) → In v l.votes → length v.memory.entries < 2 ^ 64
  pub vote_grounded : (v : Vote) → In v l.votes → Grounded l.base.reigns v.memory.entries
  pub vote_fresh : (v : Vote) → In v l.votes → UpToDate v.request v.memory
  pub vote_kept :
      (v : Vote) (a : Ack) (b : List LogEntry) (m : ℕ)
      → In v l.votes
      → In a l.acks
      → a.node ≡ v.voter
      → a.term < v.request.term
      → Prefix b a.log
      → v.request.term ≡ m + 1
      → Clear l.births b a.term m
      → Prefix b v.memory.entries

-- A vote that a node has just given, in a term with no leader, with its log as it was.
abbrev pub NewVote : Ledger → Ledger → Vote → Type 0
NewVote l l' v =
    (l.base.reigns v.request.term ≡ none)
    × ((node_of l v.voter).ps.current_term ≤ v.request.term)
    × (v.request.term ≤ (node_of l' v.voter).ps.current_term)
    × (v.memory ≡ (node_of l v.voter).log.memory)
    × UpToDate v.request v.memory
    × ((a : Ack) → In a l'.acks → In a l.acks)

-- What a node has just acknowledged, and now has.
abbrev pub NewAck : Ledger → Ledger → Ack → Type 0
NewAck l l' a =
    ((node_of l a.node).ps.current_term ≤ a.term)
    × (a.term ≤ (node_of l' a.node).ps.current_term)
    × Prefix a.log (node_of l' a.node).log.memory.entries
    × HasReign l'.base.reigns a.term a.log
    × ((v : Vote) → In v l'.votes → In v l.votes)

-- What a move may do.
pub record Change (members : List NodeId) (l l' : Ledger) : Type 0 where
  pub terms : (x : NodeId) → (node_of l x).ps.current_term ≤ (node_of l' x).ps.current_term
  pub reigns_stay :
      (t : ℕ) (led : List LogEntry) → l.base.reigns t ≡ some led → HasReign l'.base.reigns t led
  pub grounded_stay : (xs : List LogEntry) → Grounded l.base.reigns xs → Grounded l'.base.reigns xs
  pub births_stay : (t : ℕ) (log : List LogEntry) → l.births t ≡ some log → l'.births t ≡ some log
  pub new_births :
      (t : ℕ) (log : List LogEntry)
      → l'.births t ≡ some log
      → (l.births t ≡ some log)
        ⊎ (HasReign l'.base.reigns t log × Below t log × Majority members (Backs l'.votes t log))
  pub new_reigns :
      (t : ℕ) (led : List LogEntry)
      → l'.base.reigns t ≡ some led
      → ((old : List LogEntry) × (l.base.reigns t ≡ some old))
        ⊎ ((log : List LogEntry) × (l'.births t ≡ some log))
  pub logs :
      (x : NodeId) (b : List LogEntry) (t : ℕ)
      → t ≤ (node_of l x).ps.current_term
      → HasReign l.base.reigns t b
      → Clear l'.births b t (node_of l' x).ps.current_term
      → Prefix b (node_of l x).log.memory.entries
      → Prefix b (node_of l' x).log.memory.entries
  pub votes_stay : (v : Vote) → In v l.votes → In v l'.votes
  pub new_votes : (v : Vote) → In v l'.votes → In v l.votes ⊎ NewVote l l' v
  pub new_acks : (a : Ack) → In a l'.acks → In a l.acks ⊎ NewAck l l' a
