-- ===== src/Replication/Node/Tables.antt =====
-- The leader's maps from nodes to indices.
use wal_distributed_rs.Common.{
  ℕ, ◌≡◌, inl, inr, refl, some, List, [], ◌∷◌, All, arith, bytes_eq, bytes_eq_refl, Bool-cases,
}
use wal_distributed_rs.Replication.Config.{NodeId, NodeInfo}
use wal_distributed_rs.Replication.Node.{get, insert, Indices}
use wal_distributed_rs.Replication.Node.Candidate.{all_peers}

pub get-insert : (id : NodeId) (v : ℕ) (m : Indices) → get id (insert id v m) ≡ some v
unfolding get insert
get-insert id v [] = rw (bytes_eq_refl id) refl
get-insert id v ((k, u) ∷ m) = elim (Bool-cases (bytes_eq k id)) [
  | inl same ↦ ground (arith, same)
  | inr other ↦ ground (arith, other, get-insert id v m)
]

-- Another entry with the same value does no harm.
get-insert_other :
    (id k : NodeId) (v : ℕ) (m : Indices) → get id m ≡ some v → get id (insert k v m) ≡ some v
unfolding get insert
get-insert_other id k v [] h = cc
get-insert_other id k v ((j, u) ∷ m) h = elim (Bool-cases (bytes_eq j k)) [
  | inl same ↦ ground (arith, h, same)
  | inr other ↦ ground (arith, h, other, get-insert_other id k v m)
]

get-all_peers :
    (id : NodeId) (v : ℕ) (ps : List NodeInfo) (m : Indices)
    → get id m ≡ some v
    → get id (all_peers v ps m) ≡ some v
unfolding all_peers
get-all_peers id v [] m h = h
get-all_peers id v (p ∷ ps) m h =
    get-all_peers id v ps (insert p.id v m) (get-insert_other id p.id v m h)

pub all_peers-get :
    (v : ℕ) (ps : List NodeInfo) (m : Indices) → All (λ p. get p.id (all_peers v ps m) ≡ some v) ps
unfolding all_peers
all_peers-get v [] m = tt
all_peers-get v (p ∷ ps) m = (
  get-all_peers p.id v ps (insert p.id v m) (get-insert p.id v m),
  all_peers-get v ps (insert p.id v m),
)
