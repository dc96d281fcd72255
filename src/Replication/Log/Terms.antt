-- ===== src/Replication/Log/Terms.antt =====
-- What `term_at` tells of the entries of the log.
use wal_distributed_rs.Common.{
  [], ◌∷◌, inr, inl, Option-cases, ◌-◌, ◌+◌, arith, length, some, ◌⊎◌, ◌<◌, none, ◌≡◌, ◌≤◌,
  get_elem?, ℕ, List,
}
use Prim.Native.Nat.{zero, suc}
use wal_distributed_rs.Replication.Log.{term_at, last_index}
use wal_distributed_rs.Replication.Log.Record.{LogEntry, Memory}
use wal_distributed_rs.Replication.Log.Replay.{IsLog}

pub get_elem?-none : (es : List LogEntry) (k : ℕ) → get_elem? es k ≡ none → length es ≤ k
get_elem?-none [] k h = omega arith
get_elem?-none (e ∷ es) zero h = cc
get_elem?-none (e ∷ es) (suc k) h = omega (arith, get_elem?-none es k h)

behind_snapshot :
    (m : Memory) (i : ℕ) → m.snapshot_index ≤ i → 0 < i → term_at m i ≡ none → m.snapshot_index < i
unfolding term_at
behind_snapshot m i le pos h = ground (arith, h, le, pos)

pub term_at-none :
    (m : Memory) (i : ℕ)
    → m.snapshot_index ≤ i
    → 0 < i
    → term_at m i ≡ none
    → m.snapshot_index + length m.entries < i
unfolding term_at
term_at-none m i le pos h = elim (Option-cases (get_elem? m.entries (i - m.snapshot_index - 1))) [
  | inl missing ↦ omega (arith, get_elem?-none m.entries _ missing, behind_snapshot m i le pos h)
  | inr (e, found) ↦ absurd (ground (arith, h, found, behind_snapshot m i le pos h))
]

-- Where a term that the log knows stands.
unfoldable pub IsAt : Memory → ℕ → ℕ → Type 0
IsAt m i t =
    ((i ≡ m.snapshot_index) × (t ≡ m.snapshot_term))
    ⊎ ((m.snapshot_index < i)
        × ((e : LogEntry) × (get_elem? m.entries (i - m.snapshot_index - 1) ≡ some e)
            × (e.term ≡ t)))

pub term_at-some : (m : Memory) (i t : ℕ) → m.snapshot_index ≤ i → term_at m i ≡ some t → IsAt m i t
unfolding term_at IsAt
term_at-some m i t le h = elim (Option-cases (get_elem? m.entries (i - m.snapshot_index - 1))) [
  | inl missing ↦ ground (arith, h, le, missing)
  | inr (e, found) ↦ ground (arith, h, le, found)
]

pub get_elem?-lt :
    {A : Type 0} (xs : List A) (k : ℕ) (x : A) → get_elem? xs k ≡ some x → k < length xs
get_elem?-lt [] k x h = cc
get_elem?-lt (y ∷ ys) zero x h = omega arith
get_elem?-lt (y ∷ ys) (suc k) x h = omega (arith, get_elem?-lt ys k x h)

pub within_log : (m : Memory) (i t : ℕ) → IsLog m → term_at m i ≡ some t → i ≤ last_index m
unfolding term_at last_index
within_log m i t log h = elim (Option-cases (get_elem? m.entries (i - m.snapshot_index - 1))) [
  | inl missing ↦ ground (arith, h, missing, log.bound)
  | inr (e, found) ↦ omega (arith, log.bound, get_elem?-lt m.entries _ e found)
]
