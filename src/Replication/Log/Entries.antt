-- ===== src/Replication/Log/Entries.antt =====
-- Lists of entries: first parts, places and indices.
use wal_distributed_rs.Replication.Log.{last_index, truncated}
use wal_distributed_rs.Replication.Log.Record.{Memory}
use wal_distributed_rs.Replication.Log.Replay.{IsLog, pushed}
use wal_distributed_rs.Common.{◌-◌, length-append, length-take, add64}
use wal_distributed_rs.Common.{filter, All, leb, leb→le, not-leb→lt}
use wal_distributed_rs.Common.{
  Bool-cases, inr, inl, ◌≤◌, refl, arith, [], ◌∙◌, ap, ◌^◌, sym, ◌∷◌, ◌<◌, ◌++◌, some, ◌+◌, drop,
  length, get_elem?, take, ◌≡◌, ℕ, List,
}
use Prim.Native.Nat.{zero, suc}
use wal_distributed_rs.Replication.Log.Record.{LogEntry}
use wal_distributed_rs.Replication.Log.Replay.{Follows}
use mathlib.Core.Path.{subst}

pub Follows-take : (s k : ℕ) (es : List LogEntry) → Follows s es → Follows s (take k es)
Follows-take s zero es h = tt
Follows-take s (suc k) [] h = tt
Follows-take s (suc k) (e ∷ es) h = (h.0, h.1, Follows-take (s + 1) k es h.2)

pub Follows-snoc :
    (s : ℕ) (es : List LogEntry) (e : LogEntry)
    → Follows s es
    → e.index ≡ s + length es + 1
    → e.term < 2 ^ 64
    → Follows s (es ++ e ∷ [])
Follows-snoc s [] e h i t = (omega (arith, i), t, tt)
Follows-snoc s (x ∷ es) e h i t = (h.0, h.1, Follows-snoc (s + 1) es e h.2 (omega (arith, i)) t)

pub drop-get :
    (k : ℕ) (es : List LogEntry) (e : LogEntry)
    → get_elem? es k ≡ some e
    → drop k es ≡ e ∷ drop (suc k) es
drop-get k [] e h = cc
drop-get zero (x ∷ es) e h = let same : x ≡ e = cc in ap (λ y. y ∷ es) same
drop-get (suc k) (x ∷ es) e h = drop-get k es e h

take-get : (k : ℕ) (es : List LogEntry) → get_elem? (take (suc k) es) k ≡ get_elem? es k
take-get zero [] = refl
take-get zero (x ∷ es) = refl
take-get (suc k) [] = refl
take-get (suc k) (x ∷ es) = take-get k es

pub take-get_eq :
    (k : ℕ) (es es' : List LogEntry)
    → take (suc k) es ≡ take (suc k) es'
    → get_elem? es k ≡ get_elem? es' k
take-get_eq k es es' h = sym (take-get k es) ∙ ap (λ l. get_elem? l k) h ∙ take-get k es'

pub snoc-get :
    (k : ℕ) (es : List LogEntry) (e : LogEntry)
    → length es ≡ k
    → get_elem? (es ++ e ∷ []) k ≡ some e
snoc-get zero [] e h = refl
snoc-get (suc k) [] e h = absurd (omega (arith, h))
snoc-get zero (x ∷ es) e h = absurd (omega (arith, h))
snoc-get (suc k) (x ∷ es) e h = snoc-get k es e (omega (arith, h))

pub Follows-drop : (k s : ℕ) (es : List LogEntry) → Follows s es → Follows (s + k) (drop k es)
Follows-drop zero s es h = subst (λ i. Follows i es) (omega arith) h
Follows-drop (suc k) s [] h = tt
Follows-drop (suc k) s (e ∷ es) h =
    subst (λ i. Follows i (drop k es)) (omega arith) (Follows-drop k (s + 1) es h.2)

pub filter-none :
    (up s : ℕ) (es : List LogEntry) → up ≤ s → Follows s es → filter (λ e. leb e.index up) es ≡ []
filter-none up s [] le h = refl
filter-none up s (e ∷ es) le h =
    ground (arith, h.0, filter-none up (s + 1) es (omega (arith, le)) h.2)

-- Of entries in order, those up to an index are a first part, in order too.
pub Follows-filter :
    (up s : ℕ) (es : List LogEntry) → Follows s es → Follows s (filter (λ e. leb e.index up) es)
Follows-filter up s [] h = tt
Follows-filter up s (e ∷ es) h = elim (Bool-cases (leb e.index up)) [
  | inl wanted ↦ rw (Follows, wanted) (h.0, h.1, Follows-filter up (s + 1) es h.2)
  | inr more ↦
      rw (Follows, more)
        (subst (Follows s)
          (sym (filter-none up (s + 1) es (omega (arith, not-leb→lt _ _ more, h.0)) h.2)) tt)
]

pub All-filter_le :
    (up : ℕ) (es : List LogEntry) → All (λ e. e.index ≤ up) (filter (λ e. leb e.index up) es)
All-filter_le up [] = tt
All-filter_le up (e ∷ es) = elim (Bool-cases (leb e.index up)) [
  | inl wanted ↦ rw (All, wanted) (leb→le _ _ wanted, All-filter_le up es)
  | inr more ↦ rw (All, more) (All-filter_le up es)
]

pub get-drop : (k j : ℕ) (es : List LogEntry) → get_elem? (drop k es) j ≡ get_elem? es (k + j)
get-drop zero j es = ap (λ i. get_elem? es i) (omega arith)
get-drop (suc k) j [] = refl
get-drop (suc k) j (e ∷ es) =
    get-drop k j es
    ∙ ap (λ i. get_elem? (e ∷ es) i) (let s : suc (k + j) ≡ suc k + j = omega arith in s)

pub get-take : (k j : ℕ) (es : List LogEntry) → j < k → get_elem? (take k es) j ≡ get_elem? es j
get-take zero j es h = absurd (omega (arith, h))
get-take (suc k) j [] h = refl
get-take (suc k) zero (e ∷ es) h = refl
get-take (suc k) (suc j) (e ∷ es) h = get-take k j es (omega (arith, h))

-- The list with an entry pushed behind it.
pub pushed-IsLog :
    (term : ℕ) (payload : List ℕ) (m : Memory)
    → IsLog m
    → term < 2 ^ 64
    → m.snapshot_index + length m.entries + 2 < 2 ^ 64
    → IsLog (pushed term payload m)
pushed-IsLog term payload m h u64 room =
    let e : LogEntry = record { term = term; index = add64 (last_index m) 1; payload = payload } in
    record {
      follows =
          Follows-snoc m.snapshot_index m.entries e h.follows
            (unfold last_index in omega (arith, room)) u64;
      bound = omega (arith, room, length-append m.entries (e ∷ []));
    }

pub truncated-IsLog : (from : ℕ) (m : Memory) → IsLog m → IsLog (truncated from m)
unfolding truncated
truncated-IsLog from m h =
    let k = from - m.snapshot_index - 1 in
    record {
      follows = Follows-take m.snapshot_index k m.entries h.follows;
      bound = omega (arith, h.bound, length-take k m.entries);
    }
