-- ===== src/WalCore/Wal/Parts.antt =====
-- The segments of a log among the files of a directory: their names, and writes to one of them.
use wal_distributed_rs.Common.{
  ℕ, ◌^◌, ◌≤◌, ◌<◌, ◌≡◌, ◌≢◌, refl, sym, ap, ◌∙◌, false, List, [], ◌∷◌, ◌++◌, All, arith,
  append_assoc, append-nil, inl, inr, Bool-cases, bytes_eq, bytes_eq_iff, map,
}
use wal_distributed_rs.Disk.{File, find, store}
use wal_distributed_rs.Disk.Laws.{find-store}
use wal_distributed_rs.WalCore.Entry.{Crc, Entry}
use wal_distributed_rs.WalCore.Segment.Names.{segment_path, sort_key}
use wal_distributed_rs.WalCore.Segment.Names.RoundTrip.{
  segment_path_injective, segment_id_from_path-segment_path,
}
use wal_distributed_rs.WalCore.Segment.Content.{Table}
use wal_distributed_rs.WalCore.Wal.Model.{Part, ids, entries_of, Stored}

pub paths_ne :
    (i j : ℕ) → i < 2 ^ 64 → j < 2 ^ 64 → i ≢ j → bytes_eq (segment_path i) (segment_path j) ≡ false
paths_ne i j hi hj ne = elim (Bool-cases (bytes_eq (segment_path i) (segment_path j))) [
  | inl same ↦ absurd (ne (segment_path_injective i j hi hj ((bytes_eq_iff _ _).0 same)))
  | inr other ↦ other
]

-- A write to one segment does not show in another.
pub find-store_path :
    (i j : ℕ) (f : File) (t : Table)
    → i < 2 ^ 64
    → j < 2 ^ 64
    → i ≢ j
    → find (segment_path j) (store (segment_path i) f t) ≡ find (segment_path j) t
find-store_path i j f t hi hj ne =
    rw (find-store (segment_path i) (segment_path j) f t, paths_ne i j hi hj ne)

sort_key-segment_path : (i : ℕ) → i < 2 ^ 64 → sort_key (segment_path i) ≡ i
unfolding sort_key
sort_key-segment_path i h = rw (sort_key, segment_id_from_path-segment_path i h)

pub ids-snoc : (old : List Part) (p : Part) → ids (old ++ p ∷ []) ≡ ids old ++ p.0 ∷ []
ids-snoc [] p = refl
ids-snoc (q ∷ qs) p = ap (λ l. q.0 ∷ l) (ids-snoc qs p)

pub entries_of-snoc :
    (old : List Part) (p : Part) → entries_of (old ++ p ∷ []) ≡ entries_of old ++ p.1
entries_of-snoc [] p = append-nil p.1
entries_of-snoc (q ∷ qs) p =
    ap (λ l. q.1 ++ l) (entries_of-snoc qs p) ∙ sym (append_assoc q.1 (entries_of qs) p.1)

pub listed-snoc :
    (old : List Part) (i : ℕ) (now : List Entry) (j : ℕ)
    → map segment_path (ids old ++ i ∷ []) ++ segment_path j ∷ []
      ≡ map segment_path (ids (old ++ (i, now) ∷ []) ++ j ∷ [])
listed-snoc [] i now j = refl
listed-snoc (q ∷ qs) i now j = ap (λ l. segment_path q.0 ∷ l) (listed-snoc qs i now j)

pub below_snoc :
    (old : List Part) (p : Part) (j : ℕ)
    → All (λ (q : Part). q.0 < p.0) old
    → p.0 < j
    → All (λ (q : Part). q.0 < j) (old ++ p ∷ [])
below_snoc [] p j h lt = (lt, tt)
below_snoc (q ∷ qs) p j h lt = (omega arith, below_snoc qs p j h.1 lt)

module _ ⦃c : Crc⦄ where
  pub Stored-store :
      (i : ℕ) (f : File) (t : Table) (old : List Part)
      → i < 2 ^ 64
      → All (λ (p : Part). p.0 < i) old
      → All (Stored t) old
      → All (Stored (store (segment_path i) f t)) old
  Stored-store i f t [] hi below h = tt
  Stored-store i f t (p ∷ ps) hi below h =
      let (s, hp) = h.0 in
      (
        (
          record {
            stored = s.stored;
            found = find-store_path i p.0 f t hi hp (omega arith) ∙ s.found;
            bytes = s.bytes;
            fits = s.fits;
          },
          hp,
        ),
        Stored-store i f t ps hi below.1 h.1,
      )

  pub listed_below :
      (i : ℕ) (old : List Part) (j : ℕ)
      → j < 2 ^ 64
      → i ≤ j
      → i < 2 ^ 64
      → All (λ (p : Part). p.0 < i) old
      → All (λ m. sort_key m ≤ sort_key (segment_path j)) (map segment_path (ids old ++ i ∷ []))
  listed_below i [] j hj le hi h =
      (rw (sort_key-segment_path i hi, sort_key-segment_path j hj) le, tt)
  listed_below i (p ∷ ps) j hj le hi h = (
    rw (sort_key-segment_path p.0 (omega arith), sort_key-segment_path j hj) (omega arith),
    listed_below i ps j hj le hi h.1,
  )
