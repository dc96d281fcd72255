-- ===== src/WalCore/Wal/Listing.antt =====
-- How the listing of the directory changes with the file table.
use wal_distributed_rs.Common.{
  leb, ◌≤◌, Bool-cases, ◌≡◌, refl, sym, ap, ◌∙◌, none, some, List, [], ◌∷◌, ◌++◌, bytes_eq, inl,
  inr, All, arith, filter, filter-append, Bool, true,
}
use mathlib.Core.Path.{subst}
use wal_distributed_rs.Disk.{File, FileName, find, store}
use wal_distributed_rs.WalCore.Segment.Names.{is_segment_name, sort_key, insert_by_key, sort_by_key}
use wal_distributed_rs.WalCore.Wal.Model.{names}
use wal_distributed_rs.WalCore.Segment.Content.{Table}

-- A write to a file that is there leaves the names as they are; a new file comes last.
pub names-store_found :
    (n : FileName) (f : File) (t : Table) {g : File}
    → find n t ≡ some g
    → names (store n f t) ≡ names t
unfolding find store
names-store_found n f [] h = cc
names-store_found n f ((m, g) ∷ t) h = elim (Bool-cases (bytes_eq m n)) [
  | inl same ↦ rw same
  | inr other ↦ rw other (ap (λ l. m ∷ l) (names-store_found n f t (rw (find, other) at h)))
]

pub names-store_new :
    (n : FileName) (f : File) (t : Table)
    → find n t ≡ none
    → names (store n f t) ≡ names t ++ n ∷ []
unfolding find store
names-store_new n f [] h = refl
names-store_new n f ((m, g) ∷ t) h = elim (Bool-cases (bytes_eq m n)) [
  | inl same ↦ cc (rw (find, same) at h)
  | inr other ↦ rw other (ap (λ l. m ∷ l) (names-store_new n f t (rw (find, other) at h)))
]

All-insert_by_key :
    (P : FileName → Type 0) (n : FileName) (l : List FileName)
    → All P (insert_by_key n l)
    → P n × All P l
unfolding insert_by_key
All-insert_by_key P n [] h = h
All-insert_by_key P n (m ∷ ms) h = elim (Bool-cases (leb (sort_key n) (sort_key m))) [
  | inl le ↦ rw (insert_by_key, le) at h
  | inr gt ↦
      let h' : P m × All P (insert_by_key n ms) = rw (insert_by_key, gt) at h in
      let (pn, pms) = All-insert_by_key P n ms h'.1 in (pn, (h'.0, pms))
]

-- What holds of all names of a sorted list holds of the names before.
All-sort_by_key : (P : FileName → Type 0) (l : List FileName) → All P (sort_by_key l) → All P l
unfolding sort_by_key
All-sort_by_key P [] h = tt
All-sort_by_key P (n ∷ ns) h =
    let (pn, pns) = All-insert_by_key P n (sort_by_key ns) h in (pn, All-sort_by_key P ns pns)

insert_by_key-snoc :
    (m n : FileName) (l : List FileName)
    → sort_key m ≤ sort_key n
    → insert_by_key m (l ++ n ∷ []) ≡ insert_by_key m l ++ n ∷ []
unfolding insert_by_key
insert_by_key-snoc m n [] h = ground arith
insert_by_key-snoc m n (k ∷ l) h = ground (arith, insert_by_key-snoc m n l h)

sort_by_key-snoc :
    (n : FileName) (l : List FileName)
    → All (λ m. sort_key m ≤ sort_key n) l
    → sort_by_key (l ++ n ∷ []) ≡ sort_by_key l ++ n ∷ []
unfolding sort_by_key
sort_by_key-snoc n [] h = unfold insert_by_key in refl
sort_by_key-snoc n (m ∷ l) h =
    rw (sort_by_key-snoc n l h.1) (insert_by_key-snoc m n (sort_by_key l) h.0)

filter_one : (p : FileName → Bool) (n : FileName) → p n ≡ true → filter p (n ∷ []) ≡ n ∷ []
filter_one p n h = ground arith

-- A new segment whose number is not below the others is listed last.
pub listing-store_new :
    (n : FileName) (f : File) (t : Table) {listed : List FileName}
    → find n t ≡ none
    → is_segment_name n ≡ true
    → sort_by_key (filter is_segment_name (names t)) ≡ listed
    → All (λ m. sort_key m ≤ sort_key n) listed
    → sort_by_key (filter is_segment_name (names (store n f t))) ≡ listed ++ n ∷ []
listing-store_new n f t {listed} new seg e le =
    rw
      (
        names-store_new n f t new,
        filter-append is_segment_name (names t) (n ∷ []),
        filter_one is_segment_name n seg,
      )
      (sort_by_key-snoc n _ (
          All-sort_by_key (λ m. sort_key m ≤ sort_key n) _
            (subst (All (λ m. sort_key m ≤ sort_key n)) (sym e) le))
        ∙ ap (λ l. l ++ n ∷ []) e)

pub listing-store_found :
    (n : FileName) (f : File) (t : Table) {g : File} {listed : List FileName}
    → find n t ≡ some g
    → sort_by_key (filter is_segment_name (names t)) ≡ listed
    → sort_by_key (filter is_segment_name (names (store n f t))) ≡ listed
listing-store_found n f t found e = rw (names-store_found n f t found) e
