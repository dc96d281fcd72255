-- ===== src/WalCore/Wal/Listed.antt =====
-- The listing of a directory, and the last entry of a log.
use mathlib.Core.List.{reverse, reverse-cons}
use mathlib.Core.Path.{subst}
use wal_distributed_rs.Common.{
  ℕ, ◌^◌, ◌<◌, ◌≡◌, ◌≢◌, refl, sym, ap, ◌∙◌, Option, some, none, List, [], ◌∷◌, ◌++◌, All,
  All-append, arith, append_assoc, append-nil, map, last?,
}
use wal_distributed_rs.Common.Exec.{ok}
use wal_distributed_rs.WalCore.Entry.{Entry}
use wal_distributed_rs.WalCore.Segment.Names.{segment_path}
use wal_distributed_rs.WalCore.Segment.Names.RoundTrip.{segment_id_from_path-segment_path}
use wal_distributed_rs.WalCore.Wal.{init, ids_or_panic}
use wal_distributed_rs.WalCore.Wal.Model.{Part, ids}
use wal_distributed_rs.WalCore.Wal.Parts.{ids-snoc}

-- The listing, taken apart as `open_wal` does.
pub last?-listed :
    (l : List ℕ) (i : ℕ) → last? (map segment_path (l ++ i ∷ [])) ≡ some (segment_path i)
last?-listed [] i = refl
last?-listed (j ∷ []) i = refl
last?-listed (j ∷ k ∷ l) i = last?-listed (k ∷ l) i

pub init-listed : (l : List ℕ) (i : ℕ) → init (map segment_path (l ++ i ∷ [])) ≡ map segment_path l
init-listed [] i = refl
init-listed (j ∷ []) i = refl
init-listed (j ∷ k ∷ l) i = ap (λ r. segment_path j ∷ r) (init-listed (k ∷ l) i)

pub ids_or_panic-listed :
    (old : List Part) (i : ℕ)
    → i < 2 ^ 64
    → All (λ (p : Part). p.0 < i) old
    → ids_or_panic (map segment_path (ids old)) ≡ ok (ids old)
unfolding ids_or_panic
ids_or_panic-listed [] i hi h = refl
ids_or_panic-listed (p ∷ ps) i hi h = rw (
  ids_or_panic,
  segment_id_from_path-segment_path p.0 (omega arith),
  ids_or_panic-listed ps i hi h.1,
)

pub ids-reverse : (old : List Part) → ids (reverse old) ≡ reverse (ids old)
ids-reverse [] = refl
ids-reverse (p ∷ ps) =
    ap ids (reverse-cons p ps)
    ∙ ids-snoc (reverse ps) p
    ∙ ap (λ l. l ++ p.0 ∷ []) (ids-reverse ps)
    ∙ sym (reverse-cons p.0 (ids ps))

pub All-reverse : (P : Part → Type 0) (l : List Part) → All P l → All P (reverse l)
All-reverse P [] h = tt
All-reverse P (p ∷ ps) h =
    subst (All P) (sym (reverse-cons p ps))
      (All-append P (reverse ps) (p ∷ []) (All-reverse P ps h.1) (h.0, tt))

abbrev pub sequence? : Option Entry → Option ℕ
sequence? none = none
sequence? (some e) = some e.sequence

-- The last of two lists, one behind the other.
pub last?-append_none : (xs ys : List Entry) → last? ys ≡ none → last? (xs ++ ys) ≡ last? xs
last?-append_none xs [] h = ap last? (append-nil xs)
last?-append_none xs (y ∷ []) h = cc
last?-append_none xs (y ∷ z ∷ r) h =
    ap last? (sym (append_assoc xs (y ∷ []) (z ∷ r))) ∙ absurd (some_last (z ∷ r) y h)
  where
    some_last : (r : List Entry) (y : Entry) → last? (y ∷ r) ≢ none
    some_last [] y h = cc
    some_last (z ∷ r) y h = some_last r z h

pub last?-append_some :
    (xs ys : List Entry) {e : Entry} → last? ys ≡ some e → last? (xs ++ ys) ≡ some e
last?-append_some [] ys h = h
last?-append_some (x ∷ []) [] h = cc
last?-append_some (x ∷ []) (y ∷ r) h = h
last?-append_some (x ∷ x' ∷ xs) ys h = last?-append_some (x' ∷ xs) ys h
