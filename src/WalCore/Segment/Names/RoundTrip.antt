-- ===== src/WalCore/Segment/Names/RoundTrip.antt =====
-- A segment's file name and its number, the other way round, and the names that a listing keeps.
use wal_distributed_rs.Common.{
  ℕ, zero, suc, ◌+◌, ◌-◌, ◌*◌, ◌/◌, ◌%◌, ◌^◌, ◌≤◌, ◌<◌, ◌≡◌, refl, sym, ap, ◌∙◌, true, none, some,
  List, [], ◌∷◌, ◌++◌, bytes_eq, bytes_eq_refl, bytes_eq_iff, length, length-append, append_assoc,
  append-nil, arith, All, All-append, le→leb, lt→ltb, Bool-cases, inl, inr,
}
use wal_distributed_rs.Common.Exec.{ok}
use wal_distributed_rs.Disk.{FileName}
use wal_distributed_rs.WalCore.Segment.Names.{
  prefix, suffix, padded, segment_path, strip_prefix, strip_suffix, parse_digits, parse_u64,
  segment_id_from_path, split_last_dot, is_segment_name, or_invalid, and_then,
}

pub length-padded : (w n : ℕ) → length (padded w n) ≡ w
unfolding padded
length-padded zero n = refl
length-padded (suc w) n =
    length-append (padded w (n / 10)) _ ∙ omega (arith, length-padded w (n / 10))

parse_digits-digit :
    (n : ℕ) (rest : List ℕ)
    → n < 2 ^ 64
    → parse_digits (n / 10) ((48 + n % 10) ∷ rest) ≡ parse_digits n rest
unfolding parse_digits
parse_digits-digit n rest h =
    let e : n / 10 * 10 + (48 + n % 10 - 48) ≡ n = omega arith in
    rw (
      parse_digits,
      le→leb 48 (48 + n % 10) (omega arith),
      le→leb (48 + n % 10) 57 (omega arith),
      e,
      lt→ltb n (2 ^ 64) h,
    )

parse_digits-padded :
    (w n : ℕ) (rest : List ℕ)
    → n < 10 ^ w
    → n < 2 ^ 64
    → parse_digits 0 (padded w n ++ rest) ≡ parse_digits n rest
unfolding padded
parse_digits-padded zero n rest h lt = ap (λ k. parse_digits k rest) (omega arith)
parse_digits-padded (suc w) n rest h lt =
    ap (parse_digits 0) (append_assoc (padded w (n / 10)) ((48 + n % 10) ∷ []) rest)
    ∙ parse_digits-padded w (n / 10) ((48 + n % 10) ∷ rest) (omega arith) (omega arith)
    ∙ parse_digits-digit n rest lt

parse_digits-nil : (n : ℕ) → parse_digits n [] ≡ some n
unfolding parse_digits
parse_digits-nil n = refl

padded_digits : (w n : ℕ) → All (λ ch. 48 ≤ ch) (padded w n)
unfolding padded
padded_digits zero n = tt
padded_digits (suc w) n =
    All-append _ (padded w (n / 10)) _ (padded_digits w (n / 10)) (omega arith, tt)

parse_u64-digits :
    (s : List ℕ) → All (λ ch. 48 ≤ ch) s → 0 < length s → parse_u64 s ≡ parse_digits 0 s
unfolding parse_u64
parse_u64-digits [] h pos = absurd (omega arith)
parse_u64-digits (ch ∷ []) h pos = ground arith
parse_u64-digits (ch ∷ c ∷ rest) h pos = ground arith

strip_suffix-append : (p s : List ℕ) → strip_suffix p (s ++ p) ≡ some s
unfolding strip_suffix bytes_eq
strip_suffix-append [] [] = refl
strip_suffix-append (c ∷ p) [] = rw (strip_suffix, bytes_eq_refl (c ∷ p))
strip_suffix-append p (x ∷ s) = elim (Bool-cases (bytes_eq p (x ∷ (s ++ p)))) [
  | inl same ↦
      absurd
        (omega (arith, ap length ((bytes_eq_iff p (x ∷ (s ++ p))).0 same), length-append {0} s p))
  | inr other ↦ rw (strip_suffix, other, strip_suffix-append p s)
]

strip_prefix-path : (id : ℕ) → strip_prefix prefix (segment_path id) ≡ some (padded 20 id ++ suffix)
unfolding segment_path strip_prefix
strip_prefix-path id = refl

-- The number of a segment is read back from its file name, for every u64.
pub segment_id_from_path-segment_path :
    (id : ℕ) → id < 2 ^ 64 → segment_id_from_path (segment_path id) ≡ ok id
unfolding segment_id_from_path
segment_id_from_path-segment_path id h = ap (or_invalid (segment_path id)) (
    ap (λ o. and_then o (λ s. and_then (strip_suffix suffix s) parse_u64)) (strip_prefix-path id)
    ∙ ap (λ o. and_then o parse_u64) (strip_suffix-append suffix (padded 20 id))
    ∙ parse_u64-digits (padded 20 id) (padded_digits 20 id) (omega (arith, length-padded 20 id))
    ∙ ap (parse_digits 0) (sym (append-nil (padded 20 id)))
    ∙ parse_digits-padded 20 id [] (omega arith) h
    ∙ parse_digits-nil id)

-- Two segments have two names.
pub segment_path_injective :
    (i j : ℕ) → i < 2 ^ 64 → j < 2 ^ 64 → segment_path i ≡ segment_path j → i ≡ j
segment_path_injective i j hi hj e = cc (
  segment_id_from_path-segment_path i hi,
  segment_id_from_path-segment_path j hj,
  ap segment_id_from_path e,
)

split_last_dot-append :
    (s e : FileName) → split_last_dot e ≡ none → split_last_dot (s ++ b'.' ∷ e) ≡ some (s, e)
unfolding split_last_dot
split_last_dot-append [] e h = rw h
split_last_dot-append (x ∷ s) e h = rw (split_last_dot-append s e h)

-- The listing of a directory keeps every segment.
pub is_segment_name-segment_path : (id : ℕ) → is_segment_name (segment_path id) ≡ true
unfolding is_segment_name bytes_eq
is_segment_name-segment_path id = rw (last_dot, strip_prefix-path id)
  where
    last_dot :
        split_last_dot (segment_path id) ≡ some (prefix ++ padded 20 id, b's' ∷ b'e' ∷ b'g' ∷ [])
    last_dot =
        unfold segment_path in
        split_last_dot-append (prefix ++ padded 20 id) (b's' ∷ b'e' ∷ b'g' ∷ [])
          (unfold split_last_dot in refl)
