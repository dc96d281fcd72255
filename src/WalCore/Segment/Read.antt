-- ===== src/WalCore/Segment/Read.antt =====
-- `read_entries` on the bytes that `append` writes: whole segments, torn ones, and all others.
use wal_distributed_rs.Common.{
  ℕ, zero, suc, ◌+◌, ◌-◌, ◌≤◌, ◌<◌, ◌^◌, ◌≡◌, refl, sym, ap, ◌∙◌, List, [], ◌∷◌, ◌++◌, length, take,
  drop, drop-append_length, length-append, length-take, length-drop, take-append-drop, All,
  All-drop, append-nil, append_assoc, arith, ◌⊎◌, inl, inr,
}
use mathlib.Core.Path.{ap₂}
use wal_distributed_rs.Common.Exec.{Result, ok, err}
use wal_distributed_rs.Bytes.{IsByte}
use wal_distributed_rs.WalCore.Error.{WalError, unexpected_eof}
use wal_distributed_rs.WalCore.Entry.{Crc, Entry, encode, decode}
use wal_distributed_rs.WalCore.Entry.Decode.{
  decode-encode, decode_truncated, encode-decode, length-encode,
}
use wal_distributed_rs.WalCore.Segment.Scan.{push_front, read_at, read_raw}

-- What the header can hold: a u64 sequence number and a payload below 4 GiB.
pub record Fits (e : Entry) : Type 0 where
  pub sequence : e.sequence < 2 ^ 64
  pub payload : length e.payload < 2 ^ 32

module _ ⦃c : Crc⦄ where
  abbrev pub encode_entry : Entry → List ℕ
  encode_entry e = encode e.sequence e.payload

  -- The bytes of a list of entries, one behind the other.
  abbrev pub encodings : List Entry → List ℕ
  encodings [] = []
  encodings (e ∷ es) = encode_entry e ++ encodings es

  pub encodings-append : (es fs : List Entry) → encodings (es ++ fs) ≡ encodings es ++ encodings fs
  encodings-append [] fs = refl
  encodings-append (e ∷ es) fs =
      ap (λ l. encode_entry e ++ l) (encodings-append es fs)
      ∙ sym (append_assoc (encode_entry e) (encodings es) (encodings fs))

  read_at_skip :
      (skip off : ℕ) (raw : List ℕ) → read_at skip off raw ≡ read_at 0 (off + skip) (drop skip raw)
  unfolding read_at
  read_at_skip zero off [] = refl
  read_at_skip (suc k) off [] = refl
  read_at_skip zero off (b ∷ bs) = ap (λ o. read_at 0 o (b ∷ bs)) (omega arith)
  read_at_skip (suc k) off (b ∷ bs) =
      read_at_skip k (off + 1) bs ∙ ap (λ o. read_at 0 o (drop k bs)) (omega arith)

  -- One round of the loop.
  read_at_ok :
      (off : ℕ) (raw : List ℕ) (e : Entry) (n : ℕ)
      → decode raw off ≡ ok (e, suc n)
      → read_at 0 off raw ≡ push_front e (read_at 0 (off + suc n) (drop (suc n) raw))
  unfolding read_at
  read_at_ok off [] e n h = unfold decode in cc
  read_at_ok off (b ∷ bs) e n h =
      let m : suc n - 1 ≡ n = omega arith in
      rw (read_at, h, m)
        (ap (push_front e)
          (read_at_skip n (off + 1) bs ∙ ap (λ o. read_at 0 o (drop n bs)) (omega arith)))

  read_at_err :
      (off : ℕ) (raw : List ℕ) (x : WalError)
      → 0 < length raw
      → decode raw off ≡ err x
      → read_at 0 off raw ≡ err x
  unfolding read_at
  read_at_err off [] x p h = absurd (omega arith)
  read_at_err off (b ∷ bs) x p h = rw (read_at, h)

  read_at_entry :
      (e : Entry) (rest : List ℕ) (off : ℕ)
      → Fits e
      → read_at 0 off (encode_entry e ++ rest)
        ≡ push_front e (read_at 0 (off + length (encode_entry e)) rest)
  read_at_entry e rest off f =
      let n : length (encode_entry e) ≡ suc (15 + length e.payload) =
        omega (arith, length-encode e.sequence e.payload) in
      let n' : 16 + length e.payload ≡ suc (15 + length e.payload) = omega arith in
      read_at_ok off (encode_entry e ++ rest) e (15 + length e.payload)
        (rw n' at (decode-encode e.sequence e.payload rest off f.sequence f.payload))
      ∙ rw (← n) (
          ap (λ r. push_front e (read_at 0 (off + length (encode_entry e)) r))
            (drop-append_length (length (encode_entry e)) (encode_entry e) rest refl))

  abbrev push_all : List Entry → Result WalError (List Entry) → Result WalError (List Entry)
  push_all [] r = r
  push_all (e ∷ es) r = push_front e (push_all es r)

  push_all-ok : (es fs : List Entry) → push_all es (ok fs) ≡ ok (es ++ fs)
  push_all-ok [] fs = refl
  push_all-ok (e ∷ es) fs = rw (push_all-ok es fs)

  push_all-err : (es : List Entry) (x : WalError) → push_all es (err x) ≡ err x
  push_all-err [] x = refl
  push_all-err (e ∷ es) x = rw (push_all-err es x)

  read_at-encodings :
      (es : List Entry) (rest : List ℕ) (off : ℕ)
      → All Fits es
      → read_at 0 off (encodings es ++ rest)
        ≡ push_all es (read_at 0 (off + length (encodings es)) rest)
  read_at-encodings [] rest off h = ap (λ o. read_at 0 o rest) (omega arith)
  read_at-encodings (e ∷ es) rest off h =
      rw (append_assoc (encode_entry e) (encodings es) rest)
        (read_at_entry e (encodings es ++ rest) off h.0)
      ∙ ap (push_front e) (
          read_at-encodings es rest (off + length (encode_entry e)) h.1
          ∙ ap (λ o. push_all es (read_at 0 o rest))
              (omega (arith, length-append {0} (encode_entry e) (encodings es))))

  -- A segment that holds whole entries, which fit the format, reads back as these entries, in
  -- order.
  pub read_raw-encodings : (es : List Entry) → All Fits es → read_raw (encodings es) ≡ ok es
  unfolding read_raw
  read_raw-encodings es h =
      ap read_raw (sym (append-nil (encodings es)))
      ∙ read_at-encodings es [] 0 h
      ∙ push_all-ok es []
      ∙ ap ok (append-nil es)

  -- A segment of entries that fit the format whose last one was written only in part, as a crash
  -- leaves it, does not read at all: the answer is the error of the torn entry, and the whole
  -- entries in front of it are not returned.
  pub read_raw_torn :
      (es : List Entry) (e : Entry) (n : ℕ)
      → All Fits es
      → Fits e
      → 0 < n
      → n < length (encode_entry e)
      → read_raw (encodings es ++ take n (encode_entry e))
        ≡ err (unexpected_eof (length (encodings es)))
  unfolding read_raw
  read_raw_torn es e n h f pos lt =
      read_at-encodings es (take n (encode_entry e)) 0 h
      ∙ ap (push_all es) (
          ap (λ o. read_at 0 o (take n (encode_entry e))) (omega arith)
          ∙ read_at_err (length (encodings es)) (take n (encode_entry e)) _
              (rw length-take (omega arith))
              (decode_truncated e.sequence e.payload n _ f.payload lt))
      ∙ push_all-err es _

  push_front-ok :
      (e : Entry) (r : Result WalError (List Entry)) (es : List Entry)
      → push_front e r ≡ ok es
      → (fs : List Entry) × (r ≡ ok fs) × (es ≡ e ∷ fs)
  push_front-ok e (ok fs) es h = (fs, refl, cc)
  push_front-ok e (err x) es h = cc

  Result-cases :
      (r : Result WalError (Entry × ℕ))
      → ((e : Entry) × (n : ℕ) × (r ≡ ok (e, n))) ⊎ ((x : WalError) × (r ≡ err x))
  Result-cases (ok (e, n)) = inl (e, n, refl)
  Result-cases (err x) = inr (x, refl)

  encodings-read_at :
      (k : ℕ) (raw : List ℕ) (off : ℕ) (es : List Entry)
      → length raw ≤ k
      → All IsByte raw
      → read_at 0 off raw ≡ ok es
      → raw ≡ encodings es
  encodings-read_at k [] off [] len hb h = refl
  encodings-read_at k [] off (e ∷ es) len hb h = unfold read_at in cc
  encodings-read_at zero (b ∷ bs) off es len hb h = absurd (omega arith)
  encodings-read_at (suc k) (b ∷ bs) off es len hb h = elim (Result-cases (decode (b ∷ bs) off)) [
    | inr (x, bad) ↦ cc (read_at_err off (b ∷ bs) x (omega arith) bad)
    | inl (e, n, good) ↦
        let (bytes, le, size) = encode-decode (b ∷ bs) off e n hb good in
        let n' : n ≡ suc (15 + length e.payload) = omega arith in
        let m : ℕ = 15 + length e.payload in
        let round : read_at 0 off (b ∷ bs)
            ≡ push_front e (read_at 0 (off + suc m) (drop (suc m) (b ∷ bs))) =
          read_at_ok off (b ∷ bs) e m (rw n' at good) in
        let short : length (drop (suc m) (b ∷ bs)) ≤ k = rw length-drop (omega arith) in
        let (fs, rest, e') = push_front-ok e _ es (sym round ∙ h) in
        sym (take-append-drop (suc m) (b ∷ bs))
        ∙ rw e' (
            ap₂ ◌++◌ (rw n' at bytes) (
              encodings-read_at k (drop (suc m) (b ∷ bs)) (off + suc m) fs short
                (All-drop IsByte (suc m) (b ∷ bs) hb) rest))
  ]

  -- The bytes of a segment that reads without an error are those of the entries read, and no other.
  pub encodings-read_raw :
      (raw : List ℕ) (es : List Entry) → All IsByte raw → read_raw raw ≡ ok es → raw ≡ encodings es
  unfolding read_raw
  encodings-read_raw raw es hb h = encodings-read_at (length raw) raw 0 es (omega arith) hb h
