-- ===== src/WalCore/Entry/Decode.antt =====
-- `decode` against `encode`.
use wal_distributed_rs.Common.{
  ℕ, ◌+◌, ◌-◌, ◌%◌, ◌^◌, ◌<◌, ◌≤◌, ◌≡◌, ◌≢◌, refl, ap, sym, ◌∙◌, List, [], ◌++◌, length, ◌==◌,
  if◌then◌else◌, arith, take, drop, length-append, length-take, take-append_length, take-take,
  drop-take, All, length-drop, take_add, drop-drop, All-take, All-drop, inl, inr, ◌⊎◌, append-nil,
}
use wal_distributed_rs.Common.Exec.{ok, err}
use wal_distributed_rs.Bytes.{le_bytes, from_le, slice, IsByte}
use wal_distributed_rs.Bytes.Words.{u64_round_trip, u32_round_trip, le_bytes-from_le, from_le-lt}
use wal_distributed_rs.WalCore.Error.{checksum_mismatch, unexpected_eof}
use wal_distributed_rs.WalCore.Entry.{Crc, Entry, encode, decode}

le-or-gt : (a b : ℕ) → (a ≤ b) ⊎ (b < a)
le-or-gt a b = ground arith

slice-take :
    (n : ℕ) (xs : List ℕ) (a b : ℕ) → (a ≤ b) × (b ≤ n) → slice a b (take n xs) ≡ slice a b xs
slice-take n xs a b h =
    let e : n ≡ a + (n - a) = omega arith in
    ap (λ k. slice a b (take k xs)) e
    ∙ rw (drop-take a (n - a) xs) (take-take (b - a) (n - a) (drop a xs) (omega arith))

-- The first `n` bytes are the four fields, one behind the other.
split_header :
    (buf : List ℕ) (n : ℕ)
    → 16 ≤ n
    → n ≤ length buf
    → take n buf ≡ slice 0 8 buf ++ (slice 8 12 buf ++ (slice 12 16 buf ++ slice 16 n buf))
split_header buf n h _ =
    let e : n ≡ 8 + (4 + (4 + (n - 16))) = omega arith in
    ap (λ k. take k buf) e
    ∙ take_add 8 _ buf
    ∙ ap (λ l. take 8 buf ++ l)
        (take_add 4 _ (drop 8 buf)
          ∙ ap (λ l. take 4 (drop 8 buf) ++ l)
              (rw (drop-drop 8 4 buf) (
                take_add 4 _ (drop 12 buf)
                ∙ ap (λ l. take 4 (drop 12 buf) ++ l) (rw (drop-drop 12 4 buf)))))

word :
    (buf : List ℕ)
    → All IsByte buf
    → (from w : ℕ) → from + w ≤ length buf
    → le_bytes w (from_le (take w (drop from buf))) ≡ take w (drop from buf)
word buf hb from w h =
    le_bytes-from_le w _ (All-take IsByte w _ (All-drop IsByte from buf hb))
      (rw (length-take, length-drop) (omega arith))

word-lt : (buf : List ℕ) → All IsByte buf → 12 ≤ length buf → from_le (slice 8 12 buf) < 2 ^ 32
word-lt buf hb h = omega (
  arith,
  from_le-lt 4 (take 4 (drop 8 buf)) (All-take IsByte 4 _ (All-drop IsByte 8 buf hb))
      (rw (length-take, length-drop) (omega arith)),
)

module _ ⦃c : Crc⦄ where
  pub length-encode : (s : ℕ) (d : List ℕ) → length (encode s d) ≡ 16 + length d
  unfolding encode le_bytes
  length-encode s d = omega arith

  pub encode_fields :
      (s : ℕ) (d rest : List ℕ)
      → (slice 0 8 (encode s d ++ rest) ≡ le_bytes 8 s)
        × (slice 8 12 (encode s d ++ rest) ≡ le_bytes 4 (length d % 2 ^ 32))
        × (slice 12 16 (encode s d ++ rest) ≡ le_bytes 4 (c.hash d))
        × (drop 16 (encode s d ++ rest) ≡ d ++ rest)
  unfolding encode le_bytes
  encode_fields s d rest = (refl, refl, refl, refl)

  -- The outcomes of `decode`, each from what the buffer holds.
  decode_short :
      (buf : List ℕ) (off : ℕ) → length buf < 16 → decode buf off ≡ err (unexpected_eof off)
  unfolding decode
  decode_short buf off h = ground arith

  decode_cut :
      (buf : List ℕ) (off : ℕ)
      → length buf < 16 + from_le (slice 8 12 buf)
      → decode buf off ≡ err (unexpected_eof off)
  unfolding decode
  decode_cut buf off h = ground arith

  decode_whole :
      (buf : List ℕ) (off : ℕ) {s n h : ℕ} {d : List ℕ}
      → 16 + n ≤ length buf
      → from_le (slice 0 8 buf) ≡ s
      → from_le (slice 8 12 buf) ≡ n
      → from_le (slice 12 16 buf) ≡ h
      → slice 16 (16 + n) buf ≡ d
      → decode buf off ≡ (
          if h == c.hash d
          then ok (record { sequence = s; payload = d }, 16 + n)
          else err (checksum_mismatch off h (c.hash d)))
  unfolding decode
  decode_whole buf off len es en eh ed = ground arith

  payload_slice :
      (s : ℕ) (d rest : List ℕ) (n : ℕ) → length d ≡ n → slice 16 (16 + n) (encode s d ++ rest) ≡ d
  payload_slice s d rest n e =
      let k : 16 + n - 16 ≡ n = omega arith in
      rw (k, (encode_fields s d rest).3) (take-append_length n d rest e)

  head_fields :
      (s : ℕ) (d rest : List ℕ)
      → (slice 8 12 (take 16 (encode s d) ++ rest) ≡ le_bytes 4 (length d % 2 ^ 32))
        × (slice 12 16 (take 16 (encode s d) ++ rest) ≡ le_bytes 4 (c.hash d))
        × (drop 16 (take 16 (encode s d) ++ rest) ≡ rest)
  unfolding encode le_bytes
  head_fields s d rest = (refl, refl, refl)

  -- `decode` reads back the entry that `encode` wrote, takes exactly its bytes, and does not look
  -- at what follows, for a u64 sequence number and a payload below 4 GiB.
  pub decode-encode :
      (s : ℕ) (d rest : List ℕ) (off : ℕ)
      → s < 2 ^ 64
      → length d < 2 ^ 32
      → decode (encode s d ++ rest) off ≡ ok (record { sequence = s; payload = d }, 16 + length d)
  decode-encode s d rest off hs hd =
      let (f0, f1, f2, f3) = encode_fields s d rest in
      let n : length d % 2 ^ 32 ≡ length d = omega arith in
      decode_whole (encode s d ++ rest) off
        (omega (arith, length-append {0} (encode s d) rest, length-encode s d))
        (ap from_le f0 ∙ u64_round_trip s hs) (ap from_le f1 ∙ u32_round_trip _ (omega arith) ∙ n)
        (ap from_le f2 ∙ u32_round_trip _ (c.hash-lt d)) (payload_slice s d rest (length d) refl)
      ∙ ground arith

  -- Every proper prefix of an encoded entry with a payload below 4 GiB, within the header or within
  -- the payload, is reported as an unexpected end at the offset of its first byte.
  pub decode_truncated :
      (s : ℕ) (d : List ℕ) (n off : ℕ)
      → length d < 2 ^ 32
      → n < length (encode s d)
      → decode (take n (encode s d)) off ≡ err (unexpected_eof off)
  decode_truncated s d n off hd hn = elim (le-or-gt 16 n) [
    | inr lt ↦ decode_short _ off (rw length-take (omega arith))
    | inl ge ↦ decode_cut _ off (
        rw (length-take, slice-take n (encode s d) 8 12 (omega arith), field)
          (omega (arith, length-encode s d)))
  ]
    where
      field : from_le (slice 8 12 (encode s d)) ≡ length d
      field =
          ap (λ b. from_le (slice 8 12 b)) (sym (append-nil (encode s d)))
          ∙ ap from_le (encode_fields s d []).1
          ∙ u32_round_trip _ (omega arith)
          ∙ omega arith

  -- A payload below 4 GiB whose checksum is not that of the payload written, at the same length, is
  -- reported with both checksums.
  pub decode_corrupted :
      (s : ℕ) (d d' rest : List ℕ) (off : ℕ)
      → length d < 2 ^ 32
      → length d' ≡ length d
      → c.hash d' ≢ c.hash d
      → decode (take 16 (encode s d) ++ (d' ++ rest)) off
        ≡ err (checksum_mismatch off (c.hash d) (c.hash d'))
  decode_corrupted s d d' rest off hd hl hc =
      decode_whole (take 16 (encode s d) ++ (d' ++ rest)) off {n = length d} {d = d'}
        (omega (arith, long)) refl
        (ap from_le (head_fields s d (d' ++ rest)).0 ∙ u32_round_trip _ (omega arith) ∙ omega arith)
        (ap from_le (head_fields s d (d' ++ rest)).1 ∙ u32_round_trip _ (c.hash-lt d))
        (let k : 16 + length d - 16 ≡ length d = omega arith in
          rw (k, (head_fields s d (d' ++ rest)).2) (take-append_length (length d) d' rest hl))
      ∙ ground arith
    where
      long : length (take 16 (encode s d) ++ (d' ++ rest)) ≡ 16 + length d + length rest
      long = rw (length-append, length-append, length-take) (omega (arith, length-encode s d))

  decode_inversion :
      (buf : List ℕ) (off : ℕ) (e : Entry) (n : ℕ)
      → decode buf off ≡ ok (e, n)
      → (n ≡ 16 + from_le (slice 8 12 buf))
        × (n ≤ length buf)
        × (e.sequence ≡ from_le (slice 0 8 buf))
        × (e.payload ≡ slice 16 n buf)
        × (c.hash e.payload ≡ from_le (slice 12 16 buf))
  unfolding decode
  decode_inversion buf off e n h = ground arith

  -- `decode` accepts nothing but encodings: the bytes that it takes are those that `encode` writes
  -- for the entry that it returns.
  pub encode-decode :
      (buf : List ℕ) (off : ℕ) (e : Entry) (n : ℕ)
      → All IsByte buf
      → decode buf off ≡ ok (e, n)
      → (take n buf ≡ encode e.sequence e.payload) × (n ≤ length buf) × (n ≡ 16 + length e.payload)
  encode-decode buf off e n hb h =
      let (en, len, es, ep, ec) = decode_inversion buf off e n h in
      let size : length e.payload ≡ from_le (slice 8 12 buf) =
        rw (ep, length-take, length-drop) (omega arith) in
      let size32 : length e.payload % 2 ^ 32 ≡ from_le (slice 8 12 buf) =
        omega (arith, size, word-lt buf hb (omega arith)) in
      let whole = split_header buf n (omega arith) (omega arith) in
      (
        whole
            ∙ sym (
                unfold encode in
                rw (
                  es,
                  size32,
                  ec,
                  ep,
                  word buf hb 0 8 (omega arith),
                  word buf hb 8 4 (omega arith),
                  word buf hb 12 4 (omega arith),
                )),
        len,
        omega arith,
      )
