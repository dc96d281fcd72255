-- ===== src/Replication/Snapshot/RoundTrip.antt =====
-- Log entries as snapshot data, and a snapshot as the bytes of its file, are read back as written.
use wal_distributed_rs.Common.Exec.{ok}
use wal_distributed_rs.Common.{
  drop-drop, sym, refl, [], length-append, ◌∷◌, drop, ◌-◌, ◌+◌, take, ◌∙◌, ap, ◌%◌, ◌++◌, length,
  All, suc, some, ◌^◌, List, ℕ, ◌<◌, ◌≡◌, take_all, take-append_length, drop-append_length, arith,
}
use wal_distributed_rs.Bytes.{le_bytes, from_le}
use wal_distributed_rs.Bytes.Words.{u64_round_trip, u32_round_trip}
use wal_distributed_rs.Replication.Log.Record.{LogEntry}
use wal_distributed_rs.Replication.Snapshot.{
  Snapshot, encode, decode, encode_entry, encode_all, encode_entries, decode_all, decode_entries,
  push_entry,
}

-- What the file's fields can hold.
pub record Storable (s : Snapshot) : Type 0 where
  pub index : s.last_included_index < 2 ^ 64
  pub term : s.last_included_term < 2 ^ 64
  pub payload : length s.payload < 2 ^ 32

pub record IsEntry (e : LogEntry) : Type 0 where
  pub index : e.index < 2 ^ 64
  pub term : e.term < 2 ^ 64
  pub payload : length e.payload < 2 ^ 32

pub decode-encode : (s : Snapshot) → Storable s → decode (encode s) ≡ ok (some s)
unfolding decode encode le_bytes
decode-encode s h =
    let words : from_le (le_bytes 4 (length s.payload % 2 ^ 32)) ≡ length s.payload =
      ap (λ n. from_le (le_bytes 4 n)) (omega (arith, h.payload))
      ∙ u32_round_trip (length s.payload) h.payload in
    let cut : take (20 + length s.payload - 20) s.payload ≡ s.payload =
      ap (λ n. take n s.payload) (omega arith)
      ∙ take_all (length s.payload) s.payload (omega arith) in
    rw (u64_round_trip s.last_included_index h.index, u64_round_trip s.last_included_term h.term)
      (rw words (rw cut (ground arith)))

decode_all-cons :
    (count : ℕ) (e : LogEntry) (rest : List ℕ)
    → IsEntry e
    → decode_all (suc count) (encode_entry e ++ rest) ≡ push_entry e (decode_all count rest)
unfolding decode_all encode_entry le_bytes
decode_all-cons count e rest h =
    let words : from_le (le_bytes 4 (length e.payload % 2 ^ 32)) ≡ length e.payload =
      ap (λ n. from_le (le_bytes 4 n)) (omega (arith, h.payload))
      ∙ u32_round_trip (length e.payload) h.payload in
    let cut : take (20 + length e.payload - 20) (e.payload ++ rest) ≡ e.payload =
      ap (λ n. take n (e.payload ++ rest)) (omega arith)
      ∙ take-append_length (length e.payload) e.payload rest refl in
    let left : drop (20 + length e.payload) (encode_entry e ++ rest) ≡ rest =
      sym (drop-drop 20 (length e.payload) (encode_entry e ++ rest))
      ∙ drop-append_length (length e.payload) e.payload rest refl in
    rw (u64_round_trip e.index h.index, u64_round_trip e.term h.term)
      (rw words (rw cut (rw left (ground (arith, length-append e.payload rest)))))

decode_all-encode_all :
    (es : List LogEntry) → All IsEntry es → decode_all (length es) (encode_all es) ≡ some es
unfolding encode_all
decode_all-encode_all [] h = unfold decode_all in refl
decode_all-encode_all (e ∷ es) h =
    decode_all-cons (length es) e (encode_all es) h.0
    ∙ ap (push_entry e) (decode_all-encode_all es h.1)

-- Log entries whose fields fit the format, below 2^32 of them, are read back from snapshot data as
-- they were.
pub decode_entries-encode_entries :
    (es : List LogEntry)
    → All IsEntry es
    → length es < 2 ^ 32
    → decode_entries (encode_entries es) ≡ some es
unfolding decode_entries encode_entries le_bytes
decode_entries-encode_entries es h small =
    let count : from_le (le_bytes 4 (length es % 2 ^ 32)) ≡ length es =
      ap (λ n. from_le (le_bytes 4 n)) (omega (arith, small)) ∙ u32_round_trip (length es) small in
    rw count (ground (arith, decode_all-encode_all es h))
