-- ===== src/WalCore/Wal/Growth.antt =====
-- A log on disk after `append`.
use wal_distributed_rs.WalCore.Wal.Rotates.{Grown, rotate-Stands}
use wal_distributed_rs.WalCore.Wal.Parts.{find-store_path, Stored-store}
use wal_distributed_rs.Common.{
  not-ltb→le, ℕ, ◌+◌, ◌^◌, ◌≤◌, ◌<◌, ◌≡◌, refl, sym, ap, ◌∙◌, Bool, some, List, [], ◌∷◌, ◌++◌,
  All-append, length, length-append, arith, append_assoc, append-nil, add64, if◌then◌else◌, ltb,
  inl, inr, Bool-cases,
}
use wal_distributed_rs.Common.Exec.{ok, pure, ◌>>◌, bind-ok}
use wal_distributed_rs.Disk.{Dir, File, find, store}
use wal_distributed_rs.Disk.Laws.{find-store_self}
use wal_distributed_rs.WalCore.Entry.{Crc, Entry, encode}
use wal_distributed_rs.WalCore.Entry.Decode.{length-encode}
use wal_distributed_rs.WalCore.Segment
use wal_distributed_rs.WalCore.Segment.{Segment, size_with, would_overflow}
use wal_distributed_rs.WalCore.Segment.Names.{segment_path}
use wal_distributed_rs.WalCore.Segment.Read.{Fits, encodings, encodings-append}
use wal_distributed_rs.WalCore.Segment.Content.{disk, written, Table}
use wal_distributed_rs.WalCore.Wal.{Wal, WalExec, on_active, update, rotate, append}
use wal_distributed_rs.WalCore.Wal.Model.{Part, entries_of, Stands}
use wal_distributed_rs.WalCore.Wal.Listing.{listing-store_found}
use wal_distributed_rs.WalCore.Wal.Appends.{write_settled}

module _ ⦃c : Crc⦄ where
  -- The tail of `append`, behind the rotation.
  abbrev put_entry : Bool → ℕ → List ℕ → WalExec ℕ
  put_entry durable seq encoded (w, d) =
      (do
        on_active (Segment.append encoded)
        (if durable then on_active Segment.sync else on_active Segment.flush)
        update (λ v. record v { next_sequence = add64 seq 1 })
        pure seq)
        (w, d)

  put_entry-Stands :
      (durable : Bool) (seq : ℕ) (w : Wal) (t : Table) (old : List Part) (now : List Entry)
      (payload : List ℕ)
      → Stands w t old now
      → Fits (record { sequence = seq; payload = payload })
      → w.active.size + (16 + length payload) ≤ w.config.max_segment_bytes
      → w.active.size + (16 + length payload) < 2 ^ 64
      → (out : Wal × Dir) × (put_entry durable seq (encode seq payload) (w, disk t) ≡ (ok seq, out))
        × Grown w old (now ++ record { sequence = seq; payload = payload } ∷ []) (add64 seq 1) out
  put_entry-Stands durable seq w t old now payload h fits room bound =
      let e : Entry = record { sequence = seq; payload = payload } in
      let bytes = encode seq payload in
      let f = h.active_file.stored in
      let len : length bytes ≡ 16 + length payload = length-encode seq payload in
      let f' : File = written f bytes durable in
      let size' : size_with w.active (length bytes) ≡ w.active.size + length bytes = omega arith in
      let found : find w.active.path t ≡ some f = rw h.active_path h.active_file.found in
      let more : encodings now ++ bytes ≡ encodings (now ++ e ∷ []) =
        sym (encodings-append now (e ∷ []) ∙ ap (λ l. encodings now ++ l) (append-nil bytes)) in
      (
        _,
        write_settled (do update (λ v. record v { next_sequence = add64 seq 1 }); pure seq) durable
            w t f bytes h.buffer found (omega arith) (rw h.max_bytes (omega arith)),
        record {
          table = store (segment_path w.active.id) f' t;
          old' = old;
          now' = now ++ e ∷ [];
          on_disk = ap (λ n. disk (store n f' t)) h.active_path;
          stands = record {
            sealed = h.sealed;
            sealed_files = Stored-store w.active.id f' t old h.active_id h.below h.sealed_files;
            active_id = h.active_id;
            active_path = h.active_path;
            active_file = record {
              stored = f';
              found = find-store_self (segment_path w.active.id) f' t;
              bytes = ap (λ l. l ++ bytes) h.active_file.bytes ∙ more;
              fits = All-append Fits now (e ∷ []) h.active_file.fits (fits, tt);
            };
            buffer = h.buffer;
            size =
                size'
                ∙ omega (arith, h.size, ap length more, length-append {0} (encodings now) bytes);
            max_bytes = h.max_bytes;
            below = h.below;
            fresh = λ i lt hi.
                find-store_path w.active.id i f' t h.active_id hi (omega arith) ∙ h.fresh i lt hi;
            listing =
                listing-store_found (segment_path w.active.id) f' t h.active_file.found h.listing;
          };
          entries = refl;
          next_sequence = refl;
          config = refl;
          checkpoint = refl;
        },
      )

  -- `append` on a log that stands on a disk whose calls do not fail, with a payload that fits an
  -- entry and a segment, and counters that are not at their end: it returns the next sequence
  -- number, and the log then holds what it held and behind it the new entry, under that number,
  -- whether or not the entry needed a fresh segment. The configuration and the checkpoint stay, and
  -- the next number is one higher, as a u64.
  pub append-Stands :
      (w : Wal) (t : Table) (old : List Part) (now : List Entry) (payload : List ℕ)
      → Stands w t old now
      → Fits (record { sequence = w.next_sequence; payload = payload })
      → 16 + length payload ≤ w.config.max_segment_bytes
      → w.active.size + w.config.max_segment_bytes < 2 ^ 64
      → w.active.id + 1 < 2 ^ 64
      → (out : Wal × Dir) × (append payload (w, disk t) ≡ (ok w.next_sequence, out))
        × Grown w old
            (now ++ record { sequence = w.next_sequence; payload = payload } ∷ [])
            (add64 w.next_sequence 1)
            out
  unfolding append would_overflow
  append-Stands w t old now payload h fits room bound ids_left =
      let seq = w.next_sequence in
      let e : Entry = record { sequence = seq; payload = payload } in
      let len : length (encode seq payload) ≡ 16 + length payload = length-encode seq payload in
      let durable = w.config.sync_writes in
      elim (Bool-cases
        (ltb w.active.max_bytes (size_with w.active (length (encode seq payload))))) [
          | inl full ↦
              let (out, rotated, g, empty, _) = rotate-Stands w t old now h ids_left in
              let cap' : w.config.max_segment_bytes < 2 ^ 64 = omega arith in
              let fresh : out ≡ (out.0, disk g.table) = λ i. (out.0, g.on_disk i) in
              let fits' : out.0.active.size + (16 + length payload)
                  ≤ out.0.config.max_segment_bytes =
                rw (empty, g.config) (omega arith) in
              let (out', put, g') =
                put_entry-Stands durable seq out.0 g.table g.old' g.now' payload g.stands fits fits'
                  (rw empty (omega arith)) in
              (
                out',
                rw full (
                    bind-ok rotate (λ _. put_entry durable seq (encode seq payload)) rotated
                    ∙ ap (put_entry durable seq (encode seq payload)) fresh
                    ∙ put),
                record {
                  table = g'.table;
                  old' = g'.old';
                  now' = g'.now';
                  on_disk = g'.on_disk;
                  stands = g'.stands;
                  entries =
                      g'.entries
                      ∙ sym (append_assoc (entries_of g.old') g.now' (e ∷ []))
                      ∙ ap (λ l. l ++ e ∷ []) g.entries
                      ∙ append_assoc (entries_of old) now (e ∷ []);
                  next_sequence = g'.next_sequence;
                  config = g'.config ∙ g.config;
                  checkpoint = g'.checkpoint ∙ g.checkpoint;
                },
              )
          | inr room' ↦
              let (out, put, g) =
                put_entry-Stands durable seq w t old now payload h fits
                  (omega (arith, not-ltb→le _ _ room', len, h.max_bytes)) (omega arith) in
              (out, rw room' put, g)
        ]
