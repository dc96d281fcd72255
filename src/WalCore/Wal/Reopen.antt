-- ===== src/WalCore/Wal/Reopen.antt =====
-- `open_wal` over the files that a log has left.
use wal_distributed_rs.WalCore.Wal.Listed.{
  last?-listed, init-listed, ids_or_panic-listed, ids-reverse, All-reverse, sequence?,
  last?-append_none, last?-append_some,
}
use mathlib.Core.List.{reverse, reverse-cons, reverse-reverse}
use wal_distributed_rs.Common.{
  ℕ, ◌^◌, ◌<◌, ◌≡◌, refl, sym, ap, ◌∙◌, some, List, [], ◌∷◌, ◌++◌, All, length, last?, inl, inr,
  Option-cases,
}
use wal_distributed_rs.Common.Exec.{ok, continue}
use wal_distributed_rs.Disk
use wal_distributed_rs.Disk.{Dir, File, FileName, find, call, outcome, later}
use wal_distributed_rs.WalCore.Entry.{Crc, Entry}
use wal_distributed_rs.WalCore.Segment
use wal_distributed_rs.WalCore.Segment.{Segment}
use wal_distributed_rs.WalCore.Segment.Names.{segment_path, list_segments}
use wal_distributed_rs.WalCore.Segment.Names.RoundTrip.{segment_id_from_path-segment_path}
use wal_distributed_rs.WalCore.Segment.Content.{disk, Table}
use wal_distributed_rs.WalCore.Checkpoint.Atomic.{loaded, open_checkpoint_done}
use wal_distributed_rs.WalCore.Wal.{
  Wal, WalConfig, last_of_sealed, highest_sequence_on_disk, next_after, open_wal,
}
use wal_distributed_rs.WalCore.Wal.Model.{
  Part, ids, entries_of, Stored, Stands, read_entries-Stores,
}
use wal_distributed_rs.WalCore.Wal.Parts.{entries_of-snoc}

module _ ⦃c : Crc⦄ where
  last_of_sealed-Stored :
      (t : Table) (rs : List Part)
      → All (Stored t) rs
      → last_of_sealed (ids rs) (disk t)
        ≡ (ok (sequence? (last? (entries_of (reverse rs)))), disk t)
  unfolding last_of_sealed
  last_of_sealed-Stored t [] h = refl
  last_of_sealed-Stored t (p ∷ ps) h =
      let tail_first : entries_of (reverse (p ∷ ps)) ≡ entries_of (reverse ps) ++ p.1 =
        ap entries_of (reverse-cons p ps) ∙ entries_of-snoc (reverse ps) p in
      elim (Option-cases (last? p.1)) [
        | inl e ↦
            rw
              (
                read_entries-Stores t (segment_path p.0) p.1 h.0.0,
                tail_first,
                last?-append_none (entries_of (reverse ps)) p.1 e,
              )
              (rw (e, continue) (last_of_sealed-Stored t ps h.1))
        | inr (x, e) ↦
            rw
              (
                read_entries-Stores t (segment_path p.0) p.1 h.0.0,
                tail_first,
                last?-append_some (entries_of (reverse ps)) p.1 e,
              )
              (rw (e, continue))
      ]

  -- The highest sequence number on disk is that of the last entry of the log.
  highest-Stands :
      (w : Wal) (t : Table) (old : List Part) (now : List Entry)
      → Stands w t old now
      → highest_sequence_on_disk (segment_path w.active.id) (ids old) (disk t)
        ≡ (ok (sequence? (last? (entries_of old ++ now))), disk t)
  unfolding highest_sequence_on_disk
  highest-Stands w t old now h =
      let back : last_of_sealed (reverse (ids old)) (disk t)
          ≡ (ok (sequence? (last? (entries_of old))), disk t) =
        rw (← ids-reverse old) (
          last_of_sealed-Stored t (reverse old) (All-reverse (Stored t) old h.sealed_files)
          ∙ ap (λ l. (ok (sequence? (last? (entries_of l))), disk t)) (reverse-reverse old)) in
      elim (Option-cases (last? now)) [
        | inl e ↦
            rw (read_entries-Stores t _ now h.active_file, last?-append_none (entries_of old) now e)
              (rw (e, continue) back)
        | inr (x, e) ↦
            rw (read_entries-Stores t _ now h.active_file, last?-append_some (entries_of old) now e)
              (rw (e, continue))
      ]

  open_for_append_done :
      (i max_bytes : ℕ) (t : Table) {f : File}
      → i < 2 ^ 64
      → find (segment_path i) t ≡ some f
      → Segment.open_for_append (segment_path i) max_bytes (disk t) ≡ (
        ok (record {
          id = i;
          path = segment_path i;
          buffer = [];
          size = length f.bytes;
          max_bytes = max_bytes;
        }),
        disk t,
      )
  unfolding Segment.open_for_append Disk.file_len Disk.open_append find
  open_for_append_done i max_bytes t hi h =
      rw (segment_id_from_path-segment_path i hi, h) (rw (Disk.open_append, h))

  -- The log that `open_wal` makes of what the directory holds.
  abbrev pub reopened : WalConfig → Wal → Table → List Entry → Wal
  reopened config w t all = record {
    config = config;
    active = record (w.active) { max_bytes = config.max_segment_bytes };
    sealed = w.sealed;
    checkpoint = loaded t;
    next_sequence = next_after (sequence? (last? all));
  }

  -- Opening the directory of a log that stands there, with calls that do not fail, gives the log
  -- back: the same segments with the same active one, the checkpoint that the directory holds, and
  -- as the next sequence number the successor of the last entry's, or 1 for a log with no entry.
  -- The directory stays as it is.
  pub open_wal-Stands :
      (config : WalConfig) (w : Wal) (t : Table) (old : List Part) (now : List Entry)
      → Stands w t old now
      → (open_wal config (disk t) ≡ (ok (reopened config w t (entries_of old ++ now)), disk t))
        × Stands (reopened config w t (entries_of old ++ now)) t old now
  unfolding open_wal Disk.create_dir_all list_segments Disk.read_dir
  open_wal-Stands config w t old now h = (
    run,
    record {
      sealed = h.sealed;
      sealed_files = h.sealed_files;
      active_id = h.active_id;
      active_path = h.active_path;
      active_file = h.active_file;
      buffer = h.buffer;
      size = h.size;
      max_bytes = refl;
      below = h.below;
      fresh = h.fresh;
      listing = h.listing;
    },
  )
    where
      id : ℕ
      id = w.active.id

      bytes_left : length h.active_file.stored.bytes ≡ w.active.size
      bytes_left = ap length h.active_file.bytes ∙ sym h.size

      same :
          ◌≡◌ {A = Wal}
            (record {
              config = config;
              active = record {
                id = w.active.id;
                path = segment_path w.active.id;
                buffer = [];
                size = length h.active_file.stored.bytes;
                max_bytes = config.max_segment_bytes;
              };
              sealed = ids old;
              checkpoint = loaded t;
              next_sequence = next_after (sequence? (last? (entries_of old ++ now)));
            })
            (reopened config w t (entries_of old ++ now))
      same = λ k. record {
        config = config;
        active = record {
          id = w.active.id;
          path = sym h.active_path k;
          buffer = sym h.buffer k;
          size = bytes_left k;
          max_bytes = config.max_segment_bytes;
        };
        sealed = sym h.sealed k;
        checkpoint = loaded t;
        next_sequence = next_after (sequence? (last? (entries_of old ++ now)));
      }

      run : open_wal config (disk t) ≡ (ok (reopened config w t (entries_of old ++ now)), disk t)
      run = rw (open_checkpoint_done t) (
          rw h.listing (
            rw (last?-listed (ids old) id, continue)
              (rw (init-listed (ids old) id, ids_or_panic-listed old id h.active_id h.below)
                (rw
                  (open_for_append_done id config.max_segment_bytes t h.active_id
                    h.active_file.found)
                  (rw (highest-Stands w t old now h) (λ k. (ok (same k), disk t)))))))
