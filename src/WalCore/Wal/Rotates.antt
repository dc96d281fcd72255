-- ===== src/WalCore/Wal/Rotates.antt =====
-- A log on disk after `rotate`.
use wal_distributed_rs.WalCore.Wal.Parts.{
  find-store_path, ids-snoc, entries_of-snoc, listed-snoc, below_snoc, Stored-store, listed_below,
}
use wal_distributed_rs.Common.{
  ℕ, ◌+◌, ◌^◌, ◌<◌, ◌≡◌, refl, sym, ap, ◌∙◌, some, none, List, [], ◌∷◌, ◌++◌, All, All-append,
  length, arith, append-nil, add64,
}
use wal_distributed_rs.Common.Exec.{ok}
use wal_distributed_rs.Disk
use wal_distributed_rs.Disk.{Dir, File, FileName, find, store}
use wal_distributed_rs.Disk.Laws.{find-store_self}
use wal_distributed_rs.WalCore.Entry.{Crc, Entry}
use wal_distributed_rs.WalCore.Segment
use wal_distributed_rs.WalCore.Segment.{Segment, size_with, would_overflow}
use wal_distributed_rs.WalCore.Segment.Names.{segment_path}
use wal_distributed_rs.WalCore.Segment.Names.RoundTrip.{is_segment_name-segment_path}
use wal_distributed_rs.WalCore.Segment.Content.{disk, sync_done, Table}
use wal_distributed_rs.WalCore.Wal.{Wal, rotate}
use wal_distributed_rs.WalCore.Wal.Model.{Part, entries_of, Stored, Stands}
use wal_distributed_rs.WalCore.Wal.Listing.{listing-store_found, listing-store_new}

module _ ⦃c : Crc⦄ where
  -- The log after a step, and what it holds.
  pub record Grown (w : Wal) (old : List Part) (now : List Entry) (next : ℕ) (out : Wal × Dir)
      : Type 0 where
    pub table : Table
    pub old' : List Part
    pub now' : List Entry
    pub on_disk : out.1 ≡ disk table
    pub stands : Stands out.0 table old' now'
    pub entries : entries_of old' ++ now' ≡ entries_of old ++ now
    pub next_sequence : out.0.next_sequence ≡ next
    pub config : out.0.config ≡ w.config
    pub checkpoint : out.0.checkpoint ≡ w.checkpoint

  pub create_done :
      (id cap : ℕ) (t : Table)
      → find (segment_path id) t ≡ none
      → Segment.create id cap (disk t) ≡ (
        ok (record { id = id; path = segment_path id; buffer = []; size = 0; max_bytes = cap }),
        disk (store (segment_path id) (record { bytes = []; synced = 0 }) t),
      )
  unfolding Segment.create Disk.create_new find
  create_done id cap t h = rw h

  -- A rotation of a log that stands on a disk whose calls do not fail, below the last segment
  -- number, seals the active segment with its entries and goes on with an empty one, whose number
  -- is the next; no entry is lost.
  pub rotate-Stands :
      (w : Wal) (t : Table) (old : List Part) (now : List Entry)
      → Stands w t old now
      → w.active.id + 1 < 2 ^ 64
      → (out : Wal × Dir) × (rotate (w, disk t) ≡ (ok tt, out))
        × Grown w old now w.next_sequence out
        × (out.0.active.size ≡ 0)
        × (out.0.active.id ≡ w.active.id + 1)
  unfolding rotate
  rotate-Stands w t old now h room =
      let i = w.active.id in
      let j = w.active.id + 1 in
      let f = h.active_file.stored in
      let f' : File = record f { synced = length f.bytes } in
      let new : File = record { bytes = []; synced = 0 } in
      let t' = store (segment_path i) f' t in
      let next : add64 i 1 ≡ j = omega arith in
      let found : find w.active.path t ≡ some f = rw h.active_path h.active_file.found in
      let synced : Segment.sync (w.active, disk t) ≡ (ok tt, (w.active, disk t')) =
        sync_done w.active t f h.buffer found ∙ rw h.active_path in
      let absent : find (segment_path j) t' ≡ none =
        find-store_path i j f' t h.active_id room (omega arith) ∙ h.fresh j (omega arith) room in
      let seg : Segment = record {
        id = j;
        path = segment_path j;
        buffer = [];
        size = 0;
        max_bytes = w.config.max_segment_bytes;
      } in
      let parts : List Part = old ++ (i, now) ∷ [] in
      let below' : All (λ (p : Part). p.0 < j) parts =
        below_snoc old (i, now) j h.below (omega arith) in
      let stored' : All (Stored t') parts =
        All-append (Stored t') old ((i, now) ∷ [])
          (Stored-store i f' t old h.active_id h.below h.sealed_files)
          (
            (
              record {
                stored = f';
                found = find-store_self (segment_path i) f' t;
                bytes = h.active_file.bytes;
                fits = h.active_file.fits;
              },
              h.active_id,
            ),
            tt,
          ) in
      (
        (
          record w { active = seg; sealed = w.sealed ++ (i ∷ []) },
          disk (store (segment_path j) new t'),
        ),
        rw (synced, next, create_done j w.config.max_segment_bytes t' absent) refl,
        record {
          table = store (segment_path j) new t';
          old' = old ++ (i, now) ∷ [];
          now' = [];
          on_disk = refl;
          stands = record {
            sealed = ap (λ l. l ++ i ∷ []) h.sealed ∙ sym (ids-snoc old (i, now));
            sealed_files = Stored-store j new t' parts room below' stored';
            active_id = room;
            active_path = refl;
            active_file = record {
              stored = new;
              found = find-store_self (segment_path j) new t';
              bytes = refl;
              fits = tt;
            };
            buffer = refl;
            size = refl;
            max_bytes = refl;
            below = below';
            fresh = λ k lt hk.
                find-store_path j k new t' room hk (omega arith)
                ∙ find-store_path i k f' t h.active_id hk (omega arith)
                ∙ h.fresh k (omega arith) hk;
            listing =
                listing-store_new (segment_path j) new t' absent (is_segment_name-segment_path j)
                  (listing-store_found (segment_path i) f' t h.active_file.found h.listing)
                  (listed_below i old j room (omega arith) h.active_id h.below)
                ∙ listed-snoc old i now j;
          };
          entries = append-nil _ ∙ entries_of-snoc old (i, now);
          next_sequence = refl;
          config = refl;
          checkpoint = refl;
        },
        refl,
        refl,
      )
