-- ===== src/WalCore/Wal/Truncate.antt =====
-- `truncate_before`: which segments go, and what reads on as before.
use wal_distributed_rs.Common.{
  ℕ, ◌^◌, ◌≤◌, ◌<◌, ◌≡◌, ◌≢◌, refl, sym, ap, ◌∙◌, some, List, [], ◌∷◌, ◌++◌, All, filter-append,
  filter-cons_no, arith, Bool-cases, inl, inr, ltb, ltb→lt, lt→leb,
}
use wal_distributed_rs.Common.Exec.{ok}
use wal_distributed_rs.Disk
use wal_distributed_rs.Disk.{File, FileName, Dir, find, erase}
use wal_distributed_rs.Disk.Laws.{find-erase}
use wal_distributed_rs.WalCore.Entry.{Crc, Entry}
use wal_distributed_rs.WalCore.Segment.Names.{segment_path}
use wal_distributed_rs.WalCore.Segment.Content.{disk, Table}
use wal_distributed_rs.WalCore.Wal.{
  Wal, from_on, max_sequence, drop_segments, truncate_before, read_from,
}
use wal_distributed_rs.WalCore.Wal.Model.{
  Part, ids, entries_of, Stored, Stands, read_entries-Stores,
}
use wal_distributed_rs.WalCore.Wal.Reads.{read_sealed-Stored}
use wal_distributed_rs.WalCore.Wal.Parts.{paths_ne}

-- The numbers of the segments are all different.
abbrev pub IsAbsent : ℕ → List Part → Type 0
IsAbsent i ps = All (λ p. p.0 ≢ i) ps

abbrev pub AreDistinct : List Part → Type 0
AreDistinct [] = Unit
AreDistinct (p ∷ ps) = IsAbsent p.0 ps × AreDistinct ps

below-IsAbsent : (ps : List Part) (i : ℕ) → All (λ (p : Part). p.0 < i) ps → IsAbsent i ps
below-IsAbsent [] i h = tt
below-IsAbsent (p ∷ ps) i h = ((λ e. absurd (omega (arith, h.0, e))), below-IsAbsent ps i h.1)

-- Entries that are all below a number are none of those from it on.
from_on-below : (b n : ℕ) (es : List Entry) → max_sequence es < b → b ≤ n → from_on n es ≡ []
unfolding max_sequence
from_on-below b n [] lt le = refl
from_on-below b n (e ∷ es) lt le =
    filter-cons_no _ e es (lt→leb n e.sequence (omega (arith, lt, le)))
    ∙ from_on-below b n es (omega (arith, lt)) le

find-erase_path :
    (i j : ℕ) (t : Table)
    → i < 2 ^ 64
    → j < 2 ^ 64
    → i ≢ j
    → find (segment_path j) (erase (segment_path i) t) ≡ find (segment_path j) t
find-erase_path i j t hi hj ne =
    rw (find-erase (segment_path i) (segment_path j) t, paths_ne i j hi hj ne) refl

remove_done :
    (n : FileName) (t : Table) {f : File}
    → find n t ≡ some f
    → Disk.remove_file n (disk t) ≡ (ok tt, disk (erase n t))
unfolding Disk.remove_file find
remove_done n t h = rw (Disk.remove_file, h) refl

module _ ⦃c : Crc⦄ where
  Stored-find :
      (t t' : Table) (p : Part)
      → find (segment_path p.0) t' ≡ find (segment_path p.0) t
      → Stored t p
      → Stored t' p
  Stored-find t t' p e h = (
    record { stored = h.0.stored; found = e ∙ h.0.found; bytes = h.0.bytes; fits = h.0.fits },
    h.1,
  )

  Stored-erase :
      (i : ℕ) (t : Table) (ps : List Part)
      → i < 2 ^ 64
      → IsAbsent i ps
      → All (Stored t) ps
      → All (Stored (erase (segment_path i) t)) ps
  Stored-erase i t [] hi away h = tt
  Stored-erase i t (p ∷ ps) hi away h = (
    Stored-find t _ p (find-erase_path i p.0 t hi h.0.1 (λ e. away.0 (sym e))) h.0,
    Stored-erase i t ps hi away.1 h.1,
  )

  -- What is left of the segments `ps` in `t`.
  record Kept (b : ℕ) (ps : List Part) (t : Table) : Type 0 where
    kept : List Part
    table : Table
    run : drop_segments b (ids ps) (disk t) ≡ (ok (ids kept), disk table)
    files : All (Stored table) kept
    reads : (n : ℕ) → b ≤ n → from_on n (entries_of kept) ≡ from_on n (entries_of ps)
    others :
        (j : ℕ) → j < 2 ^ 64 → IsAbsent j ps → find (segment_path j) table ≡ find (segment_path j) t

  drop_segments-Kept :
      (b : ℕ) (ps : List Part) (t : Table) → All (Stored t) ps → AreDistinct ps → Kept b ps t
  unfolding drop_segments
  drop_segments-Kept b [] t h apart = record {
    kept = [];
    table = t;
    run = refl;
    files = tt;
    reads = λ n le. refl;
    others = λ j hj away. refl;
  }
  drop_segments-Kept b (p ∷ ps) t h apart = elim (Bool-cases (ltb (max_sequence p.1) b)) [
    | inl old ↦
        let t1 = erase (segment_path p.0) t in
        let k = drop_segments-Kept b ps t1 (Stored-erase p.0 t ps h.0.1 apart.0 h.1) apart.1 in
        record {
          kept = k.kept;
          table = k.table;
          run =
              rw (read_entries-Stores t (segment_path p.0) p.1 h.0.0)
                (rw old (rw (remove_done (segment_path p.0) t h.0.0.found) k.run));
          files = k.files;
          reads = λ n le.
              k.reads n le
              ∙ sym (
                  filter-append _ p.1 (entries_of ps)
                  ∙ ap (λ l. l ++ from_on n (entries_of ps))
                      (from_on-below b n p.1 (ltb→lt _ _ old) le));
          others = λ j hj away. k.others j hj away.1 ∙ find-erase_path p.0 j t h.0.1 hj away.0;
        }
    | inr young ↦
        let k = drop_segments-Kept b ps t h.1 apart.1 in
        record {
          kept = p ∷ k.kept;
          table = k.table;
          run = rw (read_entries-Stores t (segment_path p.0) p.1 h.0.0) (rw young (rw k.run refl));
          files = (Stored-find t k.table p (k.others p.0 h.0.1 apart.0) h.0, k.files);
          reads = λ n le.
              filter-append _ p.1 (entries_of k.kept)
              ∙ ap (λ l. from_on n p.1 ++ l) (k.reads n le)
              ∙ sym (filter-append _ p.1 (entries_of ps));
          others = λ j hj away. k.others j hj away.1;
        }
  ]

  -- `truncate_before` on a log that stands on a disk whose calls do not fail, with sealed segments
  -- of different numbers, succeeds and loses nothing from its number on: a read from there or
  -- behind gives the same entries as before, and the active segment and the next sequence number
  -- stay.
  pub truncate_before-read_from :
      (b n : ℕ) (w : Wal) (t : Table) (old : List Part) (now : List Entry)
      → b ≤ n
      → Stands w t old now
      → AreDistinct old
      → (w' : Wal) × (t' : Table) × (truncate_before b (w, disk t) ≡ (ok tt, (w', disk t')))
        × (read_from w' n (disk t') ≡ (ok (from_on n (entries_of old ++ now)), disk t'))
        × (w'.active ≡ w.active)
        × (w'.next_sequence ≡ w.next_sequence)
  unfolding truncate_before read_from
  truncate_before-read_from b n w t old now le h apart =
      let k = drop_segments-Kept b old t h.sealed_files apart in
      let same = k.others w.active.id h.active_id (below-IsAbsent old w.active.id h.below) in
      (
        record w { sealed = ids k.kept },
        k.table,
        rw (h.sealed, k.run) refl,
        (rw (read_sealed-Stored n k.table k.kept k.files) (
            rw
              (
                h.active_path,
                read_entries-Stores k.table (segment_path w.active.id) now (record {
                  stored = h.active_file.stored;
                  found = same ∙ h.active_file.found;
                  bytes = h.active_file.bytes;
                  fits = h.active_file.fits;
                }),
              )
              (λ i. (
                ok (
                    (ap (λ l. l ++ from_on n now) (k.reads n le)
                        ∙ sym (filter-append _ (entries_of old) now))
                      i),
                disk k.table,
              )))),
        refl,
        refl,
      )
