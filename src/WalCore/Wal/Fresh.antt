-- ===== src/WalCore/Wal/Fresh.antt =====
-- `open_wal` in a directory that holds no segment yet.
use wal_distributed_rs.Common.{
  filter-cons_no, filter-cons_yes, ◌≡◌, refl, sym, ap, ◌∙◌, none, [], ◌∷◌, filter, arith, true,
  false, Bool-cases, inl, inr, bytes_eq, bytes_eq_iff,
}
use wal_distributed_rs.Common.Exec.{ok, continue}
use wal_distributed_rs.Disk
use wal_distributed_rs.Disk.{File, FileName, find, store}
use wal_distributed_rs.Disk.Laws.{find-store_self}
use wal_distributed_rs.WalCore.Entry.{Crc}
use wal_distributed_rs.WalCore.Segment.Names.{
  segment_path, is_segment_name, sort_by_key, list_segments,
}
use wal_distributed_rs.WalCore.Segment.Names.RoundTrip.{is_segment_name-segment_path}
use wal_distributed_rs.WalCore.Segment.Content.{disk, Table}
use wal_distributed_rs.WalCore.Checkpoint.Atomic.{loaded, open_checkpoint_done}
use wal_distributed_rs.WalCore.Wal.{Wal, WalConfig, open_wal, open_new}
use wal_distributed_rs.WalCore.Wal.Model.{Stands, names}
use wal_distributed_rs.WalCore.Wal.Listing.{listing-store_new}
use wal_distributed_rs.WalCore.Wal.Parts.{find-store_path}
use wal_distributed_rs.WalCore.Wal.Rotates.{create_done}

-- A segment's name is not among names that are none of a segment.
absent :
    (n : FileName) (t : Table)
    → is_segment_name n ≡ true
    → filter is_segment_name (names t) ≡ []
    → find n t ≡ none
unfolding find
absent n [] seg bare = refl
absent n ((m, f) ∷ t) seg bare = elim (Bool-cases (is_segment_name m)) [
  | inl other ↦ absurd (
      let e : m ∷ filter is_segment_name (names t) ≡ [] =
        sym (filter-cons_yes is_segment_name m (names t) other) ∙ bare in
      cc)
  | inr this ↦ elim (Bool-cases (bytes_eq m n)) [
    | inl same ↦ absurd (
        let e : m ≡ n = (bytes_eq_iff m n).0 same in
        let no : false ≡ true = sym this ∙ ap is_segment_name e ∙ seg in cc)
    | inr apart ↦
        rw apart (absent n t seg (sym (filter-cons_no is_segment_name m (names t) this) ∙ bare))
  ]
]

sorted_none : sort_by_key [] ≡ []
unfolding sort_by_key
sorted_none = refl

module _ ⦃c : Crc⦄ where
  -- The first segment of a directory.
  abbrev pub fresh_table : Table → Table
  fresh_table t = store (segment_path 1) (record { bytes = []; synced = 0 }) t

  abbrev pub fresh : WalConfig → Table → Wal
  fresh config t = record {
    config = config;
    active = record {
      id = 1;
      path = segment_path 1;
      buffer = [];
      size = 0;
      max_bytes = config.max_segment_bytes;
    };
    sealed = [];
    checkpoint = loaded t;
    next_sequence = 1;
  }

  -- In a directory without segments, whatever other files it holds, and with calls that do not
  -- fail, `open_wal` starts a log: segment 1 is made, the log holds no entry, the next sequence
  -- number is 1, and the checkpoint is the one found.
  pub open_wal-fresh :
      (config : WalConfig) (t : Table)
      → filter is_segment_name (names t) ≡ []
      → (open_wal config (disk t) ≡ (ok (fresh config t), disk (fresh_table t)))
        × Stands (fresh config t) (fresh_table t) [] []
  unfolding open_wal Disk.create_dir_all list_segments Disk.read_dir
  open_wal-fresh config t bare = (
    rw (open_checkpoint_done t) (
        rw (none_listed, continue)
          (unfold open_new in
            rw
              (create_done 1 config.max_segment_bytes t
                (absent (segment_path 1) t (is_segment_name-segment_path 1) bare))
              refl)),
    record {
      sealed = refl;
      sealed_files = tt;
      active_id = omega arith;
      active_path = refl;
      active_file = record {
        stored = record { bytes = []; synced = 0 };
        found = find-store_self (segment_path 1) _ t;
        bytes = refl;
        fits = tt;
      };
      buffer = refl;
      size = refl;
      max_bytes = refl;
      below = tt;
      fresh = λ k lt hk.
          find-store_path 1 k _ t (omega arith) hk (omega (arith, lt))
          ∙ absent (segment_path k) t (is_segment_name-segment_path k) bare;
      listing =
          listing-store_new (segment_path 1) _ t
            (absent (segment_path 1) t (is_segment_name-segment_path 1) bare)
            (is_segment_name-segment_path 1) none_listed tt;
    },
  )
    where
      none_listed : sort_by_key (filter is_segment_name (names t)) ≡ []
      none_listed = ap sort_by_key bare ∙ sorted_none
