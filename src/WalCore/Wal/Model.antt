-- ===== src/WalCore/Wal/Model.antt =====
-- What a log on disk holds: the entries of each sealed segment and of the active one, with the file
-- table that stands for them.
use wal_distributed_rs.Common.{
  ℕ, ◌^◌, ◌<◌, ◌≡◌, some, none, List, [], ◌∷◌, ◌++◌, map, All, length, filter,
}
use wal_distributed_rs.Common.Exec.{ok}
use wal_distributed_rs.Disk
use wal_distributed_rs.Disk.{Dir, File, FileName, find, store, outcome, later}
use wal_distributed_rs.WalCore.Entry.{Crc, Entry}
use wal_distributed_rs.WalCore.Segment.{read_entries}
use wal_distributed_rs.WalCore.Segment.Names.{segment_path, is_segment_name, sort_by_key}
use wal_distributed_rs.WalCore.Segment.Read.{Fits, encodings, read_raw-encodings}
use wal_distributed_rs.WalCore.Segment.Content.{disk, Table}
use wal_distributed_rs.WalCore.Wal.{Wal}

-- A segment's number and its entries.
abbrev pub Part : Type 0
Part = ℕ × List Entry

abbrev pub ids : List Part → List ℕ
ids [] = []
ids (p ∷ ps) = p.0 ∷ ids ps

abbrev pub entries_of : List Part → List Entry
entries_of [] = []
entries_of (p ∷ ps) = p.1 ++ entries_of ps

abbrev pub names : Table → List FileName
names t = map (λ p. p.0) t

module _ ⦃c : Crc⦄ where
  -- The file of the name holds these entries and nothing else.
  pub record Stores (t : Table) (n : FileName) (es : List Entry) : Type 0 where
    pub stored : File
    pub found : find n t ≡ some stored
    pub bytes : stored.bytes ≡ encodings es
    pub fits : All Fits es

  abbrev pub Stored : Table → Part → Type 0
  Stored t p = Stores t (segment_path p.0) p.1 × (p.0 < 2 ^ 64)

  -- The log `w` over the table `t` holds the segments `old`, sealed, and the entries `now` in the
  -- active one. Nothing is held back in a buffer, and the listing of the directory shows these
  -- segments and no other.
  pub record Stands (w : Wal) (t : Table) (old : List Part) (now : List Entry) : Type 0 where
    pub sealed : w.sealed ≡ ids old
    pub sealed_files : All (Stored t) old
    pub active_id : w.active.id < 2 ^ 64
    pub active_path : w.active.path ≡ segment_path w.active.id
    pub active_file : Stores t (segment_path w.active.id) now
    pub buffer : w.active.buffer ≡ []
    pub size : w.active.size ≡ length (encodings now)
    pub max_bytes : w.active.max_bytes ≡ w.config.max_segment_bytes
    pub below : All (λ p. p.0 < w.active.id) old
    pub fresh : (i : ℕ) → w.active.id < i → i < 2 ^ 64 → find (segment_path i) t ≡ none
    pub listing :
        sort_by_key (filter is_segment_name (names t))
        ≡ map segment_path (ids old ++ w.active.id ∷ [])

  pub read_entries-Stores :
      (t : Table) (n : FileName) (es : List Entry)
      → Stores t n es
      → read_entries n (disk t) ≡ (ok es, disk t)
  unfolding read_entries Disk.read find
  read_entries-Stores t n es h = rw (h.found, h.bytes, read_raw-encodings es h.fits)
