-- ===== src/WalCore/Segment/Content.antt =====
-- What a segment holds: the bytes of its file, and behind them those that its `BufWriter` keeps.
use wal_distributed_rs.Common.{
  if◌then◌else◌, ℕ, ◌≡◌, ap, sym, ◌∙◌, some, List, [], ◌≤◌, ◌<◌, refl, length, arith, Bool, true,
  false, ◌∷◌, ◌++◌, take, take-append-drop, append_assoc, append-nil, inl, inr, Option-cases,
}
use wal_distributed_rs.Common.Exec.{ok, ◌>>◌}
use wal_distributed_rs.Disk
use wal_distributed_rs.Disk.{Dir, File, FileName, file, outcome, later, find, store}
use wal_distributed_rs.Disk.Laws.{find-store_self, store-store, append_done, append_failed}
use wal_distributed_rs.WalCore.Segment.{
  Segment, flush_buf, append, flush, sync, write_all, size_with,
}

-- The file `f` stands under the segment's path, and with the buffer holds the bytes `c`.
pub record Holds (s : Segment) (d : Dir) (c : List ℕ) : Type 0 where
  pub open_file : File
  pub found : file d s.path ≡ some open_file
  pub content : open_file.bytes ++ s.buffer ≡ c

flush_more-Holds :
    (s : Segment) (b : ℕ) (bs : List ℕ) (d : Dir) (f : File) {c : List ℕ}
    → file d s.path ≡ some f
    → f.bytes ++ b ∷ bs ≡ c
    → let r = flush_buf (record s { buffer = b ∷ bs }, d) in Holds r.1.0 r.1.1 c
unfolding flush_buf
flush_more-Holds s b bs d f found e = elim (Option-cases (outcome d.faults)) [
  | inl o ↦
      rw (append_done s.path (b ∷ bs) d found o, o)
        (record {
          open_file = record { bytes = f.bytes ++ b ∷ bs; synced = f.synced };
          found = find-store_self s.path _ d.files;
          content = append-nil _ ∙ e;
        })
  | inr (k, o) ↦
      rw (append_failed s.path (b ∷ bs) d found o, o)
        (record {
          open_file = record { bytes = f.bytes ++ take k (b ∷ bs); synced = f.synced };
          found = find-store_self s.path _ d.files;
          content =
              append_assoc f.bytes _ _ ∙ ap (λ l. f.bytes ++ l) (take-append-drop k (b ∷ bs)) ∙ e;
        })
]

flush_any-Holds :
    (s : Segment) (buffer : List ℕ) (d : Dir) {c : List ℕ}
    → Holds (record s { buffer = buffer }) d c
    → let r = flush_buf (record s { buffer = buffer }, d) in Holds r.1.0 r.1.1 c
flush_any-Holds s [] d h = unfold flush_buf in h
flush_any-Holds s (b ∷ bs) d h = flush_more-Holds s b bs d h.open_file h.found h.content

-- A flush of a segment whose file is there moves bytes from the buffer to the file and neither
-- loses nor repeats one, whether the write succeeds, fails, or fails half-way.
pub flush_buf-Holds :
    (s : Segment) (d : Dir) {c : List ℕ}
    → Holds s d c
    → Holds (flush_buf (s, d)).1.0 (flush_buf (s, d)).1.1 c
flush_buf-Holds s d h = flush_any-Holds s s.buffer d h

abbrev pub Table : Type 0
Table = List (FileName × File)

-- A disk on which no call fails.
abbrev pub disk : Table → Dir
disk t = record { files = t; faults = [] }

append-flush_fresh :
    (s : Segment) (t : List (FileName × File)) (f : File) (b : ℕ) (bs : List ℕ)
    → find s.path t ≡ some f
    → size_with s (length (b ∷ bs)) ≤ s.max_bytes
    → (do append (b ∷ bs); flush) (record s { buffer = [] }, disk t) ≡ (
      ok tt,
      (
        record s { buffer = []; size = size_with s (length (b ∷ bs)) },
        disk (store s.path (record { bytes = f.bytes ++ b ∷ bs; synced = f.synced }) t),
      ),
    )
unfolding append write_all flush flush_buf outcome later
append-flush_fresh s t f b bs found fits =
    let done = append_done s.path (b ∷ bs) (disk t) found refl in ground (arith, done)

-- On a disk that does not fail, an append to a segment with nothing in its buffer, and the flush
-- behind it, put the bytes behind the file, whether they pass through the buffer or around it.
pub append-flush :
    (s : Segment) (t : List (FileName × File)) (f : File) (bytes : List ℕ)
    → s.buffer ≡ []
    → find s.path t ≡ some f
    → 0 < length bytes
    → size_with s (length bytes) ≤ s.max_bytes
    → (do append bytes; flush) (s, disk t) ≡ (
      ok tt,
      (
        record s { size = size_with s (length bytes) },
        disk (store s.path (record { bytes = f.bytes ++ bytes; synced = f.synced }) t),
      ),
    )
append-flush s t f [] empty found pos fits = absurd (omega arith)
append-flush s t f (b ∷ bs) empty found pos fits =
    let e : s ≡ record s { buffer = [] } = λ i. record s { buffer = empty i } in
    ap (λ x. (do append (b ∷ bs); flush) (x, disk t)) e
    ∙ append-flush_fresh s t f b bs found fits
    ∙ ap
        (λ buffer. (
          ok tt,
          (
            record s { buffer = buffer; size = size_with s (length (b ∷ bs)) },
            disk (store s.path (record { bytes = f.bytes ++ b ∷ bs; synced = f.synced }) t),
          ),
        ))
        (sym empty)

-- The file after an append with a flush, or with a sync, of which the latter makes all durable.
abbrev pub written : File → List ℕ → Bool → File
written f bytes durable = record {
  bytes = f.bytes ++ bytes;
  synced = if durable then length (f.bytes ++ bytes) else f.synced;
}

append-sync_fresh :
    (s : Segment) (t : List (FileName × File)) (f : File) (b : ℕ) (bs : List ℕ)
    → find s.path t ≡ some f
    → size_with s (length (b ∷ bs)) ≤ s.max_bytes
    → (do append (b ∷ bs); sync) (record s { buffer = [] }, disk t) ≡ (
      ok tt,
      (
        record s { buffer = []; size = size_with s (length (b ∷ bs)) },
        disk (store s.path (written f (b ∷ bs) true) t),
      ),
    )
unfolding append write_all sync flush_buf outcome later Disk.sync_all
append-sync_fresh s t f b bs found fits =
    let f' : File = written f (b ∷ bs) false in
    ground (
      arith,
      append_done s.path (b ∷ bs) (disk t) found refl,
      find-store_self s.path f' t,
      store-store s.path f' (written f (b ∷ bs) true) t,
    )

-- An append to a segment with nothing in its buffer, on a disk that does not fail, with the flush
-- or the sync that the log puts behind it.
pub append_settled :
    (s : Segment) (t : List (FileName × File)) (f : File) (bytes : List ℕ) (durable : Bool)
    → s.buffer ≡ []
    → find s.path t ≡ some f
    → 0 < length bytes
    → size_with s (length bytes) ≤ s.max_bytes
    → (do append bytes; if durable then sync else flush) (s, disk t) ≡ (
      ok tt,
      (
        record s { size = size_with s (length bytes) },
        disk (store s.path (written f bytes durable) t),
      ),
    )
append_settled s t f bytes false empty found pos fits =
    append-flush s t f bytes empty found pos fits
append_settled s t f [] true empty found pos fits = absurd (omega arith)
append_settled s t f (b ∷ bs) true empty found pos fits =
    let e : s ≡ record s { buffer = [] } = λ i. record s { buffer = empty i } in
    ap (λ x. (do append (b ∷ bs); sync) (x, disk t)) e
    ∙ append-sync_fresh s t f b bs found fits
    ∙ ap
        (λ buffer. (
          ok tt,
          (
            record s { buffer = buffer; size = size_with s (length (b ∷ bs)) },
            disk (store s.path (written f (b ∷ bs) true) t),
          ),
        ))
        (sym empty)

-- A sync of a segment with nothing in its buffer makes its file durable.
pub sync_done :
    (s : Segment) (t : List (FileName × File)) (f : File)
    → s.buffer ≡ []
    → find s.path t ≡ some f
    → sync (s, disk t) ≡ (ok tt, (s, disk (store s.path (record f { synced = length f.bytes }) t)))
unfolding sync flush_buf Disk.sync_all find
sync_done s t f empty found =
    let e : s ≡ record s { buffer = [] } = λ i. record s { buffer = empty i } in
    ap (λ x. sync (x, disk t)) e
    ∙ rw found (
        ap
          (λ b. (
            ok tt,
            (record s { buffer = b }, disk (store s.path (record f { synced = length f.bytes }) t)),
          ))
          (sym empty))
