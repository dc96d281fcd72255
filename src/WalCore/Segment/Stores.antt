-- ===== src/WalCore/Segment/Stores.antt =====
-- Appends to a segment, and the flush or the fsync behind them, on a disk that may fail.
use wal_distributed_rs.Common.{
  ℕ, ◌≤◌, ◌<◌, ◌≡◌, ◌⊎◌, ap, sym, ◌∙◌, refl, some, List, [], ◌++◌, length, take, take_all, arith,
  inl, inr, Bool-cases, Option-cases, ltb, ltb→lt, not-ltb→le, append-nil,
}
use mathlib.Core.Path.{subst}
use wal_distributed_rs.Common.Exec.{Result, ok, err, ◌>>◌}
use wal_distributed_rs.Common.After.{After-bind}
use wal_distributed_rs.Disk.{Dir, File, IsHealthy, file, outcome, find, store}
use wal_distributed_rs.Disk.Laws.{find-store_self, sync_all_done, sync_all_failed}
use wal_distributed_rs.WalCore.Error.{WalError, segment_full}
use wal_distributed_rs.WalCore.Segment.{
  Segment, Seg, append, flush, flush_buf, sync, sync_file, write_all, set_size, size_with,
}
use wal_distributed_rs.WalCore.Segment.Content.{Holds, flush_buf-Holds}
use wal_distributed_rs.WalCore.Segment.Writes.{
  Kept, Flushed, flush_buf-Flushed, Wrote, write_all-Wrote, outcome-some,
}

-- The file has all of the content; or a fault has kept it, or some of it, in the buffer.
abbrev Ends :
    (File → Type 0) → Segment → Dir → List ℕ → Result WalError (Unit {0}) × (Segment × Dir) → Type 0
Ends P s d c (ok u, (s', d')) =
    ((f : File) × (file d' s.path ≡ some f) × (f.bytes ≡ c) × P f)
    × (s'.buffer ≡ [])
    × (s'.size ≡ s.size)
Ends P s d c (err e, (s', d')) = Holds s' d' c × (¬ IsHealthy d)

Flushed-Ends :
    (s : Segment) (d : Dir) (c : List ℕ) (x : Result WalError (Unit {0}) × (Segment × Dir))
    → Flushed s d x
    → Holds x.1.0 x.1.1 c
    → Ends (λ f. Unit) s d c x
Flushed-Ends s d c (ok u, (s', d')) (empty, kept) h =
    let f = h.open_file in
    (
      (
        f,
        ap (λ p. file d' p) (sym kept.path) ∙ h.found,
        sym (append-nil f.bytes) ∙ ap (λ b. f.bytes ++ b) (sym empty) ∙ h.content,
        tt,
      ),
      empty,
      kept.size,
    )
Flushed-Ends s d c (err e, (s', d')) fault h = (h, fault)

flush-Ends :
    (s : Segment) (d : Dir) {c : List ℕ} → Holds s d c → Ends (λ f. Unit) s d c (flush (s, d))
unfolding flush
flush-Ends s d {c} h =
    Flushed-Ends s d c (flush (s, d)) (flush_buf-Flushed s d h) (flush_buf-Holds s d h)

abbrev pub IsDurable : File → Type 0
IsDurable f = f.synced ≡ length f.bytes

sync_file-Ends :
    (s s1 : Segment) (d d1 : Dir) {c : List ℕ}
    → s1.buffer ≡ []
    → Kept s d s1 d1
    → Holds s1 d1 c
    → Ends IsDurable s d c (sync_file (s1, d1))
sync_file-Ends s s1 d d1 {c} empty kept h =
    let f = h.open_file in
    let all : f.bytes ≡ c =
      sym (append-nil f.bytes) ∙ ap (λ b. f.bytes ++ b) (sym empty) ∙ h.content in
    elim (Option-cases (outcome d1.faults)) [
      | inl o ↦ rw (sync_all_done s1.path d1 h.found o) (
        (
          record f { synced = length f.bytes },
          ap (λ p. find p (store s1.path (record f { synced = length f.bytes }) d1.files))
                (sym kept.path)
              ∙ find-store_self s1.path _ d1.files,
          all,
          refl,
        ),
        empty,
        kept.size,
      )
      | inr (k, o) ↦ rw (sync_all_failed s1.path d1 o) (
        record { open_file = f; found = h.found; content = h.content },
        λ healthy. outcome-some d1 o (kept.healthy healthy),
      )
    ]

sync-Ends : (s : Segment) (d : Dir) {c : List ℕ} → Holds s d c → Ends IsDurable s d c (sync (s, d))
unfolding sync
sync-Ends s d {c} h =
    After-bind (λ x. Flushed s d x × Holds x.1.0 x.1.1 c) (Ends IsDurable s d c) flush_buf
      (λ _. sync_file) (s, d) (flush_buf-Flushed s d h, flush_buf-Holds s d h)
      (λ u s1 q. sync_file-Ends s s1.0 d s1.1 q.0.0 q.0.1 q.1) (λ e s1 q. (q.1, q.0))

-- What an append leaves, with the flush or the fsync behind it.
abbrev pub Stores :
    (File → Type 0)
    → Segment
    → Dir
    → List ℕ
    → List ℕ
    → Result WalError (Unit {0}) × (Segment × Dir)
    → Type 0
Stores P s d c bytes (ok u, (s', d')) =
    (size_with s (length bytes) ≤ s.max_bytes)
    × ((f : File) × (file d' s.path ≡ some f) × (f.bytes ≡ c ++ bytes) × P f)
    × (s'.buffer ≡ [])
    × (s'.size ≡ size_with s (length bytes))
Stores P s d c bytes (err e, (s', d')) =
    ((s.max_bytes < size_with s (length bytes))
      × (e ≡ segment_full s.size s.max_bytes (length bytes))
      × (s' ≡ s)
      × (d' ≡ d))
    ⊎ ((size_with s (length bytes) ≤ s.max_bytes)
        × ((k : ℕ) × Holds s' d' (c ++ take k bytes))
        × (¬ IsHealthy d))

abbrev Appended :
    Segment → Dir → List ℕ → List ℕ → Result WalError (Unit {0}) × (Segment × Dir) → Type 0
Appended s d c bytes (ok u, (s', d')) =
    (size_with s (length bytes) ≤ s.max_bytes)
    × Holds s' d' (c ++ bytes)
    × Kept (record s { size = size_with s (length bytes) }) d s' d'
Appended s d c bytes (err e, x) = Stores (λ f. Unit) s d c bytes (err e, x)

append-Appended :
    (s : Segment) (d : Dir) (c bytes : List ℕ)
    → Holds s d c
    → Appended s d c bytes (append bytes (s, d))
unfolding append
append-Appended s d c bytes h =
    let new_size = size_with s (length bytes) in
    elim (Bool-cases (ltb s.max_bytes new_size)) [
      | inl full ↦ rw (append, full) (inl (ltb→lt _ _ full, refl, refl, refl))
      | inr fits ↦
          rw (append, fits)
            (After-bind (Wrote s d c bytes) (Appended s d c bytes) (write_all bytes)
              (λ _. set_size new_size) (s, d) (write_all-Wrote s d c bytes h)
              (λ u s1 w. (
                not-ltb→le _ _ fits,
                record { open_file = w.0.open_file; found = w.0.found; content = w.0.content },
                record { path = w.1.path; size = refl; healthy = w.1.healthy },
              ))
              (λ e s1 w. inr (not-ltb→le _ _ fits, w.0, w.1)))
    ]

ended-Stores :
    (P : File → Type 0) (s s1 : Segment) (d d1 : Dir) (c bytes : List ℕ)
    (x : Result WalError (Unit {0}) × (Segment × Dir))
    → size_with s (length bytes) ≤ s.max_bytes
    → Kept (record s { size = size_with s (length bytes) }) d s1 d1
    → Ends P s1 d1 (c ++ bytes) x
    → Stores P s d c bytes x
ended-Stores P s s1 d d1 c bytes (ok u, (s', d')) fits kept
      ((f, found, all, durable), empty, size) =
    (fits, (f, ap (λ p. file d' p) (sym kept.path) ∙ found, all, durable), empty, size ∙ kept.size)
ended-Stores P s s1 d d1 c bytes (err e, (s', d')) fits kept (h, fault) = inr (
  fits,
  (
    length bytes,
    subst (Holds s' d') (ap (λ l. c ++ l) (sym (take_all (length bytes) bytes (omega arith)))) h,
  ),
  λ healthy. fault (kept.healthy healthy),
)

-- An append with what is behind it.
append_then-Stores :
    (P : File → Type 0) (m : Seg (Unit {0})) (s : Segment) (d : Dir) (c bytes : List ℕ)
    → ((s1 : Segment) (d1 : Dir) (c1 : List ℕ) → Holds s1 d1 c1 → Ends P s1 d1 c1 (m (s1, d1)))
    → Holds s d c
    → Stores P s d c bytes ((append bytes >> m) (s, d))
append_then-Stores P m s d c bytes ends h =
    After-bind (Appended s d c bytes) (Stores P s d c bytes) (append bytes) (λ _. m) (s, d)
      (append-Appended s d c bytes h)
      (λ u s1 a.
        ended-Stores P s s1.0 d s1.1 c bytes (m s1) a.0 a.2 (ends s1.0 s1.1 (c ++ bytes) a.1))
      (λ e s1 a. a)

-- Bytes that are appended to a segment whose file is there, with the flush or with the sync behind
-- them, on a disk whose calls may fail. On success they fit, the file holds what the segment held
-- before and then the bytes, all of it is durable behind a sync, the buffer is empty and the size
-- counts the bytes. When they do not fit, the append says so and nothing changes. It fails for no
-- other reason than a call that fails, and then the file and the buffer together hold what they
-- held, and behind it a first part of the bytes: none is lost in between or written twice.
pub append-Stores :
    (s : Segment) (d : Dir) (c bytes : List ℕ)
    → Holds s d c
    → Stores (λ f. Unit) s d c bytes ((do append bytes; flush) (s, d))
      × Stores IsDurable s d c bytes ((do append bytes; sync) (s, d))
append-Stores s d c bytes h = (
  append_then-Stores (λ f. Unit) flush s d c bytes (λ s1 d1 c1 h1. flush-Ends s1 d1 h1) h,
  append_then-Stores IsDurable sync s d c bytes (λ s1 d1 c1 h1. sync-Ends s1 d1 h1) h,
)
