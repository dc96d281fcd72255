-- ===== src/WalCore/Segment/Writes.antt =====
-- Writes to a segment through its BufWriter, on a disk that may fail.
use wal_distributed_rs.Common.{
  not-ltb→le, leb→le, if◌then◌else◌, ℕ, ◌-◌, ◌≤◌, ◌≡◌, ap, sym, ◌∙◌, refl, none, some, List, [],
  ◌∷◌, ◌++◌, length, take, arith, inl, inr, Bool-cases, Option-cases, ltb, leb, append_assoc,
  append-nil,
}
use wal_distributed_rs.Common.Exec.{Result, ok, err}
use wal_distributed_rs.Common.After.{After-bind}
use wal_distributed_rs.Disk.{Dir, File, IsHealthy, file, outcome, later}
use wal_distributed_rs.Disk.Laws.{find-store_self, append_done, append_failed}
use wal_distributed_rs.WalCore.Error.{WalError}
use wal_distributed_rs.WalCore.Segment.{
  Segment, Seg, flush_buf, write_all, write_through, buffer_more, capacity,
}
use wal_distributed_rs.WalCore.Segment.Content.{Holds, flush_buf-Holds}

pub outcome-some : {k : ℕ} (d : Dir) → outcome d.faults ≡ some k → ¬ IsHealthy d
unfolding outcome
outcome-some {k} d o healthy = let no : none ≡ some k = sym (ap outcome healthy) ∙ o in cc

later-healthy : (d : Dir) → IsHealthy d → later d.faults ≡ []
unfolding later
later-healthy d healthy = ap later healthy

-- What a call leaves as it is; a disk that does not fail stays one.
pub record Kept (s : Segment) (d : Dir) (s' : Segment) (d' : Dir) : Type 0 where
  pub path : s'.path ≡ s.path
  pub size : s'.size ≡ s.size
  pub healthy : IsHealthy d → IsHealthy d'

Kept-trans :
    {s s1 s2 : Segment} {d d1 d2 : Dir} → Kept s d s1 d1 → Kept s1 d1 s2 d2 → Kept s d s2 d2
Kept-trans h k = record {
  path = k.path ∙ h.path;
  size = k.size ∙ h.size;
  healthy = λ ok. k.healthy (h.healthy ok);
}

-- A flush that succeeds has emptied the buffer; one that fails has met a fault.
abbrev pub Flushed : Segment → Dir → Result WalError (Unit {0}) × (Segment × Dir) → Type 0
Flushed s d (ok u, (s', d')) = (s'.buffer ≡ []) × Kept s d s' d'
Flushed s d (err e, (s', d')) = ¬ IsHealthy d

flush_more-Flushed :
    (s : Segment) (b : ℕ) (bs : List ℕ) (d : Dir) (f : File)
    → file d s.path ≡ some f
    → Flushed s d (flush_buf (record s { buffer = b ∷ bs }, d))
unfolding flush_buf
flush_more-Flushed s b bs d f found = elim (Option-cases (outcome d.faults)) [
  | inl o ↦
      rw (append_done s.path (b ∷ bs) d found o, o)
        (refl, record { path = refl; size = refl; healthy = later-healthy d })
  | inr (k, o) ↦ rw (append_failed s.path (b ∷ bs) d found o) (outcome-some d o)
]

flush_any-Flushed :
    (s : Segment) (buffer : List ℕ) (d : Dir) (f : File)
    → file d s.path ≡ some f
    → Flushed s d (flush_buf (record s { buffer = buffer }, d))
flush_any-Flushed s [] d f found =
    unfold flush_buf in (refl, record { path = refl; size = refl; healthy = λ h. h })
flush_any-Flushed s (b ∷ bs) d f found = flush_more-Flushed s b bs d f found

pub flush_buf-Flushed :
    (s : Segment) (d : Dir) {c : List ℕ} → Holds s d c → Flushed s d (flush_buf (s, d))
flush_buf-Flushed s d h = flush_any-Flushed s s.buffer d h.open_file h.found

-- The bytes have followed the content, or a fault has cut them short.
abbrev pub Wrote :
    Segment → Dir → List ℕ → List ℕ → Result WalError (Unit {0}) × (Segment × Dir) → Type 0
Wrote s d c bytes (ok u, (s', d')) = Holds s' d' (c ++ bytes) × Kept s d s' d'
Wrote s d c bytes (err e, (s', d')) = ((k : ℕ) × Holds s' d' (c ++ take k bytes)) × (¬ IsHealthy d)

Wrote-after :
    (s s1 : Segment) (d d1 : Dir) (c bytes : List ℕ)
    (x : Result WalError (Unit {0}) × (Segment × Dir))
    → Kept s d s1 d1
    → Wrote s1 d1 c bytes x
    → Wrote s d c bytes x
Wrote-after s s1 d d1 c bytes (ok u, (s', d')) k w = (w.0, Kept-trans k w.1)
Wrote-after s s1 d d1 c bytes (err e, (s', d')) k w = (w.0, λ healthy. w.1 (k.healthy healthy))

buffer_more-Wrote :
    (s : Segment) (d : Dir) (c bytes : List ℕ)
    → Holds s d c
    → Wrote s d c bytes (buffer_more bytes (s, d))
buffer_more-Wrote s d c bytes h = (
  record {
    open_file = h.open_file;
    found = h.found;
    content = sym (append_assoc h.open_file.bytes s.buffer bytes) ∙ ap (λ l. l ++ bytes) h.content;
  },
  record { path = refl; size = refl; healthy = λ healthy. healthy },
)

write_through-Wrote :
    (s : Segment) (d : Dir) (c bytes : List ℕ)
    → s.buffer ≡ []
    → Holds s d c
    → Wrote s d c bytes (write_through bytes (s, d))
write_through-Wrote s d c bytes empty h =
    let f = h.open_file in
    let before : f.bytes ≡ c =
      sym (append-nil f.bytes) ∙ ap (λ b. f.bytes ++ b) (sym empty) ∙ h.content in
    let behind : (more : List ℕ) → (f.bytes ++ more) ++ s.buffer ≡ c ++ more =
      λ more. ap (λ b. (f.bytes ++ more) ++ b) empty ∙ append-nil _ ∙ ap (λ l. l ++ more) before in
    elim (Option-cases (outcome d.faults)) [
      | inl o ↦ rw (append_done s.path bytes d h.found o) (
        record {
          open_file = record { bytes = f.bytes ++ bytes; synced = f.synced };
          found = find-store_self s.path _ d.files;
          content = behind bytes;
        },
        record { path = refl; size = refl; healthy = later-healthy d },
      )
      | inr (k, o) ↦ rw (append_failed s.path bytes d h.found o) (
        (
          k,
          record {
            open_file = record { bytes = f.bytes ++ take k bytes; synced = f.synced };
            found = find-store_self s.path _ d.files;
            content = behind (take k bytes);
          },
        ),
        outcome-some d o,
      )
    ]

-- What follows the flush, if there is one.
rest-Wrote :
    (s : Segment) (d : Dir) (c bytes : List ℕ)
    → (capacity ≤ length bytes → s.buffer ≡ [])
    → Holds s d c
    → Wrote s d c bytes
        ((if leb capacity (length bytes) then write_through bytes else buffer_more bytes) (s, d))
rest-Wrote s d c bytes empty h = elim (Bool-cases (leb capacity (length bytes))) [
  | inl long ↦ rw long (write_through-Wrote s d c bytes (empty (leb→le _ _ long)) h)
  | inr short ↦ rw short (buffer_more-Wrote s d c bytes h)
]

no_bytes : (l : List ℕ) → length l ≡ 0 → l ≡ []
no_bytes [] h = refl
no_bytes (b ∷ l) h = absurd (omega (arith, h))

pub write_all-Wrote :
    (s : Segment) (d : Dir) (c bytes : List ℕ)
    → Holds s d c
    → Wrote s d c bytes (write_all bytes (s, d))
unfolding write_all
write_all-Wrote s d c bytes h =
    let spare = capacity - length s.buffer in
    let rest : Seg (Unit {0}) =
      if leb capacity (length bytes) then write_through bytes else buffer_more bytes in
    elim (Bool-cases (ltb (length bytes) spare)) [
      | inl fits ↦ rw (write_all, fits) (buffer_more-Wrote s d c bytes h)
      | inr full ↦ elim (Bool-cases (ltb spare (length bytes))) [
        | inr exact ↦
            let empty : capacity ≤ length bytes → s.buffer ≡ [] = λ long.
              no_bytes s.buffer (omega (arith, long, not-ltb→le _ _ full, not-ltb→le _ _ exact)) in
            rw (write_all, full, exact) (rest-Wrote s d c bytes empty h)
        | inl over ↦
            rw (write_all, full, over)
              (After-bind (λ x. Flushed s d x × Holds x.1.0 x.1.1 c) (Wrote s d c bytes) flush_buf
                (λ _. rest) (s, d) (flush_buf-Flushed s d h, flush_buf-Holds s d h)
                (λ u s1 q.
                  Wrote-after s s1.0 d s1.1 c bytes (rest s1) q.0.1
                    (rest-Wrote s1.0 s1.1 c bytes (λ _. q.0.0) q.1))
                (λ e s1 q. (
                  (
                    0,
                    record {
                      open_file = q.1.open_file;
                      found = q.1.found;
                      content = q.1.content ∙ sym (append-nil c);
                    },
                  ),
                  q.0,
                )))
      ]
    ]
