-- ===== src/WalCore/Segment/Bounds.antt =====
-- The size that a segment counts, whatever calls fail.
use wal_distributed_rs.Common.{
  ℕ, ◌-◌, ◌≤◌, ◌≡◌, refl, ◌∙◌, List, [], ◌∷◌, length, ltb, leb, arith, Bool-cases, inl, inr,
  not-ltb→le, if◌then◌else◌,
}
use wal_distributed_rs.Common.Exec.{map_err, Result, pure}
use wal_distributed_rs.Common.Gives.{Gives, Gives-bind}
use wal_distributed_rs.Common.After.{Leaves-bind, on_if}
use wal_distributed_rs.Disk
use wal_distributed_rs.Disk.{Dir}
use wal_distributed_rs.WalCore.Segment.{
  Segment, Seg, create, flush_buf, write_all, append, flush, sync, sync_file, set_size, size_with,
  capacity, buffer_more, write_through,
}
use wal_distributed_rs.WalCore.Error.{WalError, io}
use wal_distributed_rs.WalCore.Segment.Names.{segment_path}

-- The same segment up to what its buffer holds.
pub record Same (s s' : Segment) : Type 0 where
  pub id : s'.id ≡ s.id
  pub size : s'.size ≡ s.size
  pub max_bytes : s'.max_bytes ≡ s.max_bytes

pub Same-refl : (s : Segment) → Same s s
Same-refl s = record { id = refl; size = refl; max_bytes = refl }

abbrev Stays : Segment → Segment × Dir → Type 0
Stays s x = Same s x.0

flush_any-Same :
    (s : Segment) (buffer : List ℕ) (d : Dir)
    → Stays s (flush_buf (record s { buffer = buffer }, d)).1
unfolding flush_buf
flush_any-Same s [] d = record { id = refl; size = refl; max_bytes = refl }
flush_any-Same s (b ∷ bs) d = record { id = refl; size = refl; max_bytes = refl }

flush_buf-Same : (s s1 : Segment) (d : Dir) → Same s s1 → Stays s (flush_buf (s1, d)).1
flush_buf-Same s s1 d h =
    let g = flush_any-Same s1 s1.buffer d in
    record { id = g.id ∙ h.id; size = g.size ∙ h.size; max_bytes = g.max_bytes ∙ h.max_bytes }

pub flush-Same : (s s1 : Segment) (d : Dir) → Same s s1 → Same s (flush (s1, d)).1.0
unfolding flush
flush-Same s s1 d h = flush_buf-Same s s1 d h

pub sync-Same : (s s1 : Segment) (d : Dir) → Same s s1 → Same s (sync (s1, d)).1.0
unfolding sync
sync-Same s s1 d h =
    Leaves-bind (Stays s) flush_buf (λ u. sync_file) (s1, d) (flush_buf-Same s s1 d h)
      (λ u (s', d') g. g)

write_all-Same : (bytes : List ℕ) (s : Segment) (d : Dir) → Stays s (write_all bytes (s, d)).1
unfolding write_all
write_all-Same bytes s d =
    let spare = capacity - length s.buffer in
    on_if (λ (x : Result WalError (Unit {0}) × (Segment × Dir)). Stays s x.1)
      (ltb (length bytes) spare) (record { id = refl; size = refl; max_bytes = refl })
      (Leaves-bind (Stays s) (if ltb spare (length bytes) then flush_buf else pure tt)
        (λ u. if leb capacity (length bytes) then write_through bytes else buffer_more bytes) (s, d)
        (on_if (λ (m : Seg (Unit {0})). Stays s (m (s, d)).1) (ltb spare (length bytes))
          (flush_buf-Same s s d (Same-refl s)) (Same-refl s))
        (λ u (s', d') g.
          on_if (λ (m : Seg (Unit {0})). Stays s (m (s', d')).1) (leb capacity (length bytes)) g
            (record { id = g.id; size = g.size; max_bytes = g.max_bytes })))

-- A segment whose counted size is within its bound.
pub record Bounded (number cap : ℕ) (s : Segment) : Type 0 where
  pub id : s.id ≡ number
  pub max_bytes : s.max_bytes ≡ cap
  pub size : s.size ≤ cap

pub Bounded-Same : {id cap : ℕ} {s s' : Segment} → Same s s' → Bounded id cap s → Bounded id cap s'
Bounded-Same g h = record {
  id = g.id ∙ h.id;
  max_bytes = g.max_bytes ∙ h.max_bytes;
  size = omega (arith, g.size, h.size);
}

pub append-Bounded :
    (bytes : List ℕ) (s : Segment) (d : Dir) {id cap : ℕ}
    → Bounded id cap s
    → Bounded id cap (append bytes (s, d)).1.0
unfolding append
append-Bounded bytes s d {id} {cap} h =
    elim (Bool-cases (ltb s.max_bytes (size_with s (length bytes)))) [
      | inl full ↦ rw full h
      | inr fits ↦ rw fits (
          Leaves-bind (λ (x : Segment × Dir). Bounded id cap x.0) (write_all bytes)
            (λ u. set_size (size_with s (length bytes))) (s, d)
            (Bounded-Same (write_all-Same bytes s d) h)
            (λ u x g. record {
              id = g.id;
              max_bytes = g.max_bytes;
              size = omega (arith, not-ltb→le _ _ fits, h.max_bytes);
            }))
    ]

pub create-Bounded :
    (id max_bytes : ℕ) (d : Dir) → Gives (Bounded id max_bytes) (create id max_bytes d).0
unfolding create
create-Bounded id max_bytes d =
    let made : Segment = record {
      id = id;
      path = segment_path id;
      buffer = [];
      size = 0;
      max_bytes = max_bytes;
    } in
    Gives-bind (Bounded id max_bytes) (map_err io (Disk.create_new (segment_path id)))
      (λ u. pure made) d (λ u d'. record { id = refl; max_bytes = refl; size = omega arith })
