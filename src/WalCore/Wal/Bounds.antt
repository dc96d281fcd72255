-- ===== src/WalCore/Wal/Bounds.antt =====
-- The counters of a log after `append`, whatever calls fail.
use wal_distributed_rs.Common.{
  ℕ, ◌+◌, ◌^◌, ◌≤◌, ◌<◌, ◌≡◌, refl, List, [], ◌∷◌, ◌++◌, length, add64, arith, if◌then◌else◌,
}
use wal_distributed_rs.Common.Exec.{Result, ok, err, pure, ◌>>=◌, ◌>>◌, on_snd}
use wal_distributed_rs.Common.Gives.{Gives}
use wal_distributed_rs.Common.After.{After-bind, Leaves-bind, on_if}
use wal_distributed_rs.Disk.{Dir}
use wal_distributed_rs.WalCore.Error.{WalError}
use wal_distributed_rs.WalCore.Entry.{Crc, encode}
use wal_distributed_rs.WalCore.Segment
use wal_distributed_rs.WalCore.Segment.{Segment, would_overflow}
use wal_distributed_rs.WalCore.Segment.Bounds.{
  Same-refl, Bounded, Bounded-Same, flush-Same, sync-Same, append-Bounded, create-Bounded,
}
use wal_distributed_rs.WalCore.Wal.{Wal, WalExec, on_active, update, rotate, append}

-- `w'` has the configuration of `w`, its active segment is that of `w` or the next one, and counts
-- at most the bytes that a segment may have.
pub record Within (w w' : Wal) : Type 0 where
  pub config : w'.config ≡ w.config
  pub max_bytes : w'.active.max_bytes ≡ w.config.max_segment_bytes
  pub size : w'.active.size ≤ w.config.max_segment_bytes
  pub id_from : w.active.id ≤ w'.active.id
  pub id_to : w'.active.id ≤ w.active.id + 1

-- An entry that is written has the next number, and no other takes it; a failure uses none up.
abbrev pub Counts : Wal → Result WalError ℕ → Wal → Type 0
Counts w (ok seq) w' = (seq ≡ w.next_sequence) × (w'.next_sequence ≡ add64 w.next_sequence 1)
Counts w (err e) w' = w'.next_sequence ≡ w.next_sequence

abbrev Steady : Wal → Wal × Dir → Type 0
Steady w x = Within w x.0 × (x.0.next_sequence ≡ w.next_sequence)

Within-Bounded :
    (w w1 : Wal) (s : Segment)
    → Within w w1
    → Bounded w1.active.id w.config.max_segment_bytes s
    → Within w (record w1 { active = s })
Within-Bounded w w1 s h b = record {
  config = h.config;
  max_bytes = b.max_bytes;
  size = b.size;
  id_from = omega (arith, h.id_from, b.id);
  id_to = omega (arith, h.id_to, b.id);
}

-- Code on the active segment that keeps its number and its bound.
on_active-Steady :
    {A : Type 0} (m : Segment.Seg A) (w : Wal) (x : Wal × Dir)
    → ((s : Segment) (d : Dir) (i j : ℕ) → Bounded i j s → Bounded i j (m (s, d)).1.0)
    → Steady w x
    → Steady w (on_active m x).1
on_active-Steady m w (w1, d) keeps h = (
  Within-Bounded w w1 (m (w1.active, d)).1.0 h.0 (
      keeps w1.active d w1.active.id w.config.max_segment_bytes
        (record { id = refl; max_bytes = h.0.max_bytes; size = h.0.size })),
  h.1,
)

-- The first state of a log that keeps to its bounds.
abbrev Starts : Wal → Type 0
Starts w =
    (w.active.max_bytes ≡ w.config.max_segment_bytes) × (w.active.size ≤ w.config.max_segment_bytes)

Steady-self : (w : Wal) (d : Dir) → Starts w → Steady w (w, d)
Steady-self w d h = (
  record { config = refl; max_bytes = h.0; size = h.1; id_from = omega arith; id_to = omega arith },
  refl,
)

switched :
    (w : Wal) (x : Wal × Dir) (s : Segment)
    → w.active.id + 1 < 2 ^ 64
    → Bounded (add64 w.active.id 1) w.config.max_segment_bytes s
    → Steady w x
    → Steady w (update (λ v. record v { active = s }) x).1
switched w (w1, d) s room b h = (
  record {
    config = h.0.config;
    max_bytes = b.max_bytes;
    size = b.size;
    id_from = omega (arith, b.id, room);
    id_to = omega (arith, b.id, room);
  },
  h.1,
)

module _ ⦃c : Crc⦄ where
  rotate-Steady :
      (w : Wal) (d : Dir) → w.active.id + 1 < 2 ^ 64 → Starts w → Steady w (rotate (w, d)).1
  unfolding rotate
  rotate-Steady w d room h =
      let make : WalExec Segment =
        on_snd (Segment.create (add64 w.active.id 1) w.config.max_segment_bytes) in
      let switch : Segment → WalExec (Unit {0}) = λ s. update (λ v. record v { active = s }) in
      let seal : WalExec (Unit {0}) =
        update (λ v. record v { sealed = v.sealed ++ (w.active.id ∷ []) }) in
      Leaves-bind (Steady w) (on_active Segment.sync) (λ u. seal >> (make >>= switch)) (w, d)
        (on_active-Steady Segment.sync w (w, d)
          (λ s d' i j b. Bounded-Same (sync-Same s s d' (Same-refl s)) b) (Steady-self w d h))
        (λ u (w1, d1) g.
          After-bind
            (λ (x : Result WalError Segment × (Wal × Dir)).
              Gives (Bounded (add64 w.active.id 1) w.config.max_segment_bytes) x.0 × Steady w x.1)
            (λ (x : Result WalError (Unit {0}) × (Wal × Dir)). Steady w x.1) make switch
            (record w1 { sealed = w1.sealed ++ (w.active.id ∷ []) }, d1)
            (
              create-Bounded (add64 w.active.id 1) w.config.max_segment_bytes d1,
              (
                record {
                  config = g.0.config;
                  max_bytes = g.0.max_bytes;
                  size = g.0.size;
                  id_from = g.0.id_from;
                  id_to = g.0.id_to;
                },
                g.1,
              ),
            )
            (λ s x q. switched w x s room q.0 q.1) (λ e x q. q.1))

  -- Whatever calls fail, `append` leaves a log whose active segment is the one that it had or the
  -- next, and counts no more bytes than a segment may have, if it counted no more before and is
  -- below the last segment number. The configuration stays. If it returns a number, that is the
  -- next sequence number, which then is one higher as a u64; if it fails, the next sequence number
  -- is as before.
  pub append_bounded :
      (payload : List ℕ) (w : Wal) (d : Dir)
      → w.active.max_bytes ≡ w.config.max_segment_bytes
      → w.active.size ≤ w.config.max_segment_bytes
      → w.active.id + 1 < 2 ^ 64
      → let out = append payload (w, d) in Within w out.1.0 × Counts w out.0 out.1.0
  unfolding append
  append_bounded payload w d same small room =
      let P : Result WalError ℕ × (Wal × Dir) → Type 0 = λ x. Within w x.1.0 × Counts w x.0 x.1.0 in
      let Q : Result WalError (Unit {0}) × (Wal × Dir) → Type 0 = λ x. Steady w x.1 in
      let encoded = encode w.next_sequence payload in
      let number : WalExec ℕ =
        update (λ v. record v { next_sequence = add64 w.next_sequence 1 })
        >> pure w.next_sequence in
      let settle : WalExec (Unit {0}) =
        if w.config.sync_writes then on_active Segment.sync else on_active Segment.flush in
      After-bind Q P (if would_overflow w.active (length encoded) then rotate else pure tt)
        (λ u. on_active (Segment.append encoded) >> (settle >> number)) (w, d)
        (on_if (λ (m : WalExec (Unit {0})). Q (m (w, d))) (would_overflow w.active (length encoded))
          (rotate-Steady w d room (same, small)) (Steady-self w d (same, small)))
        (λ u x h.
          After-bind Q P (on_active (Segment.append encoded)) (λ u. settle >> number) x
            (on_active-Steady (Segment.append encoded) w x
              (λ s d' i j b. append-Bounded encoded s d' b) h)
            (λ u x h.
              After-bind Q P settle (λ u. number) x
                (on_if (λ (m : WalExec (Unit {0})). Q (m x)) w.config.sync_writes
                  (on_active-Steady Segment.sync w x
                    (λ s d' i j b. Bounded-Same (sync-Same s s d' (Same-refl s)) b) h)
                  (on_active-Steady Segment.flush w x
                    (λ s d' i j b. Bounded-Same (flush-Same s s d' (Same-refl s)) b) h))
                (λ u x h. (
                  record {
                    config = h.0.config;
                    max_bytes = h.0.max_bytes;
                    size = h.0.size;
                    id_from = h.0.id_from;
                    id_to = h.0.id_to;
                  },
                  (refl, refl),
                ))
                (λ e x h. h))
            (λ e x h. h))
        (λ e x h. h)
