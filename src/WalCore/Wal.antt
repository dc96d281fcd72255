-- ===== src/WalCore/Wal.antt =====
-- crates/wal-core/src/wal.rs: the log over its segments.
pub mod Model
pub mod Reads
pub mod Listing
pub mod Appends
pub mod Parts
pub mod Rotates
pub mod Growth
pub mod Bounds
pub mod Listed
pub mod Reopen
pub mod Restart
pub mod Truncate
pub mod Fresh
use wal_distributed_rs.Common.{
  ℕ, Bool, Option, none, some, List, [], ◌∷◌, ◌++◌, length, ltb, leb, add64, max, last?, filter,
  if◌then◌else◌,
}
use wal_distributed_rs.Common.Exec.{Result, Exec, ok, err, pure, ◌>>=◌, ◌>>◌, map_err, on_snd}
use wal_distributed_rs.Disk
use wal_distributed_rs.Disk.{Dir, FileName}
use wal_distributed_rs.WalCore.Error.{WalError, io, Failure, error, panic}
use wal_distributed_rs.WalCore.Entry.{Crc, Entry, encode}
use wal_distributed_rs.WalCore.Segment
use wal_distributed_rs.WalCore.Segment.{
  Segment, default_max_segment_bytes, read_entries, would_overflow,
}
use wal_distributed_rs.WalCore.Segment.Names.{segment_path, segment_id_from_path, list_segments}
use wal_distributed_rs.WalCore.Checkpoint.{Checkpoint, open_checkpoint, advance}
use mathlib.Core.List.{reverse}

-- `dir` is the directory that the operations act on.
pub record WalConfig : Type 0 where
  pub max_segment_bytes : ℕ
  pub sync_writes : Bool

abbrev pub default_config : WalConfig
default_config = record { max_segment_bytes = default_max_segment_bytes; sync_writes = Bool.true }

pub record Wal : Type 0 where
  pub config : WalConfig
  pub active : Segment
  pub sealed : List ℕ
  pub checkpoint : Checkpoint
  pub next_sequence : ℕ

abbrev pub WalExec : Type 0 → Type 0
WalExec A = Exec WalError (Wal × Dir) A

-- Code on `self.active`, on `self.checkpoint`, and assignments to fields.
abbrev pub on_active : {A : Type 0} → Exec WalError (Segment × Dir) A → WalExec A
on_active m (w, d) = let (r, (s, d')) = m (w.active, d) in (r, (record w { active = s }, d'))

abbrev pub on_checkpoint : {A : Type 0} → Exec WalError (Checkpoint × Dir) A → WalExec A
on_checkpoint m (w, d) =
    let (r, (c, d')) = m (w.checkpoint, d) in (r, (record w { checkpoint = c }, d'))

abbrev pub update : (Wal → Wal) → WalExec (Unit {0})
update f (w, d) = (ok tt, (f w, d))

-- `existing[..existing.len() - 1]` and `existing.last()`
abbrev pub init {ℓ} : {A : Type ℓ} → List A → List A
init [] = []
init (x ∷ []) = []
init (x ∷ y ∷ r) = x ∷ init (y ∷ r)

-- `segment_id_from_path(p).unwrap()` of each path
unfoldable pub ids_or_panic : List FileName → Result Failure (List ℕ)
ids_or_panic [] = ok []
ids_or_panic (p ∷ ps) =
    let rest = ids_or_panic ps in
    elim (segment_id_from_path p) [
      | err e ↦ err panic
      | ok id ↦ elim rest [ ok ids ↦ ok (id ∷ ids) | err x ↦ err x ]
    ]

-- `.map(|s| s + 1).unwrap_or(1)`
abbrev pub next_after : Option ℕ → ℕ
next_after none = 1
next_after (some s) = add64 s 1

-- The test of the loops of `read_from`.
abbrev pub from_on : ℕ → List Entry → List Entry
from_on n = filter (λ e. leb n e.sequence)

-- `entries.iter().map(|e| e.sequence).max().unwrap_or(0)`
unfoldable pub max_sequence : List Entry → ℕ
max_sequence [] = 0
max_sequence (e ∷ es) = max e.sequence (max_sequence es)

open_new : WalConfig → Checkpoint → Exec Failure Dir Wal
open_new config checkpoint = do
  seg ← map_err error (Segment.create 1 config.max_segment_bytes)
  pure (record {
    config = config;
    active = seg;
    sealed = [];
    checkpoint = checkpoint;
    next_sequence = 1;
  })

module _ ⦃c : Crc⦄ where
  -- The loop over `sealed_ids.iter().rev()`.
  unfoldable pub last_of_sealed : List ℕ → Exec WalError Dir (Option ℕ)
  last_of_sealed [] = pure none
  last_of_sealed (sid ∷ rest) = do
    entries ← read_entries (segment_path sid)
    elim (last? entries) [ some e ↦ pure (some e.sequence) | none ↦ last_of_sealed rest ]

  unfoldable pub highest_sequence_on_disk : FileName → List ℕ → Exec WalError Dir (Option ℕ)
  unfolding last_of_sealed
  highest_sequence_on_disk active_path sealed_ids = do
    active_entries ← read_entries active_path
    elim (last? active_entries) [
      | some e ↦ pure (some e.sequence)
      | none ↦ last_of_sealed (reverse sealed_ids)
    ]

  open_existing : WalConfig → Checkpoint → List FileName → FileName → Exec Failure Dir Wal
  open_existing config checkpoint existing active_path = do
    sealed_ids ← (λ d. (ids_or_panic (init existing), d))
    active_seg ← map_err error (Segment.open_for_append active_path config.max_segment_bytes)
    highest ← map_err error (highest_sequence_on_disk active_path sealed_ids)
    pure (record {
      config = config;
      active = active_seg;
      sealed = sealed_ids;
      checkpoint = checkpoint;
      next_sequence = next_after highest;
    })

  unfoldable pub open_wal : WalConfig → Exec Failure Dir Wal
  unfolding open_new open_existing
  open_wal config = do
    map_err (λ e. error (io e)) Disk.create_dir_all
    checkpoint ← map_err error open_checkpoint
    existing ← map_err error list_segments
    elim (last? existing) [
      | none ↦ open_new config checkpoint
      | some active_path ↦ open_existing config checkpoint existing active_path
    ]

  unfoldable pub rotate : WalExec (Unit {0})
  rotate (w, d) =
      let old_id = w.active.id in
      (do
        on_active Segment.sync
        update (λ v. record v { sealed = v.sealed ++ (old_id ∷ []) })
        new_seg ← on_snd (Segment.create (add64 old_id 1) w.config.max_segment_bytes)
        update (λ v. record v { active = new_seg }))
        (w, d)

  unfoldable pub append : List ℕ → WalExec ℕ
  unfolding rotate
  append payload (w, d) =
      let seq = w.next_sequence in
      let encoded = encode seq payload in
      (do
        (if would_overflow w.active (length encoded) then rotate else pure tt)
        on_active (Segment.append encoded)
        (if w.config.sync_writes then on_active Segment.sync else on_active Segment.flush)
        update (λ v. record v { next_sequence = add64 seq 1 })
        pure seq)
        (w, d)

  unfoldable pub read_sealed : ℕ → List ℕ → Exec WalError Dir (List Entry)
  read_sealed n [] = pure []
  read_sealed n (sid ∷ rest) = do
    entries ← read_entries (segment_path sid)
    more ← read_sealed n rest
    pure (from_on n entries ++ more)

  unfoldable pub read_from : Wal → ℕ → Exec WalError Dir (List Entry)
  unfolding read_sealed
  read_from w n = do
    result ← read_sealed n w.sealed
    entries ← read_entries w.active.path
    pure (result ++ from_on n entries)

  unfoldable pub checkpoint : ℕ → WalExec (Unit {0})
  checkpoint sequence = on_checkpoint (advance sequence)

  unfoldable pub recover : Wal → Exec WalError Dir (List Entry)
  unfolding read_from
  recover w = read_from w (add64 w.checkpoint.sequence 1)

  -- The loop of `truncate_before`: the ids that remain.
  unfoldable pub drop_segments : ℕ → List ℕ → Exec WalError Dir (List ℕ)
  unfolding max_sequence
  drop_segments before [] = pure []
  drop_segments before (sid ∷ rest) = do
    entries ← read_entries (segment_path sid)
    if ltb (max_sequence entries) before
        then (do map_err io (Disk.remove_file (segment_path sid)); drop_segments before rest)
        else (do remaining ← drop_segments before rest; pure (sid ∷ remaining))

  unfoldable pub truncate_before : ℕ → WalExec (Unit {0})
  unfolding drop_segments
  truncate_before before (w, d) =
      (do
        remaining ← on_snd (drop_segments before w.sealed)
        update (λ v. record v { sealed = remaining }))
        (w, d)

  unfoldable pub sync : WalExec (Unit {0})
  sync = on_active Segment.sync
