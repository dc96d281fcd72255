-- ===== src/WalCore/Wal/Appends.antt =====
-- `append` and `rotate` over a log on disk.
use wal_distributed_rs.Common.{
  ℕ, ◌≤◌, ◌<◌, ◌≡◌, refl, sym, ap, ◌∙◌, Bool, true, false, some, List, [], length, if◌then◌else◌,
}
use wal_distributed_rs.Common.Exec.{
  Result, Exec, ok, err, ◌>>=◌, ◌>>◌, continue, bind_assoc, bind-ok,
}
use wal_distributed_rs.Disk.{Dir, File, find, store}
use wal_distributed_rs.WalCore.Error.{WalError}
use wal_distributed_rs.WalCore.Segment
use wal_distributed_rs.WalCore.Segment.{Segment, size_with}
use wal_distributed_rs.WalCore.Segment.Content.{disk, written, append_settled, Table}
use wal_distributed_rs.WalCore.Wal.{Wal, WalExec, on_active}

continue-on_active :
    {A B : Type 0} (n : A → Exec WalError (Segment × Dir) B) (w : Wal)
    (x : Result WalError A × (Segment × Dir))
    → continue x.0 (λ a. on_active (n a)) (record w { active = x.1.0 }, x.1.1)
      ≡ (let y = continue x.0 n x.1 in (y.0, (record w { active = y.1.0 }, y.1.1)))
continue-on_active n w (ok a, (s, d)) = refl
continue-on_active n w (err e, (s, d)) = refl

-- Two steps on the active segment are one.
on_active-bind :
    {A B : Type 0} (m : Exec WalError (Segment × Dir) A) (n : A → Exec WalError (Segment × Dir) B)
    (w : Wal) (d : Dir)
    → (on_active m >>= λ a. on_active (n a)) (w, d) ≡ on_active (m >>= n) (w, d)
on_active-bind m n w d = continue-on_active n w (m (w.active, d))

on_active-if :
    (b : Bool) (m n : Exec WalError (Segment × Dir) (Unit {0}))
    → on_active (if b then m else n) ≡ (if b then on_active m else on_active n)
on_active-if true m n = refl
on_active-if false m n = refl

-- The end of `append`, once there is room in the active segment: the bytes go behind its file, and
-- the rest of the block follows.
pub write_settled :
    {B : Type 0} (k : WalExec B) (b : Bool) (w : Wal) (t : Table) (f : File) (bytes : List ℕ)
    → w.active.buffer ≡ []
    → find w.active.path t ≡ some f
    → 0 < length bytes
    → size_with w.active (length bytes) ≤ w.active.max_bytes
    → (do
      on_active (Segment.append bytes)
      (if b then on_active Segment.sync else on_active Segment.flush)
      k)
        (w, disk t)
      ≡ k (
        record w { active = record (w.active) { size = size_with w.active (length bytes) } },
        disk (store w.active.path (written f bytes b) t),
      )
write_settled k b w t f bytes empty found pos fits =
    bind_assoc (on_active (Segment.append bytes))
      (λ _. if b then on_active Segment.sync else on_active Segment.flush) (λ _. k) (w, disk t)
    ∙ bind-ok
        (on_active (Segment.append bytes) >>= λ _.
          if b then on_active Segment.sync else on_active Segment.flush)
        (λ _. k)
        (ap (λ (n : WalExec (Unit {0})). (on_active (Segment.append bytes) >>= λ _. n) (w, disk t))
            (sym (on_active-if b Segment.sync Segment.flush))
          ∙ on_active-bind (Segment.append bytes) (λ _. if b then Segment.sync else Segment.flush) w
              (disk t)
          ∙ ap
              (λ (y : Result WalError (Unit {0}) × (Segment × Dir)).
                (y.0, (record w { active = y.1.0 }, y.1.1)))
              (append_settled w.active t f bytes b empty found pos fits))
