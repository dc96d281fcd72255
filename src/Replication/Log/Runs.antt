-- ===== src/Replication/Log/Runs.antt =====
-- Many operations on a replicated log, with restarts of the process in between.
pub mod Steps
pub mod Refines
use wal_distributed_rs.Common.{
  ℕ, ◌+◌, ◌*◌, ◌-◌, ◌^◌, ◌≤◌, ◌<◌, ◌≡◌, refl, sym, ap, ◌∙◌, Option, none, some, List, [], ◌∷◌, ◌++◌,
  length, take, map, All, arith, add64, suc, zero,
}
use wal_distributed_rs.Common.Exec.{Result, ok, err}
use wal_distributed_rs.Disk.{Dir}
use wal_distributed_rs.WalCore.Error.{Failure}
use wal_distributed_rs.WalCore.Entry.{Crc}
use wal_distributed_rs.WalCore.Segment.Content.{disk, Table}
use wal_distributed_rs.WalCore.Wal.{Wal, WalConfig}
use wal_distributed_rs.Replication.Log
use wal_distributed_rs.Replication.Log.{RaftLog, open_log}
use wal_distributed_rs.Replication.Log.Record.{LogEntry, Memory}

pub data LogOp : Type 0 where
  append : ℕ → List ℕ → LogOp
  truncate_from : ℕ → LogOp
  restart : LogOp

-- The state behind an operation that succeeds.
abbrev pub done : {E A S : Type 0} → Result E A × S → Option S
done (ok a, s) = some s
done (err e, s) = none

-- A process ends, and the next one opens the log.
abbrev pub opened : Result Failure RaftLog × Dir → Option (RaftLog × Dir)
opened (ok l, d) = some (l, d)
opened (err e, d) = none

abbrev pub on_some : {A B : Type 0} → Option A → (A → Option B) → Option B
on_some none f = none
on_some (some x) f = f x

module _ ⦃c : Crc⦄ where
  unfoldable pub perform : WalConfig → LogOp → RaftLog × Dir → Option (RaftLog × Dir)
  perform config (append term payload) x = done (Log.append term payload x)
  perform config (truncate_from i) x = done (Log.truncate_from i x)
  perform config restart (l, d) = opened (open_log config d)

  unfoldable pub perform_all : WalConfig → List LogOp → RaftLog × Dir → Option (RaftLog × Dir)
  unfolding perform
  perform_all config [] x = some x
  perform_all config (op ∷ ops) x = on_some (perform config op x) (perform_all config ops)

  -- A process that opens the log of a directory, and what is done with it.
  unfoldable pub run_log : WalConfig → List LogOp → Dir → Option (RaftLog × Dir)
  unfolding perform_all
  run_log config ops d = on_some (opened (open_log config d)) (perform_all config ops)

-- What the log stands for: a list of terms and payloads, counted from 1.
abbrev pub Item : Type 0
Item = ℕ × List ℕ

abbrev pub effect : LogOp → List Item → List Item
effect (append term payload) items = items ++ (term, payload) ∷ []
effect (truncate_from zero) items = items
effect (truncate_from (suc i)) items = take i items
effect restart items = items

abbrev pub effects : List LogOp → List Item → List Item
effects [] items = items
effects (op ∷ ops) items = effects ops (effect op items)

abbrev pub items : List LogEntry → List Item
items es = map (λ (e : LogEntry). (e.term, e.payload)) es
