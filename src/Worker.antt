-- ===== src/Worker.antt =====
-- The way of a request through src/main.c: `on_request` answers it or puts it into the queue, and
-- `transaction_queue_worker` takes it out and carries it out.
pub mod Durable
mod Tests
use fgdb.Prelude.{ℕ, Bool, Option, none, some, List, ◌==◌, ◌||◌, if◌then◌else◌}
use fgdb.Server.Message.{Msg, peek, select, insert, update, delete}
use fgdb.Server.Proto.{Reply, error_code, fatal_code, proto_error_unknown}
use fgdb.Wal.{WriteResult, Outcome, finished}
use fgdb.Queue.{Transaction, convert_request}
use fgdb.Store.{Store}
use fgdb.Operations.{
  Db, Answer, coded, operation_peek, operation_select, operation_insert, operation_delete,
  operation_update,
}

abbrev pub proto_error_command : ℕ
proto_error_command = 1

abbrev pub operation_unknown : ℕ
operation_unknown = 3

pub data Routed (R : Type 0) : Type 0 where
  replied : Reply → Routed R
  queued : Transaction R → Routed R

abbrev pub routed : {R : Type 0} → Reply → Option (Transaction R) → Routed R
routed memory none = replied (record memory { code = fatal_code; word = proto_error_unknown })
routed memory (some trans) = queued trans

-- The cases of the switch.
abbrev pub is_command : ℕ → Bool
is_command cmd = cmd == peek || cmd == select || cmd == insert || cmd == delete || cmd == update

-- `allocated` tells whether `malloc` of the transaction succeeds.
unfoldable pub on_request : {R : Type 0} → Reply → Bool → R → Msg → Routed R
on_request memory allocated req msg =
    if is_command msg.cmd
    then routed memory (convert_request allocated req msg)
    else replied (record memory { code = fatal_code; word = proto_error_command })

module _ {S H P : Type 0} (store : Store S H P) where
  abbrev pub selected : Db S → Answer × S → Outcome (Answer × Db S)
  selected db (answer, s) = finished (answer, record db { store = s })

  -- The switch of the worker.
  unfoldable pub work : List ℕ → List WriteResult → Reply → Msg → Db S → Outcome (Answer × Db S)
  work block results memory msg db =
      if msg.cmd == peek
      then finished (operation_peek store memory msg db.store, db)
      else if msg.cmd == select
      then selected db (operation_select store memory msg db.store)
      else if msg.cmd == insert
      then operation_insert store block results memory msg db
      else if msg.cmd == delete
      then operation_delete store results memory msg db
      else if msg.cmd == update
      then finished (operation_update msg, db)
      else finished (coded memory error_code operation_unknown, db)
