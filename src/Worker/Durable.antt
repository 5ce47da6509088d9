-- ===== src/Worker/Durable.antt =====
-- What the worker acknowledges is in the log, over any store: nothing is asked of the hash map and of
-- the pages.
use fgdb.Prelude.{◌<◌, ◌≡◌, ◌⊎◌}
use fgdb.Str.{Str}
use fgdb.Server.Message.{Msg}
use fgdb.Server.Proto.{ok_code}
use fgdb.Wal.{Outcome, finished, exited, waiting}
use fgdb.Wal.Append.{after_log}
use fgdb.Store.{Store, assert_failed, hashmap_delete_key}
use fgdb.Operations.{Db, Answer, answers, no_return, destroyed}

module _ {S H P : Type 0} (store : Store S H P) where
  -- How a command that changes data ends: with a reply that is no success, and with the store and
  -- the log as they were; with a reply and the command's record in the log; with NULL, and nothing
  -- changed; or at the assertion of hashmap_delete_key.
  abbrev pub Durable : Db S → Msg → Outcome (Answer × Db S) → Type 0
  Durable db msg waiting = ⊥
  Durable db msg exited = hashmap_delete_key store db.store msg.key ≡ assert_failed
  Durable db msg (finished (no_return, db')) = ⊥
  Durable db msg (finished (destroyed, db')) = db' ≡ db
  Durable db msg (finished (answers reply, db')) =
      ((db' ≡ db) × (ok_code < reply.code)) ⊎ (db'.wal ≡ after_log db.wal msg)
