-- ===== src/Operations.antt =====
-- The commands: src/operations/operations.c, over the interface `Store`. `memory` is what `malloc`
-- leaves in a new reply, and `results` what the calls of `write` return.
pub mod Tests
use fgdb.Prelude.{ℕ, Option, none, some, List, ◌==◌, if◌then◌else◌}
use fgdb.Str.{Str, string_copy}
use fgdb.Server.Message.{Msg}
use fgdb.Server.Proto.{
  Reply, ok_code, error_code, fatal_code, proto_error_unknown, proto_error_value_required,
  key_exists, key_not_found,
}
use fgdb.Wal.{Logger, WriteResult, Outcome, finished, exited, waiting, write_log}
use fgdb.Store.{
  Store, Inserted, inserted, key_found, internal_error, Deleted, deleted, not_found, assert_failed,
  hashmap_lookup_key, hashmap_insert_key, hashmap_delete_key,
}

-- What a command leaves: the store and the global `wal_logger`.
pub record Db (S : Type 0) : Type 0 where
  pub store : S
  pub wal : Logger

-- A reply, the end of the function without a `return`, or NULL for a request that is destroyed.
pub data Answer : Type 0 where
  answers : Reply → Answer
  no_return : Answer
  destroyed : Answer

abbrev pub coded : Reply → ℕ → ℕ → Answer
coded memory code word = answers (record memory { code = code; word = word })

module _ {S H P : Type 0} (store : Store S H P) where
  open store use {page_value_set, page_value_get, page_value_unset, update_lsn}

  unfoldable pub operation_peek : Reply → Msg → S → Answer
  operation_peek memory msg s = elim (hashmap_lookup_key store s msg.key) [
    | none ↦ coded memory error_code key_not_found
    | some key ↦ coded memory ok_code msg.cmd
  ]

  -- Without a key `reply->cmd` is set behind `reply->err`, in the same place of the union.
  unfoldable pub operation_select : Reply → Msg → S → Answer × S
  operation_select memory msg s = elim (hashmap_lookup_key store s msg.key) [
    | none ↦ (coded memory error_code msg.cmd, s)
    | some key_meta ↦ (no_return, (page_value_get s key_meta).1)
  ]

  abbrev pub delete_value :
      Reply → Msg → ℕ → Logger → S → Option (Str × P × S) → Outcome (Answer × Db S)
  delete_value memory msg lsn w s none =
      finished (coded memory fatal_code proto_error_unknown, record { store = s; wal = w })
  delete_value memory msg lsn w s (some (val, header, s')) = finished (
    answers (record { code = ok_code; word = msg.cmd; val = val }),
    record { store = update_lsn s' header lsn; wal = w },
  )

  abbrev pub delete_logged : Reply → Msg → H → S → Outcome (ℕ × Logger) → Outcome (Answer × Db S)
  delete_logged memory msg h s (finished (lsn, w)) =
      delete_value memory msg lsn w s (page_value_unset s h)
  delete_logged memory msg h s exited = exited
  delete_logged memory msg h s waiting = waiting

  unfoldable pub operation_delete : List WriteResult → Reply → Msg → Db S → Outcome (Answer × Db S)
  operation_delete results memory msg db = elim (hashmap_delete_key store db.store msg.key) [
    | not_found ↦ finished (coded memory error_code key_not_found, db)
    | assert_failed ↦ exited
    | deleted h s ↦ delete_logged memory msg h s (write_log results db.wal msg)
  ]

  -- Where the value is unset again, the result is only logged.
  abbrev pub unset : S → Option (Str × P × S) → S
  unset s none = s
  unset s (some (val, header, s')) = s'

  -- If the key is not inserted, `reply->cmd` is set behind `reply->fatal`.
  abbrev pub insert_key : Reply → Msg → Logger → S → H → Inserted S → Outcome (Answer × Db S)
  insert_key memory msg w s h (inserted s') =
      finished (coded memory ok_code msg.cmd, record { store = s'; wal = w })
  insert_key memory msg w s h key_found =
      finished (
        coded memory fatal_code msg.cmd,
        record { store = unset s (page_value_unset s h); wal = w },
      )
  insert_key memory msg w s h internal_error =
      finished (
        coded memory fatal_code msg.cmd,
        record { store = unset s (page_value_unset s h); wal = w },
      )

  -- `none` as a copy is the failed assertion of `new_string`.
  abbrev pub insert_copied : Reply → Msg → Logger → S → H → Option Str → Outcome (Answer × Db S)
  insert_copied memory msg w s h none = exited
  insert_copied memory msg w s h (some copykey) =
      insert_key memory msg w s h (hashmap_insert_key store s h copykey)

  abbrev pub insert_value :
      List ℕ → Reply → Msg → ℕ → Logger → S → Option (H × P × S) → Outcome (Answer × Db S)
  insert_value block memory msg lsn w s none =
      finished (coded memory fatal_code proto_error_unknown, record { store = s; wal = w })
  insert_value block memory msg lsn w s (some (h, header, s')) =
      insert_copied memory msg w (update_lsn s' header lsn) h (string_copy block (some msg.key))

  abbrev pub insert_logged :
      List ℕ → Reply → Msg → S → Outcome (ℕ × Logger) → Outcome (Answer × Db S)
  insert_logged block memory msg s (finished (lsn, w)) =
      insert_value block memory msg lsn w s (page_value_set s msg.val)
  insert_logged block memory msg s exited = exited
  insert_logged block memory msg s waiting = waiting

  -- `block` is what `malloc` returns for the copy of the key.
  unfoldable pub operation_insert :
      List ℕ → List WriteResult → Reply → Msg → Db S → Outcome (Answer × Db S)
  operation_insert block results memory msg db =
      if msg.val.size == 0
      then finished (coded memory fatal_code proto_error_value_required, db)
      else elim (hashmap_lookup_key store db.store msg.key) [
        | some key ↦ finished (coded memory error_code key_exists, db)
        | none ↦ insert_logged block memory msg db.store (write_log results db.wal msg)
      ]

-- The request is destroyed and NULL returned.
unfoldable pub operation_update : Msg → Answer
operation_update msg = destroyed
