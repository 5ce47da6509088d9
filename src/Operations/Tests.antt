-- ===== src/Operations/Tests.antt =====
-- Stores and messages for the runs of the worker.
use fgdb.Prelude.{ℕ, Option, none, some, List, [], ◌∷◌, length, arith}
use fgdb.Str.{Str}
use fgdb.Server.Message.{Msg, insert}
use fgdb.Server.Proto.{Reply}
use fgdb.Wal.Append.{IsLogged}
use fgdb.Store.{Store}
use fgdb.Operations.{Db}

abbrev str : List ℕ → Str
str bytes = record { size = length bytes; ptr = some bytes }

-- A store of one row at most, whose key is not looked at.
abbrev pub one_row : Store (Option Str) Str ℕ
one_row = record {
  hash_search = λ s key. s;
  hash_insert = λ s key h. some (some h);
  hash_delete = λ s key. some none;
  copy_meta = λ s h. (h, s);
  page_value_set = λ s val. some (val, 0, s);
  page_value_get = λ s h. (h, s);
  page_value_unset = λ s h. some (h, 0, s);
  update_lsn = λ s p lsn. s;
}

abbrev pub memory : Reply
memory = record { code = 7; word = 7; val = record { size = 0; ptr = none } }

abbrev pub db : Option Str → Db (Option Str)
db s = record {
  store = s;
  wal = record { flushed_lsn = 0; lsn = 6; file = record { bytes = []; pos = 0 } };
}

abbrev pub insert_b : Msg
insert_b = record { cmd = insert; key = str (98 ∷ []); val = str (3 ∷ []) }

pub insert_b-IsLogged : IsLogged insert_b
insert_b-IsLogged = record {
  key_ok = record { fits = omega arith; holds = omega arith };
  val_ok = record { fits = omega arith; holds = omega arith };
  modifies = omega arith;
}
