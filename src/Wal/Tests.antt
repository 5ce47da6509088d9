-- ===== src/Wal/Tests.antt =====
-- Runs of the log on concrete messages.
use fgdb.Prelude.{ℕ, ◌≡◌, refl, some, List, [], ◌∷◌, ◌++◌, length, map, arith}
use fgdb.Str.{Str}
use fgdb.Prelude.Bytes.{le_bytes}
use fgdb.Server.Message.{Msg, peek, insert, update}
use fgdb.Wal.{
  LogRecord, Logger, Unlogger, to_binary, wrote, again, finished, write_log, new_wal_logger,
  recover_transaction, get_latest_log_lsn, new_unlogger, recovered,
}
use fgdb.Wal.Encode.{IsRecord, reread}
use fgdb.Wal.RoundTrip.{recover-to_binary, skip}
use fgdb.Wal.Append.{IsLogged, after_log, write_log-appends, write_log-reads, write_log-again}
use fgdb.Wal.Log.{Job, AreJobs, log_all, recover_all, records, recover_all-log_all}

abbrev str : List ℕ → Str
str bytes = record { size = length bytes; ptr = some bytes }

abbrev insert_ab : Msg
insert_ab = record { cmd = insert; key = str (97 ∷ 98 ∷ []); val = str (1 ∷ 0 ∷ 3 ∷ []) }

abbrev update_c : Msg
update_c = record { cmd = update; key = str (99 ∷ []); val = str [] }

abbrev logger : Logger
logger = new_wal_logger [] 6 0

insert_ab-IsLogged : IsLogged insert_ab
insert_ab-IsLogged = record {
  key_ok = record { fits = omega arith; holds = omega arith };
  val_ok = record { fits = omega arith; holds = omega arith };
  modifies = omega arith;
}

update_c-IsLogged : IsLogged update_c
update_c-IsLogged = record {
  key_ok = record { fits = omega arith; holds = omega arith };
  val_ok = record { fits = omega arith; holds = omega arith };
  modifies = omega arith;
}

-- One call writes all of the first record behind the heading; the second takes three calls.
abbrev first : Job
first = (wrote 8 ∷ wrote 100 ∷ [], insert_ab)

abbrev second : Job
second = (wrote 8 ∷ wrote 5 ∷ wrote 1 ∷ wrote 16 ∷ [], update_c)

jobs-AreJobs : AreJobs 6 (first ∷ second ∷ [])
unfolding to_binary
jobs-AreJobs =
    ((insert_ab-IsLogged, (omega arith, refl)), ((update_c-IsLogged, (omega arith, refl)), tt))

recover_all-log_all_example :
    (w : Logger) × (log_all (first ∷ second ∷ []) (new_wal_logger [] 6 0) ≡ finished w)
    × ((get_latest_log_lsn (new_unlogger w.file.bytes)).0 ≡ 8)
    × (recover_all 2 (get_latest_log_lsn (new_unlogger w.file.bytes)).1
        ≡ recovered (map reread (records 6 (first ∷ second ∷ []))))
recover_all-log_all_example = recover_all-log_all 6 0 first (second ∷ []) jobs-AreJobs

abbrev one_record : LogRecord
one_record = record {
  lsn = 300;
  key = str (97 ∷ 98 ∷ []);
  val = str (1 ∷ 0 ∷ 3 ∷ []);
  operation = insert;
}

one_record-IsRecord : IsRecord one_record
one_record-IsRecord = record {
  lsn_fits = omega arith;
  key_ok = record { fits = omega arith; holds = omega arith };
  val_ok = record { fits = omega arith; holds = omega arith };
}

-- The record stands at offset 2 of the file, with one byte behind it.
abbrev reader : Unlogger
reader = record {
  seek = 0;
  file = record { bytes = 7 ∷ 7 ∷ ((to_binary one_record).ptr ++ 9 ∷ []); pos = 2 };
}

recover-to_binary_example :
    recover_transaction reader
    ≡ recovered (reread one_record, skip reader (to_binary one_record).size)
recover-to_binary_example = recover-to_binary one_record reader (9 ∷ []) one_record-IsRecord refl

-- The command that comes back is the low byte of the key's size.
reread_operation : (reread one_record).cmd ≡ 2
reread_operation = refl

write_log-appends_example :
    write_log (wrote 8 ∷ wrote 20 ∷ wrote 6 ∷ []) logger insert_ab
    ≡ finished (7, after_log logger insert_ab)
unfolding new_wal_logger to_binary
write_log-appends_example =
    write_log-appends (wrote 8 ∷ wrote 20 ∷ wrote 6 ∷ []) (new_wal_logger [] 6 0) insert_ab
      insert_ab-IsLogged (omega arith, refl)

write_log-reads_example :
    write_log [] logger (record insert_ab { cmd = peek }) ≡ finished (0, logger)
write_log-reads_example = write_log-reads [] logger (record insert_ab { cmd = peek }) (omega arith)

write_log-again_example :
    write_log
      (wrote 8 ∷ again ∷ [])
      (record { flushed_lsn = 0; lsn = 6; file = record { bytes = []; pos = 0 } })
      insert_ab
    ≡ finished (
      7,
      record {
        flushed_lsn = 0;
        lsn = 7;
        file = record { bytes = 7 ∷ 0 ∷ 0 ∷ 0 ∷ 0 ∷ 0 ∷ 0 ∷ 0 ∷ []; pos = 8 };
      },
    )
unfolding le_bytes
write_log-again_example =
    write_log-again 8 []
      (record { flushed_lsn = 0; lsn = 6; file = record { bytes = []; pos = 0 } }) insert_ab
      insert_ab-IsLogged (omega arith)
