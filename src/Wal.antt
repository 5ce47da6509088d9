-- ===== src/Wal.antt =====
-- The write-ahead log: src/wal/wal.h and src/wal/wal.c. A record is encoded by `to_binary`, appended
-- by `write_log` behind the number of the last record, and read back by `recover_transaction`.
pub mod Append
pub mod Encode
pub mod Log
pub mod RoundTrip
pub mod Write
mod Tests
use fgdb.Prelude.{
  ℕ, ◌+◌, ◌-◌, ◌%◌, ◌^◌, Option, none, some, List, [], ◌∷◌, ◌++◌, min, ltb, leb, ◌==◌,
  if◌then◌else◌, length, take, drop,
}
use fgdb.Prelude.Bytes.{le_bytes, of_le_bytes}
use fgdb.Str.{Str, block, contents}
use fgdb.OsFile.{File, opened, seek_set, seek_cur, seek_end, write_bytes, read_bytes, after_read}
use fgdb.Server.Message.{Command, select, Msg}

pub record LogRecord : Type 0 where
  pub lsn : ℕ
  pub key : Str
  pub val : Str
  pub operation : Command

pub record Logger : Type 0 where
  pub flushed_lsn : ℕ
  pub lsn : ℕ
  pub file : File

pub record Unlogger : Type 0 where
  pub seek : ℕ
  pub file : File

pub record BinaryRecord : Type 0 where
  pub size : ℕ
  pub ptr : List ℕ

-- `bytes` is what the log file holds when it is opened.
unfoldable pub new_wal_logger : List ℕ → ℕ → ℕ → Logger
new_wal_logger bytes lsn flushed_lsn = record {
  flushed_lsn = flushed_lsn;
  lsn = lsn;
  file = opened bytes;
}

unfoldable pub give_new_lsn : Logger → ℕ × Logger
give_new_lsn w = let lsn = (w.lsn + 1) % 2 ^ 64 in (lsn, record w { lsn = lsn })

unfoldable pub update_flushed_lsn : Logger → ℕ → Logger
update_flushed_lsn w flushed_lsn = record w { flushed_lsn = flushed_lsn }

abbrev pub copied : Str → Str
copied s = record { size = s.size; ptr = some (contents s) }

-- `none` if the command is not logged.
unfoldable pub to_wal_record : Logger → Msg → Option LogRecord × Logger
unfolding give_new_lsn
to_wal_record w msg =
    let (lsn, w') = give_new_lsn w in
    if leb msg.cmd select then (none, w) else (
      some (record { lsn = lsn; key = copied msg.key; val = copied msg.val; operation = msg.cmd }),
      w',
    )

-- The first bytes of a `wal_log_record_t` in memory: `LSN`, and behind it `key.size`.
abbrev pub record_image : LogRecord → List ℕ
record_image r = le_bytes 8 r.lsn ++ le_bytes 2 r.key.size

-- The second copy takes `sizeof(LSN) + sizeof(operation)` bytes from the start of the record.
unfoldable pub to_binary : LogRecord → BinaryRecord
to_binary r =
    let size = 8 + 8 + 1 + (2 + r.key.size) + (2 + r.val.size) in
    record {
      size = size;
      ptr =
          le_bytes 8 size
          ++ (take (8 + 1) (record_image r)
              ++ (le_bytes 2 r.key.size
                  ++ (contents r.key ++ (le_bytes 2 r.val.size ++ contents r.val))));
    }

-- One return of `write`: a number of bytes written, `EAGAIN` or `EINTR`, or another error.
pub data WriteResult : Type 0 where
  wrote : ℕ → WriteResult
  again : WriteResult
  failed : WriteResult

-- A run of the code: it returns, the process exits, or it still waits for the system.
pub data Outcome (A : Type 0) : Type 0 where
  finished : A → Outcome A
  exited : Outcome A
  waiting : Outcome A

-- `lseek(0, SEEK_SET); write(&LSN, 8); lseek(0, SEEK_END)`, over what the calls of `write` return,
-- with the results that are left. Every -1 exits, and a short count is taken as it is.
unfoldable pub update_heading_lsn : List WriteResult → File → ℕ → Outcome (List WriteResult × File)
update_heading_lsn [] f lsn = waiting
update_heading_lsn (wrote n ∷ results) f lsn =
    finished (results, seek_end (write_bytes (take (min n 8) (le_bytes 8 lsn)) (seek_set 0 f)))
update_heading_lsn (again ∷ results) f lsn = exited
update_heading_lsn (failed ∷ results) f lsn = exited

-- `while (written < br->size)`, over what the calls of `write` return. `written += bytes` is made
-- with `bytes` equal to -1 as well.
unfoldable pub write_record : List WriteResult → BinaryRecord → ℕ → File → Outcome File
write_record [] br written f = if ltb written br.size then waiting else finished f
write_record (wrote n ∷ results) br written f =
    let n' = min n (br.size - written) in
    let rest =
      write_record results br ((written + n') % 2 ^ 64)
        (write_bytes (take n' (drop written br.ptr)) f) in
    if ltb written br.size then rest else finished f
write_record (again ∷ results) br written f =
    let rest = write_record results br ((written + (2 ^ 64 - 1)) % 2 ^ 64) f in
    if ltb written br.size then rest else finished f
write_record (failed ∷ results) br written f = if ltb written br.size then exited else finished f

abbrev pub end_write : ℕ → Logger → Outcome File → Outcome (ℕ × Logger)
end_write lsn w (finished f) = finished (lsn, record w { file = f })
end_write lsn w exited = exited
end_write lsn w waiting = waiting

-- Behind the heading.
abbrev pub append_binary :
    LogRecord → Logger → Outcome (List WriteResult × File) → Outcome (ℕ × Logger)
append_binary r w (finished (results, f)) =
    end_write r.lsn w (write_record results (to_binary r) 0 f)
append_binary r w exited = exited
append_binary r w waiting = waiting

abbrev pub append_record : List WriteResult → Option LogRecord × Logger → Outcome (ℕ × Logger)
append_record results (none, w) = finished (0, w)
append_record results (some r, w) = append_binary r w (update_heading_lsn results w.file r.lsn)

-- The number of the record is returned, and 0 if nothing is logged.
unfoldable pub write_log : List WriteResult → Logger → Msg → Outcome (ℕ × Logger)
write_log results w msg = append_record results (to_wal_record w msg)

unfoldable pub new_unlogger : List ℕ → Unlogger
new_unlogger bytes = record { seek = 0; file = opened bytes }

-- The second `lseek` goes on by the old offset from where the read has ended.
unfoldable pub get_latest_log_lsn : Unlogger → ℕ × Unlogger
get_latest_log_lsn u = (
  of_le_bytes (read_bytes 8 u.file),
  record u { file = seek_cur u.file.pos (after_read 8 u.file) },
)

-- `short` is a read that found fewer bytes than asked for, after which the code works on
-- uninitialised memory, and `overrun` a copy from behind the block's end; `assert_failed` is the
-- assertion that the record was read completely.
pub data Recovered (A : Type 0) : Type 0 where
  recovered : A → Recovered A
  short : Recovered A
  overrun : Recovered A
  assert_failed : Recovered A

infixl 5 ◌>>=◌
abbrev pub ◌>>=◌ : {A B : Type 0} → Recovered A → (A → Recovered B) → Recovered B
recovered a >>= k = k a
short >>= k = short
overrun >>= k = overrun
assert_failed >>= k = assert_failed

-- `read(file, buf, n)`
unfoldable pub read_exactly : ℕ → File → Recovered (List ℕ × File)
read_exactly n f =
    if length (read_bytes n f) == n then recovered (read_bytes n f, after_read n f) else short

-- `memcpy(dst, p, n); p += n`: what is copied, and what is left of the block at `p`.
unfoldable pub copy_out : ℕ → List ℕ → Recovered (List ℕ × List ℕ)
copy_out n p = if ltb (length p) n then overrun else recovered (take n p, drop n p)

-- A size, then as many bytes.
unfoldable pub copy_str : List ℕ → Recovered (Str × List ℕ)
unfolding copy_out
copy_str p = do
  (size, p₁) ← copy_out 2 p
  (bytes, p₂) ← copy_out (of_le_bytes size) p₁
  recovered (record { size = of_le_bytes size; ptr = some bytes }, p₂)

abbrev pub at_end : {A : Type 0} → List ℕ → A → Recovered A
at_end [] a = recovered a
at_end (b ∷ p) a = assert_failed

unfoldable pub parse_record : List ℕ → Recovered Msg
unfolding copy_out copy_str
parse_record p = do
  (lsn, p₁) ← copy_out 8 p
  (operation, p₂) ← copy_out 1 p₁
  (key, p₃) ← copy_str p₂
  (val, p₄) ← copy_str p₃
  at_end p₄ (record { cmd = of_le_bytes operation; key = key; val = val })

unfoldable pub recover_transaction : Unlogger → Recovered (Msg × Unlogger)
recover_transaction u = do
  (size, f₁) ← read_exactly 8 u.file
  (block, f₂) ← read_exactly ((of_le_bytes size + (2 ^ 64 - 8)) % 2 ^ 64) f₁
  msg ← parse_record block
  recovered (msg, record u { file = f₂ })
