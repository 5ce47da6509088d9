-- ===== src/Wal/Log.antt =====
-- A whole log: messages logged one after the other into a new file, and read back in order.
use fgdb.Prelude.{
  ℕ, zero, suc, ◌+◌, ◌%◌, ◌^◌, ◌<◌, ◌≡◌, refl, ap, sym, ◌∙◌, List, [], ◌∷◌, ◌++◌, map, All, arith,
  length, take, drop, take-append, drop-append, append_assoc, append-nil, drop-drop,
}
use fgdb.Prelude.Bytes.{le_bytes, length-le_bytes, of_le_bytes-le_bytes}
use fgdb.Server.Message.{Msg}
use fgdb.Wal.{
  LogRecord, Logger, Unlogger, to_binary, WriteResult, Outcome, finished, exited, waiting,
  write_log, new_wal_logger, new_unlogger, get_latest_log_lsn, Recovered, recovered, ◌>>=◌,
  recover_transaction,
}
use fgdb.Wal.Encode.{IsRecord, reread}
use fgdb.Wal.RoundTrip.{recover-to_binary, skip, size-to_binary}
use fgdb.Wal.Append.{Succeeds}
use fgdb.Wal.Append.{IsLogged, logged, logged-IsRecord, after_log, write_log-appends}

-- A message to log, with what the calls of `write` return for it.
abbrev pub Job : Type 0
Job = List WriteResult × Msg

-- The messages of several transactions, logged in order.
pub log_all : List Job → Logger → Outcome Logger
log_all [] w = finished w
log_all ((results, msg) ∷ jobs) w = elim (write_log results w msg) [
  | finished (lsn, w') ↦ log_all jobs w'
  | exited ↦ exited
  | waiting ↦ waiting
]

-- `n` transactions, read one after the other.
pub recover_all : ℕ → Unlogger → Recovered (List Msg)
recover_all zero u = recovered []
recover_all (suc n) u = do
  (msg, u') ← recover_transaction u
  msgs ← recover_all n u'
  recovered (msg ∷ msgs)

abbrev pub IsJob : ℕ → Job → Type 0
IsJob lsn (results, msg) = IsLogged msg × Succeeds results (to_binary (logged lsn msg)).size

-- Every message can be logged, the first under the number behind `lsn`.
abbrev pub AreJobs : ℕ → List Job → Type 0
AreJobs lsn [] = Unit
AreJobs lsn (job ∷ jobs) = IsJob lsn job × AreJobs ((lsn + 1) % 2 ^ 64) jobs

-- The records that the messages become.
abbrev pub records : ℕ → List Job → List LogRecord
records lsn [] = []
records lsn ((results, msg) ∷ jobs) = logged lsn msg ∷ records ((lsn + 1) % 2 ^ 64) jobs

abbrev pub last_lsn : ℕ → List Job → ℕ
last_lsn lsn [] = lsn
last_lsn lsn (job ∷ jobs) = last_lsn ((lsn + 1) % 2 ^ 64) jobs

abbrev pub images : List LogRecord → List ℕ
images [] = []
images (r ∷ rs) = (to_binary r).ptr ++ images rs

records-IsRecord : (lsn : ℕ) (jobs : List Job) → AreJobs lsn jobs → All IsRecord (records lsn jobs)
records-IsRecord lsn [] h = tt
records-IsRecord lsn ((results, msg) ∷ jobs) h =
    (logged-IsRecord lsn msg h.0.0, records-IsRecord ((lsn + 1) % 2 ^ 64) jobs h.1)

recover_all-images :
    (rs : List LogRecord) (u : Unlogger) (rest : List ℕ)
    → All IsRecord rs
    → drop u.file.pos u.file.bytes ≡ images rs ++ rest
    → recover_all (length rs) u ≡ recovered (map reread rs)
unfolding recover_all
recover_all-images [] u rest ok at = refl
recover_all-images (r ∷ rs) u rest ok at =
    let at' : drop u.file.pos u.file.bytes ≡ (to_binary r).ptr ++ (images rs ++ rest) =
      at ∙ append_assoc (to_binary r).ptr (images rs) rest in
    let n = (to_binary r).size in
    let behind : drop (u.file.pos + n) u.file.bytes ≡ images rs ++ rest =
      rw (← drop-drop n u.file.pos (u.file.pos + n) u.file.bytes (omega arith), at')
        (drop-append n (to_binary r).ptr (images rs ++ rest) (size-to_binary r ok.0)) in
    rw (recover-to_binary r u (images rs ++ rest) ok.0 at')
      (rw (recover_all-images rs (skip u n) rest ok.1 behind) refl)

-- The logger when all jobs are done.
abbrev pub logger_after : Logger → List Job → Logger
logger_after w [] = w
logger_after w ((results, msg) ∷ jobs) = logger_after (after_log w msg) jobs

log_all-logger_after :
    (jobs : List Job) (w : Logger)
    → AreJobs w.lsn jobs
    → log_all jobs w ≡ finished (logger_after w jobs)
unfolding log_all
log_all-logger_after [] w h = refl
log_all-logger_after ((results, msg) ∷ jobs) w h =
    rw (write_log-appends results w msg h.0.0 h.0.1, log_all)
      (log_all-logger_after jobs (after_log w msg) h.1)

lsn-logger_after : (jobs : List Job) (w : Logger) → (logger_after w jobs).lsn ≡ last_lsn w.lsn jobs
lsn-logger_after [] w = refl
lsn-logger_after ((results, msg) ∷ jobs) w = lsn-logger_after jobs (after_log w msg)

-- The file begins with the number of the last record.
HasFront : Logger → Type 0
HasFront w = take 8 w.file.bytes ≡ le_bytes 8 w.lsn

after_log-HasFront : (w : Logger) (msg : Msg) → HasFront (after_log w msg)
unfolding HasFront
after_log-HasFront w msg =
    rw (append_assoc (le_bytes 8 (logged w.lsn msg).lsn))
      (take-append 8 (le_bytes 8 (logged w.lsn msg).lsn) _ (length-le_bytes 8 _))

drop-after_log :
    (w : Logger) (msg : Msg)
    → drop 8 (after_log w msg).file.bytes
      ≡ drop 8 w.file.bytes ++ (to_binary (logged w.lsn msg)).ptr
drop-after_log w msg =
    rw (append_assoc (le_bytes 8 (logged w.lsn msg).lsn))
      (drop-append 8 (le_bytes 8 (logged w.lsn msg).lsn) _ (length-le_bytes 8 _))

logger_after-HasFront : (jobs : List Job) (w : Logger) → HasFront w → HasFront (logger_after w jobs)
logger_after-HasFront [] w h = h
logger_after-HasFront ((results, msg) ∷ jobs) w h =
    logger_after-HasFront jobs (after_log w msg) (after_log-HasFront w msg)

-- The records of all jobs stand behind those that the file held, in order.
pub drop-logger_after :
    (jobs : List Job) (w : Logger)
    → drop 8 (logger_after w jobs).file.bytes ≡ drop 8 w.file.bytes ++ images (records w.lsn jobs)
drop-logger_after [] w = sym (append-nil (drop 8 w.file.bytes))
drop-logger_after ((results, msg) ∷ jobs) w =
    rw (drop-logger_after jobs (after_log w msg), drop-after_log w msg)
      (append_assoc (drop 8 w.file.bytes) (to_binary (logged w.lsn msg)).ptr _)

-- Opening a log whose front is `lsn` yields that number and the offset of the first record.
get_latest_log_lsn-opened :
    (bytes : List ℕ) (lsn : ℕ)
    → lsn < 2 ^ 64
    → take 8 bytes ≡ le_bytes 8 lsn
    → get_latest_log_lsn (new_unlogger bytes)
      ≡ (lsn, record { seek = 0; file = record { bytes = bytes; pos = 8 } })
unfolding get_latest_log_lsn new_unlogger
get_latest_log_lsn-opened bytes lsn h front =
    rw (front, of_le_bytes-le_bytes 8 lsn h, length-le_bytes 8 lsn) refl

last_lsn-lt : (job : Job) (jobs : List Job) (lsn : ℕ) → last_lsn lsn (job ∷ jobs) < 2 ^ 64
last_lsn-lt job [] lsn = omega arith
last_lsn-lt job (job' ∷ jobs) lsn = last_lsn-lt job' jobs ((lsn + 1) % 2 ^ 64)

length-records : (lsn : ℕ) (jobs : List Job) → length (records lsn jobs) ≡ length jobs
length-records lsn [] = refl
length-records lsn ((results, msg) ∷ jobs) = ap suc (length-records ((lsn + 1) % 2 ^ 64) jobs)

-- Logging a non-empty list of well-formed messages whose commands change data into a new log file,
-- where for each of them the first call of write takes all of the heading and the others succeed
-- in whatever portions, ends; the file then opens with the number of its last record, and as many
-- calls of recover_transaction as there were messages return them in order with their keys and
-- values, and with the low byte of the key's size as the command.
pub recover_all-log_all :
    (lsn flushed_lsn : ℕ) (job : Job) (jobs : List Job)
    → AreJobs lsn (job ∷ jobs)
    → (w : Logger) × (log_all (job ∷ jobs) (new_wal_logger [] lsn flushed_lsn) ≡ finished w)
      × ((get_latest_log_lsn (new_unlogger w.file.bytes)).0 ≡ last_lsn lsn (job ∷ jobs))
      × (recover_all (length (job ∷ jobs)) (get_latest_log_lsn (new_unlogger w.file.bytes)).1
          ≡ recovered (map reread (records lsn (job ∷ jobs))))
unfolding new_wal_logger HasFront
recover_all-log_all lsn flushed_lsn (results, msg) jobs h =
    let start : Logger = new_wal_logger [] lsn flushed_lsn in
    let all : List Job = (results, msg) ∷ jobs in
    let w : Logger = logger_after start all in
    let opens =
      get_latest_log_lsn-opened w.file.bytes (last_lsn lsn all)
        (last_lsn-lt (results, msg) jobs lsn)
        (logger_after-HasFront jobs (after_log start msg) (after_log-HasFront start msg)
          ∙ ap (le_bytes 8) (lsn-logger_after all start)) in
    (
      w,
      log_all-logger_after all start h,
      rw opens refl,
      rw opens (
          rw (← length-records lsn all) (
            recover_all-images (records lsn all)
              (record { seek = 0; file = record { bytes = w.file.bytes; pos = 8 } }) []
              (records-IsRecord lsn all h) (drop-logger_after all start ∙ sym (append-nil _)))),
    )
