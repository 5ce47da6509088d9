-- ===== src/Wal/Append.antt =====
-- `write_log`: which commands are logged, and what the loop over `write` leaves in the file.
use fgdb.Prelude.{
  ℕ, ◌+◌, ◌-◌, ◌%◌, ◌^◌, ◌≤◌, ◌<◌, ◌≡◌, refl, none, some, List, ◌∷◌, ◌++◌, arith, min, [], take,
  take_all, leb_of_le, leb_of_lt, length, drop,
}
use fgdb.Str.{Str, IsStr}
use fgdb.Wal.Encode.{IsRecord, length-contents}
use fgdb.Wal.RoundTrip.{size-to_binary}
use fgdb.Prelude.Bytes.{le_bytes, length-le_bytes}
use fgdb.OsFile.{File}
use fgdb.Server.Message.{Msg, select}
use fgdb.Wal.{
  LogRecord, Logger, copied, to_wal_record, to_binary, WriteResult, wrote, again, failed, finished,
  update_heading_lsn, write_log,
}
use fgdb.Wal.Write.{Completes, extended, write_record-from, write_record-again}

size-lt : (r : LogRecord) → IsRecord r → (to_binary r).size < 2 ^ 64
unfolding to_binary
size-lt r ok = omega (arith, ok.key_ok.fits, ok.val_ok.fits)

size_pos : (r : LogRecord) → 0 < (to_binary r).size
unfolding to_binary
size_pos r = omega arith

-- The record that a logged message becomes.
abbrev pub logged : ℕ → Msg → LogRecord
logged lsn msg = record {
  lsn = (lsn + 1) % 2 ^ 64;
  key = copied msg.key;
  val = copied msg.val;
  operation = msg.cmd;
}

-- A message whose strings are well formed and whose command is logged.
pub record IsLogged (msg : Msg) : Type 0 where
  pub key_ok : IsStr msg.key
  pub val_ok : IsStr msg.val
  pub modifies : select < msg.cmd

copied-IsStr : {s : Str} → IsStr s → IsStr (copied s)
copied-IsStr ok = record { fits = ok.fits; holds = omega (arith, length-contents ok) }

pub logged-IsRecord : (lsn : ℕ) (msg : Msg) → IsLogged msg → IsRecord (logged lsn msg)
logged-IsRecord lsn msg ok = record {
  lsn_fits = omega arith;
  key_ok = copied-IsStr ok.key_ok;
  val_ok = copied-IsStr ok.val_ok;
}

-- A file with the number of its last record put in front.
abbrev pub headed : File → ℕ → List ℕ
headed f lsn = le_bytes 8 lsn ++ drop 8 f.bytes

update_heading_lsn-headed :
    (n : ℕ) (results : List WriteResult) (f : File) (lsn : ℕ)
    → 8 ≤ n
    → update_heading_lsn (wrote n ∷ results) f lsn
      ≡ finished (results, record { bytes = headed f lsn; pos = length (headed f lsn) })
unfolding update_heading_lsn
update_heading_lsn-headed n results f lsn h =
    let m : min n 8 ≡ 8 = omega arith in
    let whole : take 8 (le_bytes 8 lsn) ≡ le_bytes 8 lsn =
      take_all 8 (le_bytes 8 lsn) (omega (arith, length-le_bytes 8 lsn)) in
    let z : 0 - length f.bytes ≡ 0 = omega arith in
    let e : 0 + length (le_bytes 8 lsn) ≡ 8 = omega (arith, length-le_bytes 8 lsn) in
    rw (m, whole, z, e)

-- The logger after `msg` is logged.
abbrev pub after_log : Logger → Msg → Logger
after_log w msg = record w {
  lsn = (logged w.lsn msg).lsn;
  file =
      extended
        (record {
          bytes = headed w.file (logged w.lsn msg).lsn;
          pos = length (headed w.file (logged w.lsn msg).lsn);
        })
        (to_binary (logged w.lsn msg)).ptr;
}

to_wal_record-logged :
    (w : Logger) (msg : Msg)
    → select < msg.cmd
    → to_wal_record w msg ≡ (some (logged w.lsn msg), record w { lsn = (logged w.lsn msg).lsn })
unfolding to_wal_record
to_wal_record-logged w msg h = rw (leb_of_lt msg.cmd select h)

to_wal_record-reads : (w : Logger) (msg : Msg) → msg.cmd ≤ select → to_wal_record w msg ≡ (none, w)
unfolding to_wal_record
to_wal_record-reads w msg h = rw (leb_of_le msg.cmd select h)

-- The first call writes all of the heading, and the others complete `size` bytes.
abbrev pub Succeeds : List WriteResult → ℕ → Type 0
Succeeds [] size = ⊥
Succeeds (wrote n ∷ results) size = (8 ≤ n) × Completes results size
Succeeds (again ∷ results) size = ⊥
Succeeds (failed ∷ results) size = ⊥

-- For a well-formed message whose command changes data, where the first call of write takes all of
-- the heading and the others succeed in whatever portions, write_log ends, returns the next
-- number, puts it at the front of the file, appends the whole binary record and leaves the records
-- before it alone.
pub write_log-appends :
    (results : List WriteResult) (w : Logger) (msg : Msg)
    → IsLogged msg
    → Succeeds results (to_binary (logged w.lsn msg)).size
    → write_log results w msg ≡ finished ((w.lsn + 1) % 2 ^ 64, after_log w msg)
unfolding write_log
write_log-appends [] w msg ok c = elim c [ ]
write_log-appends (again ∷ results) w msg ok c = elim c [ ]
write_log-appends (failed ∷ results) w msg ok c = elim c [ ]
write_log-appends (wrote n ∷ results) w msg ok c =
    let r = logged w.lsn msg in
    let is = logged-IsRecord w.lsn msg ok in
    rw
      (to_wal_record-logged w msg ok.modifies, update_heading_lsn-headed n results w.file r.lsn c.0)
      (rw
        (write_record-from results (to_binary r) 0
          (record { bytes = headed w.file r.lsn; pos = length (headed w.file r.lsn) })
          (size-lt r is) (size-to_binary r is) refl (omega arith)
          (let z : (to_binary r).size - 0 ≡ (to_binary r).size = omega arith in rw z c.1))
        refl)

-- PEEK and SELECT leave the log as it is, and 0 is returned.
pub write_log-reads :
    (results : List WriteResult) (w : Logger) (msg : Msg)
    → msg.cmd ≤ select
    → write_log results w msg ≡ finished (0, w)
unfolding write_log
write_log-reads results w msg h = rw (to_wal_record-reads w msg h)

-- For a well-formed message whose command changes data, if the first call of write in write_log
-- takes all of the heading and the second is interrupted (EAGAIN or EINTR), the loop ends with no
-- byte of the record written, while the front of the file has the new number, and that number is
-- returned as after a success.
pub write_log-again :
    (n : ℕ) (results : List WriteResult) (w : Logger) (msg : Msg)
    → IsLogged msg
    → 8 ≤ n
    → write_log (wrote n ∷ again ∷ results) w msg
      ≡ finished (
        (w.lsn + 1) % 2 ^ 64,
        record w {
          lsn = (w.lsn + 1) % 2 ^ 64;
          file = record {
            bytes = headed w.file ((w.lsn + 1) % 2 ^ 64);
            pos = length (headed w.file ((w.lsn + 1) % 2 ^ 64));
          };
        },
      )
unfolding write_log
write_log-again n results w msg ok h =
    let r = logged w.lsn msg in
    rw
      (
        to_wal_record-logged w msg ok.modifies,
        update_heading_lsn-headed n (again ∷ results) w.file r.lsn h,
      )
      (rw
        (write_record-again results (to_binary r) _ (size-lt r (logged-IsRecord w.lsn msg ok))
          (size_pos r))
        refl)
