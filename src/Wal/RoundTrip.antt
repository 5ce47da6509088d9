-- ===== src/Wal/RoundTrip.antt =====
-- `recover_transaction` against `to_binary`.
use fgdb.Prelude.{
  ℕ, ◌+◌, ◌-◌, ◌%◌, ◌^◌, ◌<◌, ◌≡◌, refl, ap, List, ◌++◌, arith, length, drop, length-append,
  append_assoc, drop-drop, drop-append,
}
use fgdb.Prelude.Bytes.{le_bytes, of_le_bytes, length-le_bytes, of_le_bytes-le_bytes}
use fgdb.OsFile.{File}
use fgdb.Wal.{LogRecord, Unlogger, to_binary, recovered, read_exactly, recover_transaction}
use fgdb.Wal.Encode.{
  IsRecord, record_size, body_image, reread, ptr-to_binary, length-body_image, parse-body_image,
  read_exactly-append,
}

-- The `size` field of a record is the number of its bytes.
pub size-to_binary : (r : LogRecord) → IsRecord r → length (to_binary r).ptr ≡ (to_binary r).size
unfolding to_binary
size-to_binary r ok = rw (ptr-to_binary r) (
    omega (
      arith,
      length-append {0} (le_bytes 8 (record_size r)) (body_image r),
      length-le_bytes 8 (record_size r),
      length-body_image r ok,
    ))

-- The number of bytes that a record takes in the log.
record_size-lt : (r : LogRecord) → IsRecord r → record_size r < 2 ^ 64
record_size-lt r ok = omega (arith, ok.key_ok.fits, ok.val_ok.fits)

-- Reading goes on behind the bytes that were read.
after :
    (f : File) (n : ℕ) (d rest : List ℕ)
    → length d ≡ n
    → drop f.pos f.bytes ≡ d ++ rest
    → drop (f.pos + n) f.bytes ≡ rest
after f n d rest e at =
    rw (← drop-drop n f.pos (f.pos + n) f.bytes (omega arith), at) (drop-append n d rest e)

abbrev pub skip : Unlogger → ℕ → Unlogger
skip u n = record u { file = record u.file { pos = u.file.pos + n } }

module _ (r : LogRecord) (u : Unlogger) (rest : List ℕ) (ok : IsRecord r)
    (at : drop u.file.pos u.file.bytes ≡ (to_binary r).ptr ++ rest) where
  at_size : drop u.file.pos u.file.bytes ≡ le_bytes 8 (record_size r) ++ (body_image r ++ rest)
  at_size = rw (at, ptr-to_binary r) (append_assoc (le_bytes 8 (record_size r)) _ _)

  behind : File
  behind = record u.file { pos = u.file.pos + 8 }

  read_size : read_exactly 8 u.file ≡ recovered (le_bytes 8 (record_size r), behind)
  unfolding behind
  read_size = read_exactly-append 8 u.file _ (body_image r ++ rest) (length-le_bytes 8 _) at_size

  body_length :
      (of_le_bytes (le_bytes 8 (record_size r)) + (2 ^ 64 - 8)) % 2 ^ 64 ≡ length (body_image r)
  body_length =
      rw (of_le_bytes-le_bytes 8 (record_size r) (record_size-lt r ok))
        (omega (arith, length-body_image r ok, record_size-lt r ok))

  read_body :
      read_exactly (length (body_image r)) behind
      ≡ recovered (body_image r, record u.file { pos = u.file.pos + 8 + length (body_image r) })
  unfolding behind
  read_body =
      read_exactly-append (length (body_image r)) (record u.file { pos = u.file.pos + 8 })
        (body_image r) rest refl
        (after u.file 8 (le_bytes 8 (record_size r)) (body_image r ++ rest) (length-le_bytes 8 _)
          at_size)

  -- Wherever the bytes that to_binary makes of a well-formed record stand in a file,
  -- recover_transaction started there returns its key and value, with the low byte of the key's
  -- size as the command, and leaves the offset behind the record.
  pub recover-to_binary : recover_transaction u ≡ recovered (reread r, skip u (to_binary r).size)
  unfolding recover_transaction to_binary
  recover-to_binary =
      rw (read_size, body_length)
        (rw read_body (
          rw (parse-body_image r ok) (
            ap (λ (n : ℕ). recovered (reread r, record u { file = record u.file { pos = n } }))
              (omega (arith, length-body_image r ok)))))
