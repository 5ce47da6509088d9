-- ===== src/OsFile.antt =====
-- What the code uses of POSIX files: a byte sequence and an offset.
pub mod Writes
use fgdb.Prelude.{ℕ, ◌+◌, ◌-◌, List, ◌++◌, length, take, drop, replicate}

pub record File : Type 0 where
  pub bytes : List ℕ
  pub pos : ℕ

-- `open(path, ...)` of a file that holds `bytes`.
abbrev pub opened : List ℕ → File
opened bytes = record { bytes = bytes; pos = 0 }

-- `lseek(fd, n, SEEK_SET)`, `lseek(fd, n, SEEK_CUR)` and `lseek(fd, 0, SEEK_END)`
abbrev pub seek_set : ℕ → File → File
seek_set n f = record f { pos = n }

abbrev pub seek_cur : ℕ → File → File
seek_cur n f = record f { pos = f.pos + n }

abbrev pub seek_end : File → File
seek_end f = record f { pos = length f.bytes }

-- A write of `bytes` at the offset; a gap behind the end reads as zeros.
abbrev pub write_bytes : List ℕ → File → File
write_bytes data' f = record {
  bytes =
      take f.pos f.bytes
      ++ (replicate (f.pos - length f.bytes) 0 ++ (data' ++ drop (f.pos + length data') f.bytes));
  pos = f.pos + length data';
}

-- What `read(fd, buf, n)` yields: `n` bytes, or fewer at the end of the file.
abbrev pub read_bytes : ℕ → File → List ℕ
read_bytes n f = take n (drop f.pos f.bytes)

abbrev pub after_read : ℕ → File → File
after_read n f = record f { pos = f.pos + length (read_bytes n f) }

-- `truncate(path, n)`
abbrev pub truncate : ℕ → File → File
truncate n f = record f { bytes = take n f.bytes ++ replicate (n - length f.bytes) 0 }
