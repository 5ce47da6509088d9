-- ===== src/Disk.antt =====
-- The snapshot files: src/arena/disk.h and src/arena/disk.c.
pub mod Keys
pub mod Pages
pub mod Restart
pub mod Upload
mod Tests
use fgdb.Prelude.{
  ℕ, zero, suc, ◌+◌, ◌-◌, ◌*◌, ◌/◌, ◌%◌, ◌^◌, max, min, Option, none, some, List, [], ◌∷◌, ◌++◌,
  ltb, ◌==◌, if◌then◌else◌, length, take, drop,
}
use fgdb.Prelude.Bytes.{le_bytes, of_le_bytes}
use fgdb.Str.{Str, contents}
use fgdb.OsFile.{File, opened, seek_set, write_bytes, read_bytes, after_read, truncate}
use fgdb.Wal.{
  WriteResult, wrote, again, failed, Outcome, finished, exited, waiting, Recovered, recovered,
  short, overrun, assert_failed, ◌>>=◌, read_exactly, copy_out, copy_str,
}

abbrev pub page_size : ℕ
page_size = 4096

-- A key of a page: the offset of its value, the page of its `key_meta_t` and its bytes.
pub record PageKey : Type 0 where
  pub offset : ℕ
  pub page : ℕ
  pub key : Str

-- What the snapshot takes of a page's header.
pub record PageHeader : Type 0 where
  pub offset_bytes : ℕ
  pub page_lsn : ℕ
  pub keys : List PageKey

pub record Disk : Type 0 where
  pub arena_start : ℕ
  pub keys_start : ℕ
  pub pages : ℕ
  pub nkeys : ℕ
  pub keys_dumped : ℕ
  pub lsn : ℕ
  pub vfd : File
  pub kfd : File

-- The arguments are what the two files hold. The struct is zeroed first, so that a file that is too
-- short leaves zeros.
unfoldable pub init_disk : List ℕ → List ℕ → Disk
init_disk values keys = record {
  arena_start = 8;
  keys_start = 8;
  pages = if length values == 0 then 0 else (length values - 8) / page_size;
  nkeys = of_le_bytes (read_bytes 8 (opened keys));
  keys_dumped = 0;
  lsn = of_le_bytes (read_bytes 8 (opened values));
  vfd = seek_set 8 (opened values);
  kfd = seek_set 8 (opened keys);
}

-- What the two files hold when they are closed.
unfoldable pub destroy_disk : Disk → List ℕ × List ℕ
destroy_disk disk = (
  (write_bytes (le_bytes 8 disk.lsn) (seek_set 0 disk.vfd)).bytes,
  (write_bytes (le_bytes 8 disk.keys_dumped) (seek_set 0 disk.kfd)).bytes,
)

unfoldable pub disk_new_page : Disk → Disk
disk_new_page disk = record disk { pages = (disk.pages + 1) % 2 ^ 64 }

-- `while (to_write)`: any error is tried again.
unfoldable pub dump_bytes : List WriteResult → List ℕ → ℕ → ℕ → File → Outcome File
dump_bytes [] page to_write written f = if to_write == 0 then finished f else waiting
dump_bytes (wrote n ∷ results) page to_write written f =
    let n' = min n to_write in
    let rest =
      dump_bytes results page (to_write - n') (written + n')
        (write_bytes (take n' (drop written page)) f) in
    if to_write == 0 then finished f else rest
dump_bytes (again ∷ results) page to_write written f =
    let rest = dump_bytes results page to_write written f in
    if to_write == 0 then finished f else rest
dump_bytes (failed ∷ results) page to_write written f =
    let rest = dump_bytes results page to_write written f in
    if to_write == 0 then finished f else rest

abbrev pub with_values : Disk → Outcome File → Outcome Disk
with_values disk (finished f) = finished (record disk { vfd = f })
with_values disk exited = exited
with_values disk waiting = waiting

-- `page` is the page's bytes in the arena and `header` the header of `page_idx`.
unfoldable pub disk_dump_page : List WriteResult → Disk → ℕ → PageHeader → List ℕ → Outcome Disk
disk_dump_page results disk page_idx header page =
    with_values (record disk { lsn = max disk.lsn header.page_lsn })
      (dump_bytes results page page_size 0
        (seek_set (disk.arena_start + page_idx * page_size) disk.vfd))

-- One call of `read`: a number of bytes, or an error, which is tried again.
pub data ReadResult : Type 0 where
  took : ℕ → ReadResult
  read_failed : ReadResult

-- `while (to_read)`: what is copied to the page of the arena.
unfoldable pub upload_bytes : List ReadResult → ℕ → File → List ℕ → Outcome (List ℕ × File)
upload_bytes [] to_read f page = if to_read == 0 then finished (page, f) else waiting
upload_bytes (took n ∷ results) to_read f page =
    let n' = length (read_bytes (min n to_read) f) in
    let rest =
      upload_bytes results (to_read - n') (after_read (min n to_read) f)
        (page ++ read_bytes (min n to_read) f) in
    if to_read == 0 then finished (page, f) else rest
upload_bytes (read_failed ∷ results) to_read f page =
    let rest = upload_bytes results to_read f page in
    if to_read == 0 then finished (page, f) else rest

abbrev pub with_page : Disk → Outcome (List ℕ × File) → Outcome (List ℕ × Disk)
with_page disk (finished (page, f)) = finished (page, record disk { vfd = f })
with_page disk exited = exited
with_page disk waiting = waiting

unfoldable pub disk_upload_page : List ReadResult → Disk → ℕ → Outcome (List ℕ × Disk)
disk_upload_page results disk disk_page_idx = with_page disk (
    upload_bytes results page_size
      (seek_set (disk.arena_start + disk_page_idx * page_size) disk.vfd) [])

-- The file, the number of bytes behind its start, and `keys_dumped`; what each call of `write`
-- returns, and the number of calls made.
pub record Dump : Type 0 where
  pub results : ℕ → WriteResult
  pub calls : ℕ
  pub file : File
  pub bytes : ℕ
  pub keys_dumped : ℕ

-- What one call of `write` does to the file, and `bytes` with its result added, also if it is -1.
abbrev pub written_file : WriteResult → List ℕ → File → File
written_file (wrote n) data' f = write_bytes (take (min n (length data')) data') f
written_file again data' f = f
written_file failed data' f = f

abbrev pub written_count : WriteResult → List ℕ → ℕ → ℕ
written_count (wrote n) data' bytes = bytes + min n (length data')
written_count again data' bytes = (bytes + (2 ^ 64 - 1)) % 2 ^ 64
written_count failed data' bytes = (bytes + (2 ^ 64 - 1)) % 2 ^ 64

-- `bytes += write(disk->kfd, ...)`
abbrev pub dump : Dump → List ℕ → Dump
dump d data' = record d {
  file = written_file (d.results d.calls) data' d.file;
  bytes = written_count (d.results d.calls) data' d.bytes;
  calls = d.calls + 1;
}

-- The bytes of a key behind its length.
abbrev pub key_body : PageKey → List ℕ
key_body k = le_bytes 8 k.page ++ (le_bytes 2 k.offset ++ (le_bytes 2 k.key.size ++ contents k.key))

abbrev pub key_length : PageKey → ℕ
key_length k = 8 + 2 + 2 + k.key.size

abbrev pub count_key : Dump → Dump
count_key d = record d { keys_dumped = (d.keys_dumped + 1) % 2 ^ 64 }

unfoldable pub dump_keys : Dump → List PageKey → Dump
dump_keys d [] = d
dump_keys d (k ∷ keys) =
    dump_keys (count_key (dump d (le_bytes 8 (key_length k) ++ key_body k))) keys

unfoldable pub dump_headers : Dump → List PageHeader → Dump
dump_headers d [] = d
dump_headers d (header ∷ headers) =
    dump_headers
      (dump_keys
        (dump (dump d (le_bytes 2 header.offset_bytes)) (le_bytes 2 (length header.keys % 2 ^ 16)))
        header.keys)
      headers

abbrev pub end_dump : Disk → Dump → Disk
end_dump disk d = record disk { kfd = truncate d.bytes d.file; keys_dumped = d.keys_dumped }

-- `headers` are the arena's.
unfoldable pub disk_dump_keys : (ℕ → WriteResult) → Disk → List PageHeader → Disk
disk_dump_keys results disk headers = end_dump disk (
    dump_headers
      (record {
        results = results;
        calls = 0;
        file = seek_set disk.keys_start disk.kfd;
        bytes = disk.keys_start;
        keys_dumped = disk.keys_dumped;
      })
      headers)

-- `offset_bytes` and the number of keys; -1 at the end of the file.
unfoldable pub disk_upload_header : Disk → Recovered (Option (ℕ × ℕ) × Disk)
disk_upload_header disk = if length (read_bytes 2 disk.kfd) == 0 then recovered (none, disk) else do
  (offset_bytes, f₁) ← read_exactly 2 disk.kfd
  (keys_total, f₂) ← read_exactly 2 f₁
  recovered (some (of_le_bytes offset_bytes, of_le_bytes keys_total), record disk { kfd = f₂ })

abbrev pub parse_key : List ℕ → Recovered PageKey
parse_key p = do
  (page, p₁) ← copy_out 8 p
  (offset, p₂) ← copy_out 2 p₁
  (key, p₃) ← copy_str p₂
  recovered (record { offset = of_le_bytes offset; page = of_le_bytes page; key = key })

-- -1 at the end of the file.
unfoldable pub disk_upload_key : Disk → Recovered (Option PageKey × Disk)
disk_upload_key disk = if length (read_bytes 8 disk.kfd) == 0 then recovered (none, disk) else do
  (size, f₁) ← read_exactly 8 disk.kfd
  (buffer, f₂) ← read_exactly (of_le_bytes size) f₁
  k ← parse_key buffer
  recovered (some k, record disk { kfd = f₂ })

abbrev pub count_keys : List PageHeader → ℕ
count_keys [] = 0
count_keys (header ∷ headers) = length header.keys + count_keys headers
