-- ===== src/Disk/Pages.antt =====
-- Pages in the values file: `disk_dump_page` and `disk_upload_page`.
use fgdb.Prelude.{
  ℕ, ◌+◌, ◌-◌, ◌*◌, ◌≤◌, ◌<◌, ◌≡◌, ◌≢◌, refl, sym, ap, ◌∙◌, List, [], ◌∷◌, ◌++◌, arith, min, max,
  length, take, drop, Bool-cases, inl, inr, ==_of_ne, same_or_not, ltb, ltb→lt, length-take,
  length-drop, take-append-drop, append-nil, append_assoc, drop-drop, drop_all, take-add,
}
use fgdb.OsFile.{File, seek_set, write_bytes, read_bytes, after_read}
use fgdb.OsFile.Writes.{
  take-write_bytes, take-write_bytes_before, drop-write_bytes_behind, write_bytes-write_bytes,
  length-write_bytes,
}
use fgdb.Wal.{WriteResult, wrote, again, failed, Outcome, finished, exited, waiting}
use fgdb.Disk.{
  Disk, PageHeader, page_size, dump_bytes, disk_dump_page, ReadResult, took, read_failed,
  upload_bytes, disk_upload_page,
}

-- Among the calls of `write` are some that write `left` bytes in all.
abbrev pub WritesEnough : List WriteResult → ℕ → Type 0
WritesEnough [] left = left ≡ 0
WritesEnough (wrote n ∷ results) left = WritesEnough results (left - n)
WritesEnough (again ∷ results) left = WritesEnough results left
WritesEnough (failed ∷ results) left = WritesEnough results left

abbrev pub ReadsEnough : List ReadResult → ℕ → Type 0
ReadsEnough [] left = left ≡ 0
ReadsEnough (took n ∷ results) left = ReadsEnough results (left - n)
ReadsEnough (read_failed ∷ results) left = ReadsEnough results left

-- The bytes written, unless there are none.
abbrev put : List ℕ → File → File
put [] f = f
put (b ∷ bytes) f = write_bytes (b ∷ bytes) f

put_some : (bytes : List ℕ) (f : File) → 0 < length bytes → put bytes f ≡ write_bytes bytes f
put_some [] f h = absurd (omega arith)
put_some (b ∷ bytes) f h = refl

put-write_bytes : (a b : List ℕ) (f : File) → put b (write_bytes a f) ≡ write_bytes (a ++ b) f
put-write_bytes a [] f = rw (append-nil a) refl
put-write_bytes a (b ∷ bs) f = write_bytes-write_bytes a (b ∷ bs) f

-- The loop puts out all that is left, whatever errors come between, and ends.
dump_bytes-put :
    (results : List WriteResult) (page : List ℕ) (to_write written : ℕ) (f : File)
    → WritesEnough results to_write
    → written + to_write ≡ length page
    → dump_bytes results page to_write written f ≡ finished (put (drop written page) f)
unfolding dump_bytes
dump_bytes-put [] page to_write written f enough len =
    rw (enough, drop_all written page (omega arith)) refl
dump_bytes-put (again ∷ results) page to_write written f enough len =
    elim (same_or_not to_write 0) [
      | inl e ↦ rw (e, drop_all written page (omega arith)) refl
      | inr ne ↦
          rw (==_of_ne to_write 0 ne) (dump_bytes-put results page to_write written f enough len)
    ]
dump_bytes-put (failed ∷ results) page to_write written f enough len =
    elim (same_or_not to_write 0) [
      | inl e ↦ rw (e, drop_all written page (omega arith)) refl
      | inr ne ↦
          rw (==_of_ne to_write 0 ne) (dump_bytes-put results page to_write written f enough len)
    ]
dump_bytes-put (wrote n ∷ results) page to_write written f enough len =
    elim (same_or_not to_write 0) [
      | inl e ↦ rw (e, drop_all written page (omega arith)) refl
      | inr ne ↦
          let n' = min n to_write in
          let left : to_write - n ≡ to_write - n' = omega arith in
          rw (==_of_ne to_write 0 ne) (
            dump_bytes-put results page (to_write - n') (written + n')
              (write_bytes (take n' (drop written page)) f) (rw left at enough) (omega arith)
            ∙ ap finished (
                put-write_bytes (take n' (drop written page)) (drop (written + n') page) f
                ∙ rw
                    (
                      ← drop-drop n' written (written + n') page (omega arith),
                      take-append-drop n' (drop written page),
                    )
                    (sym
                      (put_some (drop written page) f (omega (arith, length-drop written page))))))
    ]

-- `f` with the offset `n` bytes on.
abbrev pub read_on : ℕ → File → File
read_on n f = record f { pos = f.pos + n }

length-read_bytes : (n : ℕ) (f : File) → f.pos + n ≤ length f.bytes → length (read_bytes n f) ≡ n
length-read_bytes n f h =
    omega (arith, length-take n (drop f.pos f.bytes), length-drop f.pos f.bytes)

read_bytes-add :
    (m n k : ℕ) (f : File)
    → m + n ≡ k
    → read_bytes m f ++ read_bytes n (read_on m f) ≡ read_bytes k f
read_bytes-add m n k f e =
    rw (← drop-drop m f.pos (f.pos + m) f.bytes (omega arith))
      (take-add m n k (drop f.pos f.bytes) e)

upload_done :
    (f : File) (page : List ℕ)
    → ◌≡◌ {A = Outcome (List ℕ × File)}
        (finished (page, f))
        (finished (page ++ read_bytes 0 f, read_on 0 f))
upload_done f page =
    rw (append-nil page) (ap (λ (n : ℕ). finished (page, record f { pos = n })) (omega arith))

-- The loop takes in what the file has at the offset, whatever errors come between, and ends.
upload_bytes-read_bytes :
    (results : List ReadResult) (to_read : ℕ) (f : File) (page : List ℕ)
    → ReadsEnough results to_read
    → f.pos + to_read ≤ length f.bytes
    → upload_bytes results to_read f page
      ≡ finished (page ++ read_bytes to_read f, read_on to_read f)
unfolding upload_bytes
upload_bytes-read_bytes [] to_read f page enough fits = rw enough (upload_done f page)
upload_bytes-read_bytes (read_failed ∷ results) to_read f page enough fits =
    elim (same_or_not to_read 0) [
      | inl e ↦ rw e (upload_done f page)
      | inr ne ↦
          rw (==_of_ne to_read 0 ne) (upload_bytes-read_bytes results to_read f page enough fits)
    ]
upload_bytes-read_bytes (took n ∷ results) to_read f page enough fits =
    elim (same_or_not to_read 0) [
      | inl e ↦ rw e (upload_done f page)
      | inr ne ↦
          let m = min n to_read in
          let left : to_read - n ≡ to_read - m = omega arith in
          let all : length (read_bytes m f) ≡ m = length-read_bytes m f (omega arith) in
          rw (==_of_ne to_read 0 ne, all)
            (upload_bytes-read_bytes results (to_read - m) (read_on m f) (page ++ read_bytes m f)
                (rw left at enough) (omega arith)
              ∙ rw
                  (
                    append_assoc page (read_bytes m f) (read_bytes (to_read - m) (read_on m f)),
                    read_bytes-add m (to_read - m) to_read f (omega arith),
                  )
                  (ap (λ (k : ℕ). finished (page ++ read_bytes to_read f, record f { pos = k }))
                    (omega arith)))
    ]

abbrev pub page_pos : Disk → ℕ → ℕ
page_pos disk page_idx = disk.arena_start + page_idx * page_size

-- The bytes of a page in the values file.
abbrev pub page_bytes : Disk → ℕ → List ℕ
page_bytes disk page_idx = take page_size (drop (page_pos disk page_idx) disk.vfd.bytes)

-- The file holds the page.
abbrev pub HasPage : Disk → ℕ → Type 0
HasPage disk page_idx = page_pos disk page_idx + page_size ≤ length disk.vfd.bytes

-- The disk behind the dump of a page.
abbrev pub dumped : Disk → ℕ → PageHeader → List ℕ → Disk
dumped disk page_idx header page = record disk {
  lsn = max disk.lsn header.page_lsn;
  vfd = write_bytes page (seek_set (page_pos disk page_idx) disk.vfd);
}

pub disk_dump_page-dumped :
    (results : List WriteResult) (disk : Disk) (page_idx : ℕ) (header : PageHeader) (page : List ℕ)
    → length page ≡ page_size
    → WritesEnough results page_size
    → disk_dump_page results disk page_idx header page ≡ finished (dumped disk page_idx header page)
unfolding disk_dump_page
disk_dump_page-dumped results disk page_idx header page len enough =
    let f = seek_set (page_pos disk page_idx) disk.vfd in
    rw (dump_bytes-put results page page_size 0 f enough (sym len), put_some page f (omega arith))
      refl

pub disk_upload_page-page_bytes :
    (results : List ReadResult) (disk : Disk) (page_idx : ℕ)
    → ReadsEnough results page_size
    → HasPage disk page_idx
    → disk_upload_page results disk page_idx
      ≡ finished (
        page_bytes disk page_idx,
        record disk { vfd = seek_set (page_pos disk page_idx + page_size) disk.vfd },
      )
unfolding disk_upload_page
disk_upload_page-page_bytes results disk page_idx enough has =
    rw
      (upload_bytes-read_bytes results page_size (seek_set (page_pos disk page_idx) disk.vfd) []
        enough has)
      refl

-- The bytes that an upload puts into the arena.
abbrev pub page_of : Outcome (List ℕ × Disk) → Outcome (List ℕ)
page_of (finished (page, disk)) = finished page
page_of exited = exited
page_of waiting = waiting

abbrev pub uploaded : List ReadResult → Disk → ℕ → Outcome (List ℕ)
uploaded results disk page_idx = page_of (disk_upload_page results disk page_idx)

has_still :
    (disk : Disk) (page_idx other : ℕ) (header : PageHeader) (page : List ℕ)
    → HasPage disk other
    → HasPage (dumped disk page_idx header page) other
has_still disk page_idx other header page has =
    omega (arith, length-write_bytes page (seek_set (page_pos disk page_idx) disk.vfd))

other_bytes :
    (disk : Disk) (page_idx other : ℕ) (header : PageHeader) (page : List ℕ)
    → length page ≡ page_size
    → other ≢ page_idx
    → HasPage disk other
    → page_bytes (dumped disk page_idx header page) other ≡ page_bytes disk other
other_bytes disk page_idx other header page len ne has =
    let f = seek_set (page_pos disk page_idx) disk.vfd in
    elim (Bool-cases (ltb other page_idx)) [
      | inl lt ↦
          let lt' : other < page_idx = ltb→lt other page_idx lt in
          take-write_bytes_before page f (page_pos disk other) page_size (omega arith) has
      | inr le ↦
          let gt : page_idx < other = ground arith in
          ap (take page_size) (drop-write_bytes_behind page f (page_pos disk other) (omega arith))
    ]

-- Nothing is read at or behind the end of the file.
upload_bytes_waits :
    (results : List ReadResult) (to_read : ℕ) (f : File) (page : List ℕ)
    → 0 < to_read
    → length f.bytes ≤ f.pos
    → upload_bytes results to_read f page ≡ waiting
unfolding upload_bytes
upload_bytes_waits [] to_read f page h behind = rw (==_of_ne to_read 0 (omega arith)) refl
upload_bytes_waits (read_failed ∷ results) to_read f page h behind =
    rw (==_of_ne to_read 0 (omega arith)) (upload_bytes_waits results to_read f page h behind)
upload_bytes_waits (took n ∷ results) to_read f page h behind =
    let m = min n to_read in
    let nothing : length (read_bytes m f) ≡ 0 =
      omega (arith, length-take m (drop f.pos f.bytes), length-drop f.pos f.bytes) in
    rw (==_of_ne to_read 0 (omega arith)) (
      upload_bytes_waits results (to_read - length (read_bytes m f)) (after_read m f)
        (page ++ read_bytes m f) (omega (arith, nothing)) (omega (arith, nothing)))

HasPage-dumped :
    (disk : Disk) (page_idx : ℕ) (header : PageHeader) (page : List ℕ)
    → length page ≡ page_size
    → HasPage (dumped disk page_idx header page) page_idx
HasPage-dumped disk page_idx header page len =
    omega (arith, length-write_bytes page (seek_set (page_pos disk page_idx) disk.vfd))

-- For a page of PAGE_SIZE bytes, where the calls of write and read move enough bytes, whatever
-- errors and short counts come between, disk_dump_page ends, disk_upload_page of the page then
-- ends with its bytes, and of another page that the file held it does what it did before.
pub disk_upload_page-disk_dump_page :
    (results : List WriteResult) (results' : List ReadResult) (disk : Disk) (page_idx other : ℕ)
    (header : PageHeader) (page : List ℕ)
    → length page ≡ page_size
    → WritesEnough results page_size
    → ReadsEnough results' page_size
    → other ≢ page_idx
    → HasPage disk other
    → (disk' : Disk) × ((disk_dump_page results disk page_idx header page ≡ finished disk')
        × ((uploaded results' disk' page_idx ≡ finished page)
            × (uploaded results' disk' other ≡ uploaded results' disk other)))
disk_upload_page-disk_dump_page results results' disk page_idx other header page len writes reads ne
      has =
    let f = seek_set (page_pos disk page_idx) disk.vfd in
    let disk' = dumped disk page_idx header page in
    let again =
      disk_upload_page-page_bytes results' disk' page_idx reads
        (HasPage-dumped disk page_idx header page len) in
    let others =
      disk_upload_page-page_bytes results' disk' other reads
        (has_still disk page_idx other header page has) in
    (
      disk',
      (
        disk_dump_page-dumped results disk page_idx header page len writes,
        (
          ap page_of again
              ∙ ap finished (
                  ap (λ (n : ℕ). take n (drop f.pos (write_bytes page f).bytes)) (sym len)
                  ∙ take-write_bytes page f),
          ap page_of others
              ∙ ap finished (other_bytes disk page_idx other header page len ne has)
              ∙ ap page_of (sym (disk_upload_page-page_bytes results' disk other reads has)),
        ),
      ),
    )

-- disk_upload_page of a page that starts at or behind the end of the values file does not end,
-- whatever the calls of read return.
pub disk_upload_page_waits :
    (results : List ReadResult) (disk : Disk) (page_idx : ℕ)
    → length disk.vfd.bytes ≤ page_pos disk page_idx
    → disk_upload_page results disk page_idx ≡ waiting
unfolding disk_upload_page
disk_upload_page_waits results disk page_idx h =
    rw
      (upload_bytes_waits results page_size (seek_set (page_pos disk page_idx) disk.vfd) []
        (omega arith) h)
      refl
