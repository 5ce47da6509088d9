-- ===== src/Disk/Tests.antt =====
-- Runs of the snapshot on one page with two keys.
use fgdb.Prelude.{
  ℕ, ◌+◌, ◌<◌, ◌≡◌, refl, some, List, [], ◌∷◌, map, length, replicate, length-replicate, arith,
}
use fgdb.Str.{Str}
use fgdb.Wal.{recovered, WriteResult, wrote, again, failed, finished, waiting}
use fgdb.Disk.{
  PageKey, PageHeader, Disk, init_disk, count_keys, disk_dump_page, disk_upload_page, took,
  read_failed, ReadResult,
}
use fgdb.Disk.Pages.{uploaded, disk_upload_page-disk_dump_page, disk_upload_page_waits}
use fgdb.Disk.Keys.{IsPageKey, IsHeader, headers_image, ahead, reread_header}
use fgdb.Disk.Restart.{restarted, upload_headers-disk_dump_keys, disk_dump_keys_again}
use fgdb.Disk.Upload.{upload_headers}

abbrev str : List ℕ → Str
str bytes = record { size = length bytes; ptr = some bytes }

abbrev key_a : PageKey
key_a = record { offset = 0; page = 0; key = str (97 ∷ []) }

abbrev key_bc : PageKey
key_bc = record { offset = 300; page = 0; key = str (98 ∷ 99 ∷ []) }

abbrev page : PageHeader
page = record { offset_bytes = 306; page_lsn = 5; keys = key_a ∷ key_bc ∷ [] }

key_a-IsPageKey : IsPageKey key_a
key_a-IsPageKey = record {
  offset_fits = omega arith;
  page_fits = omega arith;
  key_ok = record { fits = omega arith; holds = omega arith };
}

key_bc-IsPageKey : IsPageKey key_bc
key_bc-IsPageKey = record {
  offset_fits = omega arith;
  page_fits = omega arith;
  key_ok = record { fits = omega arith; holds = omega arith };
}

page-IsHeader : IsHeader page
page-IsHeader = record {
  offset_fits = omega arith;
  keys_fit = omega arith;
  keys_ok = (key_a-IsPageKey, (key_bc-IsPageKey, tt));
}

-- A file with room for one page.
abbrev values : List ℕ
values = replicate (8 + 4096) 0

abbrev disk : Disk
disk = init_disk [] []

-- The disk at a second snapshot.
abbrev dumped : Disk
dumped = record disk { keys_dumped = 2 }

abbrev all : ℕ → WriteResult
all i = wrote 200000

abbrev next : Disk → Disk
next d = restarted values all d (page ∷ [])

upload_headers-disk_dump_keys_example :
    (upload_headers (next disk).pages (next disk).lsn (next disk)
      ≡ recovered (
        map (reread_header (next disk).lsn) (page ∷ []),
        ahead (next disk) (length (headers_image (page ∷ []))),
      ))
    × ((next disk).nkeys ≡ 2)
unfolding init_disk
upload_headers-disk_dump_keys_example =
    upload_headers-disk_dump_keys values all (λ i. (200000, (refl, omega arith))) disk (page ∷ [])
      (page-IsHeader, tt) refl (omega arith) refl refl

disk_dump_keys_again_example :
    (read : List PageHeader) × ((d' : Disk) × ((upload_headers
            (next dumped).pages
            (next dumped).lsn
            (next dumped)
          ≡ recovered (read, d'))
        × (count_keys read < (next dumped).nkeys)))
unfolding init_disk
disk_dump_keys_again_example =
    disk_dump_keys_again values all (λ i. (200000, (refl, omega arith))) dumped (page ∷ [])
      (page-IsHeader, tt) refl (omega arith) refl (omega arith)

-- A file with one page, and the page behind it dumped.
abbrev one_page : Disk
one_page = record (init_disk [] []) { vfd = record { bytes = replicate 4104 0; pos = 8 } }

abbrev sevens : List ℕ
sevens = replicate 4096 7

abbrev writes : List WriteResult
writes = failed ∷ wrote 4000 ∷ again ∷ wrote 96 ∷ []

abbrev reads : List ReadResult
reads = took 96 ∷ read_failed ∷ took 4096 ∷ []

disk_upload_page-disk_dump_page_example :
    (disk' : Disk) × ((disk_dump_page writes one_page 1 page sevens ≡ finished disk')
      × ((uploaded reads disk' 1 ≡ finished sevens)
          × (uploaded reads disk' 0 ≡ uploaded reads one_page 0)))
unfolding init_disk
disk_upload_page-disk_dump_page_example =
    disk_upload_page-disk_dump_page writes reads one_page 1 0 page sevens
      (length-replicate {A = ℕ} 4096 7) refl refl (λ e. cc)
      (omega (arith, length-replicate {A = ℕ} 4104 0))

disk_upload_page_waits_example : disk_upload_page reads one_page 1 ≡ waiting
unfolding init_disk
disk_upload_page_waits_example =
    disk_upload_page_waits reads one_page 1 (omega (arith, length-replicate {A = ℕ} 4104 0))
