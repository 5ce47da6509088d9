-- ===== src/Disk/Restart.antt =====
-- A snapshot of the keys, the end of the server, and its next start.
use fgdb.Prelude.{
  ℕ, suc, ◌+◌, ◌-◌, ◌%◌, ◌^◌, ◌<◌, ◌≡◌, refl, sym, ap, ◌∙◌, List, [], ◌∷◌, ◌++◌, arith, All, map,
  length, drop-append, take-append, append-nil,
}
use fgdb.Prelude.Bytes.{le_bytes, length-le_bytes, of_le_bytes-le_bytes}
use fgdb.OsFile.{seek_set}
use fgdb.Wal.{recovered, WriteResult}
use fgdb.Disk.{
  PageKey, PageHeader, Disk, Dump, dump, init_disk, destroy_disk, dump_keys, dump_headers,
  disk_dump_keys, count_keys,
}
use fgdb.Disk.Keys.{
  IsHeader, Whole, before, headers_image, ahead, reread_key, reread_header, tail, length-before,
  kfd-disk_dump_keys,
}
use fgdb.Disk.Upload.{upload_headers, upload_headers-headers_image}

keys_dumped-dump_keys :
    (keys : List PageKey) (d : Dump)
    → d.keys_dumped + length keys < 2 ^ 64
    → (dump_keys d keys).keys_dumped ≡ d.keys_dumped + length keys
unfolding dump_keys
keys_dumped-dump_keys [] d h = omega arith
keys_dumped-dump_keys (k ∷ keys) d h = keys_dumped-dump_keys keys _ (omega arith) ∙ omega arith

keys_dumped-dump_headers :
    (headers : List PageHeader) (d : Dump)
    → d.keys_dumped + count_keys headers < 2 ^ 64
    → (dump_headers d headers).keys_dumped ≡ d.keys_dumped + count_keys headers
unfolding dump_headers
keys_dumped-dump_headers [] d h = omega arith
keys_dumped-dump_headers (header ∷ headers) d h =
    let d₁ =
      dump (dump d (le_bytes 2 header.offset_bytes)) (le_bytes 2 (length header.keys % 2 ^ 16)) in
    let e : (dump_keys d₁ header.keys).keys_dumped ≡ d.keys_dumped + length header.keys =
      keys_dumped-dump_keys header.keys d₁ (omega arith) in
    keys_dumped-dump_headers headers (dump_keys d₁ header.keys) (omega (arith, e))
    ∙ omega (arith, e)

keys_dumped-disk_dump_keys :
    (results : ℕ → WriteResult) (headers : List PageHeader) (d : Disk)
    → d.keys_dumped + count_keys headers < 2 ^ 64
    → (disk_dump_keys results d headers).keys_dumped ≡ d.keys_dumped + count_keys headers
unfolding disk_dump_keys
keys_dumped-disk_dump_keys results headers d h = keys_dumped-dump_headers headers _ h

-- The key file when the server has ended.
abbrev pub key_file : (ℕ → WriteResult) → Disk → List PageHeader → List ℕ
key_file results d headers = (destroy_disk (disk_dump_keys results d headers)).1

key_file_lem :
    (results : ℕ → WriteResult) (d : Disk) (headers : List PageHeader)
    → Whole results
    → All IsHeader headers
    → d.keys_start ≡ 8
    → key_file results d headers
      ≡ le_bytes 8 (disk_dump_keys results d headers).keys_dumped ++ headers_image headers
unfolding destroy_disk
key_file_lem results d headers whole ok e =
    let front : List ℕ = le_bytes 8 (disk_dump_keys results d headers).keys_dumped in
    let z : 0 - length (disk_dump_keys results d headers).kfd.bytes ≡ 0 = omega arith in
    let n : 0 + length front ≡ 8 =
      omega (arith, length-le_bytes 8 (disk_dump_keys results d headers).keys_dumped) in
    let at : length (before (seek_set d.keys_start d.kfd)) ≡ 8 = length-before _ ∙ e in
    rw (z, n, kfd-disk_dump_keys results d headers)
      (ap (λ s. front ++ s)
        (drop-append 8 (before (seek_set d.keys_start d.kfd)) (headers_image headers) at))

length-map_key : (keys : List PageKey) → length (map reread_key keys) ≡ length keys
length-map_key [] = refl
length-map_key (k ∷ keys) = ap suc (length-map_key keys)

count_keys-map :
    (lsn : ℕ) (headers : List PageHeader)
    → count_keys (map (reread_header lsn) headers) ≡ count_keys headers
count_keys-map lsn [] = refl
count_keys-map lsn (h ∷ headers) = omega (arith, length-map_key h.keys, count_keys-map lsn headers)

-- The disk at the next start, where `values` is the snapshot file of the values.
abbrev pub restarted : List ℕ → (ℕ → WriteResult) → Disk → List PageHeader → Disk
restarted values results d headers = init_disk values (key_file results d headers)

module _ (values : List ℕ) (results : ℕ → WriteResult) (whole : Whole results) (d : Disk)
    (headers : List PageHeader) (ok : All IsHeader headers) (start : d.keys_start ≡ 8)
    (few : d.keys_dumped + count_keys headers < 2 ^ 64) where
  tail-next : tail (restarted values results d headers) ≡ headers_image headers ++ []
  unfolding init_disk
  tail-next = rw (key_file_lem results d headers whole ok start) (
      drop-append 8 (le_bytes 8 (disk_dump_keys results d headers).keys_dumped)
        (headers_image headers) (length-le_bytes 8 _)
      ∙ sym (append-nil (headers_image headers)))

  nkeys-next : (restarted values results d headers).nkeys ≡ d.keys_dumped + count_keys headers
  unfolding init_disk
  nkeys-next =
      let e = keys_dumped-disk_dump_keys results headers d few in
      rw
        (
          key_file_lem results d headers whole ok start,
          take-append 8 (le_bytes 8 (disk_dump_keys results d headers).keys_dumped)
              (headers_image headers)
              (length-le_bytes 8 (disk_dump_keys results d headers).keys_dumped),
          e,
        )
        (of_le_bytes-le_bytes 8 (d.keys_dumped + count_keys headers) few)

  reads :
      (restarted values results d headers).pages ≡ length headers
      → upload_headers
          (restarted values results d headers).pages
          (restarted values results d headers).lsn
          (restarted values results d headers)
        ≡ recovered (
          map (reread_header (restarted values results d headers).lsn) headers,
          ahead (restarted values results d headers) (length (headers_image headers)),
        )
  reads pages = rw pages (upload_headers-headers_image headers _ _ [] ok tail-next)

  -- For headers whose keys are well formed, where no snapshot was made before, the number of keys
  -- fits 64 bits, the values file has a page for each header and every call of write takes all its
  -- bytes: behind disk_dump_keys, destroy_disk and init_disk, one call of disk_upload_header for
  -- each page, and one of disk_upload_key for each key that it counts, read all headers with all
  -- their keys in order, and nkeys is the number of keys.
  pub upload_headers-disk_dump_keys :
      (restarted values results d headers).pages ≡ length headers
      → d.keys_dumped ≡ 0
      → (upload_headers
            (restarted values results d headers).pages
            (restarted values results d headers).lsn
            (restarted values results d headers)
          ≡ recovered (
            map (reread_header (restarted values results d headers).lsn) headers,
            ahead (restarted values results d headers) (length (headers_image headers)),
          ))
        × ((restarted values results d headers).nkeys ≡ count_keys headers)
  upload_headers-disk_dump_keys pages none' = (reads pages, omega (arith, nkeys-next))

  -- For headers whose keys are well formed, where the values file has a page for each header and
  -- every call of write takes all its bytes, but a snapshot has counted keys before, and the
  -- counts together fit 64 bits: behind disk_dump_keys, destroy_disk and init_disk the calls of
  -- disk_upload_header and disk_upload_key end, and nkeys is more than the number of keys that
  -- they read.
  pub disk_dump_keys_again :
      (restarted values results d headers).pages ≡ length headers
      → 0 < d.keys_dumped
      → (read : List PageHeader) × ((d' : Disk) × ((upload_headers
                (restarted values results d headers).pages
                (restarted values results d headers).lsn
                (restarted values results d headers)
              ≡ recovered (read, d'))
            × (count_keys read < (restarted values results d headers).nkeys)))
  disk_dump_keys_again pages some' =
      let lsn = (restarted values results d headers).lsn in
      (_, (_, (reads pages, omega (arith, nkeys-next, count_keys-map lsn headers))))
