-- ===== src/Disk/Upload.antt =====
-- What the calls of `disk_upload_header` and `disk_upload_key` read of a key file that
-- `disk_dump_keys` wrote.
use fgdb.Prelude.{
  ℕ, suc, ◌+◌, ◌%◌, ◌^◌, ◌<◌, ◌≡◌, refl, ap, ◌∙◌, zero, Option, none, some, List, [], ◌∷◌, ◌++◌,
  arith, All, map, length, drop, take-append, length-append, append_assoc, ◌==◌, ==_of_ne, false,
}
use fgdb.Prelude.Bytes.{le_bytes, of_le_bytes, length-le_bytes, of_le_bytes-le_bytes}
use fgdb.OsFile.{File, read_bytes}
use fgdb.Wal.{Recovered, recovered, ◌>>=◌}
use fgdb.Wal.Encode.{read_exactly-append}
use fgdb.Disk.{PageKey, PageHeader, Disk, key_body, key_length, disk_upload_key, disk_upload_header}
use fgdb.Disk.Keys.{
  IsPageKey, IsHeader, key_image, keys_image, header_image, headers_image, ahead, reread_key,
  reread_header, length-key_body, length-key_image, parse_key-key_body, tail, tail-ahead,
}

abbrev pub with_key :
    Option PageKey → Disk → Recovered (List PageKey × Disk) → Recovered (List PageKey × Disk)
with_key none disk rest = recovered ([], disk)
with_key (some k) disk rest = do (keys, disk') ← rest; recovered (k ∷ keys, disk')

-- `n` calls of `disk_upload_key`, up to the end of the file.
unfoldable pub upload_keys : ℕ → Disk → Recovered (List PageKey × Disk)
upload_keys zero disk = recovered ([], disk)
upload_keys (suc n) disk = do
  (o, disk') ← disk_upload_key disk
  with_key o disk' (upload_keys n disk')

-- The calls for the keys of a header, and those for the other headers.
abbrev pub with_header :
    ℕ
    → Option (ℕ × ℕ)
    → Disk
    → (Disk → Recovered (List PageHeader × Disk))
    → Recovered (List PageHeader × Disk)
with_header lsn none disk rest = recovered ([], disk)
with_header lsn (some (offset_bytes, keys_total)) disk rest = do
  (keys, disk') ← upload_keys keys_total disk
  (headers, disk'') ← rest disk'
  recovered (record { offset_bytes = offset_bytes; page_lsn = lsn; keys = keys } ∷ headers, disk'')

-- `n` calls of `disk_upload_header`, each followed by the calls for its keys.
unfoldable pub upload_headers : ℕ → ℕ → Disk → Recovered (List PageHeader × Disk)
upload_headers zero lsn disk = recovered ([], disk)
upload_headers (suc n) lsn disk = do
  (o, disk') ← disk_upload_header disk
  with_header lsn o disk' (λ disk''. upload_headers n lsn disk'')

-- There is something to read.
not_empty :
    (f : File) (n : ℕ) (a rest : List ℕ)
    → length a ≡ suc n
    → drop f.pos f.bytes ≡ a ++ rest
    → (length (read_bytes (suc n) f) == 0) ≡ false
not_empty f n a rest e at =
    let m : length (read_bytes (suc n) f) ≡ suc n = rw (at, take-append (suc n) a rest e) e in
    ==_of_ne (length (read_bytes (suc n) f)) 0 (omega arith)

key_length-lt : (k : PageKey) → IsPageKey k → key_length k < 2 ^ 64
key_length-lt k ok = omega (arith, ok.key_ok.fits)

disk_upload_key-key_image :
    (d : Disk) (k : PageKey) (rest : List ℕ)
    → IsPageKey k
    → tail d ≡ key_image k ++ rest
    → disk_upload_key d ≡ recovered (some (reread_key k), ahead d (8 + key_length k))
unfolding disk_upload_key
disk_upload_key-key_image d k rest ok at =
    let size : List ℕ = le_bytes 8 (key_length k) in
    let at' : tail d ≡ size ++ (key_body k ++ rest) = at ∙ append_assoc size (key_body k) rest in
    let n : of_le_bytes size ≡ key_length k =
      of_le_bytes-le_bytes 8 (key_length k) (key_length-lt k ok) in
    let behind : tail (ahead d 8) ≡ key_body k ++ rest =
      tail-ahead d 8 size (key_body k ++ rest) (length-le_bytes 8 (key_length k)) at' in
    rw
      (
        not_empty d.kfd 7 size (key_body k ++ rest) (length-le_bytes 8 (key_length k)) at',
        read_exactly-append 8 d.kfd size (key_body k ++ rest) (length-le_bytes 8 (key_length k))
            at',
        n,
      )
      (rw
        (read_exactly-append (key_length k) (ahead d 8).kfd (key_body k) rest (length-key_body k ok)
          behind)
        (rw (parse_key-key_body k ok) (
          ap
            (λ (m : ℕ).
              recovered (some (reread_key k), record d { kfd = record d.kfd { pos = m } }))
            (omega arith))))

upload_keys-keys_image :
    (keys : List PageKey) (d : Disk) (rest : List ℕ)
    → All IsPageKey keys
    → tail d ≡ keys_image keys ++ rest
    → upload_keys (length keys) d
      ≡ recovered (map reread_key keys, ahead d (length (keys_image keys)))
unfolding upload_keys
upload_keys-keys_image [] d rest ok at =
    ap (λ (m : ℕ). recovered ([], record d { kfd = record d.kfd { pos = m } })) (omega arith)
upload_keys-keys_image (k ∷ keys) d rest ok at =
    let at' : tail d ≡ key_image k ++ (keys_image keys ++ rest) =
      at ∙ append_assoc (key_image k) (keys_image keys) rest in
    let n = 8 + key_length k in
    let behind : tail (ahead d n) ≡ keys_image keys ++ rest =
      tail-ahead d n (key_image k) (keys_image keys ++ rest) (length-key_image k ok.0) at' in
    rw (disk_upload_key-key_image d k (keys_image keys ++ rest) ok.0 at') (
      rw (upload_keys-keys_image keys (ahead d n) rest ok.1 behind) (
        ap
          (λ (m : ℕ).
            recovered (map reread_key (k ∷ keys), record d { kfd = record d.kfd { pos = m } }))
          (omega
            (arith, length-append {0} (key_image k) (keys_image keys), length-key_image k ok.0))))

disk_upload_header-header_image :
    (d : Disk) (h : PageHeader) (rest : List ℕ)
    → IsHeader h
    → tail d ≡ header_image h ++ rest
    → (disk_upload_header d ≡ recovered (some (h.offset_bytes, length h.keys), ahead d 4))
      × (tail (ahead d 4) ≡ keys_image h.keys ++ rest)
unfolding disk_upload_header
disk_upload_header-header_image d h rest ok at =
    let offset : List ℕ = le_bytes 2 h.offset_bytes in
    let total : List ℕ = le_bytes 2 (length h.keys % 2 ^ 16) in
    let at₁ : tail d ≡ offset ++ (total ++ (keys_image h.keys ++ rest)) =
      at
      ∙ append_assoc offset (total ++ keys_image h.keys) rest
      ∙ ap (λ s. offset ++ s) (append_assoc total (keys_image h.keys) rest) in
    let at₂ : tail (ahead d 2) ≡ total ++ (keys_image h.keys ++ rest) =
      tail-ahead d 2 offset _ (length-le_bytes 2 h.offset_bytes) at₁ in
    let at₃ : tail (ahead (ahead d 2) 2) ≡ keys_image h.keys ++ rest =
      tail-ahead (ahead d 2) 2 total _ (length-le_bytes 2 _) at₂ in
    let n : length h.keys % 2 ^ 16 ≡ length h.keys = omega (arith, ok.keys_fit) in
    let p : d.kfd.pos + 2 + 2 ≡ d.kfd.pos + 4 = omega arith in
    (
      rw
          (
            not_empty d.kfd 1 offset (total ++ (keys_image h.keys ++ rest))
                (length-le_bytes 2 h.offset_bytes) at₁,
            read_exactly-append 2 d.kfd offset (total ++ (keys_image h.keys ++ rest))
                (length-le_bytes 2 h.offset_bytes) at₁,
          )
          (rw
            (
              read_exactly-append 2 (ahead d 2).kfd total (keys_image h.keys ++ rest)
                  (length-le_bytes 2 (length h.keys % 2 ^ 16)) at₂,
              of_le_bytes-le_bytes 2 h.offset_bytes ok.offset_fits,
              n,
              of_le_bytes-le_bytes 2 (length h.keys) ok.keys_fit,
              p,
            )
            refl),
      rw p at at₃,
    )

length-header_image : (h : PageHeader) → length (header_image h) ≡ 4 + length (keys_image h.keys)
length-header_image h = omega (
  arith,
  length-append {0} (le_bytes 2 h.offset_bytes)
      (le_bytes 2 (length h.keys % 2 ^ 16) ++ keys_image h.keys),
  length-append {0} (le_bytes 2 (length h.keys % 2 ^ 16)) (keys_image h.keys),
  length-le_bytes 2 h.offset_bytes,
  length-le_bytes 2 (length h.keys % 2 ^ 16),
)

-- Where the images of headers stand in the key file, the headers and their keys are read.
pub upload_headers-headers_image :
    (headers : List PageHeader) (lsn : ℕ) (d : Disk) (rest : List ℕ)
    → All IsHeader headers
    → tail d ≡ headers_image headers ++ rest
    → upload_headers (length headers) lsn d
      ≡ recovered (map (reread_header lsn) headers, ahead d (length (headers_image headers)))
unfolding upload_headers
upload_headers-headers_image [] lsn d rest ok at =
    ap (λ (m : ℕ). recovered ([], record d { kfd = record d.kfd { pos = m } })) (omega arith)
upload_headers-headers_image (h ∷ headers) lsn d rest ok at =
    let at₁ : tail d ≡ header_image h ++ (headers_image headers ++ rest) =
      at ∙ append_assoc (header_image h) (headers_image headers) rest in
    let (reads, at₂) =
      disk_upload_header-header_image d h (headers_image headers ++ rest) ok.0 at₁ in
    let n = length (keys_image h.keys) in
    let at₃ : tail (ahead (ahead d 4) n) ≡ headers_image headers ++ rest =
      tail-ahead (ahead d 4) n (keys_image h.keys) (headers_image headers ++ rest) refl at₂ in
    rw reads (
      rw
        (upload_keys-keys_image h.keys (ahead d 4) (headers_image headers ++ rest) ok.0.keys_ok at₂)
        (rw (upload_headers-headers_image headers lsn (ahead (ahead d 4) n) rest ok.1 at₃) (
          ap
            (λ (m : ℕ).
              recovered (
                map (reread_header lsn) (h ∷ headers),
                record d { kfd = record d.kfd { pos = m } },
              ))
            (omega (
              arith,
              length-append {0} (header_image h) (headers_image headers),
              length-header_image h,
            )))))
