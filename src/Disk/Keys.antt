-- ===== src/Disk/Keys.antt =====
-- The key file: what `disk_dump_keys` writes, and how its parts are read.
use fgdb.Prelude.{
  ℕ, ◌+◌, ◌-◌, ◌%◌, ◌^◌, ◌<◌, ◌≤◌, min, take_all, ◌≡◌, refl, sym, ap, ◌∙◌, List, [], ◌∷◌, ◌++◌,
  arith, All, map, length, take, drop, replicate, take-append, drop-append, length-take,
  length-append, length-replicate, append_assoc, append-nil, drop-drop,
}
use fgdb.Prelude.Bytes.{le_bytes, length-le_bytes, of_le_bytes-le_bytes}
use fgdb.Str.{IsStr, contents}
use fgdb.OsFile.{File, seek_set, write_bytes}
use fgdb.Wal.{copied, recovered, WriteResult, wrote}
use fgdb.Wal.Encode.{length-contents, str_image, copy_out-append, copy_str-append}
use fgdb.Disk.{
  PageKey, PageHeader, Disk, Dump, dump, dump_keys, dump_headers, count_key, key_body, key_length,
  disk_dump_keys, parse_key,
}

-- What lies before the offset of a file, a gap counted as zeros.
abbrev pub before : File → List ℕ
before f = take f.pos f.bytes ++ replicate (f.pos - length f.bytes) 0

pub length-before : (f : File) → length (before f) ≡ f.pos
length-before f = omega (
  arith,
  length-append {0} (take f.pos f.bytes) (replicate (f.pos - length f.bytes) 0),
  length-take f.pos f.bytes,
  length-replicate {A = ℕ} (f.pos - length f.bytes) 0,
)

before-write_bytes : (d : List ℕ) (f : File) → before (write_bytes d f) ≡ before f ++ d
before-write_bytes d f =
    let gap : List ℕ = replicate (f.pos - length f.bytes) 0 in
    let rest : List ℕ = drop (f.pos + length d) f.bytes in
    let n : length (before f ++ d) ≡ f.pos + length d =
      omega (arith, length-append {0} (before f) d, length-before f) in
    let none' : f.pos + length d - length ((before f ++ d) ++ rest) ≡ 0 =
      omega (arith, n, length-append {0} (before f ++ d) rest) in
    rw
      (
        ← append_assoc (take f.pos f.bytes) gap (d ++ rest),
        ← append_assoc (before f) d rest,
        none',
        take-append (f.pos + length d) (before f ++ d) rest n,
      )
      (append-nil (before f ++ d))

pub record IsPageKey (k : PageKey) : Type 0 where
  pub offset_fits : k.offset < 2 ^ 16
  pub page_fits : k.page < 2 ^ 64
  pub key_ok : IsStr k.key

pub record IsHeader (h : PageHeader) : Type 0 where
  pub offset_fits : h.offset_bytes < 2 ^ 16
  pub keys_fit : length h.keys < 2 ^ 16
  pub keys_ok : All IsPageKey h.keys

abbrev pub key_image : PageKey → List ℕ
key_image k = le_bytes 8 (key_length k) ++ key_body k

abbrev pub keys_image : List PageKey → List ℕ
keys_image [] = []
keys_image (k ∷ keys) = key_image k ++ keys_image keys

abbrev pub header_image : PageHeader → List ℕ
header_image h =
    le_bytes 2 h.offset_bytes ++ (le_bytes 2 (length h.keys % 2 ^ 16) ++ keys_image h.keys)

abbrev pub headers_image : List PageHeader → List ℕ
headers_image [] = []
headers_image (h ∷ headers) = header_image h ++ headers_image headers

pub length-key_body : (k : PageKey) → IsPageKey k → length (key_body k) ≡ key_length k
length-key_body k ok = omega (
  arith,
  length-append {0} (le_bytes 8 k.page) (le_bytes 2 k.offset ++ str_image k.key),
  length-append {0} (le_bytes 2 k.offset) (str_image k.key),
  length-append {0} (le_bytes 2 k.key.size) (contents k.key),
  length-le_bytes 8 k.page,
  length-le_bytes 2 k.offset,
  length-le_bytes 2 k.key.size,
  length-contents ok.key_ok,
)

pub length-key_image : (k : PageKey) → IsPageKey k → length (key_image k) ≡ 8 + key_length k
length-key_image k ok = omega (
  arith,
  length-append {0} (le_bytes 8 (key_length k)) (key_body k),
  length-le_bytes 8 (key_length k),
  length-key_body k ok,
)

-- The dump has written `d`, and counted as many bytes.
record Wrote (d : Dump) (bytes : List ℕ) (d' : Dump) : Type 0 where
  pub grows : before d'.file ≡ before d.file ++ bytes
  pub counts : d'.bytes ≡ d.bytes + length bytes
  pub moves : d'.file.pos ≡ d.file.pos + length bytes
  pub same : d'.results ≡ d.results

-- Every call of `write` takes all the bytes of a key or of a header's numbers.
abbrev pub Whole : (ℕ → WriteResult) → Type 0
Whole results = (i : ℕ) → (n : ℕ) × ((results i ≡ wrote n) × (2 ^ 17 ≤ n))

Wrote-trans :
    {d d' d'' : Dump} {a b : List ℕ} → Wrote d a d' → Wrote d' b d'' → Wrote d (a ++ b) d''
Wrote-trans {d} {d'} {d''} {a} {b} x y = record {
  grows = y.grows ∙ ap (λ s. s ++ b) x.grows ∙ append_assoc (before d.file) a b;
  counts = omega (arith, x.counts, y.counts, length-append {0} a b);
  moves = omega (arith, x.moves, y.moves, length-append {0} a b);
  same = y.same ∙ x.same;
}

Wrote-nil : (d : Dump) → Wrote d [] d
Wrote-nil d = record {
  grows = sym (append-nil (before d.file));
  counts = omega arith;
  moves = omega arith;
  same = refl;
}

Wrote-dump :
    (d : Dump) (bytes : List ℕ)
    → Whole d.results
    → length bytes ≤ 2 ^ 17
    → Wrote d bytes (dump d bytes)
Wrote-dump d bytes whole fits =
    let (n, (is, le)) = whole d.calls in
    let m : min n (length bytes) ≡ length bytes = omega arith in
    let all : take (length bytes) bytes ≡ bytes = take_all (length bytes) bytes (omega arith) in
    record {
      grows = rw (is, m, all) (before-write_bytes bytes d.file);
      counts = rw (is, m) refl;
      moves = rw (is, m, all) refl;
      same = refl;
    }

-- The calls behind some that were whole are whole.
Whole-behind :
    {d d' : Dump} {bytes : List ℕ} → Wrote d bytes d' → Whole d.results → Whole d'.results
Whole-behind w whole i = rw w.same (whole i)

Wrote-dump_keys :
    (keys : List PageKey) (d : Dump)
    → Whole d.results
    → All IsPageKey keys
    → Wrote d (keys_image keys) (dump_keys d keys)
unfolding dump_keys
Wrote-dump_keys [] d whole ok = Wrote-nil d
Wrote-dump_keys (k ∷ keys) d whole ok =
    let w =
      Wrote-dump d (key_image k) whole (omega (arith, length-key_image k ok.0, ok.0.key_ok.fits)) in
    let one : Wrote d (key_image k) (count_key (dump d (key_image k))) = record {
      grows = w.grows;
      counts = w.counts;
      moves = w.moves;
      same = refl;
    } in
    Wrote-trans one (Wrote-dump_keys keys (count_key (dump d (key_image k))) whole ok.1)

Wrote-dump_headers :
    (headers : List PageHeader) (d : Dump)
    → Whole d.results
    → All IsHeader headers
    → Wrote d (headers_image headers) (dump_headers d headers)
unfolding dump_headers
Wrote-dump_headers [] d whole ok = Wrote-nil d
Wrote-dump_headers (h ∷ headers) d whole ok =
    let size : List ℕ = le_bytes 2 (length h.keys % 2 ^ 16) in
    let d₁ = dump d (le_bytes 2 h.offset_bytes) in
    let d₂ = dump_keys (dump d₁ size) h.keys in
    let small : (n : ℕ) → length (le_bytes 2 n) ≤ 2 ^ 17 =
      λ n. omega (arith, length-le_bytes 2 n) in
    let keys = Wrote-dump_keys h.keys (dump d₁ size) whole ok.0.keys_ok in
    Wrote-trans
      (Wrote-trans (Wrote-dump d (le_bytes 2 h.offset_bytes) whole (small h.offset_bytes))
        (Wrote-trans (Wrote-dump d₁ size whole (small (length h.keys % 2 ^ 16))) keys))
      (Wrote-dump_headers headers d₂ (Whole-behind keys whole) ok.1)

-- The key file behind a dump: what lay before the keys, and their image.
pub kfd-disk_dump_keys :
    (results : ℕ → WriteResult) (d : Disk) (headers : List PageHeader)
    → Whole results
    → All IsHeader headers
    → (disk_dump_keys results d headers).kfd.bytes
      ≡ before (seek_set d.keys_start d.kfd) ++ headers_image headers
unfolding disk_dump_keys
kfd-disk_dump_keys results d headers whole ok =
    let start : Dump = record {
      results = results;
      calls = 0;
      file = seek_set d.keys_start d.kfd;
      bytes = d.keys_start;
      keys_dumped = d.keys_dumped;
    } in
    let w = Wrote-dump_headers headers start whole ok in
    let n : (dump_headers start headers).bytes ≡ (dump_headers start headers).file.pos =
      w.counts ∙ sym w.moves in
    rw n w.grows

-- A disk that has read `n` bytes more of the key file.
abbrev pub ahead : Disk → ℕ → Disk
ahead d n = record d { kfd = record d.kfd { pos = d.kfd.pos + n } }

-- What a reader makes of a key.
abbrev pub reread_key : PageKey → PageKey
reread_key k = record k { key = copied k.key }

abbrev pub reread_header : ℕ → PageHeader → PageHeader
reread_header lsn h = record h { page_lsn = lsn; keys = map reread_key h.keys }

pub parse_key-key_body :
    (k : PageKey) → IsPageKey k → parse_key (key_body k) ≡ recovered (reread_key k)
parse_key-key_body k ok =
    rw
      (copy_out-append 8 (le_bytes 8 k.page) (le_bytes 2 k.offset ++ str_image k.key)
        (length-le_bytes 8 k.page))
      (rw (copy_out-append 2 (le_bytes 2 k.offset) (str_image k.key) (length-le_bytes 2 k.offset)) (
        rw
          (
            ← append-nil (str_image k.key),
            copy_str-append [] ok.key_ok,
            of_le_bytes-le_bytes 8 k.page ok.page_fits,
            of_le_bytes-le_bytes 2 k.offset ok.offset_fits,
          )
          refl))

-- The bytes that follow the offset.
abbrev pub tail : Disk → List ℕ
tail d = drop d.kfd.pos d.kfd.bytes

pub tail-ahead :
    (d : Disk) (n : ℕ) (a rest : List ℕ)
    → length a ≡ n
    → tail d ≡ a ++ rest
    → tail (ahead d n) ≡ rest
tail-ahead d n a rest e at =
    rw (← drop-drop n d.kfd.pos (d.kfd.pos + n) d.kfd.bytes (omega arith), at)
      (drop-append n a rest e)
