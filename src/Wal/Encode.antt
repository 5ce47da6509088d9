-- ===== src/Wal/Encode.antt =====
-- Lemmas on the pieces of a binary record and on what the reader makes of them.
use fgdb.Prelude.{
  ℕ, ◌+◌, ◌%◌, ◌^◌, ◌<◌, ◌≡◌, refl, ap, List, [], ◌∷◌, ◌++◌, arith, ltb_of_le, ==_refl, length,
  take, drop, take-append, drop-append, length-take, length-append, append_assoc, append-nil,
}
use fgdb.Prelude.Bytes.{le_bytes, of_le_bytes, length-le_bytes, of_le_bytes-le_bytes}
use fgdb.Str.{Str, block, contents, IsStr}
use fgdb.OsFile.{File}
use fgdb.Server.Message.{Msg}
use fgdb.Wal.{
  LogRecord, copied, to_binary, Recovered, recovered, read_exactly, copy_out, copy_str,
  parse_record,
}

-- A record whose strings are well formed and whose number fits 64 bits.
pub record IsRecord (r : LogRecord) : Type 0 where
  pub lsn_fits : r.lsn < 2 ^ 64
  pub key_ok : IsStr r.key
  pub val_ok : IsStr r.val

pub length-contents : {s : Str} → IsStr s → length (contents s) ≡ s.size
length-contents {s} ok = omega (arith, length-take s.size (block s.ptr), ok.holds)

-- The image of a string in a record: its size and its bytes.
abbrev pub str_image : Str → List ℕ
str_image s = le_bytes 2 s.size ++ contents s

abbrev pub body_image : LogRecord → List ℕ
body_image r = le_bytes 8 r.lsn ++ ((r.key.size % 256 ∷ []) ++ (str_image r.key ++ str_image r.val))

-- The whole size of a record.
abbrev pub record_size : LogRecord → ℕ
record_size r = 8 + 8 + 1 + (2 + r.key.size) + (2 + r.val.size)

take-image :
    (lsn size : ℕ)
    → take (8 + 1) (le_bytes 8 lsn ++ le_bytes 2 size) ≡ le_bytes 8 lsn ++ size % 256 ∷ []
unfolding le_bytes
take-image lsn size = refl

pub ptr-to_binary : (r : LogRecord) → (to_binary r).ptr ≡ le_bytes 8 (record_size r) ++ body_image r
unfolding to_binary
ptr-to_binary r =
    ap {B = List ℕ} (λ rest. le_bytes 8 (record_size r) ++ rest)
      (rw (take-image r.lsn r.key.size) (simp append_assoc))

pub copy_out-append : (n : ℕ) (p q : List ℕ) → length p ≡ n → copy_out n (p ++ q) ≡ recovered (p, q)
unfolding copy_out
copy_out-append n p q e = rw (
  ltb_of_le (length (p ++ q)) n (omega (arith, length-append p q)),
  take-append n p q e,
  drop-append n p q e,
)

pub copy_str-append :
    {s : Str} (rest : List ℕ)
    → IsStr s
    → copy_str (str_image s ++ rest) ≡ recovered (copied s, rest)
unfolding copy_str
copy_str-append {s} rest ok = rw (
  append_assoc,
  copy_out-append 2 (le_bytes 2 s.size) (contents s ++ rest) (length-le_bytes 2 s.size),
  of_le_bytes-le_bytes 2 s.size ok.fits,
  copy_out-append s.size (contents s) rest (length-contents ok),
)

pub read_exactly-append :
    (n : ℕ) (f : File) (d rest : List ℕ)
    → length d ≡ n
    → drop f.pos f.bytes ≡ d ++ rest
    → read_exactly n f ≡ recovered (d, record f { pos = f.pos + n })
unfolding read_exactly
read_exactly-append n f d rest e at = rw (at, take-append n d rest e, e, ==_refl n)

pub length-body_image : (r : LogRecord) → IsRecord r → length (body_image r) + 8 ≡ record_size r
length-body_image r ok = omega (
  arith,
  length-append {0} (le_bytes 8 r.lsn)
      ((r.key.size % 256 ∷ []) ++ (str_image r.key ++ str_image r.val)),
  length-append {0} (str_image r.key) (str_image r.val),
  length-append {0} (le_bytes 2 r.key.size) (contents r.key),
  length-append {0} (le_bytes 2 r.val.size) (contents r.val),
  length-le_bytes 8 r.lsn,
  length-le_bytes 2 r.key.size,
  length-le_bytes 2 r.val.size,
  length-contents ok.key_ok,
  length-contents ok.val_ok,
)

-- The message that a reader makes of a record: key and value are those that were logged, and the
-- command is the low byte of the key's size.
abbrev pub reread : LogRecord → Msg
reread r = record { cmd = r.key.size % 256; key = copied r.key; val = copied r.val }

pub parse-body_image :
    (r : LogRecord) → IsRecord r → parse_record (body_image r) ≡ recovered (reread r)
unfolding parse_record of_le_bytes
parse-body_image r ok =
    rw
      (copy_out-append 8 (le_bytes 8 r.lsn)
        ((r.key.size % 256 ∷ []) ++ (str_image r.key ++ str_image r.val)) (length-le_bytes 8 r.lsn))
      (rw (copy_out-append 1 (r.key.size % 256 ∷ []) (str_image r.key ++ str_image r.val) refl) (
        rw
          (
            copy_str-append (str_image r.val) ok.key_ok,
            ← append-nil (str_image r.val),
            copy_str-append [] ok.val_ok,
          )
          (ap {B = Recovered Msg}
            (λ (n : ℕ). recovered (record { cmd = n; key = copied r.key; val = copied r.val }))
            (omega arith))))
