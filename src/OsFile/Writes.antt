-- ===== src/OsFile/Writes.antt =====
-- Writes at any offset, behind the end of the file too: what a read finds after them.
use fgdb.Prelude.{
  ℕ, zero, suc, ◌+◌, ◌-◌, ◌≤◌, ◌≡◌, refl, sym, ap, ◌∙◌, List, [], ◌∷◌, ◌++◌, arith, length, take,
  drop, replicate, length-append, length-take, length-drop, length-replicate, append_assoc,
  take-append, drop-append, take-append_more, drop-append_more, drop-drop,
}
use fgdb.OsFile.{File, write_bytes}

-- What stands before the offset, filled up with zeros behind the end.
abbrev front : File → List ℕ
front f = take f.pos f.bytes ++ replicate (f.pos - length f.bytes) 0

length-front : (f : File) → length (front f) ≡ f.pos
length-front f = omega (
  arith,
  length-append (take f.pos f.bytes) (replicate (f.pos - length f.bytes) 0),
  length-take f.pos f.bytes,
  length-replicate {A = ℕ} (f.pos - length f.bytes) 0,
)

bytes-write_bytes :
    (d : List ℕ) (f : File)
    → (write_bytes d f).bytes ≡ front f ++ (d ++ drop (f.pos + length d) f.bytes)
bytes-write_bytes d f = sym (
    append_assoc (take f.pos f.bytes) (replicate (f.pos - length f.bytes) 0)
      (d ++ drop (f.pos + length d) f.bytes))

-- A write makes the file as long as its end, and never shorter.
pub length-write_bytes :
    (d : List ℕ) (f : File)
    → (length f.bytes ≤ length (write_bytes d f).bytes)
      × (f.pos + length d ≤ length (write_bytes d f).bytes)
length-write_bytes d f =
    let len : length (write_bytes d f).bytes
        ≡ length (front f) + (length d + length (drop (f.pos + length d) f.bytes)) =
      ap length (bytes-write_bytes d f)
      ∙ length-append (front f) (d ++ drop (f.pos + length d) f.bytes)
      ∙ ap (λ (n : ℕ). length (front f) + n) (length-append d (drop (f.pos + length d) f.bytes)) in
    (
      omega (arith, len, length-front f, length-drop (f.pos + length d) f.bytes),
      omega (arith, len, length-front f),
    )

-- A read at the offset of a write finds the bytes written.
pub take-write_bytes :
    (d : List ℕ) (f : File) → take (length d) (drop f.pos (write_bytes d f).bytes) ≡ d
take-write_bytes d f =
    rw
      (
        bytes-write_bytes d f,
        drop-append f.pos (front f) (d ++ drop (f.pos + length d) f.bytes) (length-front f),
      )
      (take-append (length d) d (drop (f.pos + length d) f.bytes) refl)

take-drop : (p n k : ℕ) (xs : List ℕ) → p + n ≡ k → take n (drop p xs) ≡ drop p (take k xs)
take-drop zero n k xs e = let e' : n ≡ k = omega arith in rw e'
take-drop (suc p) n zero xs e = absurd (omega arith)
take-drop (suc p) zero (suc k) [] e = refl
take-drop (suc p) (suc n) (suc k) [] e = refl
take-drop (suc p) n (suc k) (x ∷ xs) e = take-drop p n k xs (omega arith)

take_front :
    (k n : ℕ) (xs ys : List ℕ) → k ≤ n → k ≤ length xs → take k (take n xs ++ ys) ≡ take k xs
take_front zero n xs ys h fits = refl
take_front (suc k) zero xs ys h fits = absurd (omega arith)
take_front (suc k) (suc n) [] ys h fits = absurd (omega arith)
take_front (suc k) (suc n) (x ∷ xs) ys h fits =
    rw (take_front k n xs ys (omega arith) (omega arith))

-- A read before the offset, of bytes that the file has, finds what was there.
pub take-write_bytes_before :
    (d : List ℕ) (f : File) (p n : ℕ)
    → p + n ≤ f.pos
    → p + n ≤ length f.bytes
    → take n (drop p (write_bytes d f).bytes) ≡ take n (drop p f.bytes)
take-write_bytes_before d f p n h fits =
    take-drop p n (p + n) (write_bytes d f).bytes refl
    ∙ ap (drop p) (take_front (p + n) f.pos f.bytes _ h fits)
    ∙ sym (take-drop p n (p + n) f.bytes refl)

-- A read behind what was written finds what was there.
pub drop-write_bytes_behind :
    (d : List ℕ) (f : File) (p : ℕ)
    → f.pos + length d ≤ p
    → drop p (write_bytes d f).bytes ≡ drop p f.bytes
drop-write_bytes_behind d f p h =
    rw
      (
        bytes-write_bytes d f,
        drop-append_more f.pos (p - f.pos) p (front f) (d ++ drop (f.pos + length d) f.bytes)
            (length-front f) (omega arith),
        drop-append_more (length d) (p - f.pos - length d) (p - f.pos) d
            (drop (f.pos + length d) f.bytes) refl (omega arith),
      )
      (drop-drop (p - f.pos - length d) (f.pos + length d) p f.bytes (omega arith))

-- Two writes, one after the other, are one.
pub write_bytes-write_bytes :
    (a b : List ℕ) (f : File) → write_bytes b (write_bytes a f) ≡ write_bytes (a ++ b) f
write_bytes-write_bytes a b f =
    rw
      (
        taken,
        no_gap,
        dropped,
        length-append a b,
        append_assoc a b (drop (f.pos + (length a + length b)) f.bytes),
      )
      (let z : List ℕ = drop (f.pos + (length a + length b)) f.bytes in
        rw
          (
            append_assoc (front f) a (b ++ z),
            append_assoc (take f.pos f.bytes) (replicate (f.pos - length f.bytes) 0)
                (a ++ (b ++ z)),
          )
          (ap
            (λ (n : ℕ). record {
              bytes =
                  take f.pos f.bytes ++ (replicate (f.pos - length f.bytes) 0 ++ (a ++ (b ++ z)));
              pos = n;
            })
            (omega arith)))
  where
    taken : take (f.pos + length a) (write_bytes a f).bytes ≡ front f ++ a
    taken =
        rw
          (
            bytes-write_bytes a f,
            take-append_more f.pos (length a) (f.pos + length a) (front f)
                (a ++ drop (f.pos + length a) f.bytes) (length-front f) refl,
            take-append (length a) a (drop (f.pos + length a) f.bytes) refl,
          )
          refl

    longer : f.pos + length a ≤ length (write_bytes a f).bytes
    longer = rw (bytes-write_bytes a f) (
        omega (
          arith,
          length-append (front f) (a ++ drop (f.pos + length a) f.bytes),
          length-append a (drop (f.pos + length a) f.bytes),
          length-front f,
        ))

    no_gap : f.pos + length a - length (write_bytes a f).bytes ≡ 0
    no_gap = omega (arith, longer)

    dropped :
        drop (f.pos + length a + length b) (write_bytes a f).bytes
        ≡ drop (f.pos + (length a + length b)) f.bytes
    dropped =
        drop-write_bytes_behind a f (f.pos + length a + length b) (omega arith)
        ∙ ap (λ (n : ℕ). drop n f.bytes) (omega arith)
