-- ===== src/Wal/Write.antt =====
-- The loop over `write` in `write_log`: what it leaves in the file.
use fgdb.Prelude.{
  ℕ, ◌+◌, ◌-◌, ◌%◌, ◌^◌, ◌≤◌, ◌<◌, ◌≡◌, ap, List, [], ◌∷◌, ◌++◌, arith, min, Bool-cases, inl, inr,
  ltb, ltb→lt, lt→ltb, ltb_of_le, length, take, drop, length-append, append_assoc, append-nil,
  drop-drop, take_all, drop_all, take-append-drop, ◌∙◌,
}
use fgdb.OsFile.{File, write_bytes}
use fgdb.Wal.{BinaryRecord, WriteResult, wrote, again, failed, finished, write_record}

-- The calls of `write` succeed until `left` bytes are out, in whatever portions.
abbrev pub Completes : List WriteResult → ℕ → Type 0
Completes [] left = left ≡ 0
Completes (wrote n ∷ results) left = Completes results (left - n)
Completes (again ∷ results) left = left ≡ 0
Completes (failed ∷ results) left = left ≡ 0

-- The offset stands at the end of the file.
abbrev pub AtEnd : File → Type 0
AtEnd f = f.pos ≡ length f.bytes

-- `f` with `d` appended.
abbrev pub extended : File → List ℕ → File
extended f d = record { bytes = f.bytes ++ d; pos = f.pos + length d }

pub write_bytes-AtEnd : (d : List ℕ) (f : File) → AtEnd f → write_bytes d f ≡ extended f d
write_bytes-AtEnd d f e =
    rw (take_all f.pos f.bytes (omega arith), drop_all (f.pos + length d) f.bytes (omega arith))
      (let z : f.pos - length f.bytes ≡ 0 = omega arith in rw (z, append-nil d))

AtEnd-extended : (f : File) (d : List ℕ) → AtEnd f → AtEnd (extended f d)
AtEnd-extended f d e = omega (arith, length-append f.bytes d)

extended-extended : (f : File) (c d : List ℕ) → extended (extended f c) d ≡ extended f (c ++ d)
extended-extended f c d = rw (append_assoc f.bytes c d) (
    ap (λ (n : ℕ). record { bytes = f.bytes ++ (c ++ d); pos = n })
      (omega (arith, length-append c d)))

write_record_done :
    (results : List WriteResult) (br : BinaryRecord) (written : ℕ) (f : File)
    → br.size ≤ written
    → write_record results br written f ≡ finished f
unfolding write_record
write_record_done [] br written f h = rw (ltb_of_le written br.size h)
write_record_done (wrote n ∷ results) br written f h = rw (ltb_of_le written br.size h)
write_record_done (again ∷ results) br written f h = rw (ltb_of_le written br.size h)
write_record_done (failed ∷ results) br written f h = rw (ltb_of_le written br.size h)

-- The portion that one successful call writes.
abbrev portion : BinaryRecord → ℕ → ℕ → ℕ
portion br written n = min n (br.size - written)

extended-portion :
    (br : BinaryRecord) (written m : ℕ) (f : File)
    → extended (extended f (take m (drop written br.ptr))) (drop (written + m) br.ptr)
      ≡ extended f (drop written br.ptr)
extended-portion br written m f = rw (
  extended-extended f (take m (drop written br.ptr)) (drop (written + m) br.ptr),
  ← drop-drop m written (written + m) br.ptr (omega arith),
  take-append-drop m (drop written br.ptr),
)

-- With all bytes written nothing is appended.
extended_done :
    (br : BinaryRecord) (written : ℕ) (f : File)
    → length br.ptr ≡ br.size
    → br.size ≤ written
    → finished f ≡ finished (extended f (drop written br.ptr))
extended_done br written f len h =
    rw (drop_all written br.ptr (omega arith), append-nil f.bytes)
      (ap (λ (n : ℕ). finished (record { bytes = f.bytes; pos = n })) (omega arith))

-- The loop's body after a successful call.
write_record-wrote :
    (n : ℕ) (results : List WriteResult) (br : BinaryRecord) (written : ℕ) (f : File)
    → br.size < 2 ^ 64
    → AtEnd f
    → written < br.size
    → write_record (wrote n ∷ results) br written f
      ≡ write_record results br
          (written + portion br written n)
          (extended f (take (portion br written n) (drop written br.ptr)))
unfolding write_record
write_record-wrote n results br written f fits end h =
    let e : (written + portion br written n) % 2 ^ 64 ≡ written + portion br written n =
      omega arith in
    rw (lt→ltb written br.size h, e, write_bytes-AtEnd _ f end)

-- From any number of bytes written, the loop appends the others and ends.
pub write_record-from :
    (results : List WriteResult) (br : BinaryRecord) (written : ℕ) (f : File)
    → br.size < 2 ^ 64
    → length br.ptr ≡ br.size
    → AtEnd f
    → written ≤ br.size
    → Completes results (br.size - written)
    → write_record results br written f ≡ finished (extended f (drop written br.ptr))
write_record-from [] br written f fits len end le c =
    write_record_done [] br written f (omega arith) ∙ extended_done br written f len (omega arith)
write_record-from (again ∷ results) br written f fits len end le c =
    write_record_done (again ∷ results) br written f (omega arith)
    ∙ extended_done br written f len (omega arith)
write_record-from (failed ∷ results) br written f fits len end le c =
    write_record_done (failed ∷ results) br written f (omega arith)
    ∙ extended_done br written f len (omega arith)
write_record-from (wrote n ∷ results) br written f fits len end le c =
    elim (Bool-cases (ltb written br.size)) [
      | inl more ↦
          let m = portion br written n in
          write_record-wrote n results br written f fits end (ltb→lt _ _ more)
          ∙ write_record-from results br (written + m) (extended f (take m (drop written br.ptr)))
              fits len (AtEnd-extended f _ end) (omega arith)
              (let e : br.size - written - n ≡ br.size - (written + m) = omega arith in rw e at c)
          ∙ ap finished (extended-portion br written m f)
      | inr done ↦
          let h : br.size ≤ written = ground arith in
          write_record_done (wrote n ∷ results) br written f h ∙ extended_done br written f len h
    ]

-- With -1 added to `written` the loop is over.
pub write_record-again :
    (results : List WriteResult) (br : BinaryRecord) (f : File)
    → br.size < 2 ^ 64
    → 0 < br.size
    → write_record (again ∷ results) br 0 f ≡ finished f
unfolding write_record
write_record-again results br f fits h =
    rw (lt→ltb 0 br.size h) (write_record_done results br _ f (omega arith))
