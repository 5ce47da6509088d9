-- ===== src/Server/Buffer/Deque.antt =====
-- The buffer as the sequence of bytes between its two pointers.
use fgdb.Prelude.{
  ℕ, zero, suc, ◌∷◌, ◌+◌, ◌-◌, ◌%◌, ◌^◌, ◌≤◌, ◌<◌, ◌≡◌, refl, sym, none, some, List, [], ◌++◌,
  arith, ltb_of_le, lt→ltb, length, take, drop, length-append, length-take, length-drop,
  take-append, append_assoc, drop-drop, take-add,
}
use fgdb.Server.Buffer.{
  Buffer, copy_to, init_buffer, buffer_push, buffer_pop, buffer_shift, buffer_left,
}

abbrev pub contents : Buffer → List ℕ
contents b = take (b.end - b.start) (drop b.start b.block)

pub record IsBuffer (b : Buffer) : Type 0 where
  pub ordered : b.start ≤ b.end
  pub bounded : b.end ≤ b.total
  pub allocated : b.total ≤ length b.block
  pub counted : b.used + b.start ≡ b.end
  pub small : b.total < 2 ^ 64

pub length-contents : {b : Buffer} → IsBuffer b → length (contents b) ≡ b.used
length-contents {b} ok =
    omega (arith, length-take (b.end - b.start) (drop b.start b.block), length-drop b.start b.block)

-- Within the buffer the room that `buffer_left` reports is what the bytes do not use.
pub buffer_left-add : {b : Buffer} → IsBuffer b → buffer_left b + length (contents b) ≡ b.total
unfolding buffer_left
buffer_left-add {b} ok = omega (arith, length-contents ok)

pub init_buffer-IsBuffer :
    (memory : List ℕ) (buflen : ℕ)
    → buflen ≤ length memory
    → buflen < 2 ^ 64
    → (b : Buffer) × (init_buffer (some memory) buflen ≡ some b) × IsBuffer b × (contents b ≡ [])
unfolding init_buffer
init_buffer-IsBuffer memory buflen h small = (
  record { total = buflen; used = 0; start = 0; end = 0; block = memory },
  refl,
  omega arith,
  refl,
)

-- A copy right behind a window makes the window longer.
take-drop-copy_to :
    (block src : List ℕ) (start end m n k : ℕ)
    → start ≤ end
    → end + length src ≤ length block
    → m ≡ end + length src
    → n ≡ m - start
    → k ≡ end - start
    → take n (drop start (take end block ++ (src ++ drop m block)))
      ≡ take k (drop start block) ++ src
take-drop-copy_to block src zero end m n k h l em en ek =
    let e : k ≡ end = omega arith in
    rw (e, ← append_assoc (take end block) src (drop m block))
      (take-append n (take end block ++ src) (drop m block)
        (omega (arith, length-append {0} (take end block) src, length-take end block)))
take-drop-copy_to [] src (suc start) end m n k h l em en ek = absurd (omega arith)
take-drop-copy_to (x ∷ block) src (suc start) zero m n k h l em en ek = absurd (omega arith)
take-drop-copy_to (x ∷ block) src (suc start) (suc end) zero n k h l em en ek = absurd (omega arith)
take-drop-copy_to (x ∷ block) src (suc start) (suc end) (suc m) n k h l em en ek =
    take-drop-copy_to block src start end m n k (omega arith) (omega arith) (omega arith)
      (omega arith) (omega arith)

length-copy_to :
    (block : List ℕ) (i : ℕ) (src : List ℕ)
    → i + length src ≤ length block
    → length (copy_to block i src) ≡ length block
length-copy_to block i src h = omega (
  arith,
  length-append {0} (take i block) (src ++ drop (i + length src) block),
  length-append {0} src (drop (i + length src) block),
  length-take i block,
  length-drop (i + length src) block,
)

module _ {b : Buffer} (ok : IsBuffer b) (bytes : ℕ) where
  -- The buffer after a successful push.
  pushed : List ℕ → Buffer
  pushed src = record b {
    block = copy_to b.block b.end (take bytes src);
    end = b.end + bytes;
    used = (b.used + bytes) % 2 ^ 64;
  }

  -- On a well-formed buffer, a push that fits, of no more bytes than the source has, appends the
  -- first bytes of the source to the contents, keeps the invariant and leaves the capacity.
  pub buffer_push-append :
      (src : List ℕ)
      → bytes ≤ length src
      → b.end + bytes ≤ b.total
      → (b' : Buffer) × (buffer_push b src bytes ≡ some b')
        × IsBuffer b'
        × (contents b' ≡ contents b ++ take bytes src)
        × (b'.total ≡ b.total)
  unfolding buffer_push pushed
  buffer_push-append src h room = (
    pushed src,
    rw (ltb_of_le b.total (b.end + bytes) room),
    record {
      ordered = omega (arith, ok.ordered);
      bounded = room;
      allocated = omega (
        arith,
        ok.allocated,
        ok.bounded,
        length-take bytes src,
        length-copy_to b.block b.end (take bytes src),
      );
      counted = omega (arith, ok.ordered, ok.counted, ok.bounded, ok.small);
      small = ok.small;
    },
    take-drop-copy_to b.block (take bytes src) b.start b.end (b.end + length (take bytes src))
        (b.end + bytes - b.start) (b.end - b.start) ok.ordered
        (omega (arith, ok.allocated, length-take bytes src)) refl
        (omega (arith, length-take bytes src)) refl,
    refl,
  )

  -- A push that does not fit is refused.
  pub buffer_push_full : (src : List ℕ) → b.total < b.end + bytes → buffer_push b src bytes ≡ none
  unfolding buffer_push
  buffer_push_full src h = rw (lt→ltb _ _ h)

  -- On a well-formed buffer, buffer_shift of no more bytes than are used takes so many off the
  -- front of the contents and keeps the invariant.
  pub buffer_shift-append :
      bytes ≤ b.used
      → (out : List ℕ) × (b' : Buffer) × (buffer_shift b bytes ≡ some (out, b'))
        × IsBuffer b'
        × (length out ≡ bytes)
        × (contents b ≡ out ++ contents b')
  unfolding buffer_shift
  buffer_shift-append h = (
    take bytes (drop b.start b.block),
    record b { start = b.start + bytes; used = (b.used + (2 ^ 64 - bytes)) % 2 ^ 64 },
    rw (ltb_of_le b.end (b.start + bytes) (omega arith)),
    omega arith,
    omega (arith, length-take bytes (drop b.start b.block), length-drop b.start b.block),
    rw (← drop-drop bytes b.start (b.start + bytes) b.block (omega arith)) (
        sym (
          take-add bytes (b.end - (b.start + bytes)) (b.end - b.start) (drop b.start b.block)
            (omega (arith, ok.counted)))),
  )

  -- On a well-formed buffer, buffer_pop of no more bytes than are used takes so many off the end
  -- of the contents and keeps the invariant.
  pub buffer_pop-append :
      bytes ≤ b.used
      → (out : List ℕ) × (b' : Buffer) × (buffer_pop b bytes ≡ some (out, b'))
        × IsBuffer b'
        × (length out ≡ bytes)
        × (contents b ≡ contents b' ++ out)
  unfolding buffer_pop
  buffer_pop-append h = (
    take bytes (drop (b.end - bytes) b.block),
    record b { end = b.end - bytes; used = (b.used + (2 ^ 64 - bytes)) % 2 ^ 64 },
    rw (ltb_of_le b.end (b.start + bytes) (omega arith)),
    omega arith,
    omega (
      arith,
      length-take bytes (drop (b.end - bytes) b.block),
      length-drop (b.end - bytes) b.block,
    ),
    rw
        (← drop-drop (b.end - bytes - b.start) b.start (b.end - bytes) b.block
          (omega (arith, ok.counted)))
        (sym (
          take-add (b.end - bytes - b.start) bytes (b.end - b.start) (drop b.start b.block)
            (omega (arith, ok.counted)))),
  )
