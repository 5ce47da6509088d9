-- ===== src/Server/Buffer/Unshift.antt =====
-- What `buffer_unshift` puts in front of the buffer.
use fgdb.Prelude.{
  ℕ, ◌+◌, ◌-◌, ◌%◌, ◌^◌, ◌≤◌, ◌≡◌, sym, some, List, ◌++◌, arith, ltb_of_le, length, take, drop,
  length-take, take-append, take-append_more, drop-append_more, take-add, drop-drop,
}
use fgdb.Server.Buffer.{Buffer, copy_to, buffer_unshift}
use fgdb.Server.Buffer.Deque.{contents, IsBuffer}

module _ {b : Buffer} (ok : IsBuffer b) (src : List ℕ) (bytes : ℕ) (h : bytes ≤ length src) where
  unshifted : Buffer
  unshifted = record b {
    block = copy_to b.block 0 (take bytes src);
    start = b.start - bytes;
    used = (b.used + bytes) % 2 ^ 64;
  }

  length-src : length (take bytes src) ≡ bytes
  length-src = omega (arith, length-take bytes src)

  -- On a well-formed buffer whose room in front is exactly the number of bytes, which is no more
  -- than the source has, buffer_unshift puts them before the contents.
  pub buffer_unshift_exact :
      b.start ≡ bytes
      → (b' : Buffer) × (buffer_unshift b src bytes ≡ some b')
        × (contents b' ≡ take bytes src ++ contents b)
  unfolding buffer_unshift unshifted
  buffer_unshift_exact e = (unshifted, rw (ltb_of_le b.start bytes (omega arith)), shown)
    where
      shown : contents unshifted ≡ take bytes src ++ contents b
      shown =
          let z : b.start - bytes ≡ 0 = omega arith in
          let d : 0 + length (take bytes src) ≡ b.start = omega (arith, length-src) in
          rw (z, d)
            (take-append_more bytes (b.end - b.start) (b.end - 0) (take bytes src)
              (drop b.start b.block) length-src (omega (arith, ok.ordered)))

  -- On a well-formed buffer with room in front for twice the bytes, and for no more bytes than the
  -- source has, buffer_unshift succeeds, the contents are prefixed with what the block held before
  -- them, and the bytes stand at the start of the block instead.
  pub buffer_unshift_stale :
      bytes + bytes ≤ b.start
      → (b' : Buffer) × (buffer_unshift b src bytes ≡ some b')
        × (contents b' ≡ take bytes (drop (b.start - bytes) b.block) ++ contents b)
        × (take bytes b'.block ≡ take bytes src)
  unfolding buffer_unshift unshifted
  buffer_unshift_stale room = (
    unshifted,
    rw (ltb_of_le b.start bytes (omega arith)),
    seen,
    take-append bytes (take bytes src) (drop (0 + length (take bytes src)) b.block) length-src,
  )
    where
      seen : contents unshifted ≡ take bytes (drop (b.start - bytes) b.block) ++ contents b
      seen =
          let d : 0 + length (take bytes src) ≡ bytes = omega (arith, length-src) in
          rw d (
            rw
              (
                drop-append_more bytes (b.start - bytes - bytes) (b.start - bytes) (take bytes src)
                    (drop bytes b.block) length-src (omega arith),
                drop-drop (b.start - bytes - bytes) bytes (b.start - bytes) b.block (omega arith),
                ← drop-drop bytes (b.start - bytes) b.start b.block (omega arith),
              )
              (sym (
                take-add bytes (b.end - b.start) (b.end - (b.start - bytes))
                  (drop (b.start - bytes) b.block) (omega (arith, ok.ordered)))))
