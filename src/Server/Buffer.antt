-- ===== src/Server/Buffer.antt =====
-- The byte buffer of a request: src/server/buffer.h and src/server/buffer.c. A pointer into the
-- block is its offset from `&buf->ptr[0]`; `none` is the result -1, where nothing has changed.
pub mod Deque
pub mod Unshift
use fgdb.Prelude.{
  ℕ, ◌+◌, ◌-◌, ◌%◌, ◌^◌, Option, none, some, List, ◌++◌, ltb, if◌then◌else◌, length, take, drop,
}

pub record Buffer : Type 0 where
  pub total : ℕ
  pub used : ℕ
  pub start : ℕ
  pub end : ℕ
  pub block : List ℕ

-- `memcpy` of `src` to offset `i` of a block
abbrev pub copy_to : List ℕ → ℕ → List ℕ → List ℕ
copy_to block i src = take i block ++ (src ++ drop (i + length src) block)

-- `memory` is the block that `malloc` returns, `none` if it fails.
unfoldable pub init_buffer : Option (List ℕ) → ℕ → Option Buffer
init_buffer none buflen = none
init_buffer (some memory) buflen =
    some (record { total = buflen; used = 0; start = 0; end = 0; block = memory })

unfoldable pub buffer_push : Buffer → List ℕ → ℕ → Option Buffer
buffer_push b src bytes =
    if ltb b.total (b.end + bytes)
    then none
    else some (record b {
      block = copy_to b.block b.end (take bytes src);
      end = b.end + bytes;
      used = (b.used + bytes) % 2 ^ 64;
    })

-- What is copied to `dest`, and the buffer behind.
unfoldable pub buffer_pop : Buffer → ℕ → Option (List ℕ × Buffer)
buffer_pop b bytes =
    if ltb b.end (b.start + bytes)
    then none
    else some (
      take bytes (drop (b.end - bytes) b.block),
      record b { end = b.end - bytes; used = (b.used + (2 ^ 64 - bytes)) % 2 ^ 64 },
    )

unfoldable pub buffer_shift : Buffer → ℕ → Option (List ℕ × Buffer)
buffer_shift b bytes =
    if ltb b.end (b.start + bytes)
    then none
    else some (
      take bytes (drop b.start b.block),
      record b { start = b.start + bytes; used = (b.used + (2 ^ 64 - bytes)) % 2 ^ 64 },
    )

-- The copy goes to the front of the block.
unfoldable pub buffer_unshift : Buffer → List ℕ → ℕ → Option Buffer
buffer_unshift b src bytes =
    if ltb b.start bytes
    then none
    else some (record b {
      block = copy_to b.block 0 (take bytes src);
      start = b.start - bytes;
      used = (b.used + bytes) % 2 ^ 64;
    })

unfoldable pub buffer_free : Buffer → Buffer
buffer_free b = record b { used = 0; start = 0; end = 0 }

-- The macro `buffer_left`.
unfoldable pub buffer_left : Buffer → ℕ
buffer_left b = (b.total + (2 ^ 64 - b.used)) % 2 ^ 64
