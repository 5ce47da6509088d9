-- ===== src/Str.antt =====
-- Counted strings: `str_t` of src/include/common.h and the helpers of src/util.c.
pub mod Copy
use fgdb.Prelude.{
  ℕ, ◌^◌, ◌≤◌, ◌<◌, Option, none, some, List, [], ◌++◌, ltb, if◌then◌else◌, length, take, drop,
}

-- `ptr` is the block that the pointer leads to, `none` for NULL.
pub record Str : Type 0 where
  pub size : ℕ
  pub ptr : Option (List ℕ)

abbrev pub block : Option (List ℕ) → List ℕ
block none = []
block (some bytes) = bytes

-- What `memcpy(dst, s.ptr, s.size)` copies.
abbrev pub contents : Str → List ℕ
contents s = take s.size (block s.ptr)

-- `size` fits its `uint16_t` and the block holds as many bytes.
pub record IsStr (s : Str) : Type 0 where
  pub fits : s.size < 2 ^ 16
  pub holds : s.size ≤ length (block s.ptr)

-- `memory` is what `malloc(bytes)` returns; `none` is the failed assertion.
unfoldable pub new_string : List ℕ → ℕ → Option Str
new_string memory bytes =
    if ltb bytes (2 ^ 16) then some (record { size = bytes; ptr = some memory }) else none

-- `memcpy(s->ptr, src, s->size)`
abbrev pub fill : Str → List ℕ → Str
fill s src = record s { ptr = some (take s.size src ++ drop s.size (block s.ptr)) }

unfoldable pub char2string : List ℕ → List ℕ → ℕ → Option Str
unfolding new_string
char2string memory src bytes = elim (new_string memory bytes) [
  | none ↦ none
  | some s ↦ some (fill s src)
]

-- `src` is `none` for NULL, where the assertion fails.
unfoldable pub string_copy : List ℕ → Option Str → Option Str
unfolding new_string
string_copy memory none = none
string_copy memory (some src) = elim (new_string memory src.size) [
  | none ↦ none
  | some s ↦ some (fill s (block src.ptr))
]
