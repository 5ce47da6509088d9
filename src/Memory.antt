-- ===== src/Memory.antt =====
-- A block of memory as its bytes, and the C library's functions on it. A pointer is an offset; an access
-- outside the block gives `none`.
pub mod Laws
use fgdb.Prelude.{
  ℕ, ◌+◌, Option, none, some, List, ◌++◌, leb, if◌then◌else◌, length, take, drop, replicate,
}

-- The `n` bytes at `p`.
unfoldable pub peek : List ℕ → ℕ → ℕ → Option (List ℕ)
peek mem p n = if leb (p + n) (length mem) then some (take n (drop p mem)) else none

-- `memcpy(p, bytes, ...)`
unfoldable pub poke : List ℕ → ℕ → List ℕ → Option (List ℕ)
poke mem p bytes =
    if leb (p + length bytes) (length mem)
    then some (take p mem ++ (bytes ++ drop (p + length bytes) mem))
    else none

abbrev pub poke_read : List ℕ → ℕ → Option (List ℕ) → Option (List ℕ)
poke_read mem p none = none
poke_read mem p (some bytes) = poke mem p bytes

-- `memmove(p, q, n)`
unfoldable pub memmove : List ℕ → ℕ → ℕ → ℕ → Option (List ℕ)
memmove mem p q n = poke_read mem p (peek mem q n)

-- `memset(p, 0, n)`
unfoldable pub clear : List ℕ → ℕ → ℕ → Option (List ℕ)
clear mem p n = poke mem p (replicate n 0)
